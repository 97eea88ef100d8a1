-- ===== src/TableSession/Invariant.antt =====
-- The agreement of tables and sessions, under each write of server/src/services/tableSession.ts.
use mathlib.Core.Path.{subst}
use boardbite_pos.Prelude.{
  ℕ, ◌≡◌, ◌≢◌, refl, sym, ap, ◌∙◌, ◌⊎◌, inl, inr, Bool-cases, Bool, true, false, ◌&&◌, Option, none,
  some, List, [], ◌∷◌, arith, if◌then◌else◌, ◌==◌, ==_iff, update, count, All, All-update, All-both,
  Distinct, Distinct-update, fits_of-count, ok,
}
use boardbite_pos.Domain.Status.{
  TableStatus, disabled, available, opened, settling, SessionStatus, active, paid_pending_service,
  closed, is_live, same_table_status, same_session_status,
}
use boardbite_pos.Domain.Rows.{Table, Session, CloseReason, Db}
use boardbite_pos.TableSession.{
  Fresh, OpenInput, set_table, live_session, revoke_devices, is_bookable, in_service, new_session,
  start_plan, open_tx,
}
use boardbite_pos.TableSession.Close.{
  close_session, revert_pending, move_to_pending, is_status, is_idle, set_table_enabled,
}
use boardbite_pos.TableSession.Live.{
  live_of, live_of-some, live_status, Owned, live_of-update_other, live_of-update_own,
}

-- The sessions that a table of this status has.
abbrev pub expected : TableStatus → List SessionStatus
expected opened = active ∷ []
expected settling = paid_pending_service ∷ []
expected available = []
expected disabled = []

abbrev pub Matches : List Session → Table → Type 0
Matches ss t = live_of t.id ss ≡ expected t.status

-- Table ids are a primary key, and each table's status matches its sessions.
pub record Consistent (db : Db) : Type 0 where
  pub keyed : Distinct (λ t. t.id) db.tables
  pub matched : All (Matches db.sessions) db.tables

-- Only the tables and the sessions matter.
pub Consistent-frame :
    (a b : Db) → b.tables ≡ a.tables → b.sessions ≡ a.sessions → Consistent a → Consistent b
Consistent-frame a b t s h = record { keyed = rw t h.keyed; matched = rw (t, s) h.matched }

expected-cases :
    (ts : TableStatus) → (expected ts ≡ []) ⊎ ((st : SessionStatus) × (expected ts ≡ st ∷ []))
expected-cases opened = inr (active, refl)
expected-cases settling = inr (paid_pending_service, refl)
expected-cases available = inl refl
expected-cases disabled = inl refl

-- A write to one session, with the matching write to its table.
module _ (sid tid : ℕ) (c : SessionStatus → Bool) (to : SessionStatus) (f : Session → Session)
    (live : (st : SessionStatus) → c st ≡ true → is_live st ≡ true)
    (keeps : (s : Session) → (f s).table_id ≡ s.table_id) (sets : (s : Session) → (f s).status ≡ to)
    (p : TableStatus → Bool) (next : TableStatus)
    (agree : (ts : TableStatus) (st : SessionStatus)
      → expected ts ≡ st ∷ []
      → c st ≡ true
      → p ts ≡ true)
    (lands : expected next ≡ live_status to) where
  abbrev pick : Session → Bool
  pick s = s.id == sid && c s.status

  step_table :
      (ss : List Session) (t : Table)
      → count pick ss ≡ 1
      → Owned sid tid ss
      → Matches ss t
      → Matches
          (update pick f ss)
          (if t.id == tid && p t.status then record t { status = next } else t)
  step_table ss t n own m = elim (Bool-cases (t.id == tid)) [
    | inr other ↦
        let ne : t.id ≢ tid = ground arith in
        rw other (live_of-update_other sid tid c to f live keeps sets t.id ss ne own ∙ m)
    | inl same ↦
        let e : t.id ≡ tid = (==_iff t.id tid).0 same in
        let some_live = live_of-some sid tid c to f live keeps sets ss n own in
        elim (expected-cases t.status) [
          | inl idle ↦ absurd (some_live (ap (λ k. live_of k ss) (sym e) ∙ m ∙ idle))
          | inr (st, one) ↦
              let (hit, after) =
                live_of-update_own sid tid c to f live keeps sets st ss n own
                  (ap (λ k. live_of k ss) (sym e) ∙ m ∙ one) in
              rw (same, agree t.status st one hit) (rw e (after ∙ sym lands))
        ]
  ]

  pub update_both-Consistent :
      (db : Db) (ss : List Session)
      → count pick db.sessions ≡ 1
      → Owned sid tid db.sessions
      → ss ≡ update pick f db.sessions
      → Consistent db
      → Consistent (set_table tid p next (record db { sessions = ss }))
  update_both-Consistent db ss n own e h = rw e (record {
    keyed =
        Distinct-update (λ t. t.id) (λ t. t.id == tid && p t.status)
          (λ t. record t { status = next }) (λ t. refl) db.tables h.keyed;
    matched =
        All-update (Matches db.sessions) (Matches (update pick f db.sessions))
          (λ t. t.id == tid && p t.status) (λ t. record t { status = next })
          (λ t m hit. rw hit at (step_table db.sessions t n own m))
          (λ t m miss. rw miss at (step_table db.sessions t n own m)) db.tables h.matched;
  })

-- A change between statuses that have no session.
set_table-Consistent :
    (tid : ℕ) (p : TableStatus → Bool) (to : TableStatus) (db : Db)
    → ((ts : TableStatus) → p ts ≡ true → expected ts ≡ expected to)
    → Consistent db
    → Consistent (set_table tid p to db)
set_table-Consistent tid p to db same h = record {
  keyed =
      Distinct-update (λ t. t.id) (λ t. t.id == tid && p t.status) (λ t. record t { status = to })
        (λ t. refl) db.tables h.keyed;
  matched =
      All-update (Matches db.sessions) (Matches db.sessions) (λ t. t.id == tid && p t.status)
        (λ t. record t { status = to }) (λ t m hit. m ∙ same t.status (ground arith))
        (λ t m miss. m) db.tables h.matched;
}

is_idle_same : (ts : TableStatus) → is_idle ts ≡ true → expected ts ≡ expected disabled
is_idle_same ts h = ground arith

was_disabled :
    (ts : TableStatus) → same_table_status ts disabled ≡ true → expected ts ≡ expected available
was_disabled ts h = ground arith

-- Enabling or disabling a table keeps every table's status true to its sessions.
pub set_table_enabled-Consistent :
    (tid : ℕ) (on : Bool) (seen db : Db) {db' : Db}
    → set_table_enabled tid on seen db ≡ ok db'
    → Consistent db
    → Consistent db'
unfolding set_table_enabled
set_table_enabled-Consistent tid false seen db {db'} e h =
    let is : db' ≡ set_table tid is_idle disabled db = ground arith in
    rw is (set_table-Consistent tid is_idle disabled db is_idle_same h)
set_table_enabled-Consistent tid true seen db {db'} e h =
    let is : db' ≡ set_table tid (λ st. same_table_status st disabled) available db =
      ground arith in
    rw is
      (set_table-Consistent tid (λ st. same_table_status st disabled) available db was_disabled h)

-- Ending a session frees its table.
pub close_session-Consistent :
    (sid tid now : ℕ) (reason : CloseReason) (db : Db) {db' : Db}
    → close_session sid tid now reason db ≡ some db'
    → Owned sid tid db.sessions
    → Consistent db
    → Consistent db'
unfolding close_session revoke_devices
close_session-Consistent sid tid now reason db {db'} e own h =
    let put = λ (s : Session). record s {
      status = closed;
      closed_at = some now;
      close_reason = some reason;
    } in
    let freed =
      update_both-Consistent sid tid is_live closed put (λ st k. k) (λ s. refl) (λ s. refl)
        in_service available (λ ts st m k. ground arith) refl db
        (update (live_session sid) put db.sessions) (ground arith) own refl h in
    Consistent-frame _ db' (ground arith) (ground arith) freed

-- A session that owes again goes back to being open.
pub revert_pending-Consistent :
    (sid tid : ℕ) (db : Db)
    → Owned sid tid db.sessions
    → Consistent db
    → Consistent (revert_pending sid tid db)
unfolding revert_pending
revert_pending-Consistent sid tid db own h =
    elim (Bool-cases (count (is_status paid_pending_service sid) db.sessions == 1)) [
      | inr no_row ↦ rw no_row h
      | inl row ↦ rw row (
          update_both-Consistent sid tid (λ st. same_session_status st paid_pending_service) active
            (λ s. record s { status = active }) (λ st k. ground arith) (λ s. refl) (λ s. refl)
            (λ st. same_table_status st settling) opened (λ ts st m k. ground arith) refl db
            (update (is_status paid_pending_service sid) (λ s. record s { status = active })
              db.sessions)
            (ground arith) own refl h)
    ]

-- A session that is paid waits at a settling table.
pub move_to_pending-Consistent :
    (sid tid : ℕ) (db : Db)
    → Owned sid tid db.sessions
    → Consistent db
    → Consistent (move_to_pending sid tid db)
unfolding move_to_pending
move_to_pending-Consistent sid tid db own h =
    elim (Bool-cases (count (is_status active sid) db.sessions == 1)) [
      | inr no_row ↦ rw no_row h
      | inl row ↦ rw row (
          update_both-Consistent sid tid (λ st. same_session_status st active) paid_pending_service
            (λ s. record s { status = paid_pending_service }) (λ st k. ground arith) (λ s. refl)
            (λ s. refl) (λ st. same_table_status st opened) settling (λ ts st m k. ground arith)
            refl db
            (update (is_status active sid) (λ s. record s { status = paid_pending_service })
              db.sessions)
            (ground arith) own refl h)
    ]

pub start_plan_frame :
    (f : Fresh) (plan : Option ℕ) (db : Db) {db' : Db}
    → start_plan f plan db ≡ ok db'
    → (db'.tables ≡ db.tables) × (db'.sessions ≡ db.sessions)
unfolding start_plan
start_plan_frame f none db e = (ground arith, ground arith)
start_plan_frame f (some pid) db e = (ground arith, ground arith)

open_matched :
    (tid : ℕ) (s : Session) (ss : List Session) (t : Table)
    → s.table_id ≡ tid
    → s.status ≡ active
    → ((t.id == tid) ≡ true → is_bookable t.status ≡ true)
    → Matches ss t
    → Matches
        (s ∷ ss)
        (if t.id == tid && is_bookable t.status then record t { status = opened } else t)
open_matched tid s ss t at_table is_active only m = ground (arith, only)

-- Opening a table that is free starts its one session.
pub open_tx-Consistent :
    (hash : ℕ → ℕ → ℕ) (f : Fresh) (input : OpenInput) (db : Db) {db' : Db}
    → open_tx hash f input db ≡ ok db'
    → Consistent db
    → Consistent db'
unfolding open_tx
open_tx-Consistent hash f input db {db'} e h =
    let s = new_session hash f input in
    let tid = input.table_id in
    let one : count (λ t. t.id == tid && is_bookable t.status) db.tables ≡ 1 = ground arith in
    let only = fits_of-count (λ t. t.id) tid (λ t. is_bookable t.status) db.tables h.keyed one in
    let opened_all : All (Matches (s ∷ db.sessions)) (set_table tid is_bookable opened db).tables =
      All-update (λ t. ((t.id == tid) ≡ true → is_bookable t.status ≡ true) × Matches db.sessions t)
        (Matches (s ∷ db.sessions)) (λ t. t.id == tid && is_bookable t.status)
        (λ t. record t { status = opened })
        (λ t k hit.
          subst (λ b. Matches (s ∷ db.sessions) (if b then record t { status = opened } else t)) hit
            (open_matched tid s db.sessions t refl refl k.0 k.1))
        (λ t k miss.
          subst (λ b. Matches (s ∷ db.sessions) (if b then record t { status = opened } else t))
            miss (open_matched tid s db.sessions t refl refl k.0 k.1))
        db.tables (All-both _ _ db.tables only h.matched) in
    let keyed =
      Distinct-update (λ t. t.id) (λ t. t.id == tid && is_bookable t.status)
        (λ t. record t { status = opened }) (λ t. refl) db.tables h.keyed in
    let claimed = record (set_table tid is_bookable opened db) { sessions = s ∷ db.sessions } in
    let started : start_plan f input.plan_id claimed ≡ ok db' = ground arith in
    let (tables, sessions) = start_plan_frame f input.plan_id claimed started in
    Consistent-frame claimed db' tables sessions (record { keyed = keyed; matched = opened_all })
