-- ===== src/TableSession/Reach.antt =====
-- Sequences of the transactions of server/src/services/tableSession.ts.
use boardbite_pos.Prelude.{
  ℕ, ◌≡◌, ◌≢◌, refl, sym, ap, ◌∙◌, some_inj, inl, inr, Bool-cases, Bool, true, false, some, List,
  [], ◌∷◌, arith, ◌==◌, ==_iff, find, update, count, All, All-map, Distinct, Distinct-update, ok,
}
use boardbite_pos.Domain.Status.{opened, SessionStatus, closed, active, paid_pending_service}
use boardbite_pos.Domain.Rows.{Session, CloseReason, Db}
use boardbite_pos.TableSession.{
  Fresh, OpenInput, live_session, revoke_devices, open_tx, start_plan, new_session, set_table,
  is_bookable,
}
use boardbite_pos.TableSession.Close.{
  close_session, revert_pending, move_to_pending, set_table_enabled, is_status,
}
use boardbite_pos.TableSession.Live.{Owned}
use boardbite_pos.TableSession.Invariant.{
  Consistent, Consistent-frame, set_table_enabled-Consistent, close_session-Consistent,
  revert_pending-Consistent, move_to_pending-Consistent, open_tx-Consistent, start_plan_frame,
}

-- One transaction that commits. A session that a transaction names was read before it; no
-- operation changes a session's table, so its row still has that table.
pub data Step : Db → Db → Type 0 where
  open_table :
      {db db' : Db} (hash : ℕ → ℕ → ℕ) (f : Fresh) (input : OpenInput)
      → All (λ s. s.id ≢ f.id) db.sessions
      → open_tx hash f input db ≡ ok db'
      → Step db db'
  close :
      {db db' : Db} (now : ℕ) (reason : CloseReason) (s : Session)
      → find (λ t. t.id == s.id) db.sessions ≡ some s
      → close_session s.id s.table_id now reason db ≡ some db'
      → Step db db'
  revert :
      {db : Db} (s : Session)
      → find (λ t. t.id == s.id) db.sessions ≡ some s
      → Step db (revert_pending s.id s.table_id db)
  move :
      {db : Db} (s : Session)
      → find (λ t. t.id == s.id) db.sessions ≡ some s
      → Step db (move_to_pending s.id s.table_id db)
  set_enabled :
      {db db' : Db} (tid : ℕ) (on : Bool) (seen : Db)
      → set_table_enabled tid on seen db ≡ ok db'
      → Step db db'
  -- A payment, an order or a coupon writes to neither of the two tables.
  elsewhere : {db db' : Db} → db'.tables ≡ db.tables → db'.sessions ≡ db.sessions → Step db db'

pub data Reach : Db → Db → Type 0 where
  start : {db : Db} → Reach db db
  next : {a b c : Db} → Reach a b → Step b c → Reach a c

-- Both ids are primary keys, and each table is true to its sessions.
pub record Sound (db : Db) : Type 0 where
  pub tables : Consistent db
  pub sessions : Distinct (λ s. s.id) db.sessions

Owned-find :
    (s : Session) (ss : List Session)
    → Distinct (λ t. t.id) ss
    → find (λ t. t.id == s.id) ss ≡ some s
    → Owned s.id s.table_id ss
Owned-find s [] d h = tt
Owned-find s (t ∷ ss) d h = elim (Bool-cases (t.id == s.id)) [
  | inl same ↦
      let e : t.id ≡ s.id = (==_iff t.id s.id).0 same in
      let is : some t ≡ some s = rw same at h in
      (
        λ k. ap (λ u. u.table_id) (some_inj is),
        All-map _ _ (λ u ne yes_k. absurd (ne ((==_iff u.id s.id).0 yes_k ∙ sym e))) ss d.0,
      )
  | inr other ↦ (λ yes_k. cc, Owned-find s ss d.1 (rw other at h))
]

start_Distinct :
    (hash : ℕ → ℕ → ℕ) (f : Fresh) (input : OpenInput) (db : Db) {db' : Db}
    → All (λ s. s.id ≢ f.id) db.sessions
    → open_tx hash f input db ≡ ok db'
    → Distinct (λ s. s.id) db.sessions
    → Distinct (λ s. s.id) db'.sessions
unfolding open_tx new_session
start_Distinct hash f input db {db'} fresh e d =
    let claimed = record (set_table input.table_id is_bookable opened db) {
      sessions = new_session hash f input ∷ db.sessions;
    } in
    let started : start_plan f input.plan_id claimed ≡ ok db' = ground arith in
    rw ((start_plan_frame f input.plan_id claimed started).1) (fresh, d)

close_Distinct :
    (sid tid now : ℕ) (reason : CloseReason) (db : Db) {db' : Db}
    → close_session sid tid now reason db ≡ some db'
    → Distinct (λ s. s.id) db.sessions
    → Distinct (λ s. s.id) db'.sessions
unfolding close_session revoke_devices
close_Distinct sid tid now reason db {db'} e d =
    let put = λ (s : Session). record s {
      status = closed;
      closed_at = some now;
      close_reason = some reason;
    } in
    let is : db'.sessions ≡ update (live_session sid) put db.sessions = ground arith in
    rw is (Distinct-update (λ s. s.id) (live_session sid) put (λ s. refl) db.sessions d)

status_Distinct :
    (sid : ℕ) (old new : SessionStatus) (db : Db)
    → Distinct (λ s. s.id) db.sessions
    → Distinct (λ s. s.id) (update (is_status old sid) (λ s. record s { status = new }) db.sessions)
status_Distinct sid old new db d =
    Distinct-update (λ s. s.id) (is_status old sid) (λ s. record s { status = new }) (λ s. refl)
      db.sessions d

revert_Distinct :
    (sid tid : ℕ) (db : Db)
    → Distinct (λ s. s.id) db.sessions
    → Distinct (λ s. s.id) (revert_pending sid tid db).sessions
unfolding revert_pending
revert_Distinct sid tid db d =
    elim (Bool-cases (count (is_status paid_pending_service sid) db.sessions == 1)) [
      | inl row ↦ rw row (status_Distinct sid paid_pending_service active db d)
      | inr no_row ↦ rw no_row d
    ]

move_Distinct :
    (sid tid : ℕ) (db : Db)
    → Distinct (λ s. s.id) db.sessions
    → Distinct (λ s. s.id) (move_to_pending sid tid db).sessions
unfolding move_to_pending
move_Distinct sid tid db d = elim (Bool-cases (count (is_status active sid) db.sessions == 1)) [
  | inl row ↦ rw row (status_Distinct sid active paid_pending_service db d)
  | inr no_row ↦ rw no_row d
]

set_enabled_sessions :
    (tid : ℕ) (on : Bool) (seen db : Db) {db' : Db}
    → set_table_enabled tid on seen db ≡ ok db'
    → db'.sessions ≡ db.sessions
unfolding set_table_enabled
set_enabled_sessions tid true seen db e = ground arith
set_enabled_sessions tid false seen db e = ground arith

Step-Sound : {a b : Db} → Step a b → Sound a → Sound b
Step-Sound {a} (open_table hash f input fresh e) h = record {
  tables = open_tx-Consistent hash f input a e h.tables;
  sessions = start_Distinct hash f input a fresh e h.sessions;
}
Step-Sound {a} (close now reason s found e) h = record {
  tables =
      close_session-Consistent s.id s.table_id now reason a e
        (Owned-find s a.sessions h.sessions found) h.tables;
  sessions = close_Distinct s.id s.table_id now reason a e h.sessions;
}
Step-Sound {a} (revert s found) h = record {
  tables =
      revert_pending-Consistent s.id s.table_id a (Owned-find s a.sessions h.sessions found)
        h.tables;
  sessions = revert_Distinct s.id s.table_id a h.sessions;
}
Step-Sound {a} (move s found) h = record {
  tables =
      move_to_pending-Consistent s.id s.table_id a (Owned-find s a.sessions h.sessions found)
        h.tables;
  sessions = move_Distinct s.id s.table_id a h.sessions;
}
Step-Sound {a} (set_enabled tid on seen e) h = record {
  tables = set_table_enabled-Consistent tid on seen a e h.tables;
  sessions = rw (set_enabled_sessions tid on seen a e) h.sessions;
}
Step-Sound {a} {b} (elsewhere t s) h = record {
  tables = Consistent-frame a b t s h.tables;
  sessions = rw s h.sessions;
}

-- Every sequence of the transactions that open, close, settle, enable or disable tables,
-- interleaved in any order with writes elsewhere, keeps session ids and table ids apart and each
-- table's status true to its live sessions (opened with one active, settling with one that is paid
-- and waits, otherwise none), where they are so at its start.
pub Reach-Sound : {a b : Db} → Reach a b → Sound a → Sound b
Reach-Sound start h = h
Reach-Sound (next r s) h = Step-Sound s (Reach-Sound r h)
