-- ===== src/TableSession/AutoSettle.antt =====
-- What maybeAutoSettleTableSession of server/src/services/tableSession.ts does to a live session.
use boardbite_pos.Prelude.{
  ℕ, ◌≡◌, ◌≢◌, refl, ◌↔◌, ◌⊎◌, inl, inr, Bool-cases, true, false, not, ◌&&◌, some, List, ◌∷◌,
  Option-cases, ap, [], arith, ◌==◌, find, update, count, All,
}
use boardbite_pos.Prelude.Int.{ℤ, pos, is_zero_ℤ}
use boardbite_pos.Domain.Status.{
  SessionStatus, is_live, active, paid_pending_service, same_session_status,
}
use boardbite_pos.Domain.Rows.{Session, auto_settled, Db}
use boardbite_pos.Billing.{compute_bill}
use boardbite_pos.TableSession.{unserved_count, live_session}
use boardbite_pos.TableSession.Close.{
  close_session, settle_session, auto_settle, revert_pending, move_to_pending, settled_closed,
  no_change, pending_service, is_status, SettleOutcome,
}
use boardbite_pos.TableSession.Settle.{Ended, close_session_ends}

-- Something was ordered or paid, nothing remains, and nothing is unserved.
abbrev pub Due : ℕ → ℤ → ℤ → ℕ → Type 0
Due total paid remaining unserved =
    (((total ≢ 0) ⊎ (paid ≢ pos 0)) × (remaining ≡ pos 0)) × (unserved ≡ 0)

-- One live session stays one where its status moves between the two that are live.
still_live :
    (from to : SessionStatus) (sid : ℕ) (ss : List Session)
    → is_live from ≡ true
    → is_live to ≡ true
    → count (live_session sid) (update (is_status from sid) (λ s. record s { status = to }) ss)
      ≡ count (live_session sid) ss
still_live from to sid [] h h' = refl
still_live from to sid (s ∷ ss) h h' =
    let rest = still_live from to sid ss h h' in
    elim (Bool-cases (is_status from sid s)) [
      | inl e ↦
          let own : (s.id == sid) ≡ true = ground arith in
          let is : is_live s.status ≡ true = live_as s.status from (ground arith) h in
          rw (e, own, is, h', rest) refl
      | inr e ↦ rw (e, rest) refl
    ]
  where
    live_as :
        (a b : SessionStatus) → same_session_status a b ≡ true → is_live b ≡ true → is_live a ≡ true
    live_as a b e h = ground arith

none_live :
    (sid : ℕ) (ss : List Session)
    → All (λ s. ((s.id == sid) ≡ false) ⊎ (is_live s.status ≡ false)) ss
    → count (live_session sid) ss ≡ 0
none_live sid [] h = refl
none_live sid (s ∷ ss) (inl off, h) = ground (arith, off, none_live sid ss h)
none_live sid (s ∷ ss) (inr over, h) = ground (arith, over, none_live sid ss h)

revert_keeps :
    (sid tid : ℕ) (db : Db)
    → count (live_session sid) (revert_pending sid tid db).sessions
      ≡ count (live_session sid) db.sessions
unfolding revert_pending
revert_keeps sid tid db =
    elim (Bool-cases (count (is_status paid_pending_service sid) db.sessions == 1)) [
      | inl e ↦ rw e (still_live paid_pending_service active sid db.sessions refl refl)
      | inr e ↦ rw e refl
    ]

move_keeps :
    (sid tid : ℕ) (db : Db)
    → count (live_session sid) (move_to_pending sid tid db).sessions
      ≡ count (live_session sid) db.sessions
unfolding move_to_pending
move_keeps sid tid db = elim (Bool-cases (count (is_status active sid) db.sessions == 1)) [
  | inl e ↦ rw e (still_live active paid_pending_service sid db.sessions refl refl)
  | inr e ↦ rw e refl
]

settle_session_closes :
    (now : ℕ) (s : Session) (db : Db)
    → count (live_session s.id) db.sessions ≡ 1
    → ((settle_session now s db db).0 ≡ settled_closed)
      ↔ Due
          (compute_bill s.id db).total
          (compute_bill s.id db).paid
          (compute_bill s.id db).remaining
          (unserved_count s.id db)
unfolding settle_session close_session
settle_session_closes now s db one = ground arith

-- The session is closed, or the settlement reports something else and it stays as live as it was.
abbrev Settlement : ℕ → Session → Db → SettleOutcome × Db → Type 0
Settlement now s db out =
    ((p : Db) × (close_session s.id s.table_id now auto_settled db ≡ some p)
      × (out ≡ (settled_closed, p)))
    ⊎ ((out.0 ≢ settled_closed)
        × (count (live_session s.id) out.1.sessions ≡ count (live_session s.id) db.sessions))

no_change_apart : no_change ≢ settled_closed
no_change_apart h = cc

pending_apart : pending_service ≢ settled_closed
pending_apart h = cc

settle_session_does :
    (now : ℕ) (s : Session) (db : Db) → Settlement now s db (settle_session now s db db)
unfolding settle_session
settle_session_does now s db =
    let bill = compute_bill s.id db in
    let waits = same_session_status s.status paid_pending_service in
    elim (Bool-cases (bill.total == 0 && is_zero_ℤ bill.paid)) [
      | inl empty ↦ rw (settle_session, empty) (inr (no_change_apart, refl))
      | inr something ↦ elim (Bool-cases (not (is_zero_ℤ bill.remaining))) [
        | inl owed ↦ elim (Bool-cases waits) [
          | inl w ↦
              rw (settle_session, something, owed, w)
                (inr (no_change_apart, revert_keeps s.id s.table_id db))
          | inr w ↦ rw (settle_session, something, owed, w) (inr (no_change_apart, refl))
        ]
        | inr paid ↦ elim (Bool-cases (unserved_count s.id db == 0)) [
          | inl served ↦ elim (Option-cases (close_session s.id s.table_id now auto_settled db)) [
            | inl never ↦
                rw (settle_session, something, paid, served, never) (inr (no_change_apart, refl))
            | inr (p, done) ↦
                rw (settle_session, something, paid, served, done) (inl (p, refl, refl))
          ]
          | inr unserved ↦ elim (Bool-cases waits) [
            | inl w ↦ rw (settle_session, something, paid, unserved, w) (inr (pending_apart, refl))
            | inr w ↦
                rw (settle_session, something, paid, unserved, w)
                  (inr (pending_apart, move_keeps s.id s.table_id db))
          ]
        ]
      ]
    ]

-- What was due, as the database says.
abbrev pub IsDue : ℕ → Db → Type 0
IsDue sid db =
    Due (compute_bill sid db).total (compute_bill sid db).paid (compute_bill sid db).remaining
      (unserved_count sid db)

settling_says :
    (now : ℕ) (s : Session) (db : Db) (out : SettleOutcome × Db)
    → count (live_session s.id) db.sessions ≡ 1
    → ((out.0 ≡ settled_closed) ↔ IsDue s.id db)
    → Settlement now s db out
    → ((out.0 ≡ settled_closed) ↔ IsDue s.id db)
      × ((close_session s.id s.table_id now auto_settled db ≡ some out.1) ↔ IsDue s.id db)
      × (Ended s.id out.1 ↔ IsDue s.id db)
settling_says now s db out one flag (inl (p, done, is)) =
    let ends = close_session_ends s.id s.table_id now auto_settled db done in
    let due = flag.0 (ap (λ r. r.0) is) in
    let after : out.1 ≡ p = ap (λ r. r.1) is in
    (flag, ((λ e. due), λ d. rw after done), ((λ e. due), λ d. rw after ends))
settling_says now s db out one flag (inr (other, same)) =
    let never : Ended s.id out.1 → ⊥ = λ ends. apart (none_live s.id out.1.sessions ends.0) in
    (
      flag,
      (
        (λ e. absurd (never (close_session_ends s.id s.table_id now auto_settled db e))),
        λ d. absurd (other (flag.1 d)),
      ),
      ((λ ends. absurd (never ends)), λ d. absurd (other (flag.1 d))),
    )
  where
    apart : count (live_session s.id) out.1.sessions ≡ 0 → ⊥
    apart h = omega (arith, h, same, one)

-- With nothing between its reads and its transaction, on a live session that the database has
-- once, maybeAutoSettleTableSession reports that it closed the session exactly when something was
-- ordered or paid, nothing remains to be paid and no order is unserved; exactly then it leaves the
-- database that the writes ending the session make, and exactly then no session of that id is live
-- in what it leaves and every device of it is revoked.
pub auto_settle_closes :
    (now sid : ℕ) (s : Session) (db : Db)
    → find (λ s. s.id == sid) db.sessions ≡ some s
    → is_live s.status ≡ true
    → count (live_session s.id) db.sessions ≡ 1
    → (((auto_settle now sid db db).0 ≡ settled_closed) ↔ IsDue s.id db)
      × ((close_session s.id s.table_id now auto_settled db ≡ some (auto_settle now sid db db).1)
          ↔ IsDue s.id db)
      × (Ended s.id (auto_settle now sid db db).1 ↔ IsDue s.id db)
unfolding auto_settle
auto_settle_closes now sid s db found going one =
    rw (auto_settle, found, going)
      (settling_says now s db (settle_session now s db db) one (settle_session_closes now s db one)
        (settle_session_does now s db))
