-- ===== src/TableSession/Close.antt =====
-- closeTable, maybeAutoSettleTableSession, setTableEnabled and extendGameTime of
-- server/src/services/tableSession.ts.
use boardbite_pos.Prelude.{
  ℕ, ◌+◌, ◌*◌, Bool, true, false, not, ◌&&◌, ◌||◌, Option, none, some, List, [], ◌∷◌, if◌then◌else◌,
  ltb, ◌==◌, is_some, find, filter, update, count, Result, ok, err, ◌>>=◌, ◌>>◌, throw_if, or_throw,
}
use boardbite_pos.Prelude.Int.{is_zero_ℤ}
use boardbite_pos.Domain.Status.{
  TableStatus, disabled, available, opened, settling, SessionStatus, active, paid_pending_service,
  closed, is_live, same_table_status, same_session_status,
}
use boardbite_pos.Domain.Rows.{
  Session, CloseReason, normal, force_closed, auto_settled, given, GameUsage, Db,
}
use boardbite_pos.Billing.{compute_bill}
use boardbite_pos.TableSession.{
  TableError, table_missing, already_closed, close_blocked, not_running, plan_missing, in_use,
  not_disabled, set_table, live_session, revoke_devices, in_service, close_blockers, build_blockers,
  unserved_count, pending_calls, is_empty,
}

-- The three writes that end a session, and their condition: a session closed already changes
-- nothing. `none` is an update of no row.
unfoldable pub close_session : ℕ → ℕ → ℕ → CloseReason → Db → Option Db
close_session sid tid now reason db =
    if count (live_session sid) db.sessions == 1
    then some (
        revoke_devices sid now (
          set_table tid in_service available (record db {
            sessions =
                update (live_session sid)
                  (λ s. record s {
                    status = closed;
                    closed_at = some now;
                    close_reason = some reason;
                  })
                  db.sessions;
          })))
    else none

pub record CloseInput : Type 0 where
  pub table_id : ℕ
  pub reason : Option ℕ
  pub force : Bool

-- `input.reason ?? (input.force ? "FORCE_CLOSED" : "NORMAL")`
abbrev pub close_reason_of : CloseInput → CloseReason
close_reason_of input = elim input.reason [
  | some r ↦ given r
  | none ↦ if input.force then force_closed else normal
]

unfoldable pub close_tx : ℕ → Session → CloseInput → Db → Result TableError Db
unfolding close_session
close_tx now s input db =
    let unserved = unserved_count s.id db in
    let calls = pending_calls s.id db in
    let bill = compute_bill s.id db in
    let clear = not (ltb 0 unserved || ltb 0 calls || not (is_zero_ℤ bill.remaining)) in
    if input.force || clear
    then or_throw (close_session s.id input.table_id now (close_reason_of input) db) already_closed
    else err (close_blocked (build_blockers bill.remaining unserved calls))

-- `closeTable`; the sessions are kept newest first, so the first that fits is the latest opened.
unfoldable pub close_table : ℕ → CloseInput → Db → Db → Result TableError Db
unfolding close_tx
close_table now input seen db = do
  t ← or_throw (find (λ t. t.id == input.table_id) seen.tables) table_missing
  s ← or_throw (find (λ s. s.table_id == t.id && is_live s.status) seen.sessions) already_closed
  let blockers = close_blockers s.id seen
  throw_if (not input.force && not (is_empty blockers)) (close_blocked blockers)
  close_tx now s input db

-- `AutoSettleOutcome`
pub data SettleOutcome : Type 0 where
  settled_closed pending_service no_change : SettleOutcome

abbrev pub is_status : SessionStatus → ℕ → Session → Bool
is_status st sid s = s.id == sid && same_session_status s.status st

-- A session that waits for its orders owes money again.
unfoldable pub revert_pending : ℕ → ℕ → Db → Db
revert_pending sid tid db =
    if count (is_status paid_pending_service sid) db.sessions == 1
    then set_table tid (λ st. same_table_status st settling) opened
        (record db {
          sessions =
              update (is_status paid_pending_service sid) (λ s. record s { status = active })
                db.sessions;
        })
    else db

-- A session is paid while orders are still to be served.
unfoldable pub move_to_pending : ℕ → ℕ → Db → Db
move_to_pending sid tid db =
    if count (is_status active sid) db.sessions == 1
    then set_table tid (λ st. same_table_status st opened) settling
        (record db {
          sessions =
              update (is_status active sid) (λ s. record s { status = paid_pending_service })
                db.sessions;
        })
    else db

abbrev pub settled_db : Option Db → Db → SettleOutcome × Db
settled_db none db = (no_change, db)
settled_db (some db') db = (settled_closed, db')

-- `maybeAutoSettleTableSession` from the session on.
unfoldable pub settle_session : ℕ → Session → Db → Db → SettleOutcome × Db
unfolding close_session revert_pending move_to_pending
settle_session now s seen db =
    let bill = compute_bill s.id seen in
    if bill.total == 0 && is_zero_ℤ bill.paid
    then (no_change, db)
    else if not (is_zero_ℤ bill.remaining)
    then (
      no_change,
      if same_session_status s.status paid_pending_service
          then revert_pending s.id s.table_id db
          else db,
    )
    else if unserved_count s.id seen == 0
    then settled_db (close_session s.id s.table_id now auto_settled db) db
    else (
      pending_service,
      if same_session_status s.status paid_pending_service
          then db
          else move_to_pending s.id s.table_id db,
    )

unfoldable pub auto_settle : ℕ → ℕ → Db → Db → SettleOutcome × Db
unfolding settle_session
auto_settle now sid seen db = elim (find (λ s. s.id == sid) seen.sessions) [
  | none ↦ (no_change, db)
  | some s ↦ if is_live s.status then settle_session now s seen db else (no_change, db)
]

abbrev pub is_idle : TableStatus → Bool
is_idle available = true
is_idle disabled = true
is_idle _ = false

-- `setTableEnabled`
unfoldable pub set_table_enabled : ℕ → Bool → Db → Db → Result TableError Db
set_table_enabled tid false seen db = do
  t ← or_throw (find (λ t. t.id == tid) seen.tables) table_missing
  throw_if (is_some (find (λ s. s.table_id == t.id && is_live s.status) seen.sessions)) in_use
  throw_if (not (count (λ t. t.id == tid && is_idle t.status) db.tables == 1)) in_use
  ok (set_table tid is_idle disabled db)
set_table_enabled tid true seen db = do
  t ← or_throw (find (λ t. t.id == tid) seen.tables) table_missing
  throw_if
      (not (count (λ t. t.id == tid && same_table_status t.status disabled) db.tables == 1)
        && not (same_table_status t.status available))
      not_disabled
  ok (set_table tid (λ st. same_table_status st disabled) available db)

-- The `reduce` of `extendGameTime` and `currentGameEndsAt`.
unfoldable pub latest_end : Option ℕ → List GameUsage → Option ℕ
latest_end latest [] = latest
latest_end none (u ∷ us) = latest_end (some u.ends_at) us
latest_end (some m) (u ∷ us) = latest_end (some (if ltb m u.ends_at then u.ends_at else m)) us

abbrev pub extension_base : Option ℕ → ℕ → ℕ
extension_base none now = now
extension_base (some m) now = if ltb now m then m else now

-- `extendGameTime`
unfoldable pub extend_game_time : ℕ → ℕ → ℕ → Db → Result TableError Db
unfolding latest_end
extend_game_time now sid pid db = do
  s ← or_throw (find (λ s. s.id == sid) db.sessions) not_running
  throw_if (not (same_session_status s.status active)) not_running
  p ← or_throw (find (λ p. p.id == pid) db.plans) plan_missing
  throw_if (not p.is_active) plan_missing
  ok (record db {
    usages =
        record {
          session_id = sid;
          plan_id = p.id;
          minutes = p.minutes;
          price = p.price;
          ends_at =
              extension_base (latest_end none (filter (λ u. u.session_id == sid) db.usages)) now
              + p.minutes * 60000;
        }
        ∷ db.usages;
  })
