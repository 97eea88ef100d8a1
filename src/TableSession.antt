-- ===== src/TableSession.antt =====
-- server/src/services/tableSession.ts: opening, closing and settling a table. Where the code reads
-- before its transaction, `seen` is the database at that moment and `db` the one that the
-- transaction finds; with nothing in between, both are the same.
pub mod Close
pub mod Live
pub mod Invariant
pub mod Settle
pub mod AutoSettle
pub mod Reach
use boardbite_pos.Prelude.{
  ℕ, suc, ◌+◌, ◌*◌, Bool, true, false, not, ◌&&◌, ◌||◌, Option, none, some, List, [], ◌∷◌, ◌++◌,
  if◌then◌else◌, ltb, leb, ◌==◌, is_id, is_some, find, update, count, Result, ok, err, ◌>>=◌, ◌>>◌,
  throw_if, or_throw,
}
use boardbite_pos.Prelude.Int.{ℤ, pos, negsuc, is_zero_ℤ, ltb_ℤ}
use boardbite_pos.Domain.Status.{
  TableStatus, disabled, available, opened, settling, SessionStatus, active, paid_pending_service,
  closed, StaffCallStatus, pending, acked, done, active_order_statuses, order_status_in, is_live,
  same_table_status, same_session_status,
}
use boardbite_pos.Domain.Rows.{
  Table, Session, CloseReason, normal, force_closed, auto_settled, given, GamePlan, GameUsage,
  Order, StaffCall, Device, Db,
}
use boardbite_pos.Billing.{Bill, compute_bill}

-- `CloseBlocker`, without its message.
pub data BlockerCode : Type 0 where
  remaining_amount unserved_orders pending_staff_calls : BlockerCode

pub record Blocker : Type 0 where
  pub code : BlockerCode
  pub value : ℤ

-- A constructor for each error that is thrown.
pub data TableError : Type 0 where
  table_missing table_disabled not_free plan_missing session_missing not_running : TableError
  already_closed in_use not_disabled : TableError
  close_blocked : List Blocker → TableError

-- The HTTP status that an error carries.
pub status_of : TableError → ℕ
status_of table_missing = 404
status_of session_missing = 404
status_of plan_missing = 400
status_of _ = 409

-- `updateMany({ where: { id, status: { in } }, data: { status } })` on the tables
abbrev pub set_table : ℕ → (TableStatus → Bool) → TableStatus → Db → Db
set_table tid from to db = record db {
  tables = update (λ t. t.id == tid && from t.status) (λ t. record t { status = to }) db.tables;
}

abbrev pub live_session : ℕ → Session → Bool
live_session sid s = s.id == sid && is_live s.status

-- `revokeDeviceSessionsForTableSession` (server/src/services/customerSession.ts)
unfoldable pub revoke_devices : ℕ → ℕ → Db → Db
revoke_devices sid now db = record db {
  devices =
      update (λ d. d.session_id == sid && not (is_some d.revoked_at))
        (λ d. record d { revoked_at = some now }) db.devices;
}

abbrev pub is_bookable : TableStatus → Bool
is_bookable available = true
is_bookable _ = false

abbrev pub in_service : TableStatus → Bool
in_service opened = true
in_service settling = true
in_service _ = false

pub record OpenInput : Type 0 where
  pub table_id : ℕ
  pub opened_by : ℕ
  pub guest_count : Option ℕ
  pub plan_id : Option ℕ

-- What the runtime supplies: the row's new id, the clock, and the HMAC of the random join code.
pub record Fresh : Type 0 where
  pub id : ℕ
  pub now : ℕ
  pub join_code : ℕ

unfoldable pub new_session : (ℕ → ℕ → ℕ) → Fresh → OpenInput → Session
new_session hash f input = record {
  id = f.id;
  table_id = input.table_id;
  status = active;
  opened_by = input.opened_by;
  guest_count = input.guest_count;
  join_code_hash = some (hash f.id f.join_code);
  join_code_issued_at = f.now;
  closed_at = none;
  close_reason = none;
}

-- The part of the transaction that starts a game plan.
unfoldable pub start_plan : Fresh → Option ℕ → Db → Result TableError Db
start_plan f none db = ok db
start_plan f (some pid) db = elim (find (λ p. p.id == pid) db.plans) [
  | none ↦ err plan_missing
  | some p ↦
      if p.is_active
      then ok (record db {
        usages =
            record {
              session_id = f.id;
              plan_id = p.id;
              minutes = p.minutes;
              price = p.price;
              ends_at = f.now + p.minutes * 60000;
            }
            ∷ db.usages;
      })
      else err plan_missing
]

unfoldable pub open_tx : (ℕ → ℕ → ℕ) → Fresh → OpenInput → Db → Result TableError Db
unfolding new_session start_plan
open_tx hash f input db =
    if count (λ t. t.id == input.table_id && is_bookable t.status) db.tables == 1
    then (let claimed = set_table input.table_id is_bookable opened db in
        start_plan f input.plan_id
          (record claimed { sessions = new_session hash f input ∷ claimed.sessions }))
    else err not_free

-- `openTable`
unfoldable pub open_table : (ℕ → ℕ → ℕ) → Fresh → OpenInput → Db → Db → Result TableError Db
unfolding open_tx
open_table hash f input seen db = do
  t ← or_throw (find (λ t. t.id == input.table_id) seen.tables) table_missing
  throw_if (same_table_status t.status disabled) table_disabled
  open_tx hash f input db

-- `rotateJoinCode`
unfoldable pub rotate_join_code : (ℕ → ℕ → ℕ) → Fresh → ℕ → Db → Db → Result TableError Db
rotate_join_code hash f sid seen db = do
  s ← or_throw (find (λ s. s.id == sid) seen.sessions) session_missing
  throw_if (not (is_live s.status)) not_running
  ok (record db {
    sessions =
        update (λ s. s.id == sid)
          (λ s. record s {
            join_code_hash = some (hash sid f.join_code);
            join_code_issued_at = f.now;
          })
          db.sessions;
  })

-- `buildBlockers`
unfoldable pub build_blockers : ℤ → ℕ → ℕ → List Blocker
build_blockers remaining unserved calls =
    (if is_zero_ℤ remaining then [] else record { code = remaining_amount; value = remaining } ∷ [])
    ++ ((if ltb 0 unserved
          then record { code = unserved_orders; value = pos unserved } ∷ []
          else [])
        ++ (if ltb 0 calls
            then record { code = pending_staff_calls; value = pos calls } ∷ []
            else []))

unfoldable pub unserved_count : ℕ → Db → ℕ
unserved_count sid db =
    count (λ o. is_id o.session_id sid && order_status_in active_order_statuses o.status) db.orders

abbrev pub is_open_call : StaffCallStatus → Bool
is_open_call pending = true
is_open_call acked = true
is_open_call done = false

unfoldable pub pending_calls : ℕ → Db → ℕ
pending_calls sid db = count (λ c. c.session_id == sid && is_open_call c.status) db.calls

-- `evaluateCloseBlockers`
unfoldable pub close_blockers : ℕ → Db → List Blocker
unfolding build_blockers
close_blockers sid db =
    build_blockers (compute_bill sid db).remaining (unserved_count sid db) (pending_calls sid db)

abbrev pub is_empty {ℓ} : {A : Type ℓ} → List A → Bool
is_empty [] = true
is_empty (x ∷ xs) = false
