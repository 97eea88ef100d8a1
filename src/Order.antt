-- ===== src/Order.antt =====
-- server/src/services/order.ts: the state machine of an order, and its cancellation. An order's
-- acceptedAt, preparingAt and readyAt and the text of a reason, which no code tests, are left out.
pub mod Cancel
pub mod Machine
pub mod Cutting
pub mod Marks
pub mod Once
pub mod Lines
pub mod Creation
pub mod Again
use boardbite_pos.Prelude.{
  ℕ, Bool, Option, none, some, List, [], ◌∷◌, ◌&&◌, if◌then◌else◌, ◌==◌, find, update, count,
  Result, ok, err,
}
use boardbite_pos.Domain.Status.{
  OrderStatus, new, accepted, preparing, ready, served, rejected, order_status_in,
}
use boardbite_pos.Domain.Rows.{Order, Db}
use boardbite_pos.TableSession.Close.{auto_settle}

-- `OrderStateError`, with the status that its message names.
pub data OrderError : Type 0 where
  order_missing foreign_items : OrderError
  wrong_state cannot_cancel : OrderStatus → OrderError

pub status_of : OrderError → ℕ
status_of order_missing = 404
status_of foreign_items = 400
status_of (wrong_state s) = 409
status_of (cannot_cancel s) = 409

abbrev pub stands_in : ℕ → List OrderStatus → Order → Bool
stands_in oid from o = o.id == oid && order_status_in from o.status

-- `applyTransition`: one conditional update; `stamp` is the part of the data that is not the status.
unfoldable pub apply_transition :
    ℕ → List OrderStatus → OrderStatus → (Order → Order) → Db → Result OrderError Db
apply_transition oid from to stamp db =
    if count (stands_in oid from) db.orders == 1
    then ok (record db {
      orders = update (stands_in oid from) (λ o. record (stamp o) { status = to }) db.orders;
    })
    else elim (find (λ o. o.id == oid) db.orders) [
      | none ↦ err order_missing
      | some o ↦ err (wrong_state o.status)
    ]

abbrev pub no_stamp : Order → Order
no_stamp o = o

unfoldable pub accept_order : ℕ → Db → Result OrderError Db
unfolding apply_transition
accept_order oid db = apply_transition oid (new ∷ []) accepted no_stamp db

unfoldable pub reject_order : ℕ → Db → Result OrderError Db
unfolding apply_transition
reject_order oid db = apply_transition oid (new ∷ []) rejected no_stamp db

unfoldable pub start_preparing : ℕ → Db → Result OrderError Db
unfolding apply_transition
start_preparing oid db = apply_transition oid (accepted ∷ []) preparing no_stamp db

unfoldable pub mark_ready : ℕ → Db → Result OrderError Db
unfolding apply_transition
mark_ready oid db = apply_transition oid (preparing ∷ []) ready no_stamp db

-- `settleIfTableOrder`
unfoldable pub settle_if_table_order : ℕ → ℕ → Db → Db
settle_if_table_order now oid db = elim (find (λ o. o.id == oid) db.orders) [
  | none ↦ db
  | some o ↦ elim o.session_id [ none ↦ db | some sid ↦ (auto_settle now sid db db).1 ]
]

unfoldable pub serve : ℕ → ℕ → Db → Result OrderError Db
unfolding apply_transition
serve now oid db =
    apply_transition oid (ready ∷ []) served (λ o. record o { served_at = some now }) db

unfoldable pub mark_served : ℕ → ℕ → Db → Result OrderError Db
unfolding serve settle_if_table_order
mark_served now oid db = elim (serve now oid db) [
  | err e ↦ err e
  | ok db' ↦ ok (settle_if_table_order now oid db')
]

unfoldable pub revert_served_to_ready : ℕ → Db → Result OrderError Db
unfolding apply_transition
revert_served_to_ready oid db =
    apply_transition oid (served ∷ []) ready (λ o. record o { served_at = none }) db
