-- ===== src/Order/Cancel.antt =====
-- cancelOrder of server/src/services/order.ts, up to the products that it may mark as sold out.
use boardbite_pos.Prelude.{
  ℕ, Bool, not, some, List, [], ◌∷◌, ◌&&◌, if◌then◌else◌, ◌==◌, is_some, map, length, any, all,
  find, update, count, sum_by, Result, ok, ◌>>=◌, ◌>>◌, throw_if, or_throw,
}
use boardbite_pos.Domain.Status.{OrderStatus, new, accepted, preparing, cancelled, order_status_in}
use boardbite_pos.Domain.Rows.{Item, CancelReason, Order, Db}
use boardbite_pos.Order.{OrderError, order_missing, foreign_items, cannot_cancel, stands_in}

-- `CancelOrderInput`; no ids stand for the whole order.
pub record CancelInput : Type 0 where
  pub order_id : ℕ
  pub reason : CancelReason
  pub item_ids : List ℕ

abbrev pub cancellable : List OrderStatus
cancellable = new ∷ accepted ∷ preparing ∷ []

-- `input.orderItemIds?.length ? input.orderItemIds : order.items.map((item) => item.id)`
abbrev pub target_ids : CancelInput → Order → List ℕ
target_ids input o = elim input.item_ids [
  | [] ↦ map (λ i. i.id) o.items
  | ◌∷◌ k ks ↦ input.item_ids
]

-- The two updates of the order to CANCELLED.
unfoldable pub cancel_status : ℕ → CancelInput → Db → Db
cancel_status now input db = record db {
  orders =
      update (stands_in input.order_id cancellable)
        (λ o. record o {
          status = cancelled;
          cancelled_at = some now;
          cancel_reason = some input.reason;
        })
        db.orders;
}

abbrev pub is_target : List ℕ → Item → Bool
is_target targets i = any (λ k. i.id == k) targets && not (is_some i.cancelled_at)

unfoldable pub cancel_in : ℕ → List ℕ → Order → Order
cancel_in now targets o = record o {
  items = update (is_target targets) (λ i. record i { cancelled_at = some now }) o.items;
}

-- The update of the items.
unfoldable pub cancel_items : ℕ → List ℕ → Db → Db
unfolding cancel_in
cancel_items now targets db = record db { orders = map (cancel_in now targets) db.orders }

-- `tx.orderItem.count({ where: { orderId, cancelledAt: null } })`
unfoldable pub live_count : ℕ → Db → ℕ
live_count oid db =
    sum_by (λ o. if o.id == oid then count (λ i. not (is_some i.cancelled_at)) o.items else 0)
      db.orders

-- The writes, once the guards have passed.
unfoldable pub cancel_writes : ℕ → CancelInput → List ℕ → Bool → Db → Db
unfolding cancel_status cancel_items live_count
cancel_writes now input targets whole db =
    let before = if whole then cancel_status now input db else db in
    let without = cancel_items now targets before in
    if not whole && live_count input.order_id without == 0
    then cancel_status now input without
    else without

-- The transaction of `cancelOrder`.
unfoldable pub cancel_order : ℕ → CancelInput → Db → Result OrderError Db
unfolding cancel_writes
cancel_order now input db = do
  o ← or_throw (find (λ o. o.id == input.order_id) db.orders) order_missing
  let targets = target_ids input o
  throw_if (not (all (λ k. any (λ i. i.id == k) o.items) targets)) foreign_items
  let whole = length targets == length o.items
  throw_if (whole && not (order_status_in (new ∷ accepted ∷ preparing ∷ cancelled ∷ []) o.status))
      (cannot_cancel o.status)
  ok (cancel_writes now input targets whole db)
