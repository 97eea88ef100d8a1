-- ===== src/Billing.antt =====
-- server/src/services/billing.ts: what a table session or a counter sale owes is computed from
-- its orders and its payments each time it is asked for.
pub mod Effects
pub mod Sale
use boardbite_pos.Prelude.{
  ℕ, ◌+◌, ◌*◌, Bool, true, false, not, Option, none, some, List, [], ◌∷◌, if◌then◌else◌, ◌==◌,
  is_id, is_some, find, filter, any, sum_by,
}
use boardbite_pos.Prelude.Int.{ℤ, pos, ◌+ℤ◌, ◌-ℤ◌}
use boardbite_pos.Domain.Status.{
  OrderStatus, rejected, cancelled, PaymentKind, charge, discount, void, refund, order_status_in,
}
use boardbite_pos.Domain.Rows.{OptionSnapshot, Item, Order, Allocation, Payment, Db}

-- `(item.unitPrice + optionsTotal) * item.quantity`
unfoldable pub item_total : Item → ℕ
item_total i = (i.unit_price + sum_by (λ o. o.extra_price) i.options) * i.quantity

-- The sum over the items of one order that are not cancelled.
unfoldable pub order_total : Order → ℕ
order_total o = sum_by item_total (filter (λ i. not (is_some i.cancelled_at)) o.items)

-- `status: { notIn: ["CANCELLED", "REJECTED"] }`
abbrev pub is_billed : Order → Bool
is_billed o = not (order_status_in (cancelled ∷ rejected ∷ []) o.status)

-- The two `for` loops, over the orders that `owns` selects.
unfoldable pub orders_total : (Order → Bool) → List Order → ℕ
orders_total owns [] = 0
orders_total owns (o ∷ os) =
    let rest = orders_total owns os in
    if owns o then (if is_billed o then order_total o + rest else rest) else rest

pub record Ledger : Type 0 where
  pub charged : ℤ
  pub discounted : ℤ

-- `byId.get(payment.reversedPaymentId)?.kind === "DISCOUNT"`
unfoldable pub reverses_discount : List Payment → Payment → Bool
reverses_discount all p = elim p.reversed_id [
  | none ↦ false
  | some r ↦ elim (find (λ q. q.id == r) all) [
    | none ↦ false
    | some q ↦ elim q.kind [ discount ↦ true | _ ↦ false ]
  ]
]

-- One payment of the loop.
unfoldable pub add_payment : List Payment → PaymentKind → Payment → Ledger → Ledger
add_payment all charge p l = record l { charged = l.charged +ℤ pos p.amount }
add_payment all discount p l = record l { discounted = l.discounted +ℤ pos p.amount }
add_payment all _ p l =
    if reverses_discount all p
    then record l { discounted = l.discounted -ℤ pos p.amount }
    else record l { charged = l.charged -ℤ pos p.amount }

unfoldable pub ledger_from : List Payment → Ledger → List Payment → Ledger
unfolding add_payment
ledger_from all l [] = l
ledger_from all l (p ∷ ps) = ledger_from all (add_payment all p.kind p l) ps

pub record Bill : Type 0 where
  pub total : ℕ
  pub discounted : ℤ
  pub charged : ℤ
  pub paid : ℤ
  pub remaining : ℤ

unfoldable pub bill_of : ℕ → Ledger → Bill
bill_of total l = record {
  total = total;
  discounted = l.discounted;
  charged = l.charged;
  paid = l.charged +ℤ l.discounted;
  remaining = pos total -ℤ (l.charged +ℤ l.discounted);
}

abbrev pub session_payments : ℕ → Db → List Payment
session_payments sid db = filter (λ p. is_id p.session_id sid) db.payments

-- `computeBill`
unfoldable pub compute_bill : ℕ → Db → Bill
compute_bill sid db =
    let ps = session_payments sid db in
    bill_of (orders_total (λ o. is_id o.session_id sid) db.orders)
      (ledger_from ps (record { charged = pos 0; discounted = pos 0 }) ps)

-- `allocation.payment.kind` decides the sign of the quantity.
unfoldable pub add_quantity : PaymentKind → ℕ → ℤ → ℤ
add_quantity charge n q = q +ℤ pos n
add_quantity discount n q = q +ℤ pos n
add_quantity _ n q = q -ℤ pos n

unfoldable pub paid_by_allocations : PaymentKind → ℕ → List Allocation → ℤ → ℤ
paid_by_allocations kind item [] q = q
paid_by_allocations kind item (a ∷ rest) q =
    paid_by_allocations kind item rest
      (if a.order_item_id == item then add_quantity kind a.quantity q else q)

-- `paidByItem.get(item.id) ?? 0`, over the allocations of all payments.
unfoldable pub paid_quantity : ℕ → List Payment → ℤ → ℤ
paid_quantity item [] q = q
paid_quantity item (p ∷ ps) q =
    paid_quantity item ps (paid_by_allocations p.kind item p.allocations q)

-- `computeItemPaymentStatus` at one item: `remainingQuantity`.
unfoldable pub remaining_quantity : Item → Db → ℤ
remaining_quantity i db = pos i.quantity -ℤ paid_quantity i.id db.payments (pos 0)
