-- ===== src/CounterSale/Cancel.antt =====
-- markCounterOrderPickedUp, cancelCounterSale and what is shown of a sale
-- (server/src/services/counterSale.ts).
use boardbite_pos.Prelude.{
  ℕ, Bool, true, false, not, ◌&&◌, none, some, List, [], ◌∷◌, ◌++◌, if◌then◌else◌, ◌==◌, is_id,
  is_some, any, find, filter, update, count, Result, ok, ◌>>=◌, ◌>>◌, throw_if, or_throw,
}
use boardbite_pos.Prelude.Int.{pos, ltb_ℤ}
use boardbite_pos.Domain.Status.{
  served, ready, cancelled, PaymentKind, charge, discount, refund, active_order_statuses,
  order_status_in, same_order_status,
}
use boardbite_pos.Domain.Key.{id, text}
use boardbite_pos.Domain.Rows.{kitchen, counter, ServingMode, Order, Payment, Redemption, Db}
use boardbite_pos.Billing.Sale.{SaleLedger, compute_counter_sale_ledger}
use boardbite_pos.CounterSale.{
  SaleStatus, sale_completed, sale_cancelled, CounterSale, Shop, SaleError, sale_not_found,
  reason_required, already_cancelled, order_not_found, order_not_ready,
}
use boardbite_pos.CounterSale.Confirm.{same_mode, add_payment_row}

-- `order.items[0]?.servingMode ?? "COUNTER"`
abbrev pub order_mode : Order → ServingMode
order_mode o = elim o.items [ [] ↦ counter | ◌∷◌ i is ↦ i.serving_mode ]

-- What `shapeSale` derives.
pub record SaleDetail : Type 0 where
  pub sale : CounterSale
  pub ledger : SaleLedger
  pub pickup_pending : Bool
  pub refund_needed : Bool

abbrev pub is_completed : SaleStatus → Bool
is_completed sale_completed = true
is_completed sale_cancelled = false

unfoldable pub shape_sale : CounterSale → Db → SaleDetail
shape_sale s db =
    let ledger = compute_counter_sale_ledger s.id db in
    record {
      sale = s;
      ledger = ledger;
      pickup_pending =
          any (λ o. order_status_in active_order_statuses o.status)
            (filter (λ o. is_id o.sale_id s.id && same_mode (order_mode o) kitchen) db.orders);
      refund_needed = is_completed s.status && ltb_ℤ ledger.remaining_amount (pos 0);
    }

-- `getCounterSaleDetail`
unfoldable pub counter_sale_detail : ℕ → Shop → Result SaleError SaleDetail
unfolding shape_sale
counter_sale_detail sid shop = do
  s ← or_throw (find (λ s. s.id == sid) shop.sales) sale_not_found
  ok (shape_sale s shop.db)

abbrev pub is_ready_order : ℕ → Order → Bool
is_ready_order oid o = o.id == oid && same_order_status o.status ready

-- `markCounterOrderPickedUp`
unfoldable pub mark_picked_up : ℕ → ℕ → Db → Result SaleError Db
mark_picked_up now oid db = do
  o ← or_throw (find (λ o. o.id == oid) db.orders) order_not_found
  throw_if (not (is_some o.sale_id)) order_not_found
  throw_if (not (count (is_ready_order oid) db.orders == 1)) order_not_ready
  ok (record db {
    orders =
        update (is_ready_order oid) (λ o. record o { status = served; served_at = some now })
          db.orders;
  })

abbrev pub is_open_sale : ℕ → CounterSale → Bool
is_open_sale sid s = s.id == sid && is_completed s.status

-- `kind: { in: ["CHARGE", "DISCOUNT"] }`
abbrev pub is_reversible : PaymentKind → Bool
is_reversible charge = true
is_reversible discount = true
is_reversible _ = false

abbrev pub is_reversed : List Payment → Payment → Bool
is_reversed all p = any (λ q. is_id q.reversed_id p.id) all

-- The row that takes a payment of the sale back; `rid` is its id.
unfoldable pub refund_of : ℕ → ℕ → ℕ → Payment → Payment
refund_of sid staff rid p = record {
  id = rid;
  session_id = none;
  sale_id = some sid;
  kind = refund;
  method = p.method;
  amount = p.amount;
  tendered = none;
  change = none;
  reversed_id = some p.id;
  coupon_code = none;
  key = text "counter:" ++ (id sid ∷ (text ":refund:" ++ (id p.id ∷ [])));
  created_by = staff;
  allocations = p.allocations;
}

-- The loop over the payments, whose reversals were read before it. `rids` gives the id of the
-- refund of each payment.
unfoldable pub refund_each :
    ℕ → ℕ → (ℕ → ℕ) → List Payment → List Payment → Db → Result SaleError Db
unfolding refund_of add_payment_row
refund_each sid staff rids before [] db = ok db
refund_each sid staff rids before (p ∷ ps) db =
    if is_reversed before p then refund_each sid staff rids before ps db else (do
      db' ← add_payment_row (refund_of sid staff (rids p.id) p) db
      refund_each sid staff rids before ps db')

-- `status: { not: "CANCELLED" }`
unfoldable pub cancel_sale_orders : ℕ → ℕ → List Order → List Order
cancel_sale_orders now sid os =
    update (λ o. is_id o.sale_id sid && not (same_order_status o.status cancelled))
      (λ o. record o { status = cancelled; cancelled_at = some now }) os

unfoldable pub cancel_sale_redemptions : ℕ → ℕ → List Redemption → List Redemption
cancel_sale_redemptions now sid rs =
    update (λ r. is_id r.sale_id sid && not (is_some r.cancelled_at))
      (λ r. record r { cancelled_at = some now }) rs

-- The transaction of `cancelCounterSale`.
unfoldable pub cancel_sale_tx : ℕ → ℕ → ℕ → (ℕ → ℕ) → Shop → Result SaleError Shop
unfolding refund_each cancel_sale_orders cancel_sale_redemptions
cancel_sale_tx now sid staff rids shop = do
  throw_if (not (count (is_open_sale sid) shop.sales == 1)) already_cancelled
  let payments = filter (λ p. is_id p.sale_id sid && is_reversible p.kind) shop.db.payments
  db ← refund_each sid staff rids shop.db.payments payments shop.db
  ok (record shop {
    sales =
        update (is_open_sale sid)
          (λ s. record s { status = sale_cancelled; cancelled_at = some now }) shop.sales;
    db = record db {
      orders = cancel_sale_orders now sid db.orders;
      redemptions = cancel_sale_redemptions now sid db.redemptions;
    };
  })

-- `cancelCounterSale`; `has_reason` says that the reason is not blank.
unfoldable pub cancel_counter_sale :
    ℕ → ℕ → ℕ → (ℕ → ℕ) → Bool → Shop → Shop → Result SaleError (Bool × Shop)
unfolding cancel_sale_tx
cancel_counter_sale now sid staff rids has_reason seen shop = do
  throw_if (not has_reason) reason_required
  s ← or_throw (find (λ s. s.id == sid) seen.sales) sale_not_found
  elim (is_completed s.status) [
    | false ↦ ok (true, shop)
    | true ↦ (do after ← cancel_sale_tx now sid staff rids shop; ok (false, after))
  ]
