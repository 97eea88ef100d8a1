-- ===== src/Payment/Items.antt =====
-- createItemBasedPayment of server/src/services/payment.ts: a charge for chosen quantities of
-- order items.
use boardbite_pos.Prelude.{
  ℕ, ◌+◌, ◌-◌, ◌*◌, Bool, true, false, not, ◌||◌, Option, none, some, List, [], ◌∷◌, ◌++◌, map,
  if◌then◌else◌, ltb, ◌==◌, is_id, find, filter, any, sum_by, Result, ok, err, ◌>>=◌, ◌>>◌,
  throw_if, or_throw,
}
use boardbite_pos.Prelude.Int.{pos, ltb_ℤ, max_zero}
use boardbite_pos.Domain.Status.{rejected, cancelled, order_status_in}
use boardbite_pos.Domain.Rows.{Item, Order, Allocation, Payment, PaymentMethod, Db}
use boardbite_pos.Billing.{compute_bill, remaining_quantity}
use boardbite_pos.Payment.{
  PaymentError, no_items, bad_quantity, duplicate_item, item_missing, foreign_item, item_not_billed,
  quantity_too_large, over_remaining, tender_too_small, AllocationInput, PaymentInput, Settled,
  charge_row, create_row, assert_allowed,
}

-- `new Set(ids).size !== ids.length`
unfoldable pub has_duplicate : List ℕ → Bool
has_duplicate [] = false
has_duplicate (x ∷ xs) = any (λ y. y == x) xs || has_duplicate xs

-- The items of all orders, each beside its order.
unfoldable pub with_order : Order → List Item → List (Order × Item)
with_order o [] = []
with_order o (i ∷ is) = (o, i) ∷ with_order o is

unfoldable pub all_items : List Order → List (Order × Item)
unfolding with_order
all_items [] = []
all_items (o ∷ os) = with_order o o.items ++ all_items os

abbrev pub item_ids : List AllocationInput → List ℕ
item_ids as' = map (λ a. a.order_item_id) as'

-- `orderItem.findMany({ where: { id: { in } } })`
unfoldable pub chosen_items : List ℕ → Db → List (Order × Item)
unfolding all_items
chosen_items ids db = filter (λ r. any (λ k. r.1.id == k) ids) (all_items db.orders)

abbrev pub find_item : ℕ → List (Order × Item) → Option (Order × Item)
find_item k rows = find (λ r. r.1.id == k) rows

abbrev pub is_present : List (Order × Item) → ℕ → Bool
is_present rows k = elim (find_item k rows) [ none ↦ false | some r ↦ true ]

-- The loop over `orderItems`: the owner and the order's status of each.
unfoldable pub check_rows : ℕ → List (Order × Item) → Result PaymentError (Unit {0})
check_rows sid [] = ok tt
check_rows sid ((o, i) ∷ rows) = do
  throw_if (not (is_id o.session_id sid)) foreign_item
  throw_if (order_status_in (cancelled ∷ rejected ∷ []) o.status) item_not_billed
  check_rows sid rows

-- `(item.unitPrice + optionsTotal) * alloc.quantity`
unfoldable pub line_amount : Item → ℕ → ℕ
line_amount i n = (i.unit_price + sum_by (λ o. o.extra_price) i.options) * n

-- The loop that builds `allocationRows`; their amounts add up to `amount`.
unfoldable pub allocation_rows :
    Db → List (Order × Item) → List AllocationInput → Result PaymentError (List Allocation)
unfolding line_amount
allocation_rows db rows [] = ok []
allocation_rows db rows (a ∷ rest) = do
  r ← or_throw (find_item a.order_item_id rows) item_missing
  throw_if (ltb_ℤ (remaining_quantity r.1 db) (pos a.quantity)) quantity_too_large
  more ← allocation_rows db rows rest
  ok (
      record {
        order_item_id = a.order_item_id;
        quantity = a.quantity;
        amount = line_amount r.1 a.quantity;
      }
      ∷ more)

abbrev pub total_of : List Allocation → ℕ
total_of rows = sum_by (λ a. a.amount) rows

-- The branch on `method.isCash`.
unfoldable pub settle_items : Bool → Option ℕ → ℕ → Result PaymentError Settled
settle_items false tendered amount = ok (record { amount = amount; tendered = none; change = none })
settle_items true none amount = err tender_too_small
settle_items true (some t) amount =
    if not (ltb 0 t) || ltb t amount
    then err tender_too_small
    else ok (record { amount = amount; tendered = some t; change = some (t - amount) })

-- The checks before the transaction.
unfoldable pub check_allocations : List AllocationInput → Result PaymentError (Unit {0})
unfolding has_duplicate
check_allocations [] = err no_items
check_allocations (a ∷ rest) = do
  throw_if (any (λ b. not (ltb 0 b.quantity)) (a ∷ rest)) bad_quantity
  throw_if (has_duplicate (item_ids (a ∷ rest))) duplicate_item

-- `createItemBasedPayment`
unfoldable pub items_tx : ℕ → PaymentInput → PaymentMethod → Db → Result PaymentError (Payment × Db)
unfolding check_allocations chosen_items check_rows allocation_rows settle_items charge_row
    create_row
items_tx pid input m db = do
  check_allocations input.allocations
  assert_allowed input.session_id db
  let ids = item_ids input.allocations
  let rows = chosen_items ids db
  throw_if (any (λ k. not (is_present rows k)) ids) item_missing
  check_rows input.session_id rows
  lines ← allocation_rows db rows input.allocations
  let amount = total_of lines
  throw_if (ltb (max_zero (compute_bill input.session_id db).remaining) amount) over_remaining
  s ← settle_items m.is_cash input.tendered amount
  create_row (charge_row pid input m s lines) db
