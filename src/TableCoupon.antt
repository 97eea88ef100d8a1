-- ===== src/TableCoupon.antt =====
-- server/src/services/tableCoupon.ts: the coupon of a table that pays later. `seen` is what the
-- reads before the transaction find, `shop` what the transaction finds.
pub mod Covered
use boardbite_pos.Prelude.{
  ℕ, ◌+◌, ◌-◌, ◌*◌, min, Bool, true, false, not, ◌&&◌, Option, none, some, List, [], ◌∷◌, ◌++◌,
  if◌then◌else◌, ltb, leb, ◌==◌, map, any, find, filter, sum_by, is_id, is_some, Result, ok, err,
  ◌>>=◌, ◌>>◌, throw_if, or_throw, map_err,
}
use boardbite_pos.Prelude.Int.{pos, max_zero}
use boardbite_pos.Domain.Status.{discount, is_live}
use boardbite_pos.Domain.Key.{Key, id, text, key_eq}
use boardbite_pos.Domain.Rows.{Item, Order, Allocation, Payment, Redemption, Db}
use boardbite_pos.Allocation.{Line, Row, AllocationError, allocate_proportional}
use boardbite_pos.Billing.{is_billed, item_total, Bill, compute_bill}
use boardbite_pos.Billing.Sale.{coupon_method}
use boardbite_pos.TableSession.Close.{SettleOutcome, no_change, auto_settle}
use boardbite_pos.Payment.{find_key, payments_off, is_locked}
use boardbite_pos.Coupon.{
  Coupon, Batch, Benefit, amount_off, one_of, CouponError, not_found, normalize_coupon_code,
  assert_redeemable, consume_coupon,
}
use boardbite_pos.CounterSale.{Shop}
use boardbite_pos.CounterSale.Quote.{find_coupon_by_code}

-- The errors of the coupons that pass through, those of this file, and the UNIQUE violation.
pub data TableCouponError : Type 0 where
  coupon_error : CouponError → TableCouponError
  already_applied no_effect target_missing target_invalid payments_disabled : TableCouponError
  session_not_found session_closed table_locked unique_violation : TableCouponError
  allocation_error : AllocationError → TableCouponError
  allocation_stuck : TableCouponError  -- the loop of allocateProportional ran out of fuel

-- `ApplyTableCouponInput`; the code is the number that its digits write.
pub record ApplyInput : Type 0 where
  pub session_id : ℕ
  pub code : ℕ
  pub target_item_id : Option ℕ
  pub client_key : Key
  pub staff_id : ℕ

-- `orders.flatMap((order) => order.items)`, oldest order first.
unfoldable pub ordered_items : ℕ → List Order → List Item
ordered_items sid [] = []
ordered_items sid (o ∷ os) =
    let before = ordered_items sid os in
    if is_id o.session_id sid && is_billed o then before ++ o.items else before

-- What a coupon takes off, and where.
pub record TableDiscount : Type 0 where
  pub discount : ℕ
  pub target_item : Option Item

-- `chosen`, of candidates that are not none.
unfoldable pub choose_item : Option ℕ → List Item → Result TableCouponError Item
choose_item target [] = err target_missing
choose_item none (i ∷ is) = ok i
choose_item (some k) (i ∷ is) = or_throw (find (λ j. j.id == k) (i ∷ is)) target_invalid

unfoldable pub table_discount :
    Benefit → ℕ → List Item → Option ℕ → Result TableCouponError TableDiscount
unfolding choose_item
table_discount (amount_off n) remaining items target =
    ok (record { discount = min n remaining; target_item = none })
table_discount (one_of targets) remaining items target = do
  chosen ← choose_item target (filter (λ i. any (λ t. t == i.menu_item_id) targets) items)
  ok (record { discount = min chosen.unit_price remaining; target_item = some chosen })

abbrev pub is_live_redemption : ℕ → Redemption → Bool
is_live_redemption sid r = is_id r.session_id sid && not (is_some r.cancelled_at)

-- What `resolveTableCoupon` returns.
pub record TableQuote : Type 0 where
  pub coupon : Coupon
  pub batch : Batch
  pub given : TableDiscount
  pub remaining_before : ℕ
  pub items : List Item

-- `resolveTableCoupon`
unfoldable pub resolve_table_coupon : ℕ → ApplyInput → Shop → Result TableCouponError TableQuote
unfolding ordered_items table_discount
resolve_table_coupon now input shop = do
  code ← map_err coupon_error (normalize_coupon_code input.code)
  found ← or_throw (find_coupon_by_code code shop.book) (coupon_error not_found)
  checked ← map_err coupon_error (assert_redeemable found.0.status found.1.expires_at now)
  throw_if (any (is_live_redemption input.session_id) shop.db.redemptions) already_applied
  let remaining = max_zero (compute_bill input.session_id shop.db).remaining
  throw_if (leb remaining 0) no_effect
  let items = ordered_items input.session_id shop.db.orders
  given ← table_discount found.1.benefit remaining items input.target_item_id
  throw_if (leb given.discount 0) no_effect
  ok (record {
    coupon = found.0;
    batch = found.1;
    given = given;
    remaining_before = remaining;
    items = items;
  })

-- The lines of the allocation.
abbrev pub item_line : Item → Line
item_line i = record { key = i.id; amount = item_total i }

abbrev pub row_allocation : Row → Allocation
row_allocation r = record { order_item_id = r.key; quantity = 0; amount = r.given }

unfoldable pub allocated :
    Result AllocationError (Option (List Row)) → Result TableCouponError (List Allocation)
allocated (err e) = err (allocation_error e)
allocated (ok none) = err allocation_stuck
allocated (ok (some rows)) = ok (map row_allocation (filter (λ r. ltb 0 r.given) rows))

-- A coupon for an item goes to that item, one for an amount over all of them.
unfoldable pub discount_allocations : TableQuote → Result TableCouponError (List Allocation)
unfolding allocated
discount_allocations q = elim q.given.target_item [
  | some i ↦ ok (record { order_item_id = i.id; quantity = 0; amount = q.given.discount } ∷ [])
  | none ↦ allocated (allocate_proportional (pos q.given.discount) (map item_line q.items))
]

unfoldable pub coupon_key : ApplyInput → Key
coupon_key input = id input.session_id ∷ (text ":coupon:" ++ input.client_key)

unfoldable pub coupon_row : ℕ → ApplyInput → TableQuote → List Allocation → Payment
unfolding coupon_key
coupon_row pid input q allocations = record {
  id = pid;
  session_id = some input.session_id;
  sale_id = none;
  kind = discount;
  method = coupon_method;
  amount = q.given.discount;
  tendered = none;
  change = none;
  reversed_id = none;
  coupon_code = some q.coupon.code;
  key = coupon_key input;
  created_by = input.staff_id;
  allocations = allocations;
}

abbrev pub item_id : Option Item → Option ℕ
item_id none = none
item_id (some i) = some i.id

unfoldable pub table_redemption : ApplyInput → TableQuote → Redemption
table_redemption input q = record {
  coupon_id = q.coupon.id;
  coupon_code = q.coupon.code;
  session_id = some input.session_id;
  sale_id = none;
  original_amount = q.remaining_before;
  discount_amount = q.given.discount;
  target_item_id = item_id q.given.target_item;
  cancelled_at = none;
}

-- The checks of the transaction on the session.
unfoldable pub check_session : ℕ → Db → Result TableCouponError (Unit {0})
check_session sid db = do
  s ← or_throw (find (λ s. s.id == sid) db.sessions) session_not_found
  throw_if (not (is_live s.status)) session_closed
  throw_if (is_locked s db) table_locked
  throw_if (payments_off db.settings) payments_disabled

-- The transaction of `applyTableCoupon`; `pid` is the new payment's id.
unfoldable pub apply_tx : ℕ → ℕ → ApplyInput → Shop → Result TableCouponError (Payment × Shop)
unfolding check_session resolve_table_coupon discount_allocations coupon_row table_redemption
apply_tx pid now input shop = do
  open_to ← check_session input.session_id shop.db
  q ← resolve_table_coupon now input shop
  checked ← map_err coupon_error (assert_redeemable q.coupon.status q.batch.expires_at now)
  coupons ← map_err coupon_error (consume_coupon q.coupon.id now shop.book.coupons)
  allocations ← discount_allocations q
  let row = coupon_row pid input q allocations
  throw_if (any (λ p. key_eq p.key row.key) shop.db.payments) unique_violation
  ok (
    row,
    record shop {
      db = record shop.db {
        payments = row ∷ shop.db.payments;
        redemptions = table_redemption input q ∷ shop.db.redemptions;
      };
      book = record shop.book { coupons = coupons };
    },
  )

pub record AppliedCoupon : Type 0 where
  pub payment : Payment
  pub bill : Bill
  pub settlement : SettleOutcome
  pub reused : Bool
  pub after : Shop

abbrev pub reuse : ℕ → Payment → Shop → AppliedCoupon
reuse sid p shop = record {
  payment = p;
  bill = compute_bill sid shop.db;
  settlement = no_change;
  reused = true;
  after = shop;
}

-- The settlement after the transaction.
unfoldable pub finish : ℕ → ℕ → Payment × Shop → AppliedCoupon
finish now sid (p, shop) =
    let settled = auto_settle now sid shop.db shop.db in
    record {
      payment = p;
      bill = compute_bill sid settled.1;
      settlement = settled.0;
      reused = false;
      after = record shop { db = settled.1 };
    }

-- The `catch`: after a UNIQUE violation the row that won is returned.
unfoldable pub or_first_coupon :
    ℕ
    → ℕ
    → Key
    → Shop
    → Result TableCouponError (Payment × Shop)
    → Result TableCouponError AppliedCoupon
unfolding finish
or_first_coupon now sid k shop (ok r) = ok (finish now sid r)
or_first_coupon now sid k shop (err unique_violation) = elim (find_key k shop.db.payments) [
  | none ↦ err unique_violation
  | some p ↦ ok (reuse sid p shop)
]
or_first_coupon now sid k shop (err e) = err e

-- `applyTableCoupon`
unfoldable pub apply_table_coupon :
    ℕ → ℕ → ApplyInput → Shop → Shop → Result TableCouponError AppliedCoupon
unfolding coupon_key apply_tx or_first_coupon
apply_table_coupon pid now input seen shop =
    let fresh = (do
      throw_if (payments_off seen.db.settings) payments_disabled
      or_first_coupon now input.session_id (coupon_key input) shop (apply_tx pid now input shop)) in
    elim (find_key (coupon_key input) seen.db.payments) [
      | none ↦ fresh
      | some p ↦ ok (reuse input.session_id p shop)
    ]
