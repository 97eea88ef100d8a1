-- ===== src/CounterSale/Confirm.antt =====
-- confirmCounterSale of server/src/services/counterSale.ts. `seen` is what the reads before the
-- transaction find, `shop` what the transaction finds.
use boardbite_pos.Prelude.{
  ℕ, suc, ◌-◌, Bool, true, false, not, ◌&&◌, ◌||◌, Option, none, some, List, [], ◌∷◌, ◌++◌,
  if◌then◌else◌, ltb, ◌==◌, map, any, find, filter, Result, ok, err, ◌>>=◌, ◌>>◌, throw_if,
  or_throw, map_err, max,
}
use boardbite_pos.Domain.Status.{OrderStatus, new, served, charge, discount}
use boardbite_pos.Domain.Key.{Key, text, key_eq}
use boardbite_pos.Domain.Rows.{
  ServingMode, kitchen, counter, Item, Order, Allocation, Payment, PaymentMethod, Settings,
  Redemption, Db,
}
use boardbite_pos.Billing.Sale.{coupon_method}
use boardbite_pos.Menu.{Catalog}
use boardbite_pos.Coupon.{assert_redeemable, consume_coupon}
use boardbite_pos.CounterSale.{
  sale_completed, CounterSale, Shop, SaleError, idempotency_conflict, payments_disabled,
  ordering_disabled, operations_disabled, quote_stale, method_required, method_invalid,
  tender_insufficient, sale_no_race, unique_violation, coupon_error, Cart, normalize_cart,
  ConfirmInput, scope_counter_key,
}
use boardbite_pos.CounterSale.Quote.{
  Applied, QuoteLine, Quote, quote_counter_sale, HashedQuote, hashed_quote,
}

-- What `computeRequestHash` makes a text of.
pub record RequestContent : Type 0 where
  pub cart : Cart
  pub method_code : Option ℕ
  pub tendered : Option ℕ

-- SHA-256 of the two texts.
pub record Sha : Type 0 where
  pub of_quote : HashedQuote → ℕ
  pub of_request : RequestContent → ℕ

-- `computeRequestHash`
unfoldable pub request_hash : Sha → ConfirmInput → ℕ
request_hash sha input = sha.of_request (record {
  cart = normalize_cart input.cart;
  method_code = input.method_code;
  tendered = input.tendered;
})

-- The ids of the rows to be created; the items have one for each line.
pub record SaleIds : Type 0 where
  pub sale : ℕ
  pub kitchen_order : ℕ
  pub counter_order : ℕ
  pub discount : ℕ
  pub charge : ℕ
  pub item : ℕ → ℕ

abbrev pub or_zero : Option ℕ → ℕ
or_zero none = 0
or_zero (some n) = n

abbrev pub is_stale : Option ℕ → ℕ → Bool
is_stale none hash = false
is_stale (some expected) hash = not (expected == hash)

-- Step 2, the method of payment: none where there is nothing to pay.
unfoldable pub check_method : ConfirmInput → ℕ → Db → Result SaleError (Option PaymentMethod)
check_method input total db =
    if ltb 0 total
    then (do
      code ← or_throw input.method_code method_required
      m ← or_throw (find (λ m. m.code == code) db.methods) method_invalid
      throw_if (not m.is_active) method_invalid
      throw_if (m.is_cash && ltb (or_zero input.tendered) total) tender_insufficient
      ok (some m))
    else ok none

-- Step 3: `(maxNo._max.saleNo ?? 0) + 1`.
unfoldable pub max_no : List CounterSale → ℕ
max_no [] = 0
max_no (s ∷ ss) = max s.sale_no (max_no ss)

unfoldable pub new_sale : SaleIds → Sha → ConfirmInput → List CounterSale → CounterSale
unfolding max_no request_hash
new_sale ids sha input sales = record {
  id = ids.sale;
  sale_no = suc (max_no sales);
  status = sale_completed;
  created_by = input.staff_id;
  key = scope_counter_key input.staff_id input.client_key;
  request_hash = request_hash sha input;
  cancelled_at = none;
}

abbrev pub same_mode : ServingMode → ServingMode → Bool
same_mode kitchen kitchen = true
same_mode counter counter = true
same_mode kitchen counter = false
same_mode counter kitchen = false

-- Step 4: an item of the order, from the line of the same index.
unfoldable pub sale_item : SaleIds → QuoteLine → Item
sale_item ids q = record {
  id = ids.item q.index;
  menu_item_id = q.line.menu_item_id;
  unit_price = q.line.unit_price;
  quantity = q.line.quantity;
  serving_mode = q.line.serving_mode;
  options = q.line.options;
  cancelled_at = none;
}

-- What a dish for the kitchen and what the counter hands over at once differ in.
abbrev pub mode_suffix : ServingMode → Key
mode_suffix kitchen = text ":KITCHEN"
mode_suffix counter = text ":COUNTER"

abbrev pub mode_order_id : SaleIds → ServingMode → ℕ
mode_order_id ids kitchen = ids.kitchen_order
mode_order_id ids counter = ids.counter_order

abbrev pub mode_status : ServingMode → OrderStatus
mode_status kitchen = new
mode_status counter = served

abbrev pub mode_served_at : ℕ → ServingMode → Option ℕ
mode_served_at now kitchen = none
mode_served_at now counter = some now

unfoldable pub mode_order : SaleIds → ℕ → Key → ServingMode → List QuoteLine → Order
unfolding sale_item
mode_order ids now key mode lines = record {
  id = mode_order_id ids mode;
  session_id = none;
  sale_id = some ids.sale;
  status = mode_status mode;
  key = key ++ mode_suffix mode;
  items = map (sale_item ids) lines;
  served_at = mode_served_at now mode;
  cancelled_at = none;
  cancel_reason = none;
}

abbrev pub lines_in : ServingMode → List QuoteLine → List QuoteLine
lines_in mode lines = filter (λ q. same_mode q.line.serving_mode mode) lines

-- One turn of the loop over the modes; the key of an order is UNIQUE.
unfoldable pub add_order : Order → Db → Result SaleError Db
add_order o db = elim o.items [
  | [] ↦ ok db
  | ◌∷◌ i is ↦ (do
    throw_if (any (λ p. key_eq p.key o.key) db.orders) unique_violation
    ok (record db { orders = o ∷ db.orders }))
]

unfoldable pub add_orders : SaleIds → ℕ → Key → List QuoteLine → Db → Result SaleError Db
unfolding mode_order add_order
add_orders ids now key lines db = do
  cooked ← add_order (mode_order ids now key kitchen (lines_in kitchen lines)) db
  add_order (mode_order ids now key counter (lines_in counter lines)) cooked

-- `tx.payment.create`; the key of a payment is UNIQUE.
unfoldable pub add_payment_row : Payment → Db → Result SaleError Db
add_payment_row p db = do
  throw_if (any (λ q. key_eq q.key p.key) db.payments) unique_violation
  ok (record db { payments = p ∷ db.payments })

-- Step 5: the redemption; every line has an item, so that a target line has one.
unfoldable pub new_redemption : SaleIds → Quote → Applied → Redemption
new_redemption ids quote a = record {
  coupon_id = a.coupon.id;
  coupon_code = a.coupon.code;
  session_id = none;
  sale_id = some ids.sale;
  original_amount = quote.subtotal;
  discount_amount = a.given.discount;
  target_item_id = elim a.given.target_line [ none ↦ none | some i ↦ some (ids.item i) ];
  cancelled_at = none;
}

-- Step 6: the discount, shared over the lines without a paid quantity.
unfoldable pub discount_of : SaleIds → ConfirmInput → Quote → Applied → Payment
discount_of ids input quote a = record {
  id = ids.discount;
  session_id = none;
  sale_id = some ids.sale;
  kind = discount;
  method = coupon_method;
  amount = a.given.discount;
  tendered = none;
  change = none;
  reversed_id = none;
  coupon_code = some a.coupon.code;
  key = scope_counter_key input.staff_id input.client_key ++ text ":coupon-discount";
  created_by = input.staff_id;
  allocations =
      map {A = QuoteLine} {B = Allocation}
        (λ q. record { order_item_id = ids.item q.index; quantity = 0; amount = q.discount_amount })
        (filter (λ q. ltb 0 q.discount_amount) quote.lines);
}

unfoldable pub redeem : SaleIds → ℕ → ConfirmInput → Quote → Shop → Result SaleError Shop
unfolding new_redemption discount_of add_payment_row
redeem ids now input quote shop = elim quote.coupon [
  | none ↦ ok shop
  | some a ↦ (do
    checked ← map_err coupon_error (assert_redeemable a.coupon.status a.batch.expires_at now)
    coupons ← map_err coupon_error (consume_coupon a.coupon.id now shop.book.coupons)
    db ←
        add_payment_row (discount_of ids input quote a)
          (record shop.db { redemptions = new_redemption ids quote a ∷ shop.db.redemptions })
    ok (record shop { db = db; book = record shop.book { coupons = coupons } }))
]

-- Step 7: the charge, with the quantities that it pays for.
unfoldable pub charge_of : SaleIds → ConfirmInput → Quote → PaymentMethod → Payment
charge_of ids input quote m = record {
  id = ids.charge;
  session_id = none;
  sale_id = some ids.sale;
  kind = charge;
  method = m.code;
  amount = quote.total_amount;
  tendered = if m.is_cash then input.tendered else none;
  change = if m.is_cash then some (or_zero input.tendered - quote.total_amount) else none;
  reversed_id = none;
  coupon_code = none;
  key = scope_counter_key input.staff_id input.client_key ++ text ":charge";
  created_by = input.staff_id;
  allocations =
      map {A = QuoteLine} {B = Allocation}
        (λ q. record {
          order_item_id = ids.item q.index;
          quantity = q.line.quantity;
          amount = q.line.line_total - q.discount_amount;
        })
        (filter (λ q. ltb 0 (q.line.line_total - q.discount_amount)) quote.lines);
}

unfoldable pub collect :
    SaleIds → ConfirmInput → Quote → Option PaymentMethod → Shop → Result SaleError Shop
unfolding charge_of add_payment_row
collect ids input quote method shop = elim method [
  | none ↦ ok shop
  | some m ↦ (do
    db ← add_payment_row (charge_of ids input quote m) shop.db
    ok (record shop { db = db }))
]

unfoldable pub operations_off : Option Settings → Bool
operations_off none = false
operations_off (some s) = not s.payments_enabled || not s.ordering_enabled

-- The transaction: the sale and the database after it. The quote is computed at `quoted`, the
-- rows are written at `now`.
unfoldable pub confirm_tx :
    SaleIds → Sha → ℕ → ℕ → ConfirmInput → Catalog → Shop → Result SaleError (CounterSale × Shop)
unfolding check_method new_sale add_orders redeem collect
confirm_tx ids sha quoted now input catalog shop = do
  throw_if (operations_off shop.db.settings) operations_disabled
  quote ← quote_counter_sale quoted input.cart catalog shop.book
  throw_if (is_stale input.expected_hash (sha.of_quote (hashed_quote input.staff_id quote)))
      quote_stale
  method ← check_method input quote.total_amount shop.db
  let sale = new_sale ids sha input shop.sales
  throw_if (any (λ s. key_eq s.key sale.key || s.sale_no == sale.sale_no) shop.sales)
      unique_violation
  db ← add_orders ids now sale.key quote.lines shop.db
  redeemed ← redeem ids now input quote (record shop { db = db; sales = sale ∷ shop.sales })
  after ← collect ids input quote method redeemed
  ok (sale, after)

-- The sale, `reused`, and the database after it.
pub record Confirmed : Type 0 where
  pub sale : CounterSale
  pub reused : Bool
  pub after : Shop

abbrev pub find_sale : Key → List CounterSale → Option CounterSale
find_sale k sales = find (λ s. key_eq s.key k) sales

-- The `catch`: a UNIQUE violation whose winner made the same request is that sale.
unfoldable pub or_winning_sale :
    Key → ℕ → Shop → Result SaleError (CounterSale × Shop) → Result SaleError Confirmed
or_winning_sale k hash shop (ok (sale, after)) =
    ok (record { sale = sale; reused = false; after = after })
or_winning_sale k hash shop (err unique_violation) = elim (find_sale k shop.sales) [
  | none ↦ err sale_no_race
  | some winner ↦
      if winner.request_hash == hash
      then ok (record { sale = winner; reused = true; after = shop })
      else err sale_no_race
]
or_winning_sale k hash shop (err e) = err e

abbrev pub payments_are_off : Option Settings → Bool
payments_are_off none = false
payments_are_off (some s) = not s.payments_enabled

abbrev pub ordering_is_off : Option Settings → Bool
ordering_is_off none = false
ordering_is_off (some s) = not s.ordering_enabled

-- `confirmCounterSale`
unfoldable pub confirm_counter_sale :
    SaleIds → Sha → ℕ → ℕ → ConfirmInput → Catalog → Shop → Shop → Result SaleError Confirmed
unfolding request_hash confirm_tx or_winning_sale
confirm_counter_sale ids sha quoted now input catalog seen shop =
    let k = scope_counter_key input.staff_id input.client_key in
    let hash = request_hash sha input in
    let fresh = (do
      throw_if (payments_are_off seen.db.settings) payments_disabled
      throw_if (ordering_is_off seen.db.settings) ordering_disabled
      or_winning_sale k hash shop (confirm_tx ids sha quoted now input catalog shop)) in
    elim (find_sale k seen.sales) [
      | none ↦ fresh
      | some s ↦
          if s.request_hash == hash
          then ok (record { sale = s; reused = true; after = shop })
          else err idempotency_conflict
    ]
