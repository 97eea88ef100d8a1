-- ===== src/CounterSale/Quote.antt =====
-- quoteCounterSale of server/src/services/counterSale.ts: the price of a cart, which reserves
-- nothing. Names of menu items, which the hash also covers, are not in the model.
use boardbite_pos.Prelude.{
  ℕ, zero, suc, ◌-◌, Bool, true, false, Option, none, some, List, [], ◌∷◌, if◌then◌else◌, ltb, map,
  find, ◌==◌, Result, ok, err, ◌>>=◌, or_throw, map_err,
}
use boardbite_pos.Prelude.Int.{pos}
use boardbite_pos.Domain.Rows.{ServingMode, OptionSnapshot}
use boardbite_pos.Menu.{Catalog, to_front}
use boardbite_pos.Allocation.{Line as Share, Row, allocate_proportional, AllocationError}
use boardbite_pos.Order.Lines.{Line, server_total, resolve_order_lines}
use boardbite_pos.Coupon.{
  Coupon, Batch, Benefit, amount_off, one_of, Book, not_found, normalize_coupon_code,
  assert_redeemable,
}
use boardbite_pos.CounterSale.{
  SaleError, line_error, coupon_error, allocation_error, allocation_stuck, Cart, normalize_cart,
  CouponDiscount, compute_coupon_discount,
}

-- The coupon of a quote with its batch (`CouponWithBatch`) and what it takes off.
pub record Applied : Type 0 where
  pub coupon : Coupon
  pub batch : Batch
  pub given : CouponDiscount

-- `QuoteLine`
pub record QuoteLine : Type 0 where
  pub index : ℕ
  pub line : Line
  pub discount_amount : ℕ

-- `CounterQuote` without its hash
pub record Quote : Type 0 where
  pub lines : List QuoteLine
  pub subtotal : ℕ
  pub discount_amount : ℕ
  pub total_amount : ℕ
  pub coupon : Option Applied

-- `findCouponByCode`, with the batch that it includes
unfoldable pub find_coupon_by_code : ℕ → Book → Option (Coupon × Batch)
find_coupon_by_code code book = elim (find (λ c. c.code == code) book.coupons) [
  | none ↦ none
  | some c ↦ elim (find (λ b. b.id == c.batch_id) book.batches) [
    | none ↦ none
    | some b ↦ some (c, b)
  ]
]

-- The coupon that the cart names, at the time `now`.
unfoldable pub apply_coupon : ℕ → ℕ → Option ℕ → List Line → Book → Result SaleError Applied
unfolding find_coupon_by_code
apply_coupon now value target lines book = do
  code ← map_err coupon_error (normalize_coupon_code value)
  found ← or_throw (find_coupon_by_code code book) (coupon_error not_found)
  checked ← map_err coupon_error (assert_redeemable found.0.status found.1.expires_at now)
  given ← compute_coupon_discount found.1.benefit lines (server_total lines) target
  ok (record { coupon = found.0; batch = found.1; given = given })

unfoldable pub quoted_coupon : ℕ → Cart → List Line → Book → Result SaleError (Option Applied)
unfolding apply_coupon
quoted_coupon now cart lines book = elim cart.coupon_code [
  | none ↦ ok none
  | some value ↦ (do
    applied ← apply_coupon now value cart.coupon_target lines book
    ok (some applied))
]

-- `new Array(lines.length).fill(0)`
unfoldable pub no_discounts : List Line → List ℕ
no_discounts [] = []
no_discounts (l ∷ ls) = 0 ∷ no_discounts ls

-- `perLineDiscount[i] = v`
unfoldable pub set_at : ℕ → ℕ → List ℕ → List ℕ
set_at i v [] = []
set_at zero v (x ∷ xs) = v ∷ xs
set_at (suc i) v (x ∷ xs) = x ∷ set_at i v xs

-- `for (const row of allocated) perLineDiscount[Number(row.key)] = row.amount`
unfoldable pub place_rows : List Row → List ℕ → List ℕ
unfolding set_at
place_rows [] xs = xs
place_rows (r ∷ rs) xs = place_rows rs (set_at r.key r.given xs)

-- `lines.map((line, index) => ({ key: String(index), amount: line.lineTotal }))`
unfoldable pub shares_from : ℕ → List Line → List Share
shares_from n [] = []
shares_from n (l ∷ ls) = record { key = n; amount = l.line_total } ∷ shares_from (suc n) ls

unfoldable pub allocated : Result AllocationError (Option (List Row)) → Result SaleError (List Row)
allocated (err e) = err (allocation_error e)
allocated (ok none) = err allocation_stuck
allocated (ok (some rows)) = ok rows

-- The sharing of the discount: only a coupon for an item has a target line.
unfoldable pub per_line_discount : CouponDiscount → List Line → Result SaleError (List ℕ)
unfolding no_discounts set_at place_rows shares_from allocated
per_line_discount d lines =
    if ltb 0 d.discount
    then elim d.target_line [
      | some i ↦ ok (set_at i d.discount (no_discounts lines))
      | none ↦ (do
        rows ← allocated (allocate_proportional (pos d.discount) (shares_from 0 lines))
        ok (place_rows rows (no_discounts lines)))
    ]
    else ok (no_discounts lines)

-- `quoteLines`; both lists have a row for each line.
unfoldable pub quote_lines : ℕ → List Line → List ℕ → List QuoteLine
quote_lines n [] ds = []
quote_lines n (l ∷ ls) [] =
    record { index = n; line = l; discount_amount = 0 } ∷ quote_lines (suc n) ls []
quote_lines n (l ∷ ls) (d ∷ ds) =
    record { index = n; line = l; discount_amount = d } ∷ quote_lines (suc n) ls ds

abbrev pub given_of : Option Applied → CouponDiscount
given_of none = record { discount = 0; target_line = none; target_menu_item = none }
given_of (some a) = a.given

-- `quoteCounterSale`; the discount is at most the subtotal (CounterSale/Discounts.antt), so that
-- the subtraction of the total does not stop at 0.
unfoldable pub quote_counter_sale : ℕ → Cart → Catalog → Book → Result SaleError Quote
unfolding quoted_coupon per_line_discount quote_lines
quote_counter_sale now input catalog book = do
  let cart = normalize_cart input
  lines ← map_err line_error (resolve_order_lines cart.items to_front catalog)
  coupon ← quoted_coupon now cart lines book
  discounts ← per_line_discount (given_of coupon) lines
  ok (record {
    lines = quote_lines 0 lines discounts;
    subtotal = server_total lines;
    discount_amount = (given_of coupon).discount;
    total_amount = server_total lines - (given_of coupon).discount;
    coupon = coupon;
  })

-- What `computeQuoteHash` makes a text of.
pub record HashedLine : Type 0 where
  pub menu_item_id : ℕ
  pub unit_price : ℕ
  pub quantity : ℕ
  pub serving_mode : ServingMode
  pub options : List OptionSnapshot
  pub discount_amount : ℕ

pub record HashedCoupon : Type 0 where
  pub code : ℕ
  pub is_item : Bool
  pub discount_amount : ℕ
  pub target_line : Option ℕ

pub record HashedQuote : Type 0 where
  pub staff_id : ℕ
  pub lines : List HashedLine
  pub subtotal : ℕ
  pub discount_amount : ℕ
  pub total_amount : ℕ
  pub coupon : Option HashedCoupon

abbrev pub hashed_line : QuoteLine → HashedLine
hashed_line q = record {
  menu_item_id = q.line.menu_item_id;
  unit_price = q.line.unit_price;
  quantity = q.line.quantity;
  serving_mode = q.line.serving_mode;
  options = q.line.options;
  discount_amount = q.discount_amount;
}

abbrev pub is_item_benefit : Benefit → Bool
is_item_benefit (amount_off n) = false
is_item_benefit (one_of ids) = true

abbrev pub hashed_coupon : Option Applied → Option HashedCoupon
hashed_coupon none = none
hashed_coupon (some a) = some (record {
  code = a.coupon.code;
  is_item = is_item_benefit a.batch.benefit;
  discount_amount = a.given.discount;
  target_line = a.given.target_line;
})

-- `computeQuoteHash` up to the SHA-256 of the text.
unfoldable pub hashed_quote : ℕ → Quote → HashedQuote
hashed_quote staff q = record {
  staff_id = staff;
  lines = map hashed_line q.lines;
  subtotal = q.subtotal;
  discount_amount = q.discount_amount;
  total_amount = q.total_amount;
  coupon = hashed_coupon q.coupon;
}
