-- ===== src/CounterSale.antt =====
-- server/src/services/counterSale.ts: sales at the counter, which have no table. Here the rows, the
-- cart that the client sends and what a coupon takes off it.
pub mod Quote
pub mod Confirm
pub mod Cancel
mod Discounts
pub mod Quoted
pub mod Written
pub mod Settled
pub mod Once
pub mod Undone
pub mod Cancelled
use boardbite_pos.Prelude.{
  ℕ, suc, min, Bool, true, false, Option, none, some, List, [], ◌∷◌, ◌++◌, if◌then◌else◌, leb, ◌==◌,
  map, any, find, Result, ok, err, ◌>>=◌, ◌>>◌, throw_if, or_throw,
}
use boardbite_pos.Domain.Key.{Key, id, text}
use boardbite_pos.Domain.Rows.{Db}
use boardbite_pos.Allocation.{AllocationError}
use boardbite_pos.Order.Lines.{LineError, LineInput, Line}
use boardbite_pos.Coupon.{Benefit, amount_off, one_of, Book, CouponError}

pub data SaleStatus : Type 0 where
  sale_completed sale_cancelled : SaleStatus

pub record CounterSale : Type 0 where
  pub id : ℕ
  pub sale_no : ℕ
  pub status : SaleStatus
  pub created_by : ℕ
  pub key : Key
  pub request_hash : ℕ
  pub cancelled_at : Option ℕ

-- The database with the coupons and the counter sales, newest first.
pub record Shop : Type 0 where
  pub db : Db
  pub book : Book
  pub sales : List CounterSale

-- A constructor for each `CounterSaleError`, the errors of the other services that pass through,
-- and the UNIQUE violation (P2002).
pub data SaleError : Type 0 where
  idempotency_conflict payments_disabled ordering_disabled operations_disabled : SaleError
  quote_stale method_required method_invalid tender_insufficient sale_no_race : SaleError
  sale_not_found reason_required already_cancelled order_not_found order_not_ready : SaleError
  unique_violation coupon_no_effect coupon_target_missing coupon_target_invalid : SaleError
  line_error : LineError → SaleError
  coupon_error : CouponError → SaleError
  allocation_error : AllocationError → SaleError
  allocation_stuck : SaleError  -- the loop of allocateProportional ran out of fuel

-- `CounterQuoteInput`; an empty coupon code is none.
pub record Cart : Type 0 where
  pub items : List LineInput
  pub coupon_code : Option ℕ
  pub coupon_target : Option ℕ

abbrev pub insert_id : ℕ → List ℕ → List ℕ
insert_id k [] = k ∷ []
insert_id k (j ∷ js) = let rest = insert_id k js in if leb k j then k ∷ j ∷ js else j ∷ rest

-- `[...item.optionChoiceIds].sort()`
abbrev pub sort_ids : List ℕ → List ℕ
sort_ids [] = []
sort_ids (k ∷ ks) = insert_id k (sort_ids ks)

abbrev pub sort_options : LineInput → LineInput
sort_options i = record i { option_choice_ids = sort_ids i.option_choice_ids }

-- `normalizeCart`
unfoldable pub normalize_cart : Cart → Cart
normalize_cart c = record c { items = map sort_options c.items }

-- `ConfirmCounterSaleInput`
pub record ConfirmInput : Type 0 where
  pub cart : Cart
  pub client_key : Key
  pub method_code : Option ℕ
  pub tendered : Option ℕ
  pub expected_hash : Option ℕ
  pub staff_id : ℕ

-- `scopeCounterIdempotencyKey`
unfoldable pub scope_counter_key : ℕ → Key → Key
scope_counter_key staff client = text "counter:" ++ (id staff ∷ (text ":" ++ client))

-- What `computeCouponDiscount` returns.
pub record CouponDiscount : Type 0 where
  pub discount : ℕ
  pub target_line : Option ℕ
  pub target_menu_item : Option ℕ

-- A line with its place in the cart.
pub record Placed : Type 0 where
  pub index : ℕ
  pub line : Line

unfoldable pub placed_from : ℕ → List Line → List Placed
placed_from n [] = []
placed_from n (l ∷ ls) = record { index = n; line = l } ∷ placed_from (suc n) ls

-- `candidateIndexes`
unfoldable pub candidates : List ℕ → List Placed → List Placed
candidates targets [] = []
candidates targets (p ∷ ps) =
    let rest = candidates targets ps in
    if any (λ t. t == p.line.menu_item_id) targets then p ∷ rest else rest

-- `chosen`, of candidates that are not none.
unfoldable pub choose : Option ℕ → List Placed → Result SaleError Placed
choose target [] = err coupon_target_missing
choose none (p ∷ ps) = ok p
choose (some k) (p ∷ ps) = or_throw (find (λ q. q.index == k) (p ∷ ps)) coupon_target_invalid

-- The last test of both kinds of coupon.
unfoldable pub effective : CouponDiscount → Result SaleError CouponDiscount
effective d = do throw_if (leb d.discount 0) coupon_no_effect; ok d

-- `computeCouponDiscount`
unfoldable pub compute_coupon_discount :
    Benefit → List Line → ℕ → Option ℕ → Result SaleError CouponDiscount
unfolding placed_from candidates choose effective
compute_coupon_discount (amount_off n) lines subtotal target =
    effective (record { discount = min n subtotal; target_line = none; target_menu_item = none })
compute_coupon_discount (one_of targets) lines subtotal target = do
  chosen ← choose target (candidates targets (placed_from 0 lines))
  effective (record {
    discount = min chosen.line.unit_price subtotal;
    target_line = some chosen.index;
    target_menu_item = some chosen.line.menu_item_id;
  })
