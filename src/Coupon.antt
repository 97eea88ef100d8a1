-- ===== src/Coupon.antt =====
-- server/src/services/coupon.ts: the numbers, the states, the issue and the use of coupons. A
-- coupon's code, the text of a number in three digits, is the number.
pub mod Numbers
pub mod Issue
pub mod Use
use boardbite_pos.Prelude.{
  ℕ, zero, suc, ◌+◌, ◌-◌, Bool, true, false, not, ◌&&◌, ◌||◌, Option, none, some, List, [], ◌∷◌,
  ◌++◌, if◌then◌else◌, ltb, leb, ◌==◌, is_some, map, length, any, find, update, count, Result, ok,
  err, ◌>>=◌, ◌>>◌, throw_if, or_throw,
}
use boardbite_pos.Domain.Key.{Key, id, text, key_eq}

abbrev pub max_coupon_number : ℕ
max_coupon_number = 999

-- The column `status`; EXPIRED is derived.
pub data CouponStatus : Type 0 where
  available used cancelled : CouponStatus

-- `CouponState`
pub data CouponState : Type 0 where
  is_available is_used is_expired is_cancelled : CouponState

pub record Coupon : Type 0 where
  pub id : ℕ
  pub batch_id : ℕ
  pub code : ℕ
  pub status : CouponStatus
  pub used_at : Option ℕ
  pub cancelled_at : Option ℕ

-- AMOUNT has an amount, ITEM the ids of its targets.
pub data Benefit : Type 0 where
  amount_off : ℕ → Benefit
  one_of : List ℕ → Benefit

pub record Batch : Type 0 where
  pub id : ℕ
  pub benefit : Benefit
  pub issued_count : ℕ
  pub expires_at : Option ℕ
  pub key : Key

pub record Book : Type 0 where
  pub batches : List Batch
  pub coupons : List Coupon
  pub menu : List ℕ  -- the menu items that are not deleted

-- A constructor for each `CouponError`, and the UNIQUE violation (P2002).
pub data CouponError : Type 0 where
  code_invalid bad_quantity expiry_passed bad_amount no_targets target_gone : CouponError
  numbers_exhausted code_race not_found unusable_used unusable_expired unusable_cancelled :
      CouponError
  already_used unique_violation : CouponError

-- `normalizeCouponCode` on the number that its digits write.
unfoldable pub normalize_coupon_code : ℕ → Result CouponError ℕ
normalize_coupon_code value =
    if ltb value 1 || ltb max_coupon_number value then err code_invalid else ok value

-- `couponState`
unfoldable pub coupon_state : CouponStatus → Option ℕ → ℕ → CouponState
coupon_state cancelled expires_at now = is_cancelled
coupon_state used expires_at now = is_used
coupon_state available none now = is_available
coupon_state available (some e) now = if leb e now then is_expired else is_available

-- `assertRedeemable`
unfoldable pub assert_redeemable : CouponStatus → Option ℕ → ℕ → Result CouponError (Unit {0})
unfolding coupon_state
assert_redeemable status expires_at now = elim (coupon_state status expires_at now) [
  | is_available ↦ ok tt
  | is_used ↦ err unusable_used
  | is_expired ↦ err unusable_expired
  | is_cancelled ↦ err unusable_cancelled
]

abbrev pub can_use : CouponStatus → Bool
can_use available = true
can_use _ = false

-- `consumeCouponInTx`
unfoldable pub consume_coupon : ℕ → ℕ → List Coupon → Result CouponError (List Coupon)
consume_coupon cid now cs =
    if count (λ c. c.id == cid && can_use c.status) cs == 1
    then ok (
        update (λ c. c.id == cid && can_use c.status)
          (λ c. record c { status = used; used_at = some now }) cs)
    else err already_used

-- `cancelCoupons`: the rows after it, and how many were cancelled.
unfoldable pub cancel_coupons : List ℕ → ℕ → List Coupon → List Coupon × ℕ
cancel_coupons ids now cs =
    let fits = λ (c : Coupon). any (λ k. c.id == k) ids && can_use c.status in
    (update fits (λ c. record c { status = cancelled; cancelled_at = some now }) cs, count fits cs)

-- The loop of `allocateCodes`: `fuel` numbers from `n` on are left to look at.
unfoldable pub free_codes : List ℕ → ℕ → ℕ → ℕ → List ℕ
free_codes taken zero n wanted = []
free_codes taken (suc fuel) n zero = []
free_codes taken (suc fuel) n (suc wanted) =
    if any (λ k. n == k) taken
    then free_codes taken fuel (suc n) (suc wanted)
    else n ∷ free_codes taken fuel (suc n) wanted

-- `allocateCodes`; `taken.size` is the number of the coupons, whose codes are UNIQUE.
unfoldable pub allocate_codes : List ℕ → ℕ → Result CouponError (List ℕ)
unfolding free_codes
allocate_codes taken wanted =
    if ltb max_coupon_number (length taken + wanted)
    then err numbers_exhausted
    else ok (free_codes taken max_coupon_number 1 wanted)

-- `IssueBatchInput`; a name and a memo are only shown.
pub record IssueInput : Type 0 where
  pub benefit : Benefit
  pub quantity : ℕ
  pub expires_at : Option ℕ
  pub key : Key
  pub created_by : ℕ

unfoldable pub batch_key : IssueInput → Key
batch_key input = text "coupon-batch:" ++ (id input.created_by ∷ (text ":" ++ input.key))

-- The checks of `issueCouponBatch` on its input.
unfoldable pub check_issue : ℕ → IssueInput → Result CouponError (Unit {0})
check_issue now input = do
  throw_if (ltb input.quantity 1 || ltb max_coupon_number input.quantity) bad_quantity
  throw_if (elim input.expires_at [ none ↦ false | some e ↦ leb e now ]) expiry_passed
  elim input.benefit [
    | amount_off n ↦ throw_if (not (ltb 0 n)) bad_amount
    | one_of [] ↦ err no_targets
    | one_of (t ∷ ts) ↦ ok tt
  ]
