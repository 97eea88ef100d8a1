-- ===== src/Coupon/Numbers.antt =====
-- The numbers that allocateCodes of server/src/services/coupon.ts gives out.
use mathlib.Core.Path.{subst}
use boardbite_pos.Prelude.{
  ℕ, zero, suc, ◌+◌, ◌≤◌, ◌<◌, ◌≡◌, refl, inl, inr, Bool-cases, Bool, true, false, List, [], ◌∷◌,
  arith, if◌then◌else◌, ltb, leb, ◌==◌, length, any, count, All, All-map, Distinct, ok, err,
  else_ok, ok_inj, ◌&&◌, ◌≢◌, ◌↔◌, ==_iff, sym, Result,
}
use boardbite_pos.Coupon.{
  CouponError, numbers_exhausted, max_coupon_number, free_codes, allocate_codes,
}

abbrev taken_by : ℕ → ℕ → Bool
taken_by n k = n == k

-- How many of `fuel` numbers from `n` on are free.
abbrev pub free_count : List ℕ → ℕ → ℕ → ℕ
free_count taken zero n = 0
free_count taken (suc fuel) n =
    (if any (taken_by n) taken then 0 else 1) + free_count taken fuel (suc n)

above :
    (n : ℕ) (taken : List ℕ)
    → (if any (taken_by n) taken then 1 else 0) + count (leb (suc n)) taken ≤ count (leb n) taken
above n [] = ground arith
above n (k ∷ ks) = ground (arith, above n ks)

-- Of `fuel` numbers, those that are not free stand in the list.
pigeon : (taken : List ℕ) (fuel n : ℕ) → fuel ≤ free_count taken fuel n + count (leb n) taken
pigeon taken zero n = ground arith
pigeon taken (suc fuel) n = ground (arith, pigeon taken fuel (suc n), above n taken)

count_most : (p : ℕ → Bool) (ks : List ℕ) → count p ks ≤ length ks
count_most p [] = ground arith
count_most p (k ∷ ks) = ground (arith, count_most p ks)

length-free_codes :
    (taken : List ℕ) (fuel n wanted : ℕ)
    → wanted ≤ free_count taken fuel n
    → length (free_codes taken fuel n wanted) ≡ wanted
unfolding free_codes
length-free_codes taken zero n wanted h = ground arith
length-free_codes taken (suc fuel) n zero h = refl
length-free_codes taken (suc fuel) n (suc wanted) h = ground (
  arith,
  length-free_codes taken fuel (suc n) (suc wanted),
  length-free_codes taken fuel (suc n) wanted,
)

-- A number of the range that no coupon has.
abbrev Usable : List ℕ → ℕ → ℕ → ℕ → Type 0
Usable taken low high k = (low ≤ k) × (k < high) × (any (taken_by k) taken ≡ false)

free_codes-Usable :
    (taken : List ℕ) (fuel n wanted : ℕ)
    → All (Usable taken n (n + fuel)) (free_codes taken fuel n wanted)
      × Distinct (λ k. k) (free_codes taken fuel n wanted)
unfolding free_codes
free_codes-Usable taken zero n wanted = (tt, tt)
free_codes-Usable taken (suc fuel) n zero = (tt, tt)
free_codes-Usable taken (suc fuel) n (suc wanted) = elim (Bool-cases (any (taken_by n) taken)) [
  | inl e ↦
      let (fit, apart) = free_codes-Usable taken fuel (suc n) (suc wanted) in
      rw e (All-map _ _ (λ k u. (omega arith, omega arith, u.2)) _ fit, apart)
  | inr e ↦
      let (fit, apart) = free_codes-Usable taken fuel (suc n) wanted in
      rw e (
        ((omega arith, omega arith, e), All-map _ _ (λ k u. (omega arith, omega arith, u.2)) _ fit),
        (All-map _ _ (λ k u same. omega (arith, same)) _ fit, apart),
      )
]

ltb_no : (a b : ℕ) → ltb a b ≡ false → b ≤ a
ltb_no a b h = ground arith

within : (k : ℕ) → k < 1000 → k ≤ 999
within k h = omega arith

enough_free :
    (wanted taken free seen most : ℕ)
    → taken + wanted ≤ most
    → most ≤ free + seen
    → seen ≤ taken
    → wanted ≤ free
enough_free wanted taken free seen most a b c = omega arith

-- When allocateCodes succeeds it gives out exactly as many numbers as were asked for, each from 1
-- to 999, none of them taken and no two the same.
pub allocate_codes_exact :
    (taken : List ℕ) (wanted : ℕ) {codes : List ℕ}
    → allocate_codes taken wanted ≡ ok codes
    → (length codes ≡ wanted)
      × All (λ k. (1 ≤ k) × (k ≤ max_coupon_number) × (any (λ j. k == j) taken ≡ false)) codes
      × Distinct (λ k. k) codes
unfolding allocate_codes
allocate_codes_exact taken wanted {codes} e =
    let given = free_codes taken max_coupon_number 1 wanted in
    let (fits, done) =
      else_ok (ltb max_coupon_number (length taken + wanted)) (ok given) numbers_exhausted e in
    let is : codes ≡ given = ok_inj _ e (rw fits refl) in
    let room = ltb_no max_coupon_number (length taken + wanted) fits in
    let (fit, apart) = free_codes-Usable taken max_coupon_number 1 wanted in
    let enough : wanted ≤ free_count taken max_coupon_number 1 =
      enough_free wanted (length taken) _ _ max_coupon_number room
        (pigeon taken max_coupon_number 1) (count_most (leb 1) taken) in
    rw is (
      length-free_codes taken max_coupon_number 1 wanted enough,
      All-map _ _ (λ k (u : Usable taken 1 1000 k). (u.0, within k u.1, u.2)) _ fit,
      apart,
    )

abbrev between : ℕ → ℕ → ℕ → Bool
between low high k = leb low k && ltb k high

one_of_each :
    (n : ℕ) (taken : List ℕ)
    → Distinct (λ k. k) taken
    → count (taken_by n) taken ≤ (if any (taken_by n) taken then 1 else 0)
one_of_each n [] d = omega arith
one_of_each n (k ∷ ks) (apart, d) = elim (Bool-cases (n == k)) [
  | inl e ↦
      let same : n ≡ k = (==_iff n k).0 e in
      let none_more = absent n ks (subst (λ j. All (λ y. y ≢ j) ks) (sym same) apart) in
      rw e (omega (arith, none_more))
  | inr e ↦ let rest = one_of_each n ks d in rw e (ground (arith, rest))
]
  where
    absent : (n : ℕ) (ks : List ℕ) → All (λ y. y ≢ n) ks → count (taken_by n) ks ≡ 0
    absent n [] h = refl
    absent n (k ∷ ks) (ne, h) = ground (arith, ne, absent n ks h)

split_first :
    (n fuel : ℕ) (taken : List ℕ)
    → count (between n (n + suc fuel)) taken
      ≡ count (taken_by n) taken + count (between (suc n) (suc n + fuel)) taken
split_first n fuel [] = omega arith
split_first n fuel (k ∷ ks) = ground (arith, split_first n fuel ks)

-- Of `fuel` numbers, no more are free than the different ones of the list leave.
no_more_free :
    (taken : List ℕ) (fuel n : ℕ)
    → Distinct (λ k. k) taken
    → free_count taken fuel n + count (between n (n + fuel)) taken ≤ fuel
no_more_free taken zero n d = none_between n taken
  where
    none_between : (n : ℕ) (ks : List ℕ) → 0 + count (between n (n + 0)) ks ≤ 0
    none_between n [] = omega arith
    none_between n (k ∷ ks) = ground (arith, none_between n ks)
no_more_free taken (suc fuel) n d =
    let rest = no_more_free taken fuel (suc n) d in
    let one = one_of_each n taken d in
    let first = split_first n fuel taken in ground (arith, rest, one, first)

all_between :
    (taken : List ℕ)
    → All (λ k. (1 ≤ k) × (k ≤ max_coupon_number)) taken
    → count (between 1 (1 + max_coupon_number)) taken ≡ length taken
all_between [] h = refl
all_between (k ∷ ks) ((low, high), h) = ground (arith, low, high, all_between ks h)

-- Where the coupons that exist have different numbers from 1 to 999, allocateCodes refuses with
-- the error of exhausted numbers exactly if more numbers are asked for than there are from 1 to
-- 999 that no coupon has.
pub allocate_codes_refuses :
    (taken : List ℕ) (wanted : ℕ)
    → Distinct (λ k. k) taken
    → All (λ k. (1 ≤ k) × (k ≤ max_coupon_number)) taken
    → (allocate_codes taken wanted ≡ err numbers_exhausted)
      ↔ (free_count taken max_coupon_number 1 < wanted)
unfolding allocate_codes
allocate_codes_refuses taken wanted d h =
    let few = no_more_free taken max_coupon_number 1 d in
    let enough = pigeon taken max_coupon_number 1 in
    let most = count_most (leb 1) taken in
    let all_in = all_between taken h in
    let free_is : free_count taken max_coupon_number 1 + length taken ≡ max_coupon_number =
      exact _ _ _ _ few enough most all_in in
    elim (Bool-cases (ltb max_coupon_number (length taken + wanted))) [
      | inl over ↦ rw over ((λ e. over_most _ _ _ free_is over), λ less. refl)
      | inr fits ↦
          rw fits
            ((λ e. absurd (ok_is_no_err e)), λ less. absurd (under_most _ _ _ free_is fits less))
    ]
  where
    exact :
        (free taken seen inside : ℕ)
        → free + inside ≤ 999
        → 999 ≤ free + seen
        → seen ≤ taken
        → inside ≡ taken
        → free + taken ≡ 999
    exact free taken seen inside a b c e = omega arith

    over_most :
        (free taken wanted : ℕ)
        → free + taken ≡ 999
        → ltb 999 (taken + wanted) ≡ true
        → free < wanted
    over_most free taken wanted e h = ground (arith, e, h)

    under_most :
        (free taken wanted : ℕ)
        → free + taken ≡ 999
        → ltb 999 (taken + wanted) ≡ false
        → free < wanted
        → ⊥
    under_most free taken wanted e h less = ground (arith, e, h, less)

    ok_is_no_err :
        {codes : List ℕ}
        → ◌≡◌ {A = Result CouponError (List ℕ)} (ok codes) (err numbers_exhausted)
        → ⊥
    ok_is_no_err e = cc
