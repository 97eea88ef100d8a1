-- ===== src/Coupon/Issue.antt =====
-- issueCouponBatch of server/src/services/coupon.ts: a batch and all its coupons in one
-- transaction, or nothing. `seen` is the database before the transaction.
use boardbite_pos.Prelude.{
  ℕ, ◌+◌, ◌≡◌, ◌≢◌, refl, Bool, true, false, not, Option, none, some, List, [], ◌∷◌, ◌++◌,
  if◌then◌else◌, ◌==◌, map, length, any, all, find, All, Distinct, Result, ok, err, ◌>>=◌, ◌>>◌,
  throw_if, both_ok, throw_if_ok, ok_inj, sym, ap, ◌∙◌, arith, suc, All-append, All-map,
  length-append,
}
use boardbite_pos.Domain.Key.{Key, key_eq}
use boardbite_pos.Coupon.{
  Coupon, Batch, Benefit, amount_off, one_of, Book, CouponError, target_gone, code_race,
  unique_violation, available, IssueInput, batch_key, check_issue, allocate_codes,
}
use boardbite_pos.Coupon.Numbers.{allocate_codes_exact}

-- `[...new Set(ids)]`
abbrev pub distinct_ids : List ℕ → List ℕ
distinct_ids [] = []
distinct_ids (k ∷ ks) =
    let rest = distinct_ids ks in if any (λ j. j == k) ks then rest else k ∷ rest

-- Every target is a menu item that is not deleted.
abbrev pub targets_gone : Benefit → List ℕ → Bool
targets_gone (amount_off n) menu = false
targets_gone (one_of ids) menu = not (all (λ k. any (λ m. m == k) menu) (distinct_ids ids))

abbrev pub stored_benefit : Benefit → Benefit
stored_benefit (amount_off n) = amount_off n
stored_benefit (one_of ids) = one_of (distinct_ids ids)

-- `bid` is the new batch's id, `ids` gives the id of the coupon of each code.
unfoldable pub new_coupons : ℕ → (ℕ → ℕ) → List ℕ → List Coupon
new_coupons bid ids [] = []
new_coupons bid ids (k ∷ ks) =
    record {
      id = ids k;
      batch_id = bid;
      code = k;
      status = available;
      used_at = none;
      cancelled_at = none;
    }
    ∷ new_coupons bid ids ks

-- The transaction: the batch's key and the coupons' codes are UNIQUE.
unfoldable pub issue_tx : ℕ → (ℕ → ℕ) → IssueInput → Book → Result CouponError (Batch × Book)
unfolding new_coupons
issue_tx bid ids input book = do
  throw_if (targets_gone input.benefit book.menu) target_gone
  codes ← allocate_codes (map (λ c. c.code) book.coupons) input.quantity
  throw_if (any (λ b. key_eq b.key (batch_key input)) book.batches) unique_violation
  throw_if (any (λ k. any (λ c. c.code == k) book.coupons) codes) unique_violation
  let batch : Batch = record {
    id = bid;
    benefit = stored_benefit input.benefit;
    issued_count = length codes;
    expires_at = input.expires_at;
    key = batch_key input;
  }
  ok (
    batch,
    record book {
      batches = batch ∷ book.batches;
      coupons = new_coupons bid ids codes ++ book.coupons;
    },
  )

-- The batch, whether it is an earlier one, and the database after it.
pub record Issued : Type 0 where
  pub batch : Batch
  pub reused : Bool
  pub after : Book

abbrev pub find_batch : Key → List Batch → Option Batch
find_batch k bs = find (λ b. key_eq b.key k) bs

-- The `catch` of a UNIQUE violation.
unfoldable pub or_first : Key → Book → Result CouponError (Batch × Book) → Result CouponError Issued
or_first k book (ok r) = ok (record { batch = r.0; reused = false; after = r.1 })
or_first k book (err unique_violation) = elim (find_batch k book.batches) [
  | none ↦ err code_race
  | some b ↦ ok (record { batch = b; reused = true; after = book })
]
or_first k book (err e) = err e

-- `issueCouponBatch`
unfoldable pub issue_coupon_batch :
    ℕ → ℕ → (ℕ → ℕ) → IssueInput → Book → Book → Result CouponError Issued
unfolding issue_tx or_first
issue_coupon_batch now bid ids input seen book =
    let k = batch_key input in
    let fresh = (do check_issue now input; or_first k book (issue_tx bid ids input book)) in
    elim (find_batch k seen.batches) [
      | some b ↦ ok (record { batch = b; reused = true; after = book })
      | none ↦ fresh
    ]

apart_of :
    (k : ℕ) (cs : List Coupon)
    → any (λ j. k == j) (map (λ c. c.code) cs) ≡ false
    → All (λ c. c.code ≢ k) cs
apart_of k [] h = tt
apart_of k (c ∷ cs) h = (ground arith, apart_of k cs (ground arith))

new_apart :
    (bid : ℕ) (ids : ℕ → ℕ) (k : ℕ) (ks : List ℕ)
    → All (λ j. j ≢ k) ks
    → All (λ c. c.code ≢ k) (new_coupons bid ids ks)
unfolding new_coupons
new_apart bid ids k [] h = tt
new_apart bid ids k (j ∷ ks) h = (h.0, new_apart bid ids k ks h.1)

new_Distinct :
    (bid : ℕ) (ids : ℕ → ℕ) (cs : List Coupon) (ks : List ℕ)
    → Distinct (λ k. k) ks
    → All (λ k. any (λ j. k == j) (map (λ c. c.code) cs) ≡ false) ks
    → Distinct (λ c. c.code) cs
    → Distinct (λ c. c.code) (new_coupons bid ids ks ++ cs)
unfolding new_coupons
new_Distinct bid ids cs [] d free h = h
new_Distinct bid ids cs (k ∷ ks) d free h = (
  All-append _ (new_coupons bid ids ks) cs (new_apart bid ids k ks d.0) (apart_of k cs free.0),
  new_Distinct bid ids cs ks d.1 free.1 h,
)

length-new_coupons :
    (bid : ℕ) (ids : ℕ → ℕ) (ks : List ℕ) → length (new_coupons bid ids ks) ≡ length ks
unfolding new_coupons
length-new_coupons bid ids [] = refl
length-new_coupons bid ids (k ∷ ks) = ap suc (length-new_coupons bid ids ks)

-- What an issue adds to the coupons.
pub issue_tx_ok :
    (bid : ℕ) (ids : ℕ → ℕ) (input : IssueInput) (book : Book) {b : Batch} {book' : Book}
    → issue_tx bid ids input book ≡ ok (b, book')
    → (codes : List ℕ) × (allocate_codes (map (λ c. c.code) book.coupons) input.quantity ≡ ok codes)
      × (book'.coupons ≡ new_coupons bid ids codes ++ book.coupons)
      × (b.issued_count ≡ length codes)
unfolding issue_tx
issue_tx_ok bid ids input book e =
    let (on_menu, e1) = throw_if_ok (targets_gone input.benefit book.menu) target_gone _ e in
    let (codes, given, e2) =
      both_ok (allocate_codes (map (λ c. c.code) book.coupons) input.quantity) _ e1 in
    let (new_key, e3) =
      throw_if_ok (any (λ b. key_eq b.key (batch_key input)) book.batches) unique_violation _ e2 in
    let (new_codes, e4) =
      throw_if_ok (any (λ k. any (λ c. c.code == k) book.coupons) codes) unique_violation _ e3 in
    let is = sym (ok_inj _ refl e4) in
    (codes, given, ap (λ r. r.1.coupons) is, ap (λ r. r.0.issued_count) is)

-- An issue of coupons that succeeds adds exactly the coupons asked for and keeps the codes of all
-- coupons, old and new, apart where they were apart before.
pub issue_tx_unique :
    (bid : ℕ) (ids : ℕ → ℕ) (input : IssueInput) (book : Book) {b : Batch} {book' : Book}
    → Distinct (λ c. c.code) book.coupons
    → issue_tx bid ids input book ≡ ok (b, book')
    → Distinct (λ c. c.code) book'.coupons
      × (length book'.coupons ≡ input.quantity + length book.coupons)
      × (b.issued_count ≡ input.quantity)
issue_tx_unique bid ids input book {b} {book'} d e =
    let (codes, given, coupons, counted) = issue_tx_ok bid ids input book e in
    let (amount, free, apart) = allocate_codes_exact _ input.quantity given in
    (
      rw coupons
          (new_Distinct bid ids book.coupons codes apart (All-map _ _ (λ k u. u.2) codes free) d),
      rw
          (
            coupons,
            length-append (new_coupons bid ids codes) book.coupons,
            length-new_coupons bid ids codes,
            amount,
          )
          refl,
      counted ∙ amount,
    )
