-- ===== src/Split/Shares.antt =====
-- The shares of `split_evenly`: their sum, their number, and how far they differ.
use native.Mathlib.Nat.{suc-add, div-add-mod}
use boardbite_pos.Prelude.{
  ℕ, zero, suc, ◌+◌, ◌-◌, ◌*◌, ◌/◌, ◌%◌, ◌≤◌, ◌<◌, ◌≡◌, refl, ap, ◌∙◌, List, ◌∷◌, ◌++◌, arith, ok,
  length, length-append, sum_by, sum_by-append, All, All-append,
}
use boardbite_pos.Prelude.Int.{pos}
use boardbite_pos.Split.{fill, add_one_at, hand_out, shares_of, split_evenly}

-- A pass that starts behind the head leaves the head alone.
hand_out-cons : (i k x : ℕ) (xs : List ℕ) → hand_out (suc i) k (x ∷ xs) ≡ x ∷ hand_out i k xs
unfolding hand_out add_one_at
hand_out-cons i zero x xs = refl
hand_out-cons i (suc k) x xs = hand_out-cons (suc i) k x (add_one_at xs i)

-- The first `k` of `k + m` equal shares are one larger.
hand_out-fill : (k m base : ℕ) → hand_out 0 k (fill (k + m) base) ≡ fill k (base + 1) ++ fill m base
unfolding hand_out add_one_at fill
hand_out-fill zero m base = ground arith
hand_out-fill (suc k) m base = rw suc-add (
    hand_out-cons 0 k (base + 1) (fill (k + m) base)
    ∙ ap (λ t. (base + 1) ∷ t) (hand_out-fill k m base))

sum-fill : (n x : ℕ) → sum_by (λ s. s) (fill n x) ≡ n * x
unfolding fill
sum-fill zero x = omega arith
sum-fill (suc n) x = omega (arith, sum-fill n x)

length-fill : (n x : ℕ) → length (fill n x) ≡ n
unfolding fill
length-fill zero x = refl
length-fill (suc n) x = ap suc (length-fill n x)

All-fill : (P : ℕ → Type 0) (n x : ℕ) → P x → All P (fill n x)
unfolding fill
All-fill P zero x p = tt
All-fill P (suc n) x p = (p, All-fill P n x p)

remainder_lem : (t n : ℕ) → 0 < n → t - t / n * n ≡ t % n
remainder_lem t n h = grind arith

-- The shares in closed form: the remainder makes as many shares one won larger, at the front.
shares_of_lem :
    (t n : ℕ) → 0 < n → shares_of t n ≡ fill (t % n) (t / n + 1) ++ fill (n - t % n) (t / n)
unfolding shares_of
shares_of_lem t n h =
    let split : n ≡ t % n + (n - t % n) = omega arith in
    rw (remainder_lem t n h) (
      ap (λ k. hand_out 0 (t % n) (fill k (t / n))) split
      ∙ hand_out-fill (t % n) (n - t % n) (t / n))

regroup : (q r m : ℕ) → r * (q + 1) + m * q ≡ (r + m) * q + r
regroup q r m = omega arith

module _ (t n : ℕ) (h : 0 < n) where
  total_regrouped : t % n * (t / n + 1) + (n - t % n) * (t / n) ≡ t
  total_regrouped =
      let whole : t % n + (n - t % n) ≡ n = omega arith in
      rw (regroup (t / n) (t % n) (n - t % n)) (rw whole (div-add-mod t n))

  sum-shares_of : sum_by (λ s. s) (shares_of t n) ≡ t
  sum-shares_of = rw (shares_of_lem t n h) (
      rw (sum_by-append (λ s. s) (fill (t % n) (t / n + 1)) (fill (n - t % n) (t / n)))
        (rw (sum-fill (t % n) (t / n + 1), sum-fill (n - t % n) (t / n)) total_regrouped))

  length-shares_of : length (shares_of t n) ≡ n
  length-shares_of = rw (shares_of_lem t n h) (
      rw (length-append (fill (t % n) (t / n + 1)) (fill (n - t % n) (t / n)))
        (rw (length-fill (t % n) (t / n + 1), length-fill (n - t % n) (t / n)) (omega arith)))

  near-shares_of : All (λ s. (t / n ≤ s) × (s ≤ t / n + 1)) (shares_of t n)
  near-shares_of = rw (shares_of_lem t n h) (
      All-append _ (fill (t % n) (t / n + 1)) (fill (n - t % n) (t / n))
        (All-fill _ (t % n) (t / n + 1) (omega arith, omega arith))
        (All-fill _ (n - t % n) (t / n) (omega arith, omega arith)))

-- A natural total among at least one person is always split, into as many shares as people, which
-- add up to exactly the total and are each the quotient rounded down or one more.
pub split_evenly_exact :
    (t n : ℕ)
    → 0 < n
    → (shares : List ℕ) × (split_evenly (pos t) (pos n) ≡ ok shares)
      × ((sum_by (λ s. s) shares ≡ t)
          × (length shares ≡ n)
          × All (λ s. (t / n ≤ s) × (s ≤ t / n + 1)) shares)
unfolding split_evenly
split_evenly_exact t zero h = absurd (omega arith)
split_evenly_exact t (suc n) h = (
  shares_of t (suc n),
  refl,
  (
    sum-shares_of t (suc n) (omega arith),
    length-shares_of t (suc n) (omega arith),
    near-shares_of t (suc n) (omega arith),
  ),
)
