-- ===== src/Retry.antt =====
-- withWriteConflictRetry of server/src/services/writeConflict.ts. The runs of the transaction are
-- given by their number; the waits between them are left out.
use mathlib.Core.Path.{subst}
use boardbite_pos.Prelude.{
  ℕ, zero, suc, ◌+◌, ◌≤◌, ◌<◌, ◌≡◌, refl, inl, inr, ◌⊎◌, Bool-cases, Bool, true, false, arith,
  Result, ok, err, if◌then◌else◌, ◌==◌, ==_iff,
}

abbrev pub max_retries : ℕ
max_retries = 4

-- A run that threw a write conflict (P2034, P2024 or a busy database).
abbrev pub conflicts {ℓ} : {E : Type 0} {A : Type ℓ} → (E → Bool) → Result E A → Bool
conflicts is_conflict (ok a) = false
conflicts is_conflict (err e) = is_conflict e

-- What came of the loop, and how many runs there were.
pub record Tried (E : Type 0) (A : Type 0) : Type 0 where
  pub result : Result E A
  pub runs : ℕ

-- The `for` loop from `attempt` on, with `left` retries.
unfoldable pub retry_from : {E A : Type 0} → (E → Bool) → (ℕ → Result E A) → ℕ → ℕ → Tried E A
retry_from is_conflict run zero attempt = record { result = run attempt; runs = suc attempt }
retry_from is_conflict run (suc left) attempt =
    let rest = retry_from is_conflict run left (suc attempt) in
    if conflicts is_conflict (run attempt)
    then rest
    else record { result = run attempt; runs = suc attempt }

-- `withWriteConflictRetry`: after the last retry its error is thrown, a conflict or not.
unfoldable pub with_write_conflict_retry :
    {E A : Type 0} → (E → Bool) → (ℕ → Result E A) → Tried E A
unfolding retry_from
with_write_conflict_retry is_conflict run = retry_from is_conflict run max_retries 0

module _ {E A : Type 0} (is_conflict : E → Bool) (run : ℕ → Result E A) where
  -- The last run is the result, and all before it were conflicts.
  pub record IsTried (from upto : ℕ) (t : Tried E A) : Type 0 where
    pub last : ℕ
    pub counted : t.runs ≡ suc last
    pub first_left : from ≤ last
    pub bounded : last ≤ upto
    pub result_is : t.result ≡ run last
    pub ended : (conflicts is_conflict (run last) ≡ false) ⊎ (last ≡ upto)
    pub conflicts_before : (k : ℕ) → from ≤ k → k < last → conflicts is_conflict (run k) ≡ true

  retry_from-IsTried :
      (left attempt : ℕ)
      → IsTried attempt (attempt + left) (retry_from is_conflict run left attempt)
  unfolding retry_from
  retry_from-IsTried zero attempt = record {
    last = attempt;
    counted = refl;
    first_left = omega arith;
    bounded = omega arith;
    result_is = refl;
    ended = inr (omega arith);
    conflicts_before = λ k from below. absurd (omega arith);
  }
  retry_from-IsTried (suc left) attempt = elim (Bool-cases (conflicts is_conflict (run attempt))) [
    | inl again ↦
        let rest = retry_from-IsTried left (suc attempt) in
        rw again (record {
          last = rest.last;
          counted = rest.counted;
          first_left = omega (arith, rest.first_left);
          bounded = omega (arith, rest.bounded);
          result_is = rest.result_is;
          ended = later rest.ended;
          conflicts_before = λ k from below. before k from below again rest.conflicts_before;
        })
    | inr over ↦ rw over (record {
      last = attempt;
      counted = refl;
      first_left = omega arith;
      bounded = omega arith;
      result_is = refl;
      ended = inl over;
      conflicts_before = λ k from below. absurd (omega arith);
    })
  ]
    where
      later :
          {n : ℕ}
          → (conflicts is_conflict (run n) ≡ false) ⊎ (n ≡ suc attempt + left)
          → (conflicts is_conflict (run n) ≡ false) ⊎ (n ≡ attempt + suc left)
      later (inl e) = inl e
      later (inr e) = inr (omega (arith, e))

      before :
          {n : ℕ} (k : ℕ)
          → attempt ≤ k
          → k < n
          → conflicts is_conflict (run attempt) ≡ true
          → ((j : ℕ) → suc attempt ≤ j → j < n → conflicts is_conflict (run j) ≡ true)
          → conflicts is_conflict (run k) ≡ true
      before k from below first others = elim (Bool-cases (attempt == k)) [
        | inl same ↦
            subst (λ j. conflicts is_conflict (run j) ≡ true) ((==_iff attempt k).0 same) first
        | inr apart ↦ others k (ground (arith, from, apart)) below
      ]

-- withWriteConflictRetry stops after at most five runs: every run before the last was a write
-- conflict, the result is that of the last, and the last was no conflict unless it was the fifth.
pub with_write_conflict_retry_stops :
    {E A : Type 0} (is_conflict : E → Bool) (run : ℕ → Result E A)
    → IsTried is_conflict run 0 max_retries (with_write_conflict_retry is_conflict run)
unfolding with_write_conflict_retry
with_write_conflict_retry_stops is_conflict run = retry_from-IsTried is_conflict run max_retries 0
