-- ===== src/Split.antt =====
-- server/src/services/splitEvenly.ts: an amount in whole won shared among people, the remainder
-- going one won each to the first ones. A `number` argument is an integer here; the fractional
-- values that `Number.isInteger` refuses are left out.
pub mod Shares
use boardbite_pos.Prelude.{ℕ, zero, suc, ◌+◌, ◌-◌, ◌*◌, ◌/◌, List, [], ◌∷◌, Result, ok, err}
use boardbite_pos.Prelude.Int.{ℤ, pos, negsuc}

-- The two `RangeError`s.
pub data RangeError : Type 0 where
  bad_total bad_people : RangeError

-- `new Array(numPeople).fill(base)`
pub fill : ℕ → ℕ → List ℕ
fill zero base = []
fill (suc n) base = base ∷ fill n base

-- `shares[i] += 1`
pub add_one_at : List ℕ → ℕ → List ℕ
add_one_at [] i = []
add_one_at (x ∷ xs) zero = (x + 1) ∷ xs
add_one_at (x ∷ xs) (suc i) = x ∷ add_one_at xs i

-- The `for` loop from index `i`, with `k` rounds left.
pub hand_out : ℕ → ℕ → List ℕ → List ℕ
hand_out i zero shares = shares
hand_out i (suc k) shares = hand_out (suc i) k (add_one_at shares i)

pub shares_of : ℕ → ℕ → List ℕ
unfolding fill hand_out add_one_at
shares_of total n =
    let base = total / n in let remainder = total - base * n in hand_out 0 remainder (fill n base)

pub split_evenly : ℤ → ℤ → Result RangeError (List ℕ)
unfolding shares_of
split_evenly (negsuc t) people = err bad_total
split_evenly (pos t) (negsuc n) = err bad_people
split_evenly (pos t) (pos zero) = err bad_people
split_evenly (pos t) (pos (suc n)) = ok (shares_of t (suc n))
