-- ===== src/Allocation/Rows.antt =====
-- The rounded-down shares of allocateProportional (server/src/services/discountAllocation.ts).
use native.Mathlib.Nat.{
  mul_comm, le_trans, mul-le-mul_left, mul-le-mul_right, le_of_mul-le-mul_left, div-le_of_le-mul,
  lt-mul-div-succ, mul-div-le,
}
use boardbite_pos.Prelude.{
  ℕ, ◌+◌, ◌-◌, ◌*◌, ◌/◌, ◌≤◌, ◌<◌, List, [], ◌∷◌, arith, ltb, if◌then◌else◌, sum_by, All, inl, inr,
  Bool-cases,
}
use boardbite_pos.Allocation.{Line, Row, grand_of, given_of, floors}

abbrev pub room : Row → ℕ
room r = if ltb r.given r.amount then 1 else 0

-- How many rows still have room.
abbrev pub slack : List Row → ℕ
slack rows = sum_by room rows

-- No row is given more than its own amount.
abbrev pub Fits : List Row → Type 0
Fits = All (λ r. r.given ≤ r.amount)

module _ (d g : ℕ) (below : d ≤ g) (positive : 0 < g) where
  floor_fits : (a : ℕ) → d * a / g ≤ a
  floor_fits a = div-le_of_le-mul g (mul-le-mul_right a below)

  floor_short : (a : ℕ) → d * a ≤ g * (d * a / g + (if ltb (d * a / g) a then 1 else 0))
  floor_short a = elim (Bool-cases (ltb (d * a / g) a)) [
    | inl more ↦ rw more (omega (arith, lt-mul-div-succ (d * a) positive))
    | inr full ↦ rw full (le_trans (mul-le-mul_right a below) (mul-le-mul_left g (ground arith)))
  ]

  pub floors-Fits : (ls : List Line) → Fits (floors d g ls)
  unfolding floors
  floors-Fits [] = tt
  floors-Fits (l ∷ ls) = (floor_fits l.amount, floors-Fits ls)

  floors_below : (ls : List Line) → g * given_of (floors d g ls) ≤ d * grand_of ls
  unfolding floors given_of grand_of
  floors_below [] = omega arith
  floors_below (l ∷ ls) = omega (arith, floors_below ls, mul-div-le (d * l.amount) g)

  floors_short :
      (ls : List Line) → d * grand_of ls ≤ g * (given_of (floors d g ls) + slack (floors d g ls))
  unfolding floors given_of grand_of
  floors_short [] = omega arith
  floors_short (l ∷ ls) = omega (arith, floors_short ls, floor_short l.amount)

-- Over all the lines the rounded shares do not pass the total, and the won that are left are no
-- more than the rows that have room.
module _ (d : ℕ) (ls : List Line) (below : d ≤ grand_of ls) (positive : 0 < grand_of ls) where
  pub floors-le : given_of (floors d (grand_of ls) ls) ≤ d
  floors-le =
      le_of_mul-le-mul_left
        (rw (mul_comm (grand_of ls) d) (floors_below d (grand_of ls) below positive ls)) positive

  pub floors_rest : d - given_of (floors d (grand_of ls) ls) ≤ slack (floors d (grand_of ls) ls)
  floors_rest = omega (
    arith,
    le_of_mul-le-mul_left {m = d}
        {n = given_of (floors d (grand_of ls) ls) + slack (floors d (grand_of ls) ls)}
        (rw (mul_comm (grand_of ls) d) (floors_short d (grand_of ls) below positive ls)) positive,
  )
