-- ===== src/Allocation/Exact.antt =====
-- The loop of allocateProportional (server/src/services/discountAllocation.ts) that hands out
-- the won left by rounding.
use mathlib.Core.List.{append_assoc}
use boardbite_pos.Prelude.{
  ℕ, zero, suc, ◌+◌, ◌-◌, ◌≤◌, ◌<◌, ◌≡◌, refl, ap, ◌∙◌, inl, inr, false, Option, some, List, [],
  ◌∷◌, ◌++◌, map, arith, ltb, ◌==◌, if◌then◌else◌, Bool-cases, length, length-append, ok, err,
}
use boardbite_pos.Prelude.Int.{pos}
use boardbite_pos.Allocation.{
  Line, Row, nothing_to_allocate, total_too_large, grand_of, given_of, floors, has_room_at,
  add_one_at, next_index, is_stuck, spread, zero_rows, distribute, allocate_proportional,
}
use boardbite_pos.Allocation.Rows.{slack, Fits, floors-Fits, floors-le, floors_rest}

abbrev bump : Row → Row
bump r = record r { given = r.given + 1 }

-- One round over the rows with `k` won to give, as a plain recursion.
pass : ℕ → List Row → List Row
pass zero rows = rows
pass (suc k) [] = []
pass (suc k) (r ∷ rs) =
    let taken = bump r ∷ pass k rs in
    let skipped = r ∷ pass (suc k) rs in if ltb r.given r.amount then taken else skipped

module _ (r : Row) (rs : List Row) where
  has_room_at-length :
      (pre : List Row) → has_room_at (pre ++ r ∷ rs) (length pre) ≡ ltb r.given r.amount
  unfolding has_room_at
  has_room_at-length [] = refl
  has_room_at-length (p ∷ pre) = has_room_at-length pre

  add_one_at-length :
      (pre : List Row) → add_one_at (pre ++ r ∷ rs) (length pre) ≡ pre ++ bump r ∷ rs
  unfolding add_one_at
  add_one_at-length [] = refl
  add_one_at-length (p ∷ pre) = ap (λ t. p ∷ t) (add_one_at-length pre)

-- Nothing is left to give: the loop's test ends it.
spread_done : (fuel i : ℕ) (rows : List Row) → spread fuel i 0 rows ≡ some rows
unfolding spread
spread_done zero i rows = refl
spread_done (suc fuel) i rows = refl

-- One turn of the loop at the row behind `pre`.
turn : ℕ → ℕ → List Row → Row → List Row → Option (List Row)
turn fuel left pre r rs =
    let rows = pre ++ r ∷ rs in
    let rest = spread fuel (next_index (length pre) (length rows)) left rows in
    if is_stuck rows (length pre) then some rows else rest

length-bump :
    (pre : List Row) (r : Row) (rs : List Row)
    → length (pre ++ bump r ∷ rs) ≡ length (pre ++ r ∷ rs)
length-bump [] r rs = refl
length-bump (p ∷ pre) r rs = ap suc (length-bump pre r rs)

spread-turn :
    (fuel k : ℕ) (pre : List Row) (r : Row) (rs : List Row)
    → spread (suc fuel) (length pre) (suc k) (pre ++ r ∷ rs)
      ≡ (if ltb r.given r.amount then turn fuel k pre (bump r) rs else turn fuel (suc k) pre r rs)
unfolding spread turn
spread-turn fuel k pre r rs = elim (Bool-cases (ltb r.given r.amount)) [
  | inl more ↦
      rw (has_room_at-length r rs pre, more)
        (rw (add_one_at-length r rs pre) (rw (← length-bump pre r rs)))
  | inr full ↦ rw (has_room_at-length r rs pre, full)
]

length-here :
    (pre : List Row) (r s : Row) (rs : List Row) → suc (length pre) < length (pre ++ r ∷ s ∷ rs)
length-here pre r s rs = omega (arith, length-append pre (r ∷ s ∷ rs))

-- Before the last row a turn goes on to the next one.
turn_next :
    (fuel left : ℕ) (pre : List Row) (r s : Row) (rs : List Row)
    → turn fuel left pre r (s ∷ rs)
      ≡ spread fuel (length (pre ++ r ∷ [])) left ((pre ++ r ∷ []) ++ s ∷ rs)
unfolding turn is_stuck next_index
turn_next fuel left pre r s rs =
    let n : length (pre ++ r ∷ []) ≡ suc (length pre) = omega (arith, length-append pre (r ∷ [])) in
    let no : (suc (length pre) == length (pre ++ r ∷ s ∷ rs)) ≡ false =
      ground (arith, length-here pre r s rs) in
    rw (no, n, append_assoc pre (r ∷ []) (s ∷ rs))

turn_done :
    (fuel : ℕ) (pre : List Row) (r : Row) (rs : List Row)
    → turn fuel 0 pre r rs ≡ some (pre ++ r ∷ rs)
unfolding turn
turn_done fuel pre r rs =
    rw (spread_done fuel (next_index (length pre) (length (pre ++ r ∷ rs))) (pre ++ r ∷ rs))
      (elim (Bool-cases (is_stuck (pre ++ r ∷ rs) (length pre))) [ inl e ↦ rw e | inr e ↦ rw e ])

-- While no more is left than the rows ahead have room for, the loop is the single round.
spread-pass :
    (rs : List Row) (fuel k : ℕ) (pre : List Row)
    → k ≤ slack rs
    → length rs ≤ fuel
    → spread fuel (length pre) k (pre ++ rs) ≡ some (pre ++ pass k rs)
unfolding pass
spread-pass rs fuel zero pre room_left enough = spread_done fuel (length pre) (pre ++ rs)
spread-pass [] fuel (suc k) pre room_left enough = absurd (omega arith)
spread-pass (r ∷ rs) zero (suc k) pre room_left enough = absurd (omega arith)
spread-pass (r ∷ []) (suc fuel) (suc k) pre room_left enough =
    elim (Bool-cases (ltb r.given r.amount)) [
      | inl more ↦
          let e : k ≡ 0 = ground arith in
          rw (spread-turn fuel k pre r []) (rw (more, e) (turn_done fuel pre (bump r) []))
      | inr full ↦ absurd (ground arith)
    ]
spread-pass (r ∷ s ∷ rs) (suc fuel) (suc k) pre room_left enough =
    elim (Bool-cases (ltb r.given r.amount)) [
      | inl more ↦ rw (spread-turn fuel k pre r (s ∷ rs)) (
          rw more (
            rw (turn_next fuel k pre (bump r) s rs) (
              spread-pass (s ∷ rs) fuel k (pre ++ bump r ∷ []) (ground arith) (omega arith)
              ∙ ap some (append_assoc pre (bump r ∷ []) (pass k (s ∷ rs))))))
      | inr full ↦ rw (spread-turn fuel k pre r (s ∷ rs)) (
          rw full (
            rw (turn_next fuel (suc k) pre r s rs) (
              spread-pass (s ∷ rs) fuel (suc k) (pre ++ r ∷ []) (ground arith) (omega arith)
              ∙ ap some (append_assoc pre (r ∷ []) (pass (suc k) (s ∷ rs))))))
    ]

-- What a round leaves: the keys and amounts of the rows, and the won all given.
abbrev pub line_of : Row → Line
line_of r = record { key = r.key; amount = r.amount }

pass-lines : (k : ℕ) (rs : List Row) → map line_of (pass k rs) ≡ map line_of rs
unfolding pass
pass-lines zero rs = refl
pass-lines (suc k) [] = refl
pass-lines (suc k) (r ∷ rs) = ground (arith, pass-lines k rs, pass-lines (suc k) rs)

given_of-pass : (k : ℕ) (rs : List Row) → k ≤ slack rs → given_of (pass k rs) ≡ given_of rs + k
unfolding pass given_of
given_of-pass zero rs h = omega arith
given_of-pass (suc k) [] h = absurd (omega arith)
given_of-pass (suc k) (r ∷ rs) h = ground (arith, given_of-pass k rs, given_of-pass (suc k) rs)

pass-Fits : (k : ℕ) (rs : List Row) → Fits rs → Fits (pass k rs)
unfolding pass
pass-Fits zero rs h = h
pass-Fits (suc k) [] h = tt
pass-Fits (suc k) (r ∷ rs) h = ground (arith, pass-Fits k rs h.1, pass-Fits (suc k) rs h.1)

floors-lines : (d g : ℕ) (ls : List Line) → map line_of (floors d g ls) ≡ ls
unfolding floors
floors-lines d g [] = refl
floors-lines d g (l ∷ ls) = ap (λ t. l ∷ t) (floors-lines d g ls)

zero_rows-lines : (ls : List Line) → map line_of (zero_rows ls) ≡ ls
unfolding zero_rows
zero_rows-lines [] = refl
zero_rows-lines (l ∷ ls) = ap (λ t. l ∷ t) (zero_rows-lines ls)

given_of-zero_rows : (ls : List Line) → given_of (zero_rows ls) ≡ 0
unfolding zero_rows given_of
given_of-zero_rows [] = refl
given_of-zero_rows (l ∷ ls) = omega (arith, given_of-zero_rows ls)

zero_rows-Fits : (ls : List Line) → Fits (zero_rows ls)
unfolding zero_rows
zero_rows-Fits [] = tt
zero_rows-Fits (l ∷ ls) = (omega arith, zero_rows-Fits ls)

-- The rows are an exact allocation of `t` over the lines.
abbrev pub IsExact : ℕ → List Line → List Row → Type 0
IsExact t ls rows = (given_of rows ≡ t) × (map line_of rows ≡ ls) × Fits rows

distribute-IsExact :
    (t : ℕ) (ls : List Line)
    → t ≤ grand_of ls
    → 0 < grand_of ls
    → (rows : List Row) × (distribute t ls ≡ some rows) × IsExact t ls rows
unfolding distribute
distribute-IsExact t ls below positive =
    let rows = floors t (grand_of ls) ls in
    let left = t - given_of rows in
    let fits = floors_rest t ls below positive in
    (
      pass left rows,
      spread-pass rows (length rows) left [] fits (omega arith),
      (
        omega (arith, given_of-pass left rows fits, floors-le t ls below positive),
        pass-lines left rows ∙ floors-lines t (grand_of ls) ls,
        pass-Fits left rows (floors-Fits t (grand_of ls) below positive ls),
      ),
    )

-- A total of at most the sum of the lines is always allocated within one round of the loop: the
-- parts add up to exactly the total, every line keeps its place and key, and none is given more
-- than its own amount.
pub allocate_proportional-IsExact :
    (t : ℕ) (ls : List Line)
    → t ≤ grand_of ls
    → (rows : List Row) × (allocate_proportional (pos t) ls ≡ ok (some rows)) × IsExact t ls rows
unfolding allocate_proportional
allocate_proportional-IsExact zero ls h =
    (zero_rows ls, refl, (given_of-zero_rows ls, zero_rows-lines ls, zero_rows-Fits ls))
allocate_proportional-IsExact (suc t) [] h = absurd (unfold grand_of in omega arith)
allocate_proportional-IsExact (suc t) (l ∷ ls) h =
    let (rows, e, exact) = distribute-IsExact (suc t) (l ∷ ls) h (omega arith) in
    let some_amount : (grand_of (l ∷ ls) == 0) ≡ false = ground arith in
    let not_larger : ltb (grand_of (l ∷ ls)) (suc t) ≡ false = ground arith in
    (rows, rw (some_amount, not_larger) (ap ok (e)), exact)

-- A positive total above the sum of some lines is refused, with one error where that sum is zero
-- and another where it is not.
pub allocate_proportional_refuses :
    (t : ℕ) (l : Line) (ls : List Line)
    → grand_of (l ∷ ls) < t
    → allocate_proportional (pos t) (l ∷ ls)
      ≡ (if grand_of (l ∷ ls) == 0 then err nothing_to_allocate else err total_too_large)
unfolding allocate_proportional
allocate_proportional_refuses zero l ls h = absurd (omega arith)
allocate_proportional_refuses (suc t) l ls h = ground arith
