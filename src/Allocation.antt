-- ===== src/Allocation.antt =====
-- server/src/services/discountAllocation.ts: a discount on a whole sale divided over its lines in
-- whole won. A line's amount is a natural number, since prices are stored without a sign.
pub mod Rows
pub mod Exact
use boardbite_pos.Prelude.{
  ℕ, zero, suc, ◌+◌, ◌-◌, ◌*◌, ◌/◌, Bool, true, false, Option, none, some, List, [], ◌∷◌,
  if◌then◌else◌, ltb, ◌==◌, length, all, sum_by, Result, ok, err,
}
use boardbite_pos.Prelude.Int.{ℤ, pos, negsuc}

-- `AllocatableLine`
pub record Line : Type 0 where
  pub key : ℕ
  pub amount : ℕ

-- A result row beside the line that it belongs to: `given` is `result[i].amount`.
pub record Row : Type 0 where
  pub key : ℕ
  pub amount : ℕ
  pub given : ℕ

-- The three errors thrown.
pub data AllocationError : Type 0 where
  bad_total nothing_to_allocate total_too_large : AllocationError

unfoldable pub grand_of : List Line → ℕ
grand_of lines = sum_by (λ l. l.amount) lines

unfoldable pub given_of : List Row → ℕ
given_of rows = sum_by (λ r. r.given) rows

-- `Math.floor((total * line.amount) / grand)` for each line.
unfoldable pub floor_row : ℕ → ℕ → Line → Row
floor_row total grand l = record {
  key = l.key;
  amount = l.amount;
  given = total * l.amount / grand;
}

unfoldable pub floors : ℕ → ℕ → List Line → List Row
unfolding floor_row
floors total grand [] = []
floors total grand (l ∷ ls) = floor_row total grand l ∷ floors total grand ls

-- `result[i].amount < lines[i].amount`; past the end there is nothing to read.
unfoldable pub has_room_at : List Row → ℕ → Bool
has_room_at [] i = false
has_room_at (r ∷ rs) zero = ltb r.given r.amount
has_room_at (r ∷ rs) (suc i) = has_room_at rs i

-- `result[i].amount += 1`
unfoldable pub add_one_at : List Row → ℕ → List Row
add_one_at [] i = []
add_one_at (r ∷ rs) zero = record r { given = r.given + 1 } ∷ rs
add_one_at (r ∷ rs) (suc i) = r ∷ add_one_at rs i

-- `(i + 1) % lines.length`
unfoldable pub next_index : ℕ → ℕ → ℕ
next_index i n = if suc i == n then 0 else suc i

-- The test of the `break`: the end of a round, with no line that has room.
unfoldable pub is_stuck : List Row → ℕ → Bool
is_stuck rows i =
    if suc i == length rows
    then all (λ r. if ltb r.given r.amount then false else true) rows
    else false

-- The `for` loop on fuel, one unit for each turn; `none` means that the fuel ran out.
unfoldable pub spread : ℕ → ℕ → ℕ → List Row → Option (List Row)
unfolding has_room_at add_one_at next_index is_stuck
spread fuel i zero rows = some rows
spread zero i (suc k) rows = none
spread (suc fuel) i (suc k) rows =
    let taken = has_room_at rows i in
    let rows' = if taken then add_one_at rows i else rows in
    let left = if taken then k else suc k in
    let rest = spread fuel (next_index i (length rows)) left rows' in
    if is_stuck rows' i then some rows' else rest

unfoldable pub zero_row : Line → Row
zero_row l = record { key = l.key; amount = l.amount; given = 0 }

unfoldable pub zero_rows : List Line → List Row
unfolding zero_row
zero_rows [] = []
zero_rows (l ∷ ls) = zero_row l ∷ zero_rows ls

-- The body below the guards; one round of the lines is fuel enough (Allocation/Exact.antt).
unfoldable pub distribute : ℕ → List Line → Option (List Row)
unfolding grand_of given_of floors spread
distribute total lines =
    let rows = floors total (grand_of lines) lines in
    spread (length rows) 0 (total - given_of rows) rows

unfoldable pub allocate : ℕ → List Line → Result AllocationError (Option (List Row))
unfolding distribute zero_rows
allocate zero lines = ok (some (zero_rows lines))
allocate (suc t) [] = ok (some [])
allocate (suc t) (l ∷ ls) =
    if grand_of (l ∷ ls) == 0
    then err nothing_to_allocate
    else if ltb (grand_of (l ∷ ls)) (suc t)
    then err total_too_large
    else ok (distribute (suc t) (l ∷ ls))

-- `allocateProportional`
unfoldable pub allocate_proportional : ℤ → List Line → Result AllocationError (Option (List Row))
unfolding allocate
allocate_proportional (pos t) lines = allocate t lines
allocate_proportional (negsuc t) lines = err bad_total
