-- ===== src/Prelude/Int.antt =====
-- Signed integers over the native numbers. Amounts that may fall below zero (a balance, a net
-- charge) are integers; sums and orders go through the two parts, which `omega` reads.
use Prim.Native.Nat.{ℕ, suc, ◌+◌, ◌-◌, ◌≤◌, ◌<◌}
use mathlib.Core.Path.{◌≡◌, refl}
use mathlib.Core.Bool.{Bool}
use native.Mathlib.Omega.{arith}
use boardbite_pos.Prelude.Tests.{ltb, leb, if◌then◌else◌}

-- `negsuc n` is -(n + 1).
pub data ℤ : Type 0 where
  pos : ℕ → ℤ
  negsuc : ℕ → ℤ

abbrev pub pos_part : ℤ → ℕ
pos_part (pos n) = n
pos_part (negsuc n) = 0

abbrev pub neg_part : ℤ → ℕ
neg_part (pos n) = 0
neg_part (negsuc n) = suc n

abbrev pub sub_ℕ : ℕ → ℕ → ℤ
sub_ℕ a b = if leb b a then pos (a - b) else negsuc (b - a - 1)

infixl 65 ◌+ℤ◌ ◌-ℤ◌
infix 50 ◌≤ℤ◌
unfoldable pub ◌+ℤ◌ : ℤ → ℤ → ℤ
a +ℤ b = sub_ℕ (pos_part a + pos_part b) (neg_part a + neg_part b)

unfoldable pub ◌-ℤ◌ : ℤ → ℤ → ℤ
a -ℤ b = sub_ℕ (pos_part a + neg_part b) (neg_part a + pos_part b)

abbrev pub ◌≤ℤ◌ : ℤ → ℤ → Type 0
a ≤ℤ b = pos_part a + neg_part b ≤ pos_part b + neg_part a

abbrev pub ltb_ℤ : ℤ → ℤ → Bool
ltb_ℤ a b = ltb (pos_part a + neg_part b) (pos_part b + neg_part a)

abbrev pub is_zero_ℤ : ℤ → Bool
is_zero_ℤ (pos n) = leb n 0
is_zero_ℤ (negsuc n) = leb 1 0

-- `Math.max(a, 0)`
abbrev pub max_zero : ℤ → ℕ
max_zero a = pos_part a

pub +ℤ_parts :
    (a b : ℤ)
    → pos_part (a +ℤ b) + neg_part a + neg_part b ≡ neg_part (a +ℤ b) + pos_part a + pos_part b
unfolding ◌+ℤ◌
+ℤ_parts a b = ground arith

pub -ℤ_parts :
    (a b : ℤ)
    → pos_part (a -ℤ b) + neg_part a + pos_part b ≡ neg_part (a -ℤ b) + pos_part a + neg_part b
unfolding ◌-ℤ◌
-ℤ_parts a b = ground arith

pub eq_of_parts : (a b : ℤ) → pos_part a + neg_part b ≡ pos_part b + neg_part a → a ≡ b
eq_of_parts a b h = ground arith

-- Only one of the two parts is not zero.
pub parts_disjoint : (a : ℤ) → 0 < pos_part a → neg_part a ≡ 0
parts_disjoint (pos n) h = refl
parts_disjoint (negsuc n) h = elim h [ ]

pub ruleset int_laws = (arith, +ℤ_parts, -ℤ_parts, eq_of_parts, parts_disjoint)

pub +ℤ_swap : (x a c : ℤ) → x +ℤ a +ℤ c ≡ x +ℤ c +ℤ a
+ℤ_swap x a c = omega int_laws

pub -ℤ_swap : (x a c : ℤ) → x +ℤ a -ℤ c ≡ x -ℤ c +ℤ a
-ℤ_swap x a c = omega int_laws

pub +ℤ_zero : (x : ℤ) → x +ℤ pos 0 ≡ x
+ℤ_zero x = omega int_laws

pub +ℤ_neg : (x a : ℤ) → x +ℤ (pos 0 -ℤ a) ≡ x -ℤ a
+ℤ_neg x a = omega int_laws

-- A balance after both of its sums have moved.
pub balance_regroup : (t c d a b : ℤ) → t -ℤ (c +ℤ a +ℤ (d +ℤ b)) ≡ t -ℤ (c +ℤ d) -ℤ (a +ℤ b)
balance_regroup t c d a b = omega int_laws
