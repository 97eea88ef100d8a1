-- ===== src/Domain/Key.antt =====
-- Idempotency keys. A key is the text of an id, a fixed text and what the client sent, one behind
-- the other; the text of an id, which holds no colon, is one symbol here.
use Prim.Native.Char.{code}
use Prim.Native.String.{String}
use boardbite_pos.Prelude.{
  ℕ, ◌≡◌, refl, ap, Bool, true, false, ◌&&◌, List, [], ◌∷◌, arith, ◌==◌, ==_iff,
}

pub data Symbol : Type 0 where
  id : ℕ → Symbol
  char : ℕ → Symbol

abbrev pub Key : Type 0
Key = List Symbol

abbrev pub text : String → Key
text String.[] = []
text (String.◌∷◌ c s) = char (code c) ∷ text s

pub symbol_eq : Symbol → Symbol → Bool
symbol_eq (id a) (id b) = a == b
symbol_eq (char a) (char b) = a == b
symbol_eq (id a) (char b) = false
symbol_eq (char a) (id b) = false

unfoldable pub key_eq : Key → Key → Bool
unfolding symbol_eq
key_eq [] [] = true
key_eq (a ∷ xs) (b ∷ ys) = symbol_eq a b && key_eq xs ys
key_eq [] (b ∷ ys) = false
key_eq (a ∷ xs) [] = false

symbol_eq_refl : (a : Symbol) → symbol_eq a a ≡ true
unfolding symbol_eq
symbol_eq_refl (id a) = ground arith
symbol_eq_refl (char a) = ground arith

eq_of-symbol_eq : (a b : Symbol) → symbol_eq a b ≡ true → a ≡ b
unfolding symbol_eq
eq_of-symbol_eq (id a) (id b) h = ap id ((==_iff a b).0 h)
eq_of-symbol_eq (char a) (char b) h = ap char ((==_iff a b).0 h)
eq_of-symbol_eq (id a) (char b) h = cc
eq_of-symbol_eq (char a) (id b) h = cc

pub key_eq_refl : (k : Key) → key_eq k k ≡ true
unfolding key_eq
key_eq_refl [] = refl
key_eq_refl (a ∷ xs) = ground (arith, symbol_eq_refl a, key_eq_refl xs)

pub eq_of-key_eq : (j k : Key) → key_eq j k ≡ true → j ≡ k
unfolding key_eq
eq_of-key_eq [] [] h = refl
eq_of-key_eq (a ∷ xs) (b ∷ ys) h = ground (arith, eq_of-symbol_eq a b, eq_of-key_eq xs ys)
eq_of-key_eq [] (b ∷ ys) h = cc
eq_of-key_eq (a ∷ xs) [] h = cc
