-- ===== src/Prelude/Lists.antt =====
-- Lists measured by native numbers, and the queries on tables of rows that the services make:
-- the first row that fits, an update of the rows that fit, their number, and a sum over them.
use Prim.Native.Nat.{ℕ, suc, ◌+◌, ◌≤◌}
use mathlib.Core.Path.{◌≡◌, refl, sym, ap}
use mathlib.Core.Logic.{◌≢◌, inl, inr}
use mathlib.Core.Bool.{Bool, true, false, ◌&&◌, ◌||◌}
use mathlib.Core.Option.{Option, none, some}
use mathlib.Core.List.{List, [], ◌∷◌, ◌++◌, map}
use native.Mathlib.Omega.{arith}
use boardbite_pos.Prelude.Tests.{if◌then◌else◌, ◌==◌, ==_iff, Bool-cases}

module _ {ℓ} {A : Type ℓ} where
  abbrev pub length : List A → ℕ
  length [] = 0
  length (x ∷ xs) = suc (length xs)

  abbrev pub any : (A → Bool) → List A → Bool
  any p [] = false
  any p (x ∷ xs) = p x || any p xs

  abbrev pub all : (A → Bool) → List A → Bool
  all p [] = true
  all p (x ∷ xs) = p x && all p xs

  abbrev pub filter : (A → Bool) → List A → List A
  filter p [] = []
  filter p (x ∷ xs) = let rest = filter p xs in if p x then x ∷ rest else rest

  -- `findUnique` and `findFirst`
  abbrev pub find : (A → Bool) → List A → Option A
  find p [] = none
  find p (x ∷ xs) = let rest = find p xs in if p x then some x else rest

  -- `updateMany`: the rows after it, and in `count` the number that it reports
  abbrev pub update : (A → Bool) → (A → A) → List A → List A
  update p f [] = []
  update p f (x ∷ xs) = (if p x then f x else x) ∷ update p f xs

  abbrev pub count : (A → Bool) → List A → ℕ
  count p [] = 0
  count p (x ∷ xs) = (if p x then 1 else 0) + count p xs

  abbrev pub sum_by : (A → ℕ) → List A → ℕ
  sum_by f [] = 0
  sum_by f (x ∷ xs) = f x + sum_by f xs

  pub length-append : (xs ys : List A) → length (xs ++ ys) ≡ length xs + length ys
  length-append [] ys = omega arith
  length-append (x ∷ xs) ys = omega (arith, length-append xs ys)

  pub sum_by-append : (f : A → ℕ) (xs ys : List A) → sum_by f (xs ++ ys) ≡ sum_by f xs + sum_by f ys
  sum_by-append f [] ys = omega arith
  sum_by-append f (x ∷ xs) ys = omega (arith, sum_by-append f xs ys)

  pub count-append : (p : A → Bool) (xs ys : List A) → count p (xs ++ ys) ≡ count p xs + count p ys
  count-append p [] ys = omega arith
  count-append p (x ∷ xs) ys = omega (arith, count-append p xs ys)

module _ {ℓ κ} {A : Type ℓ} (P : A → Type κ) where
  abbrev pub All : List A → Type κ
  All [] = Unit
  All (x ∷ xs) = P x × All xs

  pub All-append : (xs ys : List A) → All xs → All ys → All (xs ++ ys)
  All-append [] ys hx hy = hy
  All-append (x ∷ xs) ys (p, hx) hy = (p, All-append xs ys hx hy)

module _ {ℓ} {A : Type ℓ} where
  -- What an `updateMany` makes of the rows, where `P` holds of them before.
  pub All-update {κ μ} :
      (P : A → Type κ) (Q : A → Type μ) (p : A → Bool) (f : A → A)
      → ((x : A) → P x → p x ≡ true → Q (f x))
      → ((x : A) → P x → p x ≡ false → Q x)
      → (xs : List A) → All P xs
      → All Q (update p f xs)
  All-update P Q p f hit miss [] h = tt
  All-update P Q p f hit miss (x ∷ xs) h = elim (Bool-cases (p x)) [
    | inl e ↦ rw e (hit x h.0 e, All-update P Q p f hit miss xs h.1)
    | inr e ↦ rw e (miss x h.0 e, All-update P Q p f hit miss xs h.1)
  ]

  pub All-map {κ μ} :
      (P : A → Type κ) (Q : A → Type μ)
      → ((x : A) → P x → Q x)
      → (xs : List A) → All P xs
      → All Q xs
  All-map P Q f [] h = tt
  All-map P Q f (x ∷ xs) h = (f x h.0, All-map P Q f xs h.1)

  pub All-both {κ μ} :
      (P : A → Type κ) (Q : A → Type μ) (xs : List A)
      → All P xs
      → All Q xs
      → All (λ x. P x × Q x) xs
  All-both P Q [] h k = tt
  All-both P Q (x ∷ xs) h k = ((h.0, k.0), All-both P Q xs h.1 k.1)

  pub update_none : (p : A → Bool) (f : A → A) (xs : List A) → count p xs ≡ 0 → update p f xs ≡ xs
  update_none p f [] h = refl
  update_none p f (x ∷ xs) h = elim (Bool-cases (p x)) [
    | inl e ↦ absurd (ground arith)
    | inr e ↦ rw e (ap (λ t. x ∷ t) (update_none p f xs (ground arith)))
  ]

-- An update whose new rows do not fit leaves no more that do.
pub count-update-le {ℓ} :
    {A : Type ℓ} (p q : A → Bool) (f : A → A)
    → ((x : A) → p (f x) ≡ false)
    → (xs : List A) → count p (update q f xs) ≤ count p xs
count-update-le p q f dead [] = omega arith
count-update-le p q f dead (x ∷ xs) = ground (arith, dead x, count-update-le p q f dead xs)

-- Rows under a primary key: no two have the same.
abbrev pub Distinct : {A : Type 0} → (A → ℕ) → List A → Type 0
Distinct key [] = Unit
Distinct key (x ∷ xs) = All (λ y. key y ≢ key x) xs × Distinct key xs

module _ {A : Type 0} (key : A → ℕ) (k : ℕ) (b : A → Bool) where
  abbrev fits : A → Bool
  fits x = key x == k && b x

  pub count_absent : (xs : List A) → All (λ y. key y ≢ k) xs → count fits xs ≡ 0
  count_absent [] h = refl
  count_absent (x ∷ xs) h = ground (arith, count_absent xs h.1)

  -- If one row of that key fits, every row of that key does: it is the same.
  pub fits_of-count :
      (xs : List A)
      → Distinct key xs
      → count fits xs ≡ 1
      → All (λ x. (key x == k) ≡ true → b x ≡ true) xs
  fits_of-count [] d h = tt
  fits_of-count (x ∷ xs) d h = elim (Bool-cases (key x == k)) [
    | inl same ↦
        let e : key x ≡ k = (==_iff (key x) k).0 same in
        let others : All (λ y. key y ≢ k) xs = rw e at d.0 in
        (
          λ _. ground (arith, count_absent xs others),
          All-map _ _ (λ y ne yes_k. absurd (ne ((==_iff (key y) k).0 yes_k))) xs others,
        )
    | inr other ↦ (λ yes_k. cc, fits_of-count xs d.1 (ground arith))
  ]

module _ {A : Type 0} (key : A → ℕ) (p : A → Bool) (f : A → A)
    (keeps : (x : A) → key (f x) ≡ key x) where
  key-update : (x : A) → key (if p x then f x else x) ≡ key x
  key-update x = elim (Bool-cases (p x)) [ inl e ↦ rw e (keeps x) | inr e ↦ rw e ]

  All-apart-update :
      (k : ℕ) (xs : List A) → All (λ y. key y ≢ k) xs → All (λ y. key y ≢ k) (update p f xs)
  All-apart-update k [] h = tt
  All-apart-update k (x ∷ xs) h = (rw (key-update x) h.0, All-apart-update k xs h.1)

  -- An update that leaves the key alone keeps the keys apart.
  pub Distinct-update : (xs : List A) → Distinct key xs → Distinct key (update p f xs)
  Distinct-update [] h = tt
  Distinct-update (x ∷ xs) h =
      (rw (key-update x) (All-apart-update (key x) xs h.0), Distinct-update xs h.1)

pub All-every {ℓ κ} : {A : Type ℓ} (P : A → Type κ) → ((x : A) → P x) → (xs : List A) → All P xs
All-every P f [] = tt
All-every P f (x ∷ xs) = (f x, All-every P f xs)

pub some_inj {ℓ} : {A : Type ℓ} {x y : A} → some x ≡ some y → x ≡ y
some_inj h = cc

pub find_holds {ℓ} :
    {A : Type ℓ} (p : A → Bool) (xs : List A) {x : A} → find p xs ≡ some x → p x ≡ true
find_holds p [] h = cc
find_holds p (y ∷ ys) {x} h = elim (Bool-cases (p y)) [
  | inl e ↦ let same : some y ≡ some x = rw e at h in rw (sym (some_inj same)) e
  | inr e ↦ find_holds p ys (rw e at h)
]

-- Two lists of the same length, related row by row.
pub data Each {A : Type 0} (R : A → A → Type 0) : List A → List A → Type 0 where
  no_row : Each R [] []
  row : {x y : A} {xs ys : List A} → R x y → Each R xs ys → Each R (x ∷ xs) (y ∷ ys)

module _ {A : Type 0} where
  pub Each-update :
      (R : A → A → Type 0) (p : A → Bool) (f : A → A)
      → ((x : A) → p x ≡ true → R x (f x))
      → ((x : A) → p x ≡ false → R x x)
      → (xs : List A) → Each R xs (update p f xs)
  Each-update R p f hit miss [] = no_row
  Each-update R p f hit miss (x ∷ xs) = elim (Bool-cases (p x)) [
    | inl e ↦ rw e (row (hit x e) (Each-update R p f hit miss xs))
    | inr e ↦ rw e (row (miss x e) (Each-update R p f hit miss xs))
  ]

  pub Each-refl : (R : A → A → Type 0) → ((x : A) → R x x) → (xs : List A) → Each R xs xs
  Each-refl R r [] = no_row
  Each-refl R r (x ∷ xs) = row (r x) (Each-refl R r xs)

  pub Each-comp :
      (R S T : A → A → Type 0)
      → ((x y z : A) → R x y → S y z → T x z)
      → {xs ys zs : List A} → Each R xs ys
      → Each S ys zs
      → Each T xs zs
  Each-comp R S T c no_row no_row = no_row
  Each-comp R S T c (row {x = x} {y = y} r rs) (row {y = z} s ss) =
      row (c x y z r s) (Each-comp R S T c rs ss)

pub All_find {ℓ κ} :
    {A : Type ℓ} (P : A → Type κ) (p : A → Bool) (xs : List A) {x : A}
    → All P xs
    → find p xs ≡ some x
    → P x
All_find P p [] h e = cc
All_find P p (y ∷ ys) {x} h e = elim (Bool-cases (p y)) [
  | inl t ↦ let same : some y ≡ some x = rw t at e in rw (sym (some_inj same)) (h.0)
  | inr f ↦ All_find P p ys h.1 (rw f at e)
]

module _ {ℓ} {A : Type ℓ} (p : A → Bool) where
  pub filter_none : (xs : List A) → All (λ x. p x ≡ false) xs → filter p xs ≡ []
  filter_none [] h = refl
  filter_none (x ∷ xs) h = rw h.0 (filter_none xs h.1)

  pub filter-append : (xs ys : List A) → filter p (xs ++ ys) ≡ filter p xs ++ filter p ys
  filter-append [] ys = refl
  filter-append (x ∷ xs) ys = elim (Bool-cases (p x)) [
    | inl e ↦ rw e (ap (λ t. x ∷ t) (filter-append xs ys))
    | inr e ↦ rw e (filter-append xs ys)
  ]

  pub All-filter {κ} : (P : A → Type κ) (xs : List A) → All P xs → All P (filter p xs)
  All-filter P [] h = tt
  All-filter P (x ∷ xs) h = elim (Bool-cases (p x)) [
    | inl e ↦ rw e (h.0, All-filter P xs h.1)
    | inr e ↦ rw e (All-filter P xs h.1)
  ]

pub All_of-map {ℓ κ μ} :
    {A : Type ℓ} {B : Type κ} (P : B → Type μ) (f : A → B) (xs : List A)
    → All P (map f xs)
    → All (λ x. P (f x)) xs
All_of-map P f [] h = tt
All_of-map P f (x ∷ xs) h = (h.0, All_of-map P f xs h.1)

-- An update that leaves the key alone, seen from the first row of a key.
module _ {A : Type 0} (key : A → ℕ) (q : A → Bool) (f : A → A)
    (keeps : (x : A) → key (f x) ≡ key x) where
  pub find-update :
      (k : ℕ) (xs : List A) {x : A}
      → find (λ y. key y == k) xs ≡ some x
      → find (λ y. key y == k) (update q f xs) ≡ some (if q x then f x else x)
  find-update k [] h = cc
  find-update k (y ∷ ys) {x} h = elim (Bool-cases (key y == k)) [
    | inl here ↦
        let same : y ≡ x = some_inj (rw here at h) in
        elim (Bool-cases (q y)) [
          | inl e ↦ let qx : q x ≡ true = rw (sym same) e in rw (e, keeps y, here, qx, same) refl
          | inr e ↦ let qx : q x ≡ false = rw (sym same) e in rw (e, here, qx, same) refl
        ]
    | inr off ↦ elim (Bool-cases (q y)) [
      | inl e ↦ rw (e, keeps y, off) (find-update k ys (rw off at h))
      | inr e ↦ rw (e, off) (find-update k ys (rw off at h))
    ]
  ]

  pub find-update-none :
      (k : ℕ) (xs : List A)
      → find (λ y. key y == k) xs ≡ none
      → find (λ y. key y == k) (update q f xs) ≡ none
  find-update-none k [] h = refl
  find-update-none k (y ∷ ys) h = elim (Bool-cases (key y == k)) [
    | inl here ↦ absurd (found_none (rw here at h))
    | inr off ↦ elim (Bool-cases (q y)) [
      | inl e ↦ rw (e, keeps y, off) (find-update-none k ys (rw off at h))
      | inr e ↦ rw (e, off) (find-update-none k ys (rw off at h))
    ]
  ]
    where
      found_none : some y ≢ none
      found_none h = cc
