-- ===== src/Prelude/Throws.antt =====
-- A computation that may throw: the thrown error as a value, and `do` for a chain of awaits.
use mathlib.Core.Path.{◌≡◌, refl, ap}
use mathlib.Core.Bool.{Bool, true, false}
use mathlib.Core.Option.{Option, none, some}
use boardbite_pos.Prelude.Tests.{if◌then◌else◌}

-- What came of it: the value that it returned, or what it threw.
pub data Result {ℓ} (E : Type 0) (A : Type ℓ) : Type ℓ where
  ok : A → Result E A
  err : E → Result E A

-- The rest of the function, once the first call has returned.
infixl 5 ◌>>=◌
abbrev pub ◌>>=◌ {ℓ κ} :
    {Thrown : Type 0} {Value : Type ℓ} {Last : Type κ}
    → Result Thrown Value
    → (Value → Result Thrown Last)
    → Result Thrown Last
err thrown >>= rest = err thrown
ok value >>= rest = rest value

-- The same where the first call returns nothing.
infixl 5 ◌>>◌
abbrev pub ◌>>◌ {ℓ} :
    {Thrown : Type 0} {Last : Type ℓ}
    → Result Thrown (Unit {0})
    → Result Thrown Last
    → Result Thrown Last
first >> rest = first >>= λ _. rest

-- `if (test) throw e;`
abbrev pub throw_if : {E : Type 0} → Bool → E → Result E (Unit {0})
throw_if true e = err e
throw_if false e = ok tt

-- The value, or a throw when there is none.
abbrev pub or_throw {ℓ} : {E : Type 0} {A : Type ℓ} → Option A → E → Result E A
or_throw none e = err e
or_throw (some a) e = ok a

abbrev pub is_ok {ℓ} : {E : Type 0} {A : Type ℓ} → Result E A → Bool
is_ok (ok a) = true
is_ok (err e) = false

-- Where the whole returned, the first call did, and so did the rest at its value.
pub both_ok {ℓ κ} :
    {Thrown : Type 0} {Value : Type ℓ} {Last : Type κ} (first : Result Thrown Value)
    (rest : Value → Result Thrown Last) {last : Last}
    → (first >>= rest) ≡ ok last
    → (value : Value) × (first ≡ ok value) × (rest value ≡ ok last)
both_ok (err thrown) rest h = cc
both_ok (ok value) rest h = (value, refl, h)

-- The sequel of a test that did not throw.
pub throw_if_ok {ℓ} :
    {E : Type 0} {B : Type ℓ} (b : Bool) (e : E) (k : Result E B) {r : B}
    → (throw_if b e >> k) ≡ ok r
    → (b ≡ false) × (k ≡ ok r)
throw_if_ok true e k h = cc
throw_if_ok false e k h = (refl, h)

-- The branch that an `if` with a throwing `else` took.
pub if_ok {ℓ} :
    {E : Type 0} {A : Type ℓ} (b : Bool) (m : Result E A) (e : E) {r : A}
    → (if b then m else err e) ≡ ok r
    → (b ≡ true) × (m ≡ ok r)
if_ok true m e h = (refl, h)
if_ok false m e h = cc

pub or_throw_ok {ℓ} :
    {E : Type 0} {A : Type ℓ} (o : Option A) (e : E) {a : A} → or_throw o e ≡ ok a → o ≡ some a
or_throw_ok none e h = cc
or_throw_ok (some a) e h = cc

pub ok_inj {ℓ} : {E : Type 0} {A : Type ℓ} {x y : A} (r : Result E A) → r ≡ ok x → r ≡ ok y → x ≡ y
ok_inj r h k = cc

-- The branch that an `if` with a throwing `then` took.
pub else_ok {ℓ} :
    {E : Type 0} {A : Type ℓ} (b : Bool) (m : Result E A) (e : E) {r : A}
    → (if b then err e else m) ≡ ok r
    → (b ≡ false) × (m ≡ ok r)
else_ok true m e h = cc
else_ok false m e h = (refl, h)

-- A throw passed on as the caller's error.
abbrev pub map_err {ℓ} :
    {Inner Outer : Type 0} {Value : Type ℓ}
    → (Inner → Outer)
    → Result Inner Value
    → Result Outer Value
map_err wrap (ok value) = ok value
map_err wrap (err thrown) = err (wrap thrown)

pub map_err_ok {ℓ} :
    {Inner Outer : Type 0} {Value : Type ℓ} (wrap : Inner → Outer) (r : Result Inner Value)
    {value : Value}
    → map_err wrap r ≡ ok value
    → r ≡ ok value
map_err_ok wrap (ok value) h = ap ok (ok_inj _ refl h)
map_err_ok wrap (err thrown) h = cc
