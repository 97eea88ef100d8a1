-- ===== src/Auth/Password.antt =====
-- server/src/auth/passwordPolicy.ts. A text is the list of its characters; `trim` and
-- `toLowerCase` of a text are a parameter, which the lengths do not depend on.
use Prim.Native.Char.{code}
use Prim.Native.String.{String}
use boardbite_pos.Prelude.{
  ℕ, ◌≤◌, ◌≡◌, Bool, true, false, ◌&&◌, Option, none, some, List, [], ◌∷◌, arith, ltb, ◌==◌, any,
  length, if◌then◌else◌,
}
use boardbite_pos.Domain.Status.{StaffRole, admin}

abbrev pub min_admin_password_length : ℕ
min_admin_password_length = 15

abbrev pub min_staff_password_length : ℕ
min_staff_password_length = 10

abbrev pub max_password_length : ℕ
max_password_length = 200

abbrev pub codes : String → List ℕ
codes String.[] = []
codes (String.◌∷◌ c s) = code c ∷ codes s

abbrev pub same_text : List ℕ → List ℕ → Bool
same_text [] [] = true
same_text (a ∷ as') (b ∷ bs) = a == b && same_text as' bs
same_text [] (b ∷ bs) = false
same_text (a ∷ as') [] = false

-- `FORBIDDEN_VALUES`
abbrev pub forbidden_values : List (List ℕ)
forbidden_values =
    codes "change-me"
    ∷ codes "changeme"
    ∷ codes "change_me"
    ∷ codes "password"
    ∷ codes "admin"
    ∷ codes "secret"
    ∷ codes "test"
    ∷ codes "1234"
    ∷ codes "12345678"
    ∷ codes "boardbite"
    ∷ []

-- `isForbiddenValue`, of `value.trim().toLowerCase()`
abbrev pub is_forbidden_value : List ℕ → Bool
is_forbidden_value plain = any (same_text plain) forbidden_values

abbrev pub is_admin : Option StaffRole → Bool
is_admin none = false
is_admin (some admin) = true
is_admin (some _) = false

-- `minPasswordLength`
unfoldable pub min_password_length : Option StaffRole → ℕ
min_password_length role =
    if is_admin role then min_admin_password_length else min_staff_password_length

-- The reasons for which a password is refused.
pub data PasswordProblem : Type 0 where
  too_short too_long too_common same_as_username : PasswordProblem

-- `validatePasswordPolicy`; `plain` is `trim().toLowerCase()`.
unfoldable pub validate_password_policy :
    (List ℕ → List ℕ) → List ℕ → Option (List ℕ) → Option StaffRole → Option PasswordProblem
unfolding min_password_length
validate_password_policy plain password username role =
    if ltb (length password) (min_password_length role)
    then some too_short
    else if ltb max_password_length (length password)
    then some too_long
    else if is_forbidden_value (plain password)
    then some too_common
    else elim username [
      | none ↦ none
      | some name ↦ if same_text (plain password) (plain name) then some same_as_username else none
    ]

-- A password that the policy takes is neither too short nor too long, no forbidden value and not
-- the name of the user.
pub validate_password_policy_ok :
    (plain : List ℕ → List ℕ) (password : List ℕ) (name : List ℕ) (role : Option StaffRole)
    → validate_password_policy plain password (some name) role ≡ none
    → (min_password_length role ≤ length password)
      × (length password ≤ max_password_length)
      × (is_forbidden_value (plain password) ≡ false)
      × (same_text (plain password) (plain name) ≡ false)
unfolding validate_password_policy
validate_password_policy_ok plain password name role e = ground arith
