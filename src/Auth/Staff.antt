-- ===== src/Auth/Staff.antt =====
-- server/src/services/staffAccount.ts: passwords, roles and the activity of the staff. `seen` is what
-- the reads find, `db` what the write finds. bcrypt and the folding of texts are parameters; names
-- that are only shown are left out.
use boardbite_pos.Prelude.{
  ℕ, suc, Bool, true, false, not, ◌&&◌, ◌||◌, Option, none, some, List, ◌==◌, find, update, filter,
  count, is_id, if◌then◌else◌, Result, ok, err, ◌>>=◌, ◌>>◌, throw_if, or_throw,
}
use boardbite_pos.Domain.Status.{StaffRole, admin}
use boardbite_pos.Auth.{StaffUser}
use boardbite_pos.Auth.Gate.{WebSession, same_role}
use boardbite_pos.Auth.Password.{PasswordProblem, validate_password_policy, same_text}

-- The users and the rows of `staffSession`.
pub record Accounts : Type 0 where
  pub users : List StaffUser
  pub sessions : List WebSession

pub data StaffAccountError : Type 0 where
  not_logged_in wrong_password same_password user_not_found last_admin : StaffAccountError
  bad_password : PasswordProblem → StaffAccountError

-- bcrypt, and `trim().toLowerCase()`.
pub record Texts : Type 0 where
  pub hash : List ℕ → ℕ
  pub verify : List ℕ → ℕ → Bool
  pub plain : List ℕ → List ℕ

abbrev pub user_of : ℕ → Accounts → Option StaffUser
user_of k a = find (λ u. u.id == k) a.users

-- `invalidateAllSessions`
unfoldable pub invalidate_all_sessions : ℕ → Accounts → Accounts
invalidate_all_sessions k a = record a {
  sessions = filter (λ s. not (is_id s.staff_user_id k)) a.sessions;
}

-- An `update` of one user that raises `authVersion`, and the end of the user's sessions.
abbrev pub change_user : ℕ → (StaffUser → StaffUser) → Accounts → Accounts
change_user k f a = record a { users = update (λ u. u.id == k) f a.users }

abbrev pub bumped : StaffUser → StaffUser
bumped u = record u { auth_version = suc u.auth_version }

-- `bumpAuthVersion`
unfoldable pub bump_auth_version : ℕ → Accounts → Accounts
bump_auth_version k a = invalidate_all_sessions k (change_user k bumped a)

abbrev pub refused_for : Option PasswordProblem → Result StaffAccountError (Unit {0})
refused_for none = ok tt
refused_for (some p) = err (bad_password p)

abbrev pub with_password : ℕ → Bool → StaffUser → StaffUser
with_password hash must_reset u = record u {
  password_hash = hash;
  must_reset_password = must_reset;
  auth_version = suc u.auth_version;
}

-- `changeOwnPassword`
unfoldable pub change_own_password :
    Texts → ℕ → List ℕ → List ℕ → Accounts → Accounts → Result StaffAccountError Accounts
change_own_password texts k current new_password seen db = do
  u ← or_throw (user_of k seen) not_logged_in
  throw_if (not u.is_active) not_logged_in
  throw_if (not (texts.verify current u.password_hash)) wrong_password
  throw_if (same_text current new_password) same_password
  refused_for (validate_password_policy texts.plain new_password (some u.username) (some u.role))
  ok (
      invalidate_all_sessions u.id
        (change_user u.id (with_password (texts.hash new_password) false) db))

-- `adminResetPassword`
unfoldable pub admin_reset_password :
    Texts → ℕ → List ℕ → Accounts → Accounts → Result StaffAccountError Accounts
admin_reset_password texts k new_password seen db = do
  u ← or_throw (user_of k seen) user_not_found
  refused_for (validate_password_policy texts.plain new_password (some u.username) (some u.role))
  ok (
      invalidate_all_sessions u.id
        (change_user u.id (with_password (texts.hash new_password) true) db))

-- `UpdateStaffUserInput`
pub record UpdateInput : Type 0 where
  pub target_id : ℕ
  pub role : Option StaffRole
  pub is_active : Option Bool

abbrev pub same_bool : Bool → Bool → Bool
same_bool true b = b
same_bool false b = not b

abbrev pub role_changed : Option StaffRole → StaffUser → Bool
role_changed none t = false
role_changed (some r) t = not (same_role r t.role)

abbrev pub is_deactivated : Option Bool → StaffUser → Bool
is_deactivated (some false) t = t.is_active
is_deactivated (some true) t = false
is_deactivated none t = false

abbrev pub is_reactivated : Option Bool → StaffUser → Bool
is_reactivated (some true) t = not t.is_active
is_reactivated (some false) t = false
is_reactivated none t = false

-- `role: "ADMIN", isActive: true`
abbrev pub is_active_admin : StaffUser → Bool
is_active_admin u = same_role u.role admin && u.is_active

-- `otherActiveAdmins`
unfoldable pub other_active_admins : ℕ → Accounts → ℕ
other_active_admins k a = count (λ u. is_active_admin u && not (u.id == k)) a.users

abbrev pub or_kept {ℓ} : {A : Type ℓ} → Option A → A → A
or_kept none a = a
or_kept (some b) a = b

-- The `data` of the update.
unfoldable pub edited : UpdateInput → Bool → StaffUser → StaffUser
edited input is_relevant u = record u {
  role = or_kept input.role u.role;
  is_active = or_kept input.is_active u.is_active;
  auth_version = if is_relevant then suc u.auth_version else u.auth_version;
}

-- `securityRelevant`
abbrev pub is_relevant : UpdateInput → StaffUser → Bool
is_relevant input t =
    role_changed input.role t
    || is_deactivated input.is_active t
    || is_reactivated input.is_active t

-- `updateStaffUser`
unfoldable pub update_staff_user :
    UpdateInput → Accounts → Accounts → Result StaffAccountError Accounts
update_staff_user input seen db = do
  t ← or_throw (user_of input.target_id seen) user_not_found
  throw_if
      (is_deactivated input.is_active t
        && same_role t.role admin
        && (other_active_admins t.id seen == 0))
      last_admin
  throw_if
      (role_changed input.role t && same_role t.role admin && (other_active_admins t.id seen == 0))
      last_admin
  let after = change_user t.id (edited input (is_relevant input t)) db
  ok (if is_relevant input t then invalidate_all_sessions t.id after else after)
