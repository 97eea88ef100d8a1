-- ===== src/Examples/People.antt =====
-- Accounts of the example shop: an administrator, who is made a server after another was made one.
use boardbite_pos.Prelude.{◌≡◌, refl, true, false, none, some, [], ◌∷◌, arith, Result, ok, err}
use boardbite_pos.Domain.Status.{admin, front, serving}
use boardbite_pos.Auth.{StaffUser}
use boardbite_pos.Auth.Gate.{WebSession, load_staff, unauthenticated}
use boardbite_pos.Auth.Staff.{
  Accounts, UpdateInput, StaffAccountError, update_staff_user, edited, invalidate_all_sessions,
  other_active_admins,
}
use boardbite_pos.Auth.Admins.{Manned, update_staff_user_locks_out}
use boardbite_pos.Auth.Roster.{none_yet, then_act, edit, Acts-Manned}

abbrev owner : StaffUser
owner = record {
  id = 1;
  username = [];
  password_hash = 11;
  role = admin;
  is_active = true;
  must_reset_password = false;
  mfa_enabled = true;
  mfa_secret = none;
  mfa_last_used = none;
  auth_version = 4;
}

abbrev helper : StaffUser
helper = record owner { id = 2; role = front }

abbrev browser : WebSession
browser = record { staff_user_id = some 1; auth_version = 4; elevated_until = none }

abbrev accounts : Accounts
accounts = record { users = owner ∷ helper ∷ []; sessions = browser ∷ [] }

abbrev promote : UpdateInput
promote = record { target_id = 2; role = some admin; is_active = none }

abbrev step_down : UpdateInput
step_down = record { target_id = 1; role = some serving; is_active = none }

abbrev accounts_of : Result StaffAccountError Accounts → Accounts
accounts_of (ok a) = a
accounts_of (err e) = record { users = []; sessions = [] }

abbrev promoted : Accounts
unfolding update_staff_user edited invalidate_all_sessions other_active_admins
promoted = accounts_of (update_staff_user promote accounts accounts)

abbrev handed_over : Accounts
unfolding update_staff_user edited invalidate_all_sessions other_active_admins
handed_over = accounts_of (update_staff_user step_down promoted promoted)

Acts-Manned_example : Manned handed_over
unfolding update_staff_user edited invalidate_all_sessions other_active_admins
Acts-Manned_example =
    Acts-Manned {a = accounts} {b = handed_over}
      (then_act (then_act none_yet (edit promote refl)) (edit step_down refl))
      (record {
        ids_apart = (((λ e. absurd (omega (arith, e))), tt), (tt, tt));
        has_admin = omega arith;
      })

update_staff_user_locks_out_example : load_staff browser handed_over.users ≡ err unauthenticated
unfolding update_staff_user edited invalidate_all_sessions other_active_admins
update_staff_user_locks_out_example =
    update_staff_user_locks_out step_down promoted promoted browser {t = owner} {current = owner}
      {after = handed_over} refl refl refl refl refl (omega arith)
