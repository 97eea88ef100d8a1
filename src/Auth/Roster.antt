-- ===== src/Auth/Roster.antt =====
-- Any sequence of what server/src/services/staffAccount.ts does to the accounts.
use boardbite_pos.Prelude.{
  ℕ, ◌≡◌, refl, sym, ap, inl, inr, Bool-cases, not, some, List, [], ◌∷◌, arith, true, false, ◌==◌,
  update, count, ok, both_ok, throw_if_ok, or_throw, ok_inj,
}
use boardbite_pos.Auth.{StaffUser}
use boardbite_pos.Auth.Password.{same_text, validate_password_policy}
use boardbite_pos.Auth.Staff.{
  Accounts, not_logged_in, wrong_password, same_password, user_not_found, Texts, user_of,
  invalidate_all_sessions, change_user, bumped, bump_auth_version, with_password, refused_for,
  change_own_password, admin_reset_password, UpdateInput, is_active_admin, update_staff_user,
}
use boardbite_pos.Auth.Admins.{Manned, update_users-Manned, update_staff_user-Manned}

-- One operation, nothing else between what it reads and what it writes.
pub data Act (a b : Accounts) : Type 0 where
  edit : (input : UpdateInput) → update_staff_user input a a ≡ ok b → Act a b
  change :
      (texts : Texts) (k : ℕ) (current new_password : List ℕ)
      → change_own_password texts k current new_password a a ≡ ok b
      → Act a b
  reset :
      (texts : Texts) (k : ℕ) (new_password : List ℕ)
      → admin_reset_password texts k new_password a a ≡ ok b
      → Act a b
  bump : (k : ℕ) → bump_auth_version k a ≡ b → Act a b

pub data Acts : Accounts → Accounts → Type 0 where
  none_yet : {a : Accounts} → Acts a a
  then_act : {a b c : Accounts} → Acts a b → Act b c → Acts a c

same_admins :
    (k : ℕ) (f : StaffUser → StaffUser) (us : List StaffUser)
    → ((u : StaffUser) → is_active_admin (f u) ≡ is_active_admin u)
    → count is_active_admin (update (λ u. u.id == k) f us) ≡ count is_active_admin us
same_admins k f [] h = refl
same_admins k f (u ∷ us) h =
    let rest = same_admins k f us h in
    elim (Bool-cases (u.id == k)) [
      | inl is ↦ rw (is, h u, rest) refl
      | inr off ↦ rw (off, rest) refl
    ]

rewritten-Manned :
    (k : ℕ) (f : StaffUser → StaffUser) (a : Accounts) {b : Accounts}
    → ((u : StaffUser) → (f u).id ≡ u.id)
    → ((u : StaffUser) → is_active_admin (f u) ≡ is_active_admin u)
    → invalidate_all_sessions k (change_user k f a) ≡ b
    → Manned a
    → Manned b
unfolding invalidate_all_sessions
rewritten-Manned k f a {b} keeps same e m =
    let stays = same_admins k f a.users same in
    let both =
      update_users-Manned k f a b.users keeps (ap (λ (x : Accounts). x.users) (sym e))
        (omega (arith, stays, m.has_admin)) m.ids_apart in
    record { ids_apart = both.0; has_admin = both.1 }

act-Manned : {a b : Accounts} → Act a b → Manned a → Manned b
unfolding change_own_password admin_reset_password bump_auth_version
act-Manned {a} {b} (edit input e) m = update_staff_user-Manned input a m e
act-Manned {a} {b} (change texts k current new_password e) m =
    let (u, there, e1) = both_ok (or_throw (user_of k a) not_logged_in) _ e in
    let (lives, e2) = throw_if_ok (not u.is_active) not_logged_in _ e1 in
    let (right, e3) =
      throw_if_ok (not (texts.verify current u.password_hash)) wrong_password _ e2 in
    let (other, e4) = throw_if_ok (same_text current new_password) same_password _ e3 in
    let (fits, good, e5) =
      both_ok
        (refused_for
          (validate_password_policy texts.plain new_password (some u.username) (some u.role)))
        _ e4 in
    rewritten-Manned u.id (with_password (texts.hash new_password) false) a (λ v. refl) (λ v. refl)
      (ok_inj _ refl e5) m
act-Manned {a} {b} (reset texts k new_password e) m =
    let (u, there, e1) = both_ok (or_throw (user_of k a) user_not_found) _ e in
    let (fits, good, e2) =
      both_ok
        (refused_for
          (validate_password_policy texts.plain new_password (some u.username) (some u.role)))
        _ e1 in
    rewritten-Manned u.id (with_password (texts.hash new_password) true) a (λ v. refl) (λ v. refl)
      (ok_inj _ refl e2) m
act-Manned {a} {b} (bump k e) m = rewritten-Manned k bumped a (λ v. refl) (λ v. refl) e m

-- Users of different ids, at least one of them an active administrator, are so again after any
-- sequence of changes to the accounts (edits of role and activity, changed and reset passwords,
-- raised versions), each of which reads the state that it writes to.
pub Acts-Manned : {a b : Accounts} → Acts a b → Manned a → Manned b
Acts-Manned none_yet m = m
Acts-Manned (then_act before act) m = act-Manned act (Acts-Manned before m)
