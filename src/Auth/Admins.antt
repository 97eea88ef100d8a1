-- ===== src/Auth/Admins.antt =====
-- The staff that server/src/services/staffAccount.ts leaves: who may administer, and whose sessions
-- are still valid for loadStaff of server/src/middleware/requireRole.ts.
use mathlib.Core.Path.{subst}
use boardbite_pos.Prelude.{
  ℕ, ◌≤◌, ◌≡◌, ◌≢◌, refl, sym, ap, ◌∙◌, inl, inr, Bool-cases, Bool, true, false, not, ◌&&◌, ◌||◌,
  Option, none, some, List, [], ◌∷◌, arith, ◌==◌, ==_iff, find, update, count, All, Distinct,
  Distinct-update, find_holds, find-update, some_inj, if◌then◌else◌, Result, ok, err, ◌>>◌, both_ok,
  throw_if, throw_if_ok, or_throw, or_throw_ok, ok_inj,
}
use boardbite_pos.Domain.Status.{StaffRole, admin}
use boardbite_pos.Auth.{StaffUser}
use boardbite_pos.Auth.Gate.{WebSession, same_role, load_staff, unauthenticated}
use boardbite_pos.Auth.Staff.{
  Accounts, StaffAccountError, user_not_found, last_admin, user_of, invalidate_all_sessions,
  change_user, UpdateInput, role_changed, is_deactivated, is_active_admin, other_active_admins,
  or_kept, edited, is_relevant, update_staff_user,
}

others_stay :
    (k : ℕ) (f : StaffUser → StaffUser) (us : List StaffUser)
    → count (λ u. is_active_admin u && not (u.id == k)) us
      ≤ count is_active_admin (update (λ u. u.id == k) f us)
others_stay k f [] = omega arith
others_stay k f (u ∷ us) =
    let rest = others_stay k f us in
    elim (Bool-cases (u.id == k)) [
      | inl is ↦ rw is (ground (arith, rest))
      | inr off ↦ rw off (ground (arith, rest))
    ]

untouched :
    (k : ℕ) (f : StaffUser → StaffUser) (us : List StaffUser)
    → All (λ u. u.id ≢ k) us
    → update (λ u. u.id == k) f us ≡ us
untouched k f [] h = refl
untouched k f (u ∷ us) h = elim (Bool-cases (u.id == k)) [
  | inl is ↦ absurd (h.0 ((==_iff u.id k).0 is))
  | inr off ↦ rw off (ap (λ r. u ∷ r) (untouched k f us h.1))
]

one_stays :
    (k : ℕ) (f : StaffUser → StaffUser) (us : List StaffUser) {t : StaffUser}
    → Distinct (λ u. u.id) us
    → find (λ u. u.id == k) us ≡ some t
    → (is_active_admin t ≡ true → is_active_admin (f t) ≡ true)
    → count is_active_admin us ≤ count is_active_admin (update (λ u. u.id == k) f us)
one_stays k f [] d e stays = cc
one_stays k f (u ∷ us) {t} d e stays = elim (Bool-cases (u.id == k)) [
  | inl is ↦
      let same : t ≡ u = sym (some_inj (rw is at e)) in
      let kept : is_active_admin u ≡ true → is_active_admin (f u) ≡ true =
        subst (λ v. is_active_admin v ≡ true → is_active_admin (f v) ≡ true) same stays in
      let rest =
        untouched k f us (subst (λ j. All (λ v. v.id ≢ j) us) ((==_iff u.id k).0 is) d.0) in
      rw (is, rest) (ground (arith, kept))
  | inr off ↦ let rest = one_stays k f us d.1 (rw off at e) stays in rw off (ground (arith, rest))
]

-- Whoever administers stays, or another does.
keeps_admin :
    (input : UpdateInput) (b : Bool) (t : StaffUser) (others : ℕ)
    → (is_deactivated input.is_active t && same_role t.role admin && (others == 0)) ≡ false
    → (role_changed input.role t && same_role t.role admin && (others == 0)) ≡ false
    → (others == 0) ≡ true
    → is_active_admin t ≡ true
    → is_active_admin (edited input b t) ≡ true
unfolding edited
keeps_admin input b t others h h' alone is = go input.role input.is_active h h'
  where
    go :
        (r : Option StaffRole) (active : Option Bool)
        → (is_deactivated active t && same_role t.role admin && (others == 0)) ≡ false
        → (role_changed r t && same_role t.role admin && (others == 0)) ≡ false
        → (same_role (or_kept r t.role) admin && or_kept active t.is_active) ≡ true
    go none none h h' = is
    go none (some true) h h' = ground (arith, is)
    go none (some false) h h' = ground (arith, is, h, alone)
    go (some r) none h h' = ground (arith, is, h', alone)
    go (some r) (some true) h h' = ground (arith, is, h', alone)
    go (some r) (some false) h h' = ground (arith, is, h, h', alone)

-- What updateStaffUser has read and written when it succeeds.
record IsUpdated (input : UpdateInput) (seen db after : Accounts) : Type 0 where
  target : StaffUser
  found : user_of input.target_id seen ≡ some target
  may_leave :
      (is_deactivated input.is_active target
        && same_role target.role admin
        && (other_active_admins target.id seen == 0))
      ≡ false
  may_change :
      (role_changed input.role target
        && same_role target.role admin
        && (other_active_admins target.id seen == 0))
      ≡ false
  users_are :
      after.users
      ≡ update (λ u. u.id == target.id) (edited input (is_relevant input target)) db.users

either_users :
    (b : Bool) (k : ℕ) (a : Accounts) {after : Accounts}
    → ◌≡◌ {A = Result StaffAccountError Accounts}
        (ok (if b then invalidate_all_sessions k a else a))
        (ok after)
    → after.users ≡ a.users
unfolding invalidate_all_sessions
either_users true k a e = ap (λ (x : Accounts). x.users) (sym (ok_inj _ refl e))
either_users false k a e = ap (λ (x : Accounts). x.users) (sym (ok_inj _ refl e))

update-IsUpdated :
    (input : UpdateInput) (seen db : Accounts) {after : Accounts}
    → update_staff_user input seen db ≡ ok after
    → IsUpdated input seen db after
unfolding update_staff_user
update-IsUpdated input seen db {after} e =
    let (t, there, e1) = both_ok (or_throw (user_of input.target_id seen) user_not_found) _ e in
    let alone : Bool = other_active_admins t.id seen == 0 in
    let (stays, e2) =
      throw_if_ok (is_deactivated input.is_active t && same_role t.role admin && alone) last_admin _
        e1 in
    let (same, e3) =
      throw_if_ok (role_changed input.role t && same_role t.role admin && alone) last_admin _ e2 in
    record {
      target = t;
      found = or_throw_ok _ user_not_found there;
      may_leave = stays;
      may_change = same;
      users_are =
          either_users (is_relevant input t) t.id
            (change_user t.id (edited input (is_relevant input t)) db) e3;
    }

-- Ids stand once, and somebody may administer.
pub record Manned (a : Accounts) : Type 0 where
  pub ids_apart : Distinct (λ u. u.id) a.users
  pub has_admin : 1 ≤ count is_active_admin a.users

pub update_users-Manned :
    (k : ℕ) (f : StaffUser → StaffUser) (a : Accounts) (us : List StaffUser)
    → ((u : StaffUser) → (f u).id ≡ u.id)
    → us ≡ update (λ u. u.id == k) f a.users
    → 1 ≤ count is_active_admin (update (λ u. u.id == k) f a.users)
    → Distinct (λ u. u.id) a.users
    → (Distinct (λ u. u.id) us) × (1 ≤ count is_active_admin us)
update_users-Manned k f a us keeps is h d =
    subst (λ vs. Distinct (λ (u : StaffUser). u.id) vs × (1 ≤ count is_active_admin vs)) (sym is)
      (Distinct-update (λ (u : StaffUser). u.id) (λ u. u.id == k) f keeps a.users d, h)

pub update_staff_user-Manned :
    (input : UpdateInput) (a : Accounts) {after : Accounts}
    → Manned a
    → update_staff_user input a a ≡ ok after
    → Manned after
unfolding other_active_admins edited
update_staff_user-Manned input a {after} m e =
    let r = update-IsUpdated input a a e in
    let t = r.target in
    let f = edited input (is_relevant input t) in
    let is_target : t.id ≡ input.target_id =
      (==_iff t.id input.target_id).0
        (find_holds (λ (u : StaffUser). u.id == input.target_id) a.users r.found) in
    let found : find (λ (u : StaffUser). u.id == t.id) a.users ≡ some t =
      subst (λ j. find (λ (u : StaffUser). u.id == j) a.users ≡ some t) (sym is_target) r.found in
    let left : 1 ≤ count is_active_admin (update (λ u. u.id == t.id) f a.users) =
      elim (Bool-cases (other_active_admins t.id a == 0)) [
        | inl alone ↦
            let stays = one_stays t.id f a.users m.ids_apart found (
              keeps_admin input (is_relevant input t) t (other_active_admins t.id a) r.may_leave
                r.may_change alone) in
            omega (arith, stays, m.has_admin)
        | inr others ↦ let stays = others_stay t.id f a.users in ground (arith, stays, others)
      ] in
    let both = update_users-Manned t.id f a after.users (λ u. refl) r.users_are left m.ids_apart in
    record { ids_apart = both.0; has_admin = both.1 }

-- loadStaff finds the user with a newer version than the session has.
outdated :
    (k : ℕ) (f : StaffUser → StaffUser) (us : List StaffUser) (session : WebSession) {t : StaffUser}
    → ((u : StaffUser) → (f u).id ≡ u.id)
    → find (λ u. u.id == k) us ≡ some t
    → session.staff_user_id ≡ some k
    → (session.auth_version == (f t).auth_version) ≡ false
    → load_staff session (update (λ u. u.id == k) f us) ≡ err unauthenticated
unfolding load_staff
outdated k f us session {t} keeps found owner old =
    let there = find-update (λ (u : StaffUser). u.id) (λ u. u.id == k) f keeps k us found in
    let itself : (t.id == k) ≡ true = find_holds (λ (u : StaffUser). u.id == k) us found in
    rw (owner, there, itself, old) (go (f t).is_active)
  where
    go : (b : Bool) → (throw_if (not b || true) unauthenticated >> ok (f t)) ≡ err unauthenticated
    go true = refl
    go false = refl

-- After an edit that changes the role or the activity of the row that it has read, loadStaff
-- refuses every session of that user whose version is not above the one that the write found,
-- whatever was written between the read and the write.
pub update_staff_user_locks_out :
    (input : UpdateInput) (seen db : Accounts) (session : WebSession) {t current : StaffUser}
    {after : Accounts}
    → update_staff_user input seen db ≡ ok after
    → user_of input.target_id seen ≡ some t
    → is_relevant input t ≡ true
    → user_of input.target_id db ≡ some current
    → session.staff_user_id ≡ some input.target_id
    → session.auth_version ≤ current.auth_version
    → load_staff session after.users ≡ err unauthenticated
unfolding edited
update_staff_user_locks_out input seen db session {t} {current} {after} e found relevant there owner
      version =
    let r = update-IsUpdated input seen db e in
    let same : r.target ≡ t = some_inj (sym r.found ∙ found) in
    let f = edited input (is_relevant input t) in
    let id_is : t.id ≡ input.target_id =
      (==_iff t.id input.target_id).0
        (find_holds (λ (u : StaffUser). u.id == input.target_id) seen.users found) in
    let by_row : after.users ≡ update (λ u. u.id == t.id) f db.users =
      subst
        (λ (v : StaffUser).
          after.users ≡ update (λ u. u.id == v.id) (edited input (is_relevant input v)) db.users)
        same r.users_are in
    let is : after.users ≡ update (λ u. u.id == input.target_id) f db.users =
      subst (λ k. after.users ≡ update (λ u. u.id == k) f db.users) id_is by_row in
    let old : (session.auth_version == (f current).auth_version) ≡ false =
      rw relevant (ground (arith, version)) in
    rw is (outdated input.target_id f db.users session (λ u. refl) there owner old)
