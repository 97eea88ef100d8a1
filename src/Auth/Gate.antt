-- ===== src/Auth/Gate.antt =====
-- The gates of server/src/middleware/requireRole.ts, requireTableSession.ts and csrf.ts: what a
-- request goes through before its handler.
use mathlib.Core.Path.{subst}
use boardbite_pos.Prelude.{
  ℕ, ◌≡◌, refl, Bool, true, false, not, ◌&&◌, ◌||◌, Option, none, some, List, arith, ltb, ◌==◌,
  ==_iff, any, find, Result, ok, ◌>>=◌, ◌>>◌, throw_if, throw_if_ok, or_throw, or_throw_ok, both_ok,
  ok_inj,
}
use boardbite_pos.Domain.Status.{
  StaffRole, admin, front, pos, serving, SessionStatus, active, same_session_status,
}
use boardbite_pos.Domain.Rows.{Settings}
use boardbite_pos.Auth.{StaffUser}

-- The session of a request.
pub record WebSession : Type 0 where
  pub staff_user_id : Option ℕ
  pub auth_version : ℕ
  pub elevated_until : Option ℕ

-- An answer for each refusal.
pub data Refusal : Type 0 where
  unauthenticated password_reset_required mfa_setup_required forbidden step_up_required : Refusal
  session_over table_locked ordering_off bad_header : Refusal

-- `loadStaff`
unfoldable pub load_staff : WebSession → List StaffUser → Result Refusal StaffUser
load_staff session users = do
  uid ← or_throw session.staff_user_id unauthenticated
  u ← or_throw (find (λ u. u.id == uid) users) unauthenticated
  throw_if (not u.is_active || not (session.auth_version == u.auth_version)) unauthenticated
  ok u

abbrev pub role_code : StaffRole → ℕ
role_code admin = 0
role_code front = 1
role_code pos = 2
role_code serving = 3

abbrev pub same_role : StaffRole → StaffRole → Bool
same_role a b = role_code a == role_code b

-- `requireOnboardingComplete`
unfoldable pub require_onboarding : Bool → StaffUser → Result Refusal (Unit {0})
require_onboarding is_production u = do
  throw_if u.must_reset_password password_reset_required
  throw_if (is_production && same_role u.role admin && not u.mfa_enabled) mfa_setup_required

-- `requireRole`
unfoldable pub require_role : List StaffRole → StaffRole → Result Refusal (Unit {0})
require_role allowed role =
    throw_if (not (any (same_role role) allowed) && not (same_role role admin)) forbidden

-- `staffGate`
unfoldable pub staff_gate :
    Bool → List StaffRole → WebSession → List StaffUser → Result Refusal StaffUser
unfolding load_staff require_onboarding require_role
staff_gate is_production allowed session users = do
  u ← load_staff session users
  ready ← require_onboarding is_production u
  fits ← require_role allowed u.role
  ok u

-- `isElevated` and `requireStepUp`
abbrev pub is_elevated : ℕ → WebSession → Bool
is_elevated now session = elim session.elevated_until [ none ↦ false | some t ↦ ltb now t ]

unfoldable pub require_step_up : ℕ → WebSession → Result Refusal (Unit {0})
require_step_up now session = throw_if (not (is_elevated now session)) step_up_required

-- `requireOrderableSession`, of the session that `requireTableSession` found.
unfoldable pub require_orderable :
    SessionStatus → Bool → Option Settings → Result Refusal (Unit {0})
require_orderable status orders_locked settings = do
  throw_if (not (same_session_status status active)) session_over
  throw_if orders_locked table_locked
  throw_if (elim settings [ none ↦ false | some s ↦ not s.ordering_enabled ]) ordering_off

pub data Method : Type 0 where
  get head options post put patch delete : Method

abbrev pub is_safe : Method → Bool
is_safe get = true
is_safe head = true
is_safe options = true
is_safe _ = false

-- `requireCustomHeader`; `has_header` says that `X-BoardBite-Client` is 1.
unfoldable pub require_custom_header : Method → Bool → Result Refusal (Unit {0})
require_custom_header m has_header = throw_if (not (is_safe m) && not has_header) bad_header

-- What a member of the staff who is let through is, in the database as it stands.
pub record IsAdmitted (is_production : Bool) (allowed : List StaffRole) (session : WebSession)
    (users : List StaffUser) (u : StaffUser) : Type 0 where
  pub found :
      (uid : ℕ) × (session.staff_user_id ≡ some uid) × (find (λ v. v.id == uid) users ≡ some u)
  pub is_active : u.is_active ≡ true
  pub same_version : session.auth_version ≡ u.auth_version
  pub own_password : u.must_reset_password ≡ false
  pub second_factor : (is_production && same_role u.role admin && not u.mfa_enabled) ≡ false
  pub has_role : (any (same_role u.role) allowed || same_role u.role admin) ≡ true

not_thrown : (b : Bool) (e : Refusal) → throw_if b e ≡ ok tt → b ≡ false
not_thrown true e h = cc
not_thrown false e h = refl

both_hold : (a b : Bool) → (not a || not b) ≡ false → (a ≡ true) × (b ≡ true)
both_hold a b h = ground arith

either_holds : (a b : Bool) → (not a && not b) ≡ false → (a || b) ≡ true
either_holds a b h = ground arith

load_staff_ok :
    (session : WebSession) (users : List StaffUser) {u : StaffUser}
    → load_staff session users ≡ ok u
    → ((uid : ℕ) × (session.staff_user_id ≡ some uid) × (find (λ v. v.id == uid) users ≡ some u))
      × (u.is_active ≡ true)
      × (session.auth_version ≡ u.auth_version)
unfolding load_staff
load_staff_ok session users {u} e =
    let (uid, named, e1) = both_ok (or_throw session.staff_user_id unauthenticated) _ e in
    let (v, there, e2) = both_ok (or_throw (find (λ x. x.id == uid) users) unauthenticated) _ e1 in
    let (valid, e3) =
      throw_if_ok (not v.is_active || not (session.auth_version == v.auth_version)) unauthenticated
        _ e2 in
    let (enabled, same) = both_hold v.is_active (session.auth_version == v.auth_version) valid in
    subst
      (λ (w : StaffUser).
        ((k : ℕ) × (session.staff_user_id ≡ some k) × (find (λ v. v.id == k) users ≡ some w))
        × (w.is_active ≡ true)
        × (session.auth_version ≡ w.auth_version))
      (ok_inj _ refl e3)
      (
        (uid, or_throw_ok _ unauthenticated named, or_throw_ok _ unauthenticated there),
        enabled,
        (==_iff session.auth_version v.auth_version).0 same,
      )

-- A request that goes through the gate is that of an active user whose session is current, whose
-- password and second factor are set up, and whose role is allowed.
pub staff_gate-IsAdmitted :
    (is_production : Bool) (allowed : List StaffRole) (session : WebSession)
    (users : List StaffUser) {u : StaffUser}
    → staff_gate is_production allowed session users ≡ ok u
    → IsAdmitted is_production allowed session users u
unfolding staff_gate require_onboarding require_role
staff_gate-IsAdmitted is_production allowed session users {u} e =
    let (v, loaded, e1) = both_ok (load_staff session users) _ e in
    let (t, ready, e2) = both_ok (require_onboarding is_production v) _ e1 in
    let (w, fits, e3) = both_ok (require_role allowed v.role) _ e2 in
    let (found, enabled, same) = load_staff_ok session users loaded in
    let (nothing, own, r1) =
      both_ok (throw_if v.must_reset_password password_reset_required) _ ready in
    subst (IsAdmitted is_production allowed session users) (ok_inj _ refl e3) (record {
      found = found;
      is_active = enabled;
      same_version = same;
      own_password = not_thrown v.must_reset_password password_reset_required own;
      second_factor =
          not_thrown (is_production && same_role v.role admin && not v.mfa_enabled)
            mfa_setup_required r1;
      has_role = either_holds (any (same_role v.role) allowed) (same_role v.role admin) (
          not_thrown (not (any (same_role v.role) allowed) && not (same_role v.role admin))
            forbidden fits);
    })
