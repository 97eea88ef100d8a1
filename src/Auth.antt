-- ===== src/Auth.antt =====
-- Who may do what: server/src/auth/mfa.ts, totp.ts and passwordPolicy.ts, the gates of
-- server/src/middleware/requireRole.ts, requireTableSession.ts and csrf.ts, and the accounts of
-- server/src/services/staffAccount.ts.
pub mod Totp
pub mod Gate
pub mod Password
pub mod Staff
pub mod Admins
pub mod Roster
use boardbite_pos.Prelude.{ℕ, Bool, Option, List}
use boardbite_pos.Domain.Status.{StaffRole}

-- A row of `staffUser`, with the columns that decide something here.
pub record StaffUser : Type 0 where
  pub id : ℕ
  pub username : List ℕ
  pub password_hash : ℕ
  pub role : StaffRole
  pub is_active : Bool
  pub must_reset_password : Bool
  pub mfa_enabled : Bool
  pub mfa_secret : Option ℕ  -- `mfaSecretEncrypted`, as it is stored
  pub mfa_last_used : Option ℕ
  pub auth_version : ℕ
