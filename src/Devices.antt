-- ===== src/Devices.antt =====
-- server/src/services/customerSession.ts: the devices of the guests at a table. The hash of a token
-- (SHA-256) and of a join code (HMAC) is a parameter `hash`.
use boardbite_pos.Prelude.{
  ℕ, ◌+◌, ◌*◌, ◌≡◌, ◌≢◌, ◌⊎◌, inl, inr, refl, ap, Bool, true, false, not, ◌||◌, Option, none, some,
  ◌∷◌, arith, leb, ltb, ◌==◌, ==_iff, is_some, find, find_holds, filter, All_find, Result, ok,
  ◌>>=◌, ◌>>◌, throw_if, or_throw, both_ok, throw_if_ok, or_throw_ok, ok_inj,
}
use boardbite_pos.Domain.Status.{is_live}
use boardbite_pos.Domain.Rows.{Session, CloseReason, Device, Db}
use boardbite_pos.TableSession.{in_service}
use boardbite_pos.TableSession.Close.{close_session}
use boardbite_pos.TableSession.Settle.{close_session_ends}

abbrev pub customer_session_ttl : ℕ
customer_session_ttl = 12 * 60 * 60 * 1000

-- `joinCodeMatches`
unfoldable pub join_code_matches : (ℕ → ℕ → ℕ) → ℕ → Option ℕ → ℕ → Bool
join_code_matches hash sid none code = false
join_code_matches hash sid (some stored) code = stored == hash sid code

-- `issueDeviceSession`; `raw` is the random token.
unfoldable pub issue_device_session : (ℕ → ℕ) → ℕ → ℕ → ℕ → Db → Db
issue_device_session hash raw now sid db = record db {
  devices =
      record {
        session_id = sid;
        token_hash = hash raw;
        expires_at = now + customer_session_ttl;
        revoked_at = none;
      }
      ∷ db.devices;
}

-- `ResolvedCustomerSession`, and the `null` in its place.
pub record Resolved : Type 0 where
  pub session_id : ℕ
  pub table_id : ℕ
  pub orders_locked : Bool

pub data Refused : Type 0 where
  refused : Refused

-- `resolveCustomerSession`
unfoldable pub resolve_customer_session : (ℕ → ℕ) → ℕ → ℕ → Db → Result Refused Resolved
resolve_customer_session hash raw now db = do
  d ← or_throw (find (λ d. d.token_hash == hash raw) db.devices) refused
  throw_if (is_some d.revoked_at) refused
  throw_if (leb d.expires_at now) refused
  s ← or_throw (find (λ s. s.id == d.session_id) db.sessions) refused
  t ← or_throw (find (λ t. t.id == s.table_id) db.tables) refused
  throw_if (not (is_live s.status) || not (in_service t.status)) refused
  ok (record { session_id = s.id; table_id = s.table_id; orders_locked = t.orders_locked })

abbrev pub long_gone : ℕ → Device → Bool
long_gone cutoff d =
    ltb d.expires_at cutoff
    || elim d.revoked_at [ none ↦ false | some at_time ↦ ltb at_time cutoff ]

-- `cleanupExpiredDeviceSessions`; `cutoff` is the present less the retention.
unfoldable pub cleanup_expired_device_sessions : ℕ → Db → Db
cleanup_expired_device_sessions cutoff db = record db {
  devices = filter (λ d. not (long_gone cutoff d)) db.devices;
}

resolved_live :
    (hash : ℕ → ℕ) (raw now : ℕ) (db : Db) {r : Resolved}
    → resolve_customer_session hash raw now db ≡ ok r
    → (s : Session) × (find (λ t. t.id == s.id) db.sessions ≡ some s)
      × (is_live s.status ≡ true)
      × (s.id ≡ r.session_id)
unfolding resolve_customer_session
resolved_live hash raw now db e =
    let (d, known, e1) =
      both_ok (or_throw (find (λ d. d.token_hash == hash raw) db.devices) refused) _ e in
    let (valid, e2) = throw_if_ok (is_some d.revoked_at) refused _ e1 in
    let (in_time, e3) = throw_if_ok (leb d.expires_at now) refused _ e2 in
    let (s, of_device, e4) =
      both_ok (or_throw (find (λ s. s.id == d.session_id) db.sessions) refused) _ e3 in
    let (t, at_table, e5) =
      both_ok (or_throw (find (λ t. t.id == s.table_id) db.tables) refused) _ e4 in
    let (going, e6) =
      throw_if_ok (not (is_live s.status) || not (in_service t.status)) refused _ e5 in
    let found = or_throw_ok _ refused of_device in
    let own : s.id ≡ d.session_id = (==_iff s.id d.session_id).0 (find_holds _ db.sessions found) in
    (s, rw own found, ground arith, ap (λ r. r.session_id) (ok_inj _ refl e6))

not_running : (a b : Bool) → a ≡ true → (a ≡ false) ⊎ (b ≡ false) → b ≡ false
not_running a b h (inl e) = cc
not_running a b h (inr e) = e

-- Once a session has been ended, resolveCustomerSession leads no token to it, at whatever time it
-- is presented: a token that still resolves leads to another session.
pub close_session_locks_out :
    (hash : ℕ → ℕ) (raw sid tid now later : ℕ) (reason : CloseReason) (db : Db) {db' : Db}
    {r : Resolved}
    → close_session sid tid now reason db ≡ some db'
    → resolve_customer_session hash raw later db' ≡ ok r
    → r.session_id ≢ sid
close_session_locks_out hash raw sid tid now later reason db {db'} {r} e resolved same =
    let (s, found, going, is) = resolved_live hash raw later db' resolved in
    let (over, revoked) = close_session_ends sid tid now reason db e in
    let ended = All_find _ (λ t. t.id == s.id) db'.sessions over found in
    let stopped : is_live s.status ≡ false =
      not_running (s.id == sid) (is_live s.status) (rw (is, same) ((==_iff sid sid).1 refl))
        ended in
    cc
