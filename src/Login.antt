-- ===== src/Login.antt =====
-- server/src/auth/loginGuard.ts: how many failed logins are let through, and how long they wait.
-- User names and addresses are only compared.
use boardbite_pos.Prelude.{
  ℕ, ◌+◌, ◌-◌, ◌*◌, ◌^◌, ◌≤◌, ◌≡◌, ◌≢◌, refl, min, Bool, true, false, not, ◌&&◌, ◌||◌, Option, none,
  some, List, [], ◌∷◌, arith, if◌then◌else◌, leb, ◌==◌, is_id, filter, count,
}

abbrev pub pair_fail_threshold : ℕ
pair_fail_threshold = 8

abbrev pub ip_fail_threshold : ℕ
ip_fail_threshold = 30

abbrev pub account_fail_threshold : ℕ
account_fail_threshold = 60

abbrev pub pair_window : ℕ
pair_window = 10 * 60 * 1000

abbrev pub ip_window : ℕ
ip_window = 60 * 60 * 1000

abbrev pub account_window : ℕ
account_window = 30 * 60 * 1000

pub record Attempt : Type 0 where
  pub username : ℕ
  pub ip : Option ℕ
  pub succeeded : Bool
  pub created_at : ℕ

-- `backoffDelayMs`
unfoldable pub backoff_delay : ℕ → ℕ
backoff_delay failures = if leb failures 2 then 0 else min (250 * 2 ^ (failures - 2 - 1)) 4000

-- A failed attempt of the last `window` milliseconds.
abbrev pub recent_failure : ℕ → ℕ → Attempt → Bool
recent_failure window now a = not a.succeeded && leb now (a.created_at + window)

abbrev pub pair_failures : ℕ → ℕ → ℕ → List Attempt → ℕ
pair_failures user ip now as_of =
    count (λ a. a.username == user && (is_id a.ip ip && recent_failure pair_window now a)) as_of

abbrev pub ip_failures : ℕ → ℕ → List Attempt → ℕ
ip_failures ip now as_of = count (λ a. is_id a.ip ip && recent_failure ip_window now a) as_of

abbrev pub account_failures : ℕ → ℕ → List Attempt → ℕ
account_failures user now as_of =
    count (λ a. a.username == user && recent_failure account_window now a) as_of

-- Refused, or let through after a wait.
pub data Gate : Type 0 where
  blocked : Gate
  allowed_after : ℕ → Gate

-- `assertLoginAllowed`
unfoldable pub assert_login_allowed : ℕ → Option ℕ → ℕ → List Attempt → Gate
unfolding backoff_delay
assert_login_allowed user (some ip) now log =
    let pair = pair_failures user ip now log in
    if leb pair_fail_threshold pair || leb ip_fail_threshold (ip_failures ip now log)
    then blocked
    else allowed_after (backoff_delay pair)
assert_login_allowed user none now log =
    let n = account_failures user now log in
    if leb account_fail_threshold n then blocked else allowed_after (backoff_delay n)

-- `recordLoginAttempt`
unfoldable pub record_login_attempt : ℕ → Option ℕ → Bool → ℕ → List Attempt → List Attempt
record_login_attempt user ip succeeded now log =
    record { username = user; ip = ip; succeeded = succeeded; created_at = now } ∷ log

abbrev pub from_ip : Option ℕ → Attempt → Bool
from_ip none a = true
from_ip (some ip) a = is_id a.ip ip

-- `clearFailedAttempts`
unfoldable pub clear_failed_attempts : ℕ → Option ℕ → List Attempt → List Attempt
clear_failed_attempts user ip log =
    filter (λ a. not (a.username == user && (not a.succeeded && from_ip ip a))) log

backoff_delay_most : (n : ℕ) → backoff_delay n ≤ 4000
unfolding backoff_delay
backoff_delay_most n = ground arith

-- A failed or successful attempt, before the address is added.
pub record Try : Type 0 where
  pub username : ℕ
  pub succeeded : Bool
  pub at : ℕ

-- The attempts of one address, recorded one behind the other.
abbrev pub try_from : Option ℕ → List Try → List Attempt → List Attempt
try_from ip [] log = log
try_from ip (t ∷ ts) log = record_login_attempt t.username ip t.succeeded t.at (try_from ip ts log)

-- A failure with this name in the ten minutes before `now`.
abbrev pub RecentlyFailed : ℕ → ℕ → Try → Type 0
RecentlyFailed user now t = (t.username ≡ user) × (t.succeeded ≡ false) × (now ≤ t.at + pair_window)

other_pair :
    (user ip other now : ℕ) (ts : List Try) (log : List Attempt)
    → other ≢ ip
    → (pair_failures user other now (try_from (some ip) ts log) ≡ pair_failures user other now log)
      × (ip_failures other now (try_from (some ip) ts log) ≡ ip_failures other now log)
unfolding record_login_attempt
other_pair user ip other now [] log ne = (refl, refl)
other_pair user ip other now (t ∷ ts) log ne =
    ground (arith, other_pair user ip other now ts log ne)

-- Attempts from one address, however many, at whatever instants, with whatever names and outcomes,
-- change neither whether a login from another address is let through at any instant nor its wait;
-- and no wait exceeds four seconds.
pub other_address_unaffected :
    (user ip other now k : ℕ) (ts : List Try) (log : List Attempt)
    → other ≢ ip
    → (assert_login_allowed user (some other) now (try_from (some ip) ts log)
        ≡ assert_login_allowed user (some other) now log)
      × (backoff_delay k ≤ 4000)
unfolding assert_login_allowed
other_address_unaffected user ip other now k ts log ne =
    let (pair, from_other) = other_pair user ip other now ts log ne in
    (rw (pair, from_other) refl, backoff_delay_most k)
