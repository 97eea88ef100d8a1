-- ===== src/Auth/Totp.antt =====
-- verifyTotpCounter of server/src/auth/totp.ts and consumeTotp of server/src/auth/mfa.ts. A code is
-- the number that its six digits write. The HMAC of a counter and the decryption of the secret are
-- parameters.
use boardbite_pos.Prelude.{
  ℕ, ◌+◌, ◌-◌, ◌/◌, ◌≤◌, ◌≡◌, refl, sym, ap, ◌∙◌, inl, inr, Bool-cases, Option-cases, Bool, true,
  false, ◌&&◌, not, Option, none, some, List, [], ◌∷◌, arith, ltb, ◌==◌, update, count, All,
  Distinct, fits_of-count, some_inj, ==_iff, if◌then◌else◌,
}
use boardbite_pos.Auth.{StaffUser}

-- What the code calls and does not implement: `hotp secret counter` below its HMAC-SHA1, and
-- `openSecret`.
pub record Codes : Type 0 where
  pub hotp : ℕ → ℕ → ℕ
  pub open_secret : ℕ → Option ℕ

-- `Math.floor(atMs / 1000 / PERIOD_SECONDS)`
abbrev pub slot_of : ℕ → ℕ
slot_of at_ms = at_ms / 30_000

-- One turn of the loop over the drifts: a later match replaces an earlier one.
abbrev pub match_slot : (ℕ → ℕ) → ℕ → ℕ → Option ℕ → Option ℕ
match_slot code token slot matched = if code slot == token then some slot else matched

-- `verifyTotpCounter` with the window of one slot; the clock is past its first thirty seconds.
unfoldable pub verify_totp_counter : (ℕ → ℕ) → ℕ → ℕ → Option ℕ
verify_totp_counter code token at_ms =
    let slot = slot_of at_ms in
    match_slot code token (slot + 1)
      (match_slot code token slot (match_slot code token (slot - 1) none))

-- `OR: [{ mfaLastUsedCounter: null }, { mfaLastUsedCounter: { lt: counter } }]`
abbrev pub unused_slot : Option ℕ → ℕ → Bool
unused_slot none counter = true
unused_slot (some last) counter = ltb last counter

abbrev pub can_claim : ℕ → ℕ → StaffUser → Bool
can_claim uid counter u = u.id == uid && unused_slot u.mfa_last_used counter

-- The slot of a right code of the user.
unfoldable pub right_slot : Codes → StaffUser → ℕ → ℕ → Option ℕ
unfolding verify_totp_counter
right_slot codes user token at_ms = elim user.mfa_secret [
  | none ↦ none
  | some sealed ↦ elim (codes.open_secret sealed) [
    | none ↦ none
    | some secret ↦ verify_totp_counter (codes.hotp secret) token at_ms
  ]
]

-- The conditional update of `consumeTotp`.
unfoldable pub claim_slot : ℕ → ℕ → List StaffUser → Bool × List StaffUser
claim_slot uid counter users = (
  count (can_claim uid counter) users == 1,
  update (can_claim uid counter) (λ u. record u { mfa_last_used = some counter }) users,
)

-- `consumeTotp`; `user` is the row as it was read before.
unfoldable pub consume_totp : Codes → StaffUser → ℕ → ℕ → List StaffUser → Bool × List StaffUser
unfolding right_slot claim_slot
consume_totp codes user token at_ms users = elim (right_slot codes user token at_ms) [
  | none ↦ (false, users)
  | some counter ↦
      if not (unused_slot user.mfa_last_used counter)
      then (false, users)
      else claim_slot user.id counter users
]

-- After a claim of a slot no row of the user can claim it or an earlier one.
claimed_slot :
    (uid counter earlier : ℕ) (users : List StaffUser)
    → earlier ≤ counter
    → All (λ u. (u.id == uid) ≡ true → unused_slot u.mfa_last_used counter ≡ true) users
    → count
        (can_claim uid earlier)
        (update (can_claim uid counter) (λ u. record u { mfa_last_used = some counter }) users)
      ≡ 0
claimed_slot uid counter earlier [] h all = refl
claimed_slot uid counter earlier (u ∷ us) h all = elim (Bool-cases (u.id == uid)) [
  | inl own ↦
      let free = all.0 own in
      let later : ltb counter earlier ≡ false = ground arith in
      rw (own, free, own, later) (omega (arith, claimed_slot uid counter earlier us h all.1))
  | inr other ↦ rw (other, other) (omega (arith, claimed_slot uid counter earlier us h all.1))
]

claim_ok :
    (uid counter : ℕ) (users : List StaffUser) {users' : List StaffUser}
    → claim_slot uid counter users ≡ (true, users')
    → (count (can_claim uid counter) users ≡ 1)
      × (users'
          ≡ update (can_claim uid counter) (λ u. record u { mfa_last_used = some counter }) users)
unfolding claim_slot
claim_ok uid counter users e =
    ((==_iff (count (can_claim uid counter) users) 1).0 (ap (λ r. r.0) e), sym (ap (λ r. r.1) e))

claim_again :
    (uid counter earlier : ℕ) (users : List StaffUser) {users' : List StaffUser}
    → Distinct (λ u. u.id) users
    → earlier ≤ counter
    → claim_slot uid counter users ≡ (true, users')
    → (claim_slot uid earlier users').0 ≡ false
unfolding claim_slot
claim_again uid counter earlier users d h e =
    let (one, is) = claim_ok uid counter users e in
    let none_left =
      claimed_slot uid counter earlier users h
        (fits_of-count (λ u. u.id) uid (λ u. unused_slot u.mfa_last_used counter) users d one) in
    rw (is, none_left) refl

-- A consumption that succeeds is a claim of the slot of the code.
consume_claims :
    (codes : Codes) (user : StaffUser) (token at_ms : ℕ) (users : List StaffUser)
    {users' : List StaffUser}
    → consume_totp codes user token at_ms users ≡ (true, users')
    → (counter : ℕ) × (right_slot codes user token at_ms ≡ some counter)
      × (claim_slot user.id counter users ≡ (true, users'))
unfolding consume_totp
consume_claims codes user token at_ms users {users'} e =
    elim (Option-cases (right_slot codes user token at_ms)) [
      | inl wrong ↦ let no : (false, users) ≡ (true, users') = rw (consume_totp, wrong) at e in cc
      | inr (counter, right) ↦ elim (Bool-cases (not (unused_slot user.mfa_last_used counter))) [
        | inl used ↦
            let no : (false, users) ≡ (true, users') = rw (consume_totp, right, used) at e in cc
        | inr free ↦ (counter, right, rw (consume_totp, right, free) at e)
      ]
    ]

-- A code whose counter is not above that of a code which was taken before is refused, whatever
-- row of the user the second request has read.
pub consume_totp_once :
    (codes : Codes) (first second : StaffUser) (token again at_ms later_ms : ℕ)
    (users : List StaffUser) {users' : List StaffUser} {slot slot' : ℕ}
    → Distinct (λ u. u.id) users
    → second.id ≡ first.id
    → right_slot codes first token at_ms ≡ some slot
    → right_slot codes second again later_ms ≡ some slot'
    → slot' ≤ slot
    → consume_totp codes first token at_ms users ≡ (true, users')
    → (consume_totp codes second again later_ms users').0 ≡ false
unfolding consume_totp
consume_totp_once codes first second token again at_ms later_ms users {users'} {slot} {slot'} d same
      right right' h e =
    let (counter, is_right, claimed) = consume_claims codes first token at_ms users e in
    let is : counter ≡ slot = some_inj (sym is_right ∙ right) in
    let refused : (claim_slot second.id slot' users').0 ≡ false =
      rw same (claim_again first.id counter slot' users d (omega (arith, h, is)) claimed) in
    elim (Bool-cases (not (unused_slot second.mfa_last_used slot'))) [
      | inl used ↦ rw (consume_totp, right', used) refl
      | inr free ↦ rw (consume_totp, right', free) refused
    ]
