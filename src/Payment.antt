-- ===== src/Payment.antt =====
-- server/src/services/payment.ts: charges, discounts and reversals of a table session. A
-- transaction is a function of the database that it finds; a throw leaves that database as it was.
pub mod Items
pub mod Create
pub mod Void
pub mod Charge
pub mod Quantities
pub mod Reverse
pub mod Replay
pub mod Discounting
use boardbite_pos.Prelude.{
  ℕ, ◌+◌, ◌-◌, min, Bool, true, false, not, ◌&&◌, Option, none, some, List, [], ◌∷◌, ◌++◌,
  if◌then◌else◌, ltb, ◌==◌, find, any, Result, ok, err, ◌>>=◌, ◌>>◌, throw_if, or_throw,
}
use boardbite_pos.Prelude.Int.{ℤ, pos, ltb_ℤ, max_zero}
use boardbite_pos.Domain.Status.{PaymentKind, charge, discount, is_live}
use boardbite_pos.Domain.Key.{Key, id, text, key_eq}
use boardbite_pos.Domain.Rows.{Session, Allocation, Payment, PaymentMethod, Settings, Db}
use boardbite_pos.Billing.{compute_bill}

-- A constructor for each `PaymentValidationError`, and the UNIQUE violation of the key (P2002).
pub data PaymentError : Type 0 where
  session_missing session_over payments_disabled table_locked method_unusable : PaymentError
  tender_missing nothing_owed amount_missing amount_too_large : PaymentError
  no_items bad_quantity duplicate_item item_missing foreign_item item_not_billed : PaymentError
  quantity_too_large over_remaining tender_too_small : PaymentError
  payment_missing not_reversible already_reversed reason_missing counter_sale_payment : PaymentError
  bad_discount discount_reason_missing discount_too_large unique_violation : PaymentError

-- The HTTP status that an error carries.
pub status_of : PaymentError → ℕ
status_of session_missing = 404
status_of item_missing = 404
status_of payment_missing = 404
status_of session_over = 409
status_of quantity_too_large = 409
status_of over_remaining = 409
status_of already_reversed = 409
status_of counter_sale_payment = 409
status_of payments_disabled = 403
status_of table_locked = 403
status_of foreign_item = 403
status_of unique_violation = 500
status_of _ = 400

pub data PaymentMode : Type 0 where
  amount_mode items_mode : PaymentMode

pub record AllocationInput : Type 0 where
  pub order_item_id : ℕ
  pub quantity : ℕ

-- `CreatePaymentInput`
pub record PaymentInput : Type 0 where
  pub session_id : ℕ
  pub client_key : Key
  pub method_code : ℕ
  pub mode : PaymentMode
  pub amount : Option ℕ
  pub tendered : Option ℕ
  pub allocations : List AllocationInput
  pub created_by : ℕ

-- `scopePaymentIdempotencyKey`
unfoldable pub scope_key : ℕ → Key → Key
scope_key sid client = id sid ∷ (text ":" ++ client)

-- `payment.findUnique({ where: { idempotencyKey } })`
abbrev pub find_key : Key → List Payment → Option Payment
find_key k ps = find (λ p. key_eq p.key k) ps

-- `payment.create`: the key is UNIQUE.
unfoldable pub create_row : Payment → Db → Result PaymentError (Payment × Db)
create_row p db =
    if any (λ q. key_eq q.key p.key) db.payments
    then err unique_violation
    else ok (p, record db { payments = p ∷ db.payments })

abbrev pub payments_off : Option Settings → Bool
payments_off none = false
payments_off (some s) = not s.payments_enabled

-- `session.table.paymentsLocked`
unfoldable pub is_locked : Session → Db → Bool
is_locked s db = elim (find (λ t. t.id == s.table_id) db.tables) [
  | none ↦ false
  | some t ↦ t.payments_locked
]

-- `assertPaymentStillAllowed`
unfoldable pub assert_allowed : ℕ → Db → Result PaymentError (Unit {0})
unfolding is_locked
assert_allowed sid db = do
  s ← or_throw (find (λ s. s.id == sid) db.sessions) session_missing
  throw_if (not (is_live s.status)) session_over
  throw_if (is_locked s db) table_locked
  throw_if (payments_off db.settings) payments_disabled

-- `!n || n <= 0` on an optional natural number
abbrev pub positive : Option ℕ → Option ℕ
positive none = none
positive (some n) = if ltb 0 n then some n else none

-- What a charge moves: the amount, and for cash what was given and what goes back.
pub record Settled : Type 0 where
  pub amount : ℕ
  pub tendered : Option ℕ
  pub change : Option ℕ

-- The branch on `method.isCash` of `createAmountBasedPayment`.
unfoldable pub settle_amount : Bool → PaymentInput → ℤ → Result PaymentError Settled
settle_amount true input remaining = do
  tendered ← or_throw (positive input.tendered) tender_missing
  let owed = max_zero remaining
  throw_if (not (ltb 0 owed)) nothing_owed
  let amount = min tendered owed
  ok (record { amount = amount; tendered = some tendered; change = some (tendered - amount) })
settle_amount false input remaining = do
  amount ← or_throw (positive input.amount) amount_missing
  throw_if (ltb_ℤ remaining (pos amount)) amount_too_large
  ok (record { amount = amount; tendered = none; change = none })

-- The `data` of a charge.
unfoldable pub charge_row : ℕ → PaymentInput → PaymentMethod → Settled → List Allocation → Payment
charge_row pid input m s allocations = record {
  id = pid;
  session_id = some input.session_id;
  sale_id = none;
  kind = charge;
  method = m.code;
  amount = s.amount;
  tendered = s.tendered;
  change = s.change;
  reversed_id = none;
  coupon_code = none;
  key = scope_key input.session_id input.client_key;
  created_by = input.created_by;
  allocations = allocations;
}

-- `createAmountBasedPayment`; `pid` is the new row's id.
unfoldable pub amount_tx :
    ℕ → PaymentInput → PaymentMethod → Db → Result PaymentError (Payment × Db)
unfolding settle_amount charge_row create_row
amount_tx pid input m db = do
  assert_allowed input.session_id db
  s ← settle_amount m.is_cash input (compute_bill input.session_id db).remaining
  create_row (charge_row pid input m s []) db
