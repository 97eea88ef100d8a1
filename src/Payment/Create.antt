-- ===== src/Payment/Create.antt =====
-- createPayment and createDiscount of server/src/services/payment.ts, around their transactions.
-- `seen` is the database that the checks before the transaction read, `db` the one that the
-- transaction finds.
use boardbite_pos.Prelude.{
  ℕ, Bool, not, none, some, [], ltb, ◌==◌, find, Result, ok, err, ◌>>=◌, ◌>>◌, throw_if, or_throw,
}
use boardbite_pos.Prelude.Int.{pos, ltb_ℤ}
use boardbite_pos.Domain.Status.{discount, is_live}
use boardbite_pos.Domain.Key.{Key}
use boardbite_pos.Domain.Rows.{Payment, PaymentMethod, Db}
use boardbite_pos.Billing.{Bill, compute_bill}
use boardbite_pos.TableSession.Close.{SettleOutcome, no_change, auto_settle}
use boardbite_pos.Payment.{
  PaymentError, session_missing, session_over, payments_disabled, table_locked, method_unusable,
  bad_discount, discount_reason_missing, discount_too_large, unique_violation, amount_mode,
  items_mode, PaymentInput, scope_key, find_key, create_row, payments_off, is_locked,
  assert_allowed, amount_tx,
}
use boardbite_pos.Payment.Items.{items_tx}

-- The method that `createDiscount` writes.
abbrev pub discount_method : ℕ
discount_method = 1

-- The checks of `createPayment` before its transaction.
unfoldable pub find_method : PaymentInput → Db → Result PaymentError PaymentMethod
unfolding is_locked
find_method input seen = do
  s ← or_throw (find (λ s. s.id == input.session_id) seen.sessions) session_missing
  throw_if (not (is_live s.status)) session_over
  throw_if (payments_off seen.settings) payments_disabled
  throw_if (is_locked s seen) table_locked
  m ← or_throw (find (λ m. m.code == input.method_code) seen.methods) method_unusable
  throw_if (not m.is_active) method_unusable
  ok m

unfoldable pub payment_tx :
    ℕ → PaymentInput → PaymentMethod → Db → Result PaymentError (Payment × Db)
payment_tx pid input m db = elim input.mode [
  | items_mode ↦ items_tx pid input m db
  | amount_mode ↦ amount_tx pid input m db
]

-- `CreatePaymentResult`, with the database after it.
pub record PaymentResult : Type 0 where
  pub payment : Payment
  pub bill : Bill
  pub settlement : SettleOutcome
  pub after : Db

abbrev pub replay : ℕ → Payment → Db → PaymentResult
replay sid p db = record {
  payment = p;
  bill = compute_bill sid db;
  settlement = no_change;
  after = db;
}

-- `finalizePayment`
unfoldable pub finalize : ℕ → ℕ → Payment × Db → PaymentResult
finalize now sid (p, db) =
    let settled = auto_settle now sid db db in
    record {
      payment = p;
      bill = compute_bill sid settled.1;
      settlement = settled.0;
      after = settled.1;
    }

-- The `catch`: after a UNIQUE violation the row that won is returned.
unfoldable pub or_winner :
    ℕ → ℕ → Key → Db → Result PaymentError (Payment × Db) → Result PaymentError PaymentResult
unfolding finalize
or_winner now sid k db (ok r) = ok (finalize now sid r)
or_winner now sid k db (err unique_violation) = elim (find_key k db.payments) [
  | none ↦ err unique_violation
  | some p ↦ ok (replay sid p db)
]
or_winner now sid k db (err e) = err e

-- `createPayment`
unfoldable pub create_payment : ℕ → ℕ → PaymentInput → Db → Db → Result PaymentError PaymentResult
unfolding find_method payment_tx or_winner
create_payment pid now input seen db =
    let sid = input.session_id in
    let k = scope_key sid input.client_key in
    let fresh = (do
      m ← find_method input seen
      or_winner now sid k db (payment_tx pid input m db)) in
    elim (find_key k seen.payments) [ some p ↦ ok (replay sid p db) | none ↦ fresh ]

-- `CreateDiscountInput`; of the reason only whether it is blank.
pub record DiscountInput : Type 0 where
  pub session_id : ℕ
  pub client_key : Key
  pub amount : ℕ
  pub has_reason : Bool
  pub created_by : ℕ

unfoldable pub discount_row : ℕ → DiscountInput → Payment
discount_row pid input = record {
  id = pid;
  session_id = some input.session_id;
  sale_id = none;
  kind = discount;
  method = discount_method;
  amount = input.amount;
  tendered = none;
  change = none;
  reversed_id = none;
  coupon_code = none;
  key = scope_key input.session_id input.client_key;
  created_by = input.created_by;
  allocations = [];
}

unfoldable pub discount_tx : ℕ → DiscountInput → Db → Result PaymentError (Payment × Db)
unfolding discount_row create_row
discount_tx pid input db = do
  assert_allowed input.session_id db
  throw_if (ltb_ℤ (compute_bill input.session_id db).remaining (pos input.amount))
      discount_too_large
  create_row (discount_row pid input) db

-- `createDiscount`
unfoldable pub create_discount : ℕ → ℕ → DiscountInput → Db → Db → Result PaymentError PaymentResult
unfolding discount_tx or_winner
create_discount pid now input seen db =
    let sid = input.session_id in
    let k = scope_key sid input.client_key in
    let fresh = (do
      throw_if (not (ltb 0 input.amount)) bad_discount
      throw_if (not input.has_reason) discount_reason_missing
      or_winner now sid k db (discount_tx pid input db)) in
    elim (find_key k seen.payments) [ some p ↦ ok (replay sid p db) | none ↦ fresh ]
