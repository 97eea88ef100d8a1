-- ===== src/Payment/Void.antt =====
-- voidPayment and classifyReversal of server/src/services/payment.ts. A reversal is an opposite
-- row beside its original.
use boardbite_pos.Prelude.{
  ℕ, Bool, true, false, not, ◌&&◌, Option, none, some, [], ◌∷◌, ◌++◌, if◌then◌else◌, ◌==◌, is_id,
  is_some, find, update, any, Result, ok, ◌>>=◌, ◌>>◌, throw_if, or_throw,
}
use boardbite_pos.Domain.Status.{
  SessionStatus, closed, expired, PaymentKind, charge, discount, void, refund,
}
use boardbite_pos.Domain.Key.{Key, id, text}
use boardbite_pos.Domain.Rows.{Session, Payment, Db}
use boardbite_pos.Billing.{compute_bill}
use boardbite_pos.TableSession.Close.{no_change, auto_settle}
use boardbite_pos.Payment.{
  PaymentError, payment_missing, not_reversible, already_reversed, reason_missing,
  counter_sale_payment, scope_key, find_key, create_row,
}
use boardbite_pos.Payment.Create.{PaymentResult}
use boardbite_pos.Billing.Sale.{coupon_method}

abbrev pub is_original : PaymentKind → Bool
is_original charge = true
is_original discount = true
is_original _ = false

-- VOID while the session goes on, REFUND once it is over.
abbrev pub reversal_kind : SessionStatus → PaymentKind
reversal_kind closed = refund
reversal_kind expired = refund
reversal_kind _ = void

abbrev pub kind_word : PaymentKind → Key
kind_word refund = text "refund:"
kind_word _ = text "void:"

-- The session that a payment's relation leads to.
abbrev pub session_of : Payment → Db → Option Session
session_of p db = elim p.session_id [ none ↦ none | some sid ↦ find (λ s. s.id == sid) db.sessions ]

-- `classifyReversal`
unfoldable pub classify_reversal : ℕ → Db → Option PaymentKind
classify_reversal pid db = elim (find (λ p. p.id == pid) db.payments) [
  | none ↦ none
  | some p ↦ elim (session_of p db) [ none ↦ none | some s ↦ some (reversal_kind s.status) ]
]

unfoldable pub reversal_row : ℕ → ℕ → Session → Payment → Payment
reversal_row pid staff s original = record {
  id = pid;
  session_id = some s.id;
  sale_id = none;
  kind = reversal_kind s.status;
  method = original.method;
  amount = original.amount;
  tendered = none;
  change = none;
  reversed_id = some original.id;
  coupon_code = none;
  key = scope_key s.id (kind_word (reversal_kind s.status) ++ (id original.id ∷ []));
  created_by = staff;
  allocations = original.allocations;
}

-- The transaction: a reversal under the same key is returned, any other refuses.
unfoldable pub void_tx : ℕ → ℕ → Session → Payment → Db → Result PaymentError (Payment × Db)
unfolding reversal_row create_row
void_tx pid staff s original db =
    let row = reversal_row pid staff s original in
    let fresh = (do
      throw_if (any (λ q. is_id q.reversed_id original.id) db.payments) already_reversed
      create_row row db) in
    elim (find_key row.key db.payments) [ some p ↦ ok (p, db) | none ↦ fresh ]

-- `cancelTableCouponRedemption` (server/src/services/tableCoupon.ts); `code` is the number that the
-- discount's reason names.
unfoldable pub cancel_redemption : ℕ → ℕ → Option ℕ → Db → Db
cancel_redemption now sid code db = record db {
  redemptions =
      update
        (λ r.
          is_id r.session_id sid
          && not (is_some r.cancelled_at)
          && elim code [ none ↦ true | some c ↦ r.coupon_code == c ])
        (λ r. record r { cancelled_at = some now }) db.redemptions;
}

abbrev pub is_coupon_discount : Payment → Bool
is_coupon_discount p = elim p.kind [ discount ↦ p.method == coupon_method | _ ↦ false ]

-- `voidPayment`; of the reason only whether it is blank.
unfoldable pub void_payment : ℕ → ℕ → ℕ → ℕ → Bool → Db → Db → Result PaymentError PaymentResult
unfolding void_tx
void_payment pid now staff target has_reason seen db = do
  original ← or_throw (find (λ p. p.id == target) seen.payments) payment_missing
  throw_if (not (is_original original.kind)) not_reversible
  throw_if (any (λ q. is_id q.reversed_id original.id) seen.payments) already_reversed
  throw_if (not has_reason) reason_missing
  s ← or_throw (session_of original seen) counter_sale_payment
  r ← void_tx pid staff s original db
  let undone =
      if is_coupon_discount original
      then cancel_redemption now s.id original.coupon_code r.1
      else r.1
  let settled = auto_settle now s.id undone undone
  ok (record {
    payment = r.0;
    bill = compute_bill s.id settled.1;
    settlement = no_change;
    after = settled.1;
  })
