-- ===== src/Payment/Discounting.antt =====
-- Discounts (createDiscount of server/src/services/payment.ts) and the bill.
use boardbite_pos.Prelude.{ℕ, ◌≡◌, refl, false, arith, ok, both_ok, throw_if_ok, ==_iff}
use boardbite_pos.Prelude.Int.{ℤ, pos, ltb_ℤ, ◌≤ℤ◌, ◌-ℤ◌, ◌+ℤ◌, int_laws}
use boardbite_pos.Domain.Rows.{Payment, Db}
use boardbite_pos.Billing.{compute_bill}
use boardbite_pos.Billing.Effects.{Fresh, Moves, effect, compute_bill-own}
use boardbite_pos.Payment.{discount_too_large, assert_allowed}
use boardbite_pos.Payment.Create.{DiscountInput, discount_row, discount_tx}
use boardbite_pos.Payment.Charge.{create_row_ok}

not_over : (r : ℤ) (n : ℕ) → ltb_ℤ r (pos n) ≡ false → pos n ≤ℤ r
not_over r n h = ground arith

left_over : (r : ℤ) (n : ℕ) → pos n ≤ℤ r → pos 0 ≤ℤ r -ℤ (pos 0 +ℤ pos n)
left_over r n h = omega int_laws

-- A discount that is written under a fresh row id takes exactly its amount off what remains,
-- counts as discounted and not as charged, and never leaves less than nothing to be paid.
pub discount_tx_covered :
    (pid : ℕ) (input : DiscountInput) (db : Db) {p : Payment} {db' : Db}
    → Fresh pid db.payments
    → discount_tx pid input db ≡ ok (p, db')
    → Moves
        (pos 0)
        (pos input.amount)
        (compute_bill input.session_id db)
        (compute_bill input.session_id db')
      × (pos 0 ≤ℤ (compute_bill input.session_id db').remaining)
unfolding discount_tx discount_row effect
discount_tx_covered pid input db {p} {db'} fresh e =
    let sid = input.session_id in
    let r = (compute_bill sid db).remaining in
    let (t, allowed, e1) = both_ok (assert_allowed sid db) _ e in
    let (covered, e2) = throw_if_ok (ltb_ℤ r (pos input.amount)) discount_too_large _ e1 in
    let row = discount_row pid input in
    let (is, written, new_key) = create_row_ok row db e2 in
    let moved = compute_bill-own row db sid fresh ((==_iff sid sid).1 refl) refl in
    rw written
      (moved, rw moved.remaining (left_over r input.amount (not_over r input.amount covered)))
