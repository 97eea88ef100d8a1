-- ===== src/TableCoupon/Covered.antt =====
-- What the coupon of a table (server/src/services/tableCoupon.ts) does to its bill.
use mathlib.Core.Path.{subst}
use boardbite_pos.Prelude.{
  ℕ, ◌≤◌, ◌<◌, ◌≡◌, refl, sym, ap, false, Option, List, ◌∷◌, arith, leb, ◌==◌, ==_iff, any, filter,
  ok, both_ok, throw_if_ok, or_throw, ok_inj, map_err, map_err_ok,
}
use boardbite_pos.Prelude.Int.{ℤ, pos, max_zero, ◌≤ℤ◌, ◌-ℤ◌, ◌+ℤ◌, int_laws}
use boardbite_pos.Domain.Key.{key_eq}
use boardbite_pos.Domain.Rows.{Item, Allocation, Payment}
use boardbite_pos.Billing.{compute_bill}
use boardbite_pos.Billing.Effects.{Fresh, Moves, effect, compute_bill-own}
use boardbite_pos.Coupon.{
  Coupon, Benefit, amount_off, one_of, not_found, normalize_coupon_code, assert_redeemable,
  consume_coupon,
}
use boardbite_pos.CounterSale.{Shop}
use boardbite_pos.CounterSale.Quote.{find_coupon_by_code}
use boardbite_pos.TableCoupon.{
  coupon_error, already_applied, no_effect, unique_violation, ApplyInput, ordered_items,
  TableDiscount, choose_item, table_discount, is_live_redemption, TableQuote, resolve_table_coupon,
  discount_allocations, coupon_row, table_redemption, check_session, apply_tx,
}

table_discount-le :
    (b : Benefit) (r : ℕ) (items : List Item) (target : Option ℕ) {d : TableDiscount}
    → table_discount b r items target ≡ ok d
    → d.discount ≤ r
unfolding table_discount
table_discount-le (amount_off n) r items target e = rw (sym (ok_inj _ refl e)) (omega arith)
table_discount-le (one_of targets) r items target e =
    let (i, chosen, e1) =
      both_ok (choose_item target (filter (λ i. any (λ t. t == i.menu_item_id) targets) items)) _
        e in
    rw (sym (ok_inj _ refl e1)) (omega arith)

-- What a coupon that can be applied has gone through.
record Usable (input : ApplyInput) (shop : Shop) (q : TableQuote) : Type 0 where
  below : pos q.given.discount ≤ℤ (compute_bill input.session_id shop.db).remaining
  some_of : 0 < q.given.discount
  first : any (is_live_redemption input.session_id) shop.db.redemptions ≡ false

below_remaining : (r : ℤ) (d : ℕ) → d ≤ max_zero r → 0 < d → pos d ≤ℤ r
below_remaining r d h some_of = omega int_laws

resolve-Usable :
    (now : ℕ) (input : ApplyInput) (shop : Shop) {q : TableQuote}
    → resolve_table_coupon now input shop ≡ ok q
    → Usable input shop q
unfolding resolve_table_coupon
resolve-Usable now input shop e =
    let (code, read, e1) = both_ok (map_err coupon_error (normalize_coupon_code input.code)) _ e in
    let (c, found, e2) =
      both_ok (or_throw (find_coupon_by_code code shop.book) (coupon_error not_found)) _ e1 in
    let (t, usable, e3) =
      both_ok (map_err coupon_error (assert_redeemable c.0.status c.1.expires_at now)) _ e2 in
    let (first, e4) =
      throw_if_ok (any (is_live_redemption input.session_id) shop.db.redemptions) already_applied _
        e3 in
    let r = (compute_bill input.session_id shop.db).remaining in
    let (owed, e5) = throw_if_ok (leb (max_zero r) 0) no_effect _ e4 in
    let (given, computed, e6) =
      both_ok
        (table_discount c.1.benefit (max_zero r) (ordered_items input.session_id shop.db.orders)
          input.target_item_id)
        _ e5 in
    let (positive, e7) = throw_if_ok (leb given.discount 0) no_effect _ e6 in
    let some_of : 0 < given.discount = ground arith in
    let within =
      table_discount-le c.1.benefit (max_zero r) (ordered_items input.session_id shop.db.orders)
        input.target_item_id computed in
    subst (Usable input shop) (ok_inj _ refl e7) (record {
      below = below_remaining r given.discount within some_of;
      some_of = some_of;
      first = first;
    })

-- The session had no coupon.
pub resolve_first :
    (now : ℕ) (input : ApplyInput) (shop : Shop) {q : TableQuote}
    → resolve_table_coupon now input shop ≡ ok q
    → any (is_live_redemption input.session_id) shop.db.redemptions ≡ false
resolve_first now input shop e = let u = resolve-Usable now input shop e in u.first

-- The rows after a coupon, written out.
pub apply_tx_ok :
    (pid now : ℕ) (input : ApplyInput) (shop : Shop) {p : Payment} {after : Shop}
    → apply_tx pid now input shop ≡ ok (p, after)
    → (q : TableQuote) × (allocations : List Allocation) × (coupons : List Coupon)
      × (resolve_table_coupon now input shop ≡ ok q)
      × (consume_coupon q.coupon.id now shop.book.coupons ≡ ok coupons)
      × (p ≡ coupon_row pid input q allocations)
      × (after ≡ record shop {
        db = record shop.db {
          payments = coupon_row pid input q allocations ∷ shop.db.payments;
          redemptions = table_redemption input q ∷ shop.db.redemptions;
        };
        book = record shop.book { coupons = coupons };
      })
unfolding apply_tx
apply_tx_ok pid now input shop e =
    let (t, open_to, e1) = both_ok (check_session input.session_id shop.db) _ e in
    let (q, resolved, e2) = both_ok (resolve_table_coupon now input shop) _ e1 in
    let (u, usable, e3) =
      both_ok (map_err coupon_error (assert_redeemable q.coupon.status q.batch.expires_at now)) _
        e2 in
    let (coupons, consumed, e4) =
      both_ok (map_err coupon_error (consume_coupon q.coupon.id now shop.book.coupons)) _ e3 in
    let (allocations, shared, e5) = both_ok (discount_allocations q) _ e4 in
    let row = coupon_row pid input q allocations in
    let (new_key, e6) =
      throw_if_ok (any (λ p. key_eq p.key row.key) shop.db.payments) unique_violation _ e5 in
    let is = ok_inj _ refl e6 in
    (
      q,
      allocations,
      coupons,
      resolved,
      map_err_ok coupon_error _ consumed,
      sym (ap (λ r. r.0) is),
      sym (ap (λ r. r.1) is),
    )

left_over : (r : ℤ) (n : ℕ) → pos n ≤ℤ r → pos 0 ≤ℤ r -ℤ (pos 0 +ℤ pos n)
left_over r n h = omega int_laws

-- A coupon that the transaction of applyTableCoupon applies, under a fresh row id, takes more than
-- nothing off what remains of the session's bill, counts as discounted and not as charged, by
-- exactly the amount of its payment row, and never leaves less than nothing to be paid.
pub apply_tx_covered :
    (pid now : ℕ) (input : ApplyInput) (shop : Shop) {p : Payment} {after : Shop}
    → Fresh pid shop.db.payments
    → apply_tx pid now input shop ≡ ok (p, after)
    → (0 < p.amount)
      × Moves
          (pos 0)
          (pos p.amount)
          (compute_bill input.session_id shop.db)
          (compute_bill input.session_id after.db)
      × (pos 0 ≤ℤ (compute_bill input.session_id after.db).remaining)
unfolding coupon_row effect compute_bill
apply_tx_covered pid now input shop {p} {after} fresh e =
    let sid = input.session_id in
    let (q, allocations, coupons, resolved, consumed, is, after_is) =
      apply_tx_ok pid now input shop e in
    let u = resolve-Usable now input shop resolved in
    let row = coupon_row pid input q allocations in
    let moved = compute_bill-own row shop.db sid fresh ((==_iff sid sid).1 refl) refl in
    let same_bill : compute_bill sid after.db
        ≡ compute_bill sid (record shop.db { payments = row ∷ shop.db.payments }) =
      rw after_is refl in
    rw (is, same_bill) (u.some_of, moved, rw moved.remaining (left_over _ q.given.discount u.below))
