-- ===== src/CounterSale/Once.antt =====
-- Requests to confirm a counter sale that are sent again, and the numbers of the sales
-- (server/src/services/counterSale.ts).
use mathlib.Core.Path.{subst}
use boardbite_pos.Prelude.{
  ℕ, suc, ◌≤◌, ◌<◌, ◌≡◌, refl, ap, inl, inr, Option-cases, true, false, none, some, List, [], ◌∷◌,
  arith, ◌==◌, ==_iff, All, All-map, Result, ok, err, throw_if_ok, if_ok, ok_inj, if◌then◌else◌,
}
use boardbite_pos.Domain.Key.{Key, key_eq_refl}
use boardbite_pos.Menu.{Catalog}
use boardbite_pos.CounterSale.{
  CounterSale, Shop, SaleError, payments_disabled, ordering_disabled, idempotency_conflict,
  unique_violation, sale_no_race, ConfirmInput, scope_counter_key,
}
use boardbite_pos.CounterSale.Confirm.{
  Sha, SaleIds, request_hash, new_sale, max_no, confirm_tx, Confirmed, find_sale, or_winning_sale,
  payments_are_off, ordering_is_off, confirm_counter_sale,
}
use boardbite_pos.CounterSale.Written.{confirm_tx_ok}

abbrev scoped : ConfirmInput → Key
scoped input = scope_counter_key input.staff_id input.client_key

-- The sale stands under its key with the hash of its request.
abbrev Stands : Sha → ConfirmInput → Confirmed → Type 0
Stands sha input r =
    (find_sale (scoped input) r.after.sales ≡ some r.sale)
    × (r.sale.request_hash ≡ request_hash sha input)

written-Stands :
    (ids : SaleIds) (sha : Sha) (quoted now : ℕ) (input : ConfirmInput) (catalog : Catalog)
    (shop : Shop) {sale : CounterSale} {after : Shop}
    → confirm_tx ids sha quoted now input catalog shop ≡ ok (sale, after)
    → Stands sha input (record { sale = sale; reused = false; after = after })
unfolding new_sale
written-Stands ids sha quoted now input catalog shop {sale} {after} e =
    let (q, method, coupons, quote, fits, consumed, sale_is, after_is) =
      confirm_tx_ok ids sha quoted now input catalog shop e in
    let key_is : sale.key ≡ scoped input = ap (λ (s : CounterSale). s.key) sale_is in
    let hash_is = ap (λ (s : CounterSale). s.request_hash) sale_is in
    (rw (after_is, key_is, key_eq_refl (scoped input)) refl, hash_is)

winning-Stands :
    (sha : Sha) (input : ConfirmInput) (shop : Shop) (tx : Result SaleError (CounterSale × Shop))
    {r : Confirmed}
    → ((sale : CounterSale) (after : Shop)
        → tx ≡ ok (sale, after)
        → Stands sha input (record { sale = sale; reused = false; after = after }))
    → find_sale (scoped input) shop.sales ≡ none
    → or_winning_sale (scoped input) (request_hash sha input) shop tx ≡ ok r
    → Stands sha input r
unfolding or_winning_sale
winning-Stands sha input shop (ok (sale, after)) stands none_yet e =
    subst (Stands sha input) (ok_inj _ refl e) (stands sale after refl)
winning-Stands sha input shop (err unique_violation) {r} stands none_yet e =
    let no : err sale_no_race ≡ ok r = rw (or_winning_sale, none_yet) at e in cc
winning-Stands sha input shop (err other) stands none_yet e = cc

confirmed-Stands :
    (ids : SaleIds) (sha : Sha) (quoted now : ℕ) (input : ConfirmInput) (catalog : Catalog)
    (shop : Shop) {r : Confirmed}
    → confirm_counter_sale ids sha quoted now input catalog shop shop ≡ ok r
    → Stands sha input r
unfolding confirm_counter_sale
confirmed-Stands ids sha quoted now input catalog shop {r} e =
    elim (Option-cases (find_sale (scoped input) shop.sales)) [
      | inl none_yet ↦
          let (on, e1) =
            throw_if_ok (payments_are_off shop.db.settings) payments_disabled _
              (rw (confirm_counter_sale, none_yet) at e) in
          let (open_too, e2) =
            throw_if_ok (ordering_is_off shop.db.settings) ordering_disabled _ e1 in
          winning-Stands sha input shop _
            (λ sale after tx. written-Stands ids sha quoted now input catalog shop tx) none_yet e2
      | inr (s, found) ↦
          let (same, is) =
            if_ok (s.request_hash == request_hash sha input) _ idempotency_conflict
              (rw (confirm_counter_sale, found) at e) in
          subst (Stands sha input) (ok_inj _ refl is)
            (found, (==_iff s.request_hash (request_hash sha input)).0 same)
    ]

-- After a request to confirm a counter sale succeeded (nothing happens between its reads and its
-- transaction), a request with the same staff member and client key returns that sale and changes
-- nothing if its hash is the same, and is refused as a conflict if it is not, whatever is on sale
-- by then.
pub confirm_counter_sale_again :
    (ids ids' : SaleIds) (sha : Sha) (quoted quoted' now now' : ℕ) (input again : ConfirmInput)
    (catalog catalog' : Catalog) (shop : Shop) {r : Confirmed}
    → scope_counter_key again.staff_id again.client_key
      ≡ scope_counter_key input.staff_id input.client_key
    → confirm_counter_sale ids sha quoted now input catalog shop shop ≡ ok r
    → confirm_counter_sale ids' sha quoted' now' again catalog' r.after r.after ≡ (
        if request_hash sha input == request_hash sha again
        then ok (record { sale = r.sale; reused = true; after = r.after })
        else err idempotency_conflict)
unfolding confirm_counter_sale
confirm_counter_sale_again ids ids' sha quoted quoted' now now' input again catalog catalog' shop
      {r} same e =
    let (found, hash) = confirmed-Stands ids sha quoted now input catalog shop e in
    let found_again : find_sale (scoped again) r.after.sales ≡ some r.sale = rw same found in
    rw (confirm_counter_sale, found_again, hash) refl

max_no_above : (sales : List CounterSale) → All (λ s. s.sale_no ≤ max_no sales) sales
unfolding max_no
max_no_above [] = tt
max_no_above (s ∷ ss) = (omega arith, All-map _ _ (λ t h. omega (arith, h)) ss (max_no_above ss))

-- Newest first, each sale has a higher number than those before it.
abbrev pub Numbered : List CounterSale → Type 0
Numbered [] = Unit
Numbered (s ∷ ss) = All (λ t. t.sale_no < s.sale_no) ss × Numbered ss

-- The sales, newest first, keep falling numbers when one is confirmed.
pub confirm_tx-Numbered :
    (ids : SaleIds) (sha : Sha) (quoted now : ℕ) (input : ConfirmInput) (catalog : Catalog)
    (shop : Shop) {sale : CounterSale} {after : Shop}
    → Numbered shop.sales
    → confirm_tx ids sha quoted now input catalog shop ≡ ok (sale, after)
    → Numbered after.sales
unfolding new_sale
confirm_tx-Numbered ids sha quoted now input catalog shop {sale} {after} h e =
    let (q, method, coupons, quote, fits, consumed, sale_is, after_is) =
      confirm_tx_ok ids sha quoted now input catalog shop e in
    let no_is : sale.sale_no ≡ suc (max_no shop.sales) =
      ap (λ (s : CounterSale). s.sale_no) sale_is in
    rw after_is
      (All-map _ _ (λ t below. omega (arith, below, no_is)) shop.sales (max_no_above shop.sales), h)
