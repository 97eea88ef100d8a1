-- ===== src/CounterSale/Quoted.antt =====
-- What a quote of quoteCounterSale (server/src/services/counterSale.ts) adds up to.
use mathlib.Core.Path.{subst}
use boardbite_pos.Prelude.{
  ℕ, suc, ◌+◌, ◌-◌, ◌≤◌, ◌≡◌, refl, sym, ap, Option, none, some, List, [], ◌∷◌, arith, map, sum_by,
  All, ok, both_ok, or_throw, or_throw_ok, ok_inj, map_err, map_err_ok, else_ok, Option-cases, inl,
  inr,
}
use boardbite_pos.Menu.{Catalog, to_front}
use boardbite_pos.Order.Lines.{Line, server_total, resolve_order_lines}
use boardbite_pos.Order.Creation.{Priced, resolve_order_lines-Priced}
use boardbite_pos.Coupon.{Book, not_found, normalize_coupon_code, assert_redeemable}
use boardbite_pos.CounterSale.{
  line_error, coupon_error, Cart, normalize_cart, compute_coupon_discount,
}
use boardbite_pos.CounterSale.Quote.{
  Applied, Quote, given_of, find_coupon_by_code, apply_coupon, quoted_coupon, quote_lines,
  quote_counter_sale,
}
use boardbite_pos.CounterSale.Discounts.{
  Within, IsShared, compute_coupon_discount_ok, proportional-IsShared,
}

-- The quote's lines are those of the cart, and its discount is divided over them.
pub record IsQuote (lines : List Line) (coupon : Option Applied) (q : Quote) : Type 0 where
  pub coupon_is : q.coupon ≡ coupon
  pub lines_are : map (λ x. x.line) q.lines ≡ lines
  pub priced : All Priced lines
  pub subtotal : sum_by (λ x. x.line.line_total) q.lines ≡ q.subtotal
  pub discount_is : q.discount_amount ≡ (given_of coupon).discount
  pub shared : sum_by (λ x. x.discount_amount) q.lines ≡ q.discount_amount
  pub within : All (λ x. x.discount_amount ≤ x.line.line_total) q.lines
  pub total : q.total_amount + q.discount_amount ≡ q.subtotal

map-quote_lines :
    (n : ℕ) (ls : List Line) (ds : List ℕ) → map (λ x. x.line) (quote_lines n ls ds) ≡ ls
unfolding quote_lines
map-quote_lines n [] ds = refl
map-quote_lines n (l ∷ ls) [] = ap (λ t. l ∷ t) (map-quote_lines (suc n) ls [])
map-quote_lines n (l ∷ ls) (d ∷ ds) = ap (λ t. l ∷ t) (map-quote_lines (suc n) ls ds)

sum-quote_lines :
    (n : ℕ) (ls : List Line) (ds : List ℕ)
    → sum_by (λ x. x.line.line_total) (quote_lines n ls ds) ≡ server_total ls
unfolding quote_lines
sum-quote_lines n [] ds = refl
sum-quote_lines n (l ∷ ls) [] = ap (λ t. l.line_total + t) (sum-quote_lines (suc n) ls [])
sum-quote_lines n (l ∷ ls) (d ∷ ds) = ap (λ t. l.line_total + t) (sum-quote_lines (suc n) ls ds)

discounts-quote_lines :
    (n : ℕ) (ls : List Line) (ds : List ℕ)
    → Within ls ds
    → (sum_by (λ x. x.discount_amount) (quote_lines n ls ds) ≡ sum_by (λ k. k) ds)
      × All (λ x. x.discount_amount ≤ x.line.line_total) (quote_lines n ls ds)
unfolding quote_lines
discounts-quote_lines n [] [] h = (refl, tt)
discounts-quote_lines n [] (d ∷ ds) h = absurd (omega (arith, h))
discounts-quote_lines n (l ∷ ls) [] h = absurd (omega (arith, h))
discounts-quote_lines n (l ∷ ls) (d ∷ ds) h =
    let rest = discounts-quote_lines (suc n) ls ds h.1 in (ap (λ t. d + t) rest.0, (h.0, rest.1))

normalize_coupon_code_ok :
    (value : ℕ) {code : ℕ} → normalize_coupon_code value ≡ ok code → value ≡ code
unfolding normalize_coupon_code
normalize_coupon_code_ok value e = ok_inj _ refl (else_ok _ _ _ e).1

-- What an applied coupon has gone through.
pub apply_coupon_ok :
    (now value : ℕ) (target : Option ℕ) (lines : List Line) (book : Book) {a : Applied}
    → apply_coupon now value target lines book ≡ ok a
    → (find_coupon_by_code value book ≡ some (a.coupon, a.batch))
      × (assert_redeemable a.coupon.status a.batch.expires_at now ≡ ok tt)
      × (compute_coupon_discount a.batch.benefit lines (server_total lines) target ≡ ok a.given)
unfolding apply_coupon
apply_coupon_ok now value target lines book e =
    let (code, checked, e1) = both_ok (map_err coupon_error (normalize_coupon_code value)) _ e in
    let (c, found, e2) =
      both_ok (or_throw (find_coupon_by_code code book) (coupon_error not_found)) _ e1 in
    let (t, usable, e3) =
      both_ok (map_err coupon_error (assert_redeemable c.0.status c.1.expires_at now)) _ e2 in
    let (given, computed, e4) =
      both_ok (compute_coupon_discount c.1.benefit lines (server_total lines) target) _ e3 in
    let code_is = normalize_coupon_code_ok value (map_err_ok coupon_error _ checked) in
    let found_here : find_coupon_by_code value book ≡ some c =
      subst (λ k. find_coupon_by_code k book ≡ some c) (sym code_is)
        (or_throw_ok _ (coupon_error not_found) found) in
    subst
      (λ (r : Applied).
        (find_coupon_by_code value book ≡ some (r.coupon, r.batch))
        × (assert_redeemable r.coupon.status r.batch.expires_at now ≡ ok tt)
        × (compute_coupon_discount r.batch.benefit lines (server_total lines) target ≡ ok r.given))
      (ok_inj _ refl e4) (found_here, map_err_ok coupon_error _ usable, computed)

coupon-IsShared :
    (now : ℕ) (cart : Cart) (lines : List Line) (book : Book) {c : Option Applied}
    → All Priced lines
    → quoted_coupon now cart lines book ≡ ok c
    → ((given_of c).discount ≤ server_total lines) × IsShared (given_of c) lines
unfolding quoted_coupon
coupon-IsShared now cart lines book {c} priced e = elim (Option-cases cart.coupon_code) [
  | inl no_code ↦
      let is : none ≡ c = ok_inj _ refl (rw (quoted_coupon, no_code) at e) in
      rw (sym is) (omega arith, proportional-IsShared 0 none lines (omega arith))
  | inr (value, code) ↦
      let (a, applied, e1) =
        both_ok (apply_coupon now value cart.coupon_target lines book) _
          (rw (quoted_coupon, code) at e) in
      let is : some a ≡ c = ok_inj _ refl e1 in
      let (found, usable, computed) =
        apply_coupon_ok now value cart.coupon_target lines book applied in
      let (some_of, below, shared) =
        compute_coupon_discount_ok a.batch.benefit lines cart.coupon_target priced computed in
      rw (sym is) (below, shared)
]

-- Where the lines can be sold and the coupon, if there is one, can be used, there is a quote: its
-- lines are those of the cart in their order, the discounts of the lines add up to the discount of
-- the quote exactly and none is above its line, and the total is the subtotal less the discount.
pub quote_counter_sale_exact :
    (now : ℕ) (cart : Cart) (catalog : Catalog) (book : Book) {lines : List Line}
    {c : Option Applied}
    → resolve_order_lines (normalize_cart cart).items to_front catalog ≡ ok lines
    → quoted_coupon now (normalize_cart cart) lines book ≡ ok c
    → (q : Quote) × (quote_counter_sale now cart catalog book ≡ ok q) × IsQuote lines c q
unfolding quote_counter_sale
quote_counter_sale_exact now cart catalog book {lines} {c} resolved applied =
    let priced = resolve_order_lines-Priced _ to_front catalog resolved in
    let (below, (ds, shared, (total, within))) =
      coupon-IsShared now (normalize_cart cart) lines book priced applied in
    let (adds, each) = discounts-quote_lines 0 lines ds within in
    let quote : Quote = record {
      lines = quote_lines 0 lines ds;
      subtotal = server_total lines;
      discount_amount = (given_of c).discount;
      total_amount = server_total lines - (given_of c).discount;
      coupon = c;
    } in
    (
      quote,
      rw (resolved, applied, shared) refl,
      record {
        coupon_is = refl;
        lines_are = map-quote_lines 0 lines ds;
        priced = priced;
        subtotal = sum-quote_lines 0 lines ds;
        discount_is = refl;
        shared = rw adds total;
        within = each;
        total = omega (arith, below);
      },
    )

-- Each quote is such a one.
pub quote_counter_sale_ok :
    (now : ℕ) (cart : Cart) (catalog : Catalog) (book : Book) {q : Quote}
    → quote_counter_sale now cart catalog book ≡ ok q
    → (lines : List Line) × (c : Option Applied) × (quoted_coupon now
          (normalize_cart cart)
          lines
          book
        ≡ ok c)
      × IsQuote lines c q
unfolding quote_counter_sale
quote_counter_sale_ok now cart catalog book {q} e =
    let (lines, first, e1) =
      both_ok
        (map_err line_error (resolve_order_lines (normalize_cart cart).items to_front catalog)) _
        e in
    let (c, applied, e2) = both_ok (quoted_coupon now (normalize_cart cart) lines book) _ e1 in
    let resolved = map_err_ok line_error _ first in
    let (q', made, is_quote) = quote_counter_sale_exact now cart catalog book resolved applied in
    let same : q' ≡ q = ok_inj _ made e in (lines, c, applied, rw (sym same) is_quote)
