-- ===== src/CounterSale/Undone.antt =====
-- The cancellation of a counter sale (server/src/services/counterSale.ts) and its ledger
-- (computeCounterSaleLedger of server/src/services/billing.ts).
use boardbite_pos.Prelude.{
  ℕ, ◌+◌, ◌≡◌, refl, inl, inr, Bool-cases, true, some, List, [], ◌∷◌, ◌++◌, arith, ◌==◌, find,
  sum_by, All, if◌then◌else◌,
}
use boardbite_pos.Prelude.Int.{ℤ, pos, ◌+ℤ◌, ◌-ℤ◌, int_laws}
use boardbite_pos.Domain.Status.{PaymentKind, charge, discount, refund}
use boardbite_pos.Domain.Rows.{Payment}
use boardbite_pos.Billing.{reverses_discount}
use boardbite_pos.Billing.Sale.{
  coupon_method, reverses_coupon, SaleSums, add_sale_payment, sums_from,
}
use boardbite_pos.CounterSale.Cancel.{is_reversible, refund_of}

-- What a row counts for in the three sums.
abbrev charge_part : PaymentKind → Payment → ℕ
charge_part charge p = p.amount
charge_part _ p = 0

abbrev discount_part : PaymentKind → Payment → ℕ
discount_part discount p = p.amount
discount_part _ p = 0

abbrev coupon_part : PaymentKind → Payment → ℕ
coupon_part discount p = if p.method == coupon_method then p.amount else 0
coupon_part _ p = 0

abbrev pub charged_in : List Payment → ℕ
charged_in ps = sum_by (λ p. charge_part p.kind p) ps

abbrev pub discounted_in : List Payment → ℕ
discounted_in ps = sum_by (λ p. discount_part p.kind p) ps

abbrev pub coupons_in : List Payment → ℕ
coupons_in ps = sum_by (λ p. coupon_part p.kind p) ps

pub sums_from-append :
    (all : List Payment) (s : SaleSums) (xs ys : List Payment)
    → sums_from all s (xs ++ ys) ≡ sums_from all (sums_from all s xs) ys
unfolding sums_from
sums_from-append all s [] ys = refl
sums_from-append all s (x ∷ xs) ys = sums_from-append all (add_sale_payment all x.kind x s) xs ys

-- The second sums are the first with charges `g`, refunds `r` and discounts `d` and `k` added.
pub record Adds (g r : ℕ) (d k : ℤ) (s t : SaleSums) : Type 0 where
  pub gross : t.gross ≡ s.gross + g
  pub refunded : t.refunded ≡ s.refunded + r
  pub discounted : t.discounted ≡ s.discounted +ℤ d
  pub coupon : t.coupon ≡ s.coupon +ℤ k

abbrev pub minus : ℕ → ℤ
minus n = pos 0 -ℤ pos n

plus_zero : (x : ℤ) → x ≡ x +ℤ pos 0
plus_zero x = omega int_laws

minus_zero : (x : ℤ) → x ≡ x +ℤ minus 0
minus_zero x = omega int_laws

minus_one : (x : ℤ) (n : ℕ) → x -ℤ pos n ≡ x +ℤ minus n
minus_one x n = omega int_laws

two_more : (x : ℤ) (a b : ℕ) → x +ℤ pos a +ℤ pos b ≡ x +ℤ pos (a + b)
two_more x a b = omega int_laws

two_less : (x : ℤ) (a b : ℕ) → x +ℤ minus a +ℤ minus b ≡ x +ℤ minus (b + a)
two_less x a b = omega int_laws

-- Charges and discounts add their amounts.
original-Adds :
    (all : List Payment) (k : PaymentKind) (p : Payment) (s : SaleSums)
    → is_reversible k ≡ true
    → Adds
        (charge_part k p)
        0
        (pos (discount_part k p))
        (pos (coupon_part k p))
        s
        (add_sale_payment all k p s)
unfolding add_sale_payment
original-Adds all charge p s h = record {
  gross = refl;
  refunded = omega arith;
  discounted = plus_zero s.discounted;
  coupon = plus_zero s.coupon;
}
original-Adds all discount p s h = record {
  gross = omega arith;
  refunded = omega arith;
  discounted = refl;
  coupon = elim (Bool-cases (p.method == coupon_method)) [
    | inl e ↦ rw e refl
    | inr e ↦ rw e (plus_zero s.coupon)
  ];
}
original-Adds all _ p s h = cc

pub originals-Adds :
    (all ps : List Payment) (s : SaleSums)
    → All (λ p. is_reversible p.kind ≡ true) ps
    → Adds (charged_in ps) 0 (pos (discounted_in ps)) (pos (coupons_in ps)) s (sums_from all s ps)
unfolding sums_from
originals-Adds all [] s h = record {
  gross = omega arith;
  refunded = omega arith;
  discounted = plus_zero s.discounted;
  coupon = plus_zero s.coupon;
}
originals-Adds all (p ∷ ps) s h =
    let first = original-Adds all p.kind p s h.0 in
    let rest = originals-Adds all ps (add_sale_payment all p.kind p s) h.1 in
    record {
      gross = omega (arith, first.gross, rest.gross);
      refunded = omega (arith, first.refunded, rest.refunded);
      discounted = rw (rest.discounted, first.discounted) (two_more s.discounted _ _);
      coupon = rw (rest.coupon, first.coupon) (two_more s.coupon _ _);
    }

-- The refunds of these payments, as the loop writes them.
unfoldable pub refunds : ℕ → ℕ → (ℕ → ℕ) → List Payment → List Payment
refunds sid staff rids [] = []
refunds sid staff rids (p ∷ ps) =
    refunds sid staff rids ps ++ (refund_of sid staff (rids p.id) p ∷ [])

abbrev pub Found : List Payment → Payment → Type 0
Found all p = find (λ q. q.id == p.id) all ≡ some p

-- A refund takes back what its original counted for.
refund-Adds :
    (all : List Payment) (sid staff rid : ℕ) (k : PaymentKind) (p : Payment) (s : SaleSums)
    → p.kind ≡ k
    → is_reversible k ≡ true
    → Found all p
    → Adds 0
        (charge_part k p)
        (minus (discount_part k p))
        (minus (coupon_part k p))
        s
        (add_sale_payment all refund (refund_of sid staff rid p) s)
unfolding add_sale_payment refund_of reverses_discount
refund-Adds all sid staff rid charge p s kind h found =
    rw (reverses_discount, found, kind)
      (record {
        gross = omega arith;
        refunded = refl;
        discounted = minus_zero s.discounted;
        coupon = minus_zero s.coupon;
      })
refund-Adds all sid staff rid discount p s kind h found =
    rw (reverses_discount, found, kind)
      (record {
        gross = omega arith;
        refunded = omega arith;
        discounted = minus_one s.discounted p.amount;
        coupon = elim (Bool-cases (p.method == coupon_method)) [
          | inl e ↦ rw (reverses_coupon, found, e) (minus_one s.coupon p.amount)
          | inr e ↦ rw (reverses_coupon, found, e) (minus_zero s.coupon)
        ];
      })
refund-Adds all sid staff rid _ p s kind h found = cc

pub refunds-Adds :
    (all : List Payment) (sid staff : ℕ) (rids : ℕ → ℕ) (ps : List Payment) (s : SaleSums)
    → All (λ p. is_reversible p.kind ≡ true) ps
    → All (Found all) ps
    → Adds 0
        (charged_in ps)
        (minus (discounted_in ps))
        (minus (coupons_in ps))
        s
        (sums_from all s (refunds sid staff rids ps))
unfolding sums_from refunds refund_of
refunds-Adds all sid staff rids [] s h found = record {
  gross = omega arith;
  refunded = omega arith;
  discounted = minus_zero s.discounted;
  coupon = minus_zero s.coupon;
}
refunds-Adds all sid staff rids (p ∷ ps) s h found =
    let rest = refunds-Adds all sid staff rids ps s h.1 found.1 in
    let before = sums_from all s (refunds sid staff rids ps) in
    let last = refund-Adds all sid staff (rids p.id) p.kind p before refl h.0 found.0 in
    rw (sums_from-append all s (refunds sid staff rids ps) (refund_of sid staff (rids p.id) p ∷ []))
      (record {
        gross = omega (arith, last.gross, rest.gross);
        refunded = omega (arith, last.refunded, rest.refunded);
        discounted = rw (last.discounted, rest.discounted) (two_less s.discounted _ _);
        coupon = rw (last.coupon, rest.coupon) (two_less s.coupon _ _);
      })
