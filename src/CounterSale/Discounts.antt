-- ===== src/CounterSale/Discounts.antt =====
-- How quoteCounterSale of server/src/services/counterSale.ts shares the discount of a coupon.
use mathlib.Core.List.{append_assoc, head-eq_of_cons-eq, tail-eq_of_cons-eq}
use boardbite_pos.Prelude.{
  ℕ, zero, suc, ◌+◌, ◌≤◌, ◌<◌, ◌≡◌, refl, sym, ap, ◌∙◌, inl, inr, Bool-cases, true, Option, none,
  some, List, [], ◌∷◌, ◌++◌, arith, ltb, leb, ◌==◌, map, length, sum_by, All, All-map, All_find,
  any, ok, both_ok, throw_if_ok, or_throw_ok, ok_inj, length-append,
}
use boardbite_pos.Allocation.{Line as Share, Row, grand_of, given_of}
use boardbite_pos.Allocation.Rows.{Fits}
use boardbite_pos.Allocation.Exact.{line_of, allocate_proportional-IsExact}
use boardbite_pos.Order.Lines.{Line, server_total}
use boardbite_pos.Order.Creation.{Priced}
use boardbite_pos.Coupon.{Benefit, amount_off, one_of}
use boardbite_pos.CounterSale.{
  CouponDiscount, Placed, placed_from, candidates, choose, effective, compute_coupon_discount,
  coupon_no_effect, coupon_target_invalid,
}
use boardbite_pos.CounterSale.Quote.{
  no_discounts, set_at, place_rows, shares_from, allocated, per_line_discount,
}

-- One amount for each line, none above what the line comes to.
abbrev pub Within : List Line → List ℕ → Type 0
Within [] [] = Unit
Within (l ∷ ls) (d ∷ ds) = (d ≤ l.line_total) × Within ls ds
Within _ _ = 1 ≤ 0

-- They add up to the discount.
abbrev pub Splits : ℕ → List Line → List ℕ → Type 0
Splits d ls ds = (sum_by (λ n. n) ds ≡ d) × Within ls ds

no_discounts-Splits : (ls : List Line) → Splits 0 ls (no_discounts ls)
unfolding no_discounts
no_discounts-Splits [] = (refl, tt)
no_discounts-Splits (l ∷ ls) =
    let rest = no_discounts-Splits ls in (omega (arith, rest.0), (omega arith, rest.1))

set_at-append :
    (before : List ℕ) (v x : ℕ) (after : List ℕ)
    → set_at (length before) v (before ++ (x ∷ after)) ≡ before ++ (v ∷ after)
unfolding set_at
set_at-append [] v x after = refl
set_at-append (b ∷ before) v x after = ap (λ t. b ∷ t) (set_at-append before v x after)

-- Rows that are keyed by the places of their lines land on these places.
place_rows-shares :
    (before : List ℕ) (ls : List Line) (rows : List Row)
    → map line_of rows ≡ shares_from (length before) ls
    → place_rows rows (before ++ no_discounts ls) ≡ before ++ map (λ r. r.given) rows
unfolding place_rows shares_from no_discounts
place_rows-shares before [] [] e = refl
place_rows-shares before [] (r ∷ rs) e = cc
place_rows-shares before (l ∷ ls) [] e = cc
place_rows-shares before (l ∷ ls) (r ∷ rs) e =
    let key_is : r.key ≡ length before = ap (λ (s : Share). s.key) (head-eq_of_cons-eq e) in
    let longer : length (before ++ (r.given ∷ [])) ≡ suc (length before) =
      omega (arith, length-append before (r.given ∷ [])) in
    let others : map line_of rs ≡ shares_from (length (before ++ (r.given ∷ []))) ls =
      rw longer (tail-eq_of_cons-eq e) in
    rw (key_is, set_at-append before r.given 0 (no_discounts ls))
      (sym (ap (place_rows rs) (append_assoc before (r.given ∷ []) (no_discounts ls)))
        ∙ place_rows-shares (before ++ (r.given ∷ [])) ls rs others
        ∙ append_assoc before (r.given ∷ []) (map (λ r. r.given) rs))

rows-Within :
    (n : ℕ) (ls : List Line) (rows : List Row)
    → map line_of rows ≡ shares_from n ls
    → Fits rows
    → Within ls (map (λ r. r.given) rows)
unfolding shares_from
rows-Within n [] [] e fits = tt
rows-Within n [] (r ∷ rs) e fits = cc
rows-Within n (l ∷ ls) [] e fits = cc
rows-Within n (l ∷ ls) (r ∷ rs) e fits =
    let amount_is : r.amount ≡ l.line_total = ap (λ (s : Share). s.amount) (head-eq_of_cons-eq e) in
    (omega (arith, fits.0, amount_is), rows-Within (suc n) ls rs (tail-eq_of_cons-eq e) fits.1)

grand_of-shares : (n : ℕ) (ls : List Line) → grand_of (shares_from n ls) ≡ server_total ls
unfolding grand_of shares_from
grand_of-shares n [] = refl
grand_of-shares n (l ∷ ls) = ap (λ t. l.line_total + t) (grand_of-shares (suc n) ls)

sum-given : (rows : List Row) → sum_by (λ n. n) (map (λ r. r.given) rows) ≡ given_of rows
unfolding given_of
sum-given [] = refl
sum-given (r ∷ rs) = ap (λ t. r.given + t) (sum-given rs)

-- What the sharing makes of a discount: the amounts, which add up to it.
abbrev pub IsShared : CouponDiscount → List Line → Type 0
IsShared d ls = (ds : List ℕ) × (per_line_discount d ls ≡ ok ds) × Splits d.discount ls ds

pub proportional-IsShared :
    (d : ℕ) (item : Option ℕ) (ls : List Line)
    → d ≤ server_total ls
    → IsShared (record { discount = d; target_line = none; target_menu_item = item }) ls
unfolding per_line_discount allocated
proportional-IsShared zero item ls h = (no_discounts ls, refl, no_discounts-Splits ls)
proportional-IsShared (suc d) item ls h =
    let (rows, e, (total, lines, fits)) =
      allocate_proportional-IsExact (suc d) (shares_from 0 ls) (rw (grand_of-shares 0 ls) h) in
    let placed = place_rows-shares [] ls rows lines in
    let some_of : ltb 0 (suc d) ≡ true = ground arith in
    (
      map (λ r. r.given) rows,
      rw (some_of, e) (ap ok placed),
      (sum-given rows ∙ total, rows-Within 0 ls rows lines fits),
    )

-- A line takes a discount that is no more than it comes to.
abbrev Takes : List Line → ℕ → Placed → Type 0
Takes ls n p =
    (i : ℕ) × (p.index ≡ n + i)
    × ((d : ℕ) → d ≤ p.line.line_total → Splits d ls (set_at i d (no_discounts ls)))

placed-Takes : (n : ℕ) (ls : List Line) → All (Takes ls n) (placed_from n ls)
unfolding placed_from set_at no_discounts
placed-Takes n [] = tt
placed-Takes n (l ∷ ls) = (
  (
    0,
    omega arith,
    λ d h. let none_of = no_discounts-Splits ls in (omega (arith, none_of.0), (h, none_of.1)),
  ),
  All-map (Takes ls (suc n)) (Takes (l ∷ ls) n)
      (λ p t. (
        suc t.0,
        omega (arith, t.1),
        λ d h. let rest = t.2 d h in (omega (arith, rest.0), (omega arith, rest.1)),
      ))
      (placed_from (suc n) ls) (placed-Takes (suc n) ls),
)

abbrev Reaches : Line → Type 0
Reaches l = l.unit_price ≤ l.line_total

Priced-Reaches : (l : Line) → Priced l → Reaches l
Priced-Reaches l h = rw h.0 (grind (arith, h.1))

All-placed : (n : ℕ) (ls : List Line) → All Priced ls → All (λ p. Reaches p.line) (placed_from n ls)
unfolding placed_from
All-placed n [] h = tt
All-placed n (l ∷ ls) h = (Priced-Reaches l h.0, All-placed (suc n) ls h.1)

All-candidates :
    (P : Placed → Type 0) (targets : List ℕ) (ps : List Placed)
    → All P ps
    → All P (candidates targets ps)
unfolding candidates
All-candidates P targets [] h = tt
All-candidates P targets (p ∷ ps) h =
    elim (Bool-cases (any (λ t. t == p.line.menu_item_id) targets)) [
      | inl e ↦ rw e (h.0, All-candidates P targets ps h.1)
      | inr e ↦ rw e (All-candidates P targets ps h.1)
    ]

choose_holds :
    (P : Placed → Type 0) (target : Option ℕ) (ps : List Placed) {p : Placed}
    → All P ps
    → choose target ps ≡ ok p
    → P p
unfolding choose
choose_holds P target [] h e = cc
choose_holds P none (q ∷ ps) h e = rw (sym (ok_inj _ refl e)) h.0
choose_holds P (some k) (q ∷ ps) h e =
    All_find P (λ q. q.index == k) (q ∷ ps) h (or_throw_ok _ coupon_target_invalid e)

effective_ok :
    (d : CouponDiscount) {r : CouponDiscount} → effective d ≡ ok r → (d ≡ r) × (0 < d.discount)
unfolding effective
effective_ok d e =
    let (some_of, e1) = throw_if_ok (leb d.discount 0) coupon_no_effect _ e in
    (ok_inj _ refl e1, ground arith)

item-IsShared :
    (ls : List Line) (p : Placed) (d : ℕ) (item : Option ℕ)
    → Takes ls 0 p
    → 0 < d
    → d ≤ p.line.line_total
    → IsShared (record { discount = d; target_line = some p.index; target_menu_item = item }) ls
unfolding per_line_discount
item-IsShared ls p d item (i, at, takes) some_of within =
    let positive : ltb 0 d ≡ true = ground arith in
    let at_i : p.index ≡ i = omega (arith, at) in
    (set_at i d (no_discounts ls), rw (positive, at_i) refl, takes d within)

-- What computeCouponDiscount finds is more than nothing, no more than the subtotal, and can be
-- shared.
pub compute_coupon_discount_ok :
    (b : Benefit) (ls : List Line) (target : Option ℕ) {d : CouponDiscount}
    → All Priced ls
    → compute_coupon_discount b ls (server_total ls) target ≡ ok d
    → (0 < d.discount) × (d.discount ≤ server_total ls) × IsShared d ls
unfolding compute_coupon_discount
compute_coupon_discount_ok (amount_off n) ls target h e =
    let (is, some_of) = effective_ok _ e in
    rw (sym is) (some_of, omega arith, proportional-IsShared _ none ls (omega arith))
compute_coupon_discount_ok (one_of targets) ls target h e =
    let (p, chosen, e1) = both_ok (choose target (candidates targets (placed_from 0 ls))) _ e in
    let (is, some_of) = effective_ok _ e1 in
    let here =
      choose_holds (Takes ls 0) target (candidates targets (placed_from 0 ls))
        (All-candidates _ targets (placed_from 0 ls) (placed-Takes 0 ls)) chosen in
    let price =
      choose_holds (λ p. Reaches p.line) target (candidates targets (placed_from 0 ls))
        (All-candidates _ targets (placed_from 0 ls) (All-placed 0 ls h)) chosen in
    rw (sym is) (some_of, omega arith, item-IsShared ls p _ _ here some_of (omega (arith, price)))
