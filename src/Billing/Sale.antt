-- ===== src/Billing/Sale.antt =====
-- computeCounterSaleLedger of server/src/services/billing.ts: what a counter sale owes.
use boardbite_pos.Prelude.{
  ℕ, ◌+◌, ◌≡◌, refl, sym, inl, inr, Bool-cases, Bool, false, none, some, List, [], ◌∷◌, arith,
  if◌then◌else◌, ◌==◌, is_id, find, filter, map,
}
use boardbite_pos.Prelude.Int.{ℤ, pos, ◌+ℤ◌, ◌-ℤ◌, int_laws}
use boardbite_pos.Domain.Status.{PaymentKind, charge, discount}
use boardbite_pos.Domain.Rows.{Payment, Db}
use boardbite_pos.Billing.{
  Ledger, reverses_discount, add_payment, ledger_from, bill_of, session_payments, compute_bill,
  orders_total,
}

-- `COUPON_DISCOUNT_METHOD`
abbrev pub coupon_method : ℕ
coupon_method = 0

-- The four sums of the loop.
pub record SaleSums : Type 0 where
  pub gross : ℕ
  pub refunded : ℕ
  pub discounted : ℤ
  pub coupon : ℤ

-- `original.method === COUPON_DISCOUNT_METHOD`, of the payment that this one reverses
abbrev pub reverses_coupon : List Payment → Payment → Bool
reverses_coupon all p = elim p.reversed_id [
  | none ↦ false
  | some r ↦ elim (find (λ q. q.id == r) all) [ none ↦ false | some q ↦ q.method == coupon_method ]
]

-- One payment of the loop.
unfoldable pub add_sale_payment : List Payment → PaymentKind → Payment → SaleSums → SaleSums
add_sale_payment all charge p l = record l { gross = l.gross + p.amount }
add_sale_payment all discount p l = record l {
  discounted = l.discounted +ℤ pos p.amount;
  coupon = if p.method == coupon_method then l.coupon +ℤ pos p.amount else l.coupon;
}
add_sale_payment all _ p l =
    if reverses_discount all p
    then record l {
      discounted = l.discounted -ℤ pos p.amount;
      coupon = if reverses_coupon all p then l.coupon -ℤ pos p.amount else l.coupon;
    }
    else record l { refunded = l.refunded + p.amount }

unfoldable pub sums_from : List Payment → SaleSums → List Payment → SaleSums
unfolding add_sale_payment
sums_from all l [] = l
sums_from all l (p ∷ ps) = sums_from all (add_sale_payment all p.kind p l) ps

-- `CounterSaleLedger`
pub record SaleLedger : Type 0 where
  pub order_amount : ℕ
  pub discount_amount : ℤ
  pub coupon_discount_amount : ℤ
  pub gross_charged_amount : ℕ
  pub refunded_amount : ℕ
  pub net_charged_amount : ℤ
  pub remaining_amount : ℤ

unfoldable pub sale_ledger_of : ℕ → SaleSums → SaleLedger
sale_ledger_of total l = record {
  order_amount = total;
  discount_amount = l.discounted;
  coupon_discount_amount = l.coupon;
  gross_charged_amount = l.gross;
  refunded_amount = l.refunded;
  net_charged_amount = pos l.gross -ℤ pos l.refunded;
  remaining_amount = pos total -ℤ l.discounted -ℤ (pos l.gross -ℤ pos l.refunded);
}

abbrev pub sale_payments : ℕ → Db → List Payment
sale_payments k db = filter (λ p. is_id p.sale_id k) db.payments

abbrev pub no_sums : SaleSums
no_sums = record { gross = 0; refunded = 0; discounted = pos 0; coupon = pos 0 }

-- `computeCounterSaleLedger`
unfoldable pub compute_counter_sale_ledger : ℕ → Db → SaleLedger
unfolding sums_from sale_ledger_of
compute_counter_sale_ledger k db =
    let ps = sale_payments k db in
    sale_ledger_of (orders_total (λ o. is_id o.sale_id k) db.orders) (sums_from ps no_sums ps)

-- The sums of the two loops agree: what was charged is what came in less what was given back.
abbrev Agrees : Ledger → SaleSums → Type 0
Agrees l s = (l.charged ≡ pos s.gross -ℤ pos s.refunded) × (l.discounted ≡ s.discounted)

came_in : (c : ℤ) (g r n : ℕ) → c ≡ pos g -ℤ pos r → c +ℤ pos n ≡ pos (g + n) -ℤ pos r
came_in c g r n h = rw h (came g r n)
  where
    came : (g r n : ℕ) → pos g -ℤ pos r +ℤ pos n ≡ pos (g + n) -ℤ pos r
    came g r n = omega int_laws

went_back : (c : ℤ) (g r n : ℕ) → c ≡ pos g -ℤ pos r → c -ℤ pos n ≡ pos g -ℤ pos (r + n)
went_back c g r n h = rw h (went g r n)
  where
    went : (g r n : ℕ) → pos g -ℤ pos r -ℤ pos n ≡ pos g -ℤ pos (r + n)
    went g r n = omega int_laws

add-Agrees :
    (all : List Payment) (k : PaymentKind) (p : Payment) (l : Ledger) (s : SaleSums)
    → Agrees l s
    → Agrees (add_payment all k p l) (add_sale_payment all k p s)
unfolding add_payment add_sale_payment
add-Agrees all charge p l s h = (came_in l.charged s.gross s.refunded p.amount h.0, h.1)
add-Agrees all discount p l s h = (h.0, rw (h.1) refl)
add-Agrees all _ p l s h = elim (Bool-cases (reverses_discount all p)) [
  | inl e ↦ rw e (h.0, rw (h.1) refl)
  | inr e ↦ rw e (went_back l.charged s.gross s.refunded p.amount h.0, h.1)
]

from-Agrees :
    (all ps : List Payment) (l : Ledger) (s : SaleSums)
    → Agrees l s
    → Agrees (ledger_from all l ps) (sums_from all s ps)
unfolding ledger_from sums_from
from-Agrees all [] l s h = h
from-Agrees all (p ∷ ps) l s h =
    from-Agrees all ps (add_payment all p.kind p l) (add_sale_payment all p.kind p s)
      (add-Agrees all p.kind p l s h)

zero_net : pos 0 ≡ pos 0 -ℤ pos 0
zero_net = omega int_laws

owed_same : (t c d : ℤ) → t -ℤ (c +ℤ d) ≡ t -ℤ d -ℤ c
owed_same t c d = omega int_laws

-- The same payment, owned by a table session.
abbrev pub in_session : ℕ → Payment → Payment
in_session sid p = record p { session_id = some sid; sale_id = none }

reverses_discount-in_session :
    (sid : ℕ) (all : List Payment) (p : Payment)
    → reverses_discount (map (in_session sid) all) (in_session sid p) ≡ reverses_discount all p
unfolding reverses_discount
reverses_discount-in_session sid [] p = refl
reverses_discount-in_session sid (q ∷ all) p =
    ground (arith, reverses_discount-in_session sid all p)

add_payment-in_session :
    (sid : ℕ) (all : List Payment) (k : PaymentKind) (p : Payment) (l : Ledger)
    → add_payment (map (in_session sid) all) k (in_session sid p) l ≡ add_payment all k p l
unfolding add_payment
add_payment-in_session sid all charge p l = refl
add_payment-in_session sid all discount p l = refl
add_payment-in_session sid all _ p l = rw (reverses_discount-in_session sid all p) refl

ledger_from-in_session :
    (sid : ℕ) (all ps : List Payment) (l : Ledger)
    → ledger_from (map (in_session sid) all) l (map (in_session sid) ps) ≡ ledger_from all l ps
unfolding ledger_from
ledger_from-in_session sid all [] l = refl
ledger_from-in_session sid all (p ∷ ps) l = rw (← add_payment-in_session sid all p.kind p l) (
    ledger_from-in_session sid all ps
      (add_payment (map (in_session sid) all) p.kind (in_session sid p) l))

-- A counter sale and a table session that have the same payments but for their owner, and whose
-- orders come to the same, are charged the same, discounted the same and owe the same by
-- computeCounterSaleLedger and computeBill.
pub compute_counter_sale_ledger-compute_bill :
    (k sid : ℕ) (a b : Db)
    → session_payments sid b ≡ map (in_session sid) (sale_payments k a)
    → (compute_counter_sale_ledger k a).order_amount ≡ (compute_bill sid b).total
    → ((compute_counter_sale_ledger k a).net_charged_amount ≡ (compute_bill sid b).charged)
      × ((compute_counter_sale_ledger k a).discount_amount ≡ (compute_bill sid b).discounted)
      × ((compute_counter_sale_ledger k a).remaining_amount ≡ (compute_bill sid b).remaining)
unfolding compute_counter_sale_ledger compute_bill bill_of sale_ledger_of
compute_counter_sale_ledger-compute_bill k sid a b same total =
    let ps = sale_payments k a in
    let start : Ledger = record { charged = pos 0; discounted = pos 0 } in
    let agrees = from-Agrees ps ps start no_sums (zero_net, refl) in
    rw (same, total)
      (rw (ledger_from-in_session sid ps ps start)
        (sym agrees.0, sym agrees.1, rw (agrees.0, agrees.1) (sym (owed_same _ _ _))))
