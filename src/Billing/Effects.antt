-- ===== src/Billing/Effects.antt =====
-- What one more payment row does to a bill.
use boardbite_pos.Prelude.{
  ℕ, Bool, true, false, ◌≡◌, ◌≢◌, refl, inl, inr, Bool-cases, List, [], ◌∷◌, arith, if◌then◌else◌,
  is_id, filter, All,
}
use boardbite_pos.Prelude.Int.{ℤ, pos, ◌+ℤ◌, ◌-ℤ◌, int_laws, +ℤ_swap, -ℤ_swap, balance_regroup}
use boardbite_pos.Domain.Status.{PaymentKind, charge, discount, void, refund}
use boardbite_pos.Domain.Rows.{Payment, Db}
use boardbite_pos.Billing.{
  Ledger, reverses_discount, add_payment, ledger_from, Bill, bill_of, session_payments,
  compute_bill,
}

-- The id of a row to be created: no payment has it, and none reverses a payment of that id.
abbrev pub Fresh : ℕ → List Payment → Type 0
Fresh k = All (λ q. (q.id ≢ k) × (is_id q.reversed_id k ≡ false))

Fresh-filter : (k : ℕ) (p : Payment → Bool) (ps : List Payment) → Fresh k ps → Fresh k (filter p ps)
Fresh-filter k p [] h = tt
Fresh-filter k p (q ∷ ps) h = ground (arith, Fresh-filter k p ps h.1)

-- A new row in front changes no other row's original.
reverses_discount-cons :
    (p q : Payment) (all : List Payment)
    → is_id q.reversed_id p.id ≡ false
    → reverses_discount (p ∷ all) q ≡ reverses_discount all q
unfolding reverses_discount
reverses_discount-cons p q all h = ground arith

add_payment-cons :
    (p q : Payment) (all : List Payment) (k : PaymentKind) (l : Ledger)
    → is_id q.reversed_id p.id ≡ false
    → add_payment (p ∷ all) k q l ≡ add_payment all k q l
unfolding add_payment
add_payment-cons p q all charge l h = refl
add_payment-cons p q all discount l h = refl
add_payment-cons p q all void l h = rw (reverses_discount-cons p q all h)
add_payment-cons p q all refund l h = rw (reverses_discount-cons p q all h)

ledger_from-cons :
    (p : Payment) (all : List Payment) (l : Ledger) (ps : List Payment)
    → Fresh p.id ps
    → ledger_from (p ∷ all) l ps ≡ ledger_from all l ps
unfolding ledger_from
ledger_from-cons p all l [] h = refl
ledger_from-cons p all l (q ∷ ps) h =
    rw (add_payment-cons p q all q.kind l h.0.1)
      (ledger_from-cons p all (add_payment all q.kind q l) ps h.1)

ledger_from-own :
    (p : Payment) (ps : List Payment) (l : Ledger)
    → Fresh p.id ps
    → is_id p.reversed_id p.id ≡ false
    → ledger_from (p ∷ ps) l (p ∷ ps) ≡ ledger_from ps (add_payment ps p.kind p l) ps
unfolding ledger_from
ledger_from-own p ps l h apart =
    rw (add_payment-cons p p ps p.kind l apart)
      (ledger_from-cons p ps (add_payment ps p.kind p l) ps h)

-- The second ledger is the first with `a` more charged and `b` more discounted.
abbrev pub Shift : ℤ → ℤ → Ledger → Ledger → Type 0
Shift a b l l' = (l'.charged ≡ l.charged +ℤ a) × (l'.discounted ≡ l.discounted +ℤ b)

add_payment-Shift :
    (a b : ℤ) (all : List Payment) (k : PaymentKind) (p : Payment) (l l' : Ledger)
    → Shift a b l l'
    → Shift a b (add_payment all k p l) (add_payment all k p l')
unfolding add_payment
add_payment-Shift a b all charge p l l' h = (rw h.0 (+ℤ_swap l.charged a (pos p.amount)), h.1)
add_payment-Shift a b all discount p l l' h = (h.0, rw h.1 (+ℤ_swap l.discounted b (pos p.amount)))
add_payment-Shift a b all _ p l l' h = elim (Bool-cases (reverses_discount all p)) [
  | inl e ↦ rw e (h.0, rw h.1 (-ℤ_swap l.discounted b (pos p.amount)))
  | inr e ↦ rw e (rw h.0 (-ℤ_swap l.charged a (pos p.amount)), h.1)
]

ledger_from-Shift :
    (a b : ℤ) (all ps : List Payment) (l l' : Ledger)
    → Shift a b l l'
    → Shift a b (ledger_from all l ps) (ledger_from all l' ps)
unfolding ledger_from
ledger_from-Shift a b all [] l l' h = h
ledger_from-Shift a b all (p ∷ ps) l l' h =
    ledger_from-Shift a b all ps (add_payment all p.kind p l) (add_payment all p.kind p l')
      (add_payment-Shift a b all p.kind p l l' h)

-- The bill moves by `a` charged and `b` discounted, and the orders' total stays.
pub record Moves (a b : ℤ) (old new : Bill) : Type 0 where
  pub charged : new.charged ≡ old.charged +ℤ a
  pub discounted : new.discounted ≡ old.discounted +ℤ b
  pub total : new.total ≡ old.total
  pub remaining : new.remaining ≡ old.remaining -ℤ (a +ℤ b)

bill_of-Moves :
    (a b : ℤ) (t : ℕ) (l l' : Ledger) → Shift a b l l' → Moves a b (bill_of t l) (bill_of t l')
unfolding bill_of
bill_of-Moves a b t l l' h = record {
  charged = h.0;
  discounted = h.1;
  total = refl;
  remaining = rw (h.0, h.1) (balance_regroup (pos t) l.charged l.discounted a b);
}

-- What one row adds to the two sums, beside the other payments of its session.
unfoldable pub effect : List Payment → PaymentKind → Payment → ℤ × ℤ
effect others charge p = (pos p.amount, pos 0)
effect others discount p = (pos 0, pos p.amount)
effect others _ p =
    if reverses_discount others p
    then (pos 0, pos 0 -ℤ pos p.amount)
    else (pos 0 -ℤ pos p.amount, pos 0)

add_payment-effect :
    (others : List Payment) (k : PaymentKind) (p : Payment) (l : Ledger)
    → Shift (effect others k p).0 (effect others k p).1 l (add_payment others k p l)
unfolding add_payment effect
add_payment-effect others charge p l = (omega int_laws, omega int_laws)
add_payment-effect others discount p l = (omega int_laws, omega int_laws)
add_payment-effect others _ p l = elim (Bool-cases (reverses_discount others p)) [
  | inl e ↦ rw e (omega int_laws, omega int_laws)
  | inr e ↦ rw e (omega int_laws, omega int_laws)
]

abbrev pub with_payment : Payment → Db → Db
with_payment p db = record db { payments = p ∷ db.payments }

module _ (p : Payment) (db : Db) (sid : ℕ) (fresh : Fresh p.id db.payments) where
  -- A fresh row of the session moves its bill by the row's effect.
  pub compute_bill-own :
      is_id p.session_id sid ≡ true
      → is_id p.reversed_id p.id ≡ false
      → Moves
          (effect (session_payments sid db) p.kind p).0
          (effect (session_payments sid db) p.kind p).1
          (compute_bill sid db)
          (compute_bill sid (with_payment p db))
  unfolding compute_bill
  compute_bill-own own apart =
      let ps = session_payments sid db in
      let start : Ledger = record { charged = pos 0; discounted = pos 0 } in
      let kept = Fresh-filter p.id (λ q. is_id q.session_id sid) db.payments fresh in
      let all = p ∷ ps in
      rw own (
        bill_of-Moves _ _ _ (ledger_from ps start ps) (ledger_from all start all) (
          rw (ledger_from-own p ps start kept apart) (
            ledger_from-Shift _ _ ps ps start (add_payment ps p.kind p start)
              (add_payment-effect ps p.kind p start))))

  -- A row of another owner leaves it alone.
  pub compute_bill-other :
      is_id p.session_id sid ≡ false → compute_bill sid (with_payment p db) ≡ compute_bill sid db
  unfolding compute_bill
  compute_bill-other other = rw other
