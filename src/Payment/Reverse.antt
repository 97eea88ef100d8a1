-- ===== src/Payment/Reverse.antt =====
-- Reversals (voidPayment of server/src/services/payment.ts), their originals and the bill.
use boardbite_pos.Prelude.{
  ℕ, ◌≡◌, ◌≢◌, refl, sym, ap, ok_inj, ◌∙◌, inl, inr, Option-cases, Bool, Bool-cases, some_inj, [],
  true, false, none, some, List, ◌∷◌, arith, any, find, ok, is_id, ==_iff, ◌==◌, throw_if_ok,
}
use boardbite_pos.Prelude.Int.{ℤ, pos, ◌+ℤ◌, ◌-ℤ◌, int_laws}
use boardbite_pos.Domain.Status.{PaymentKind, discount, SessionStatus}
use boardbite_pos.Domain.Rows.{Session, Payment, PaymentMethod, Db}
use boardbite_pos.Billing.{bill_of, compute_bill, session_payments, reverses_discount}
use boardbite_pos.Billing.Effects.{Fresh, Moves, effect, with_payment, compute_bill-own}
use boardbite_pos.Payment.{PaymentInput, find_key, already_reversed}
use boardbite_pos.Payment.Charge.{create_row_ok, payment_tx_collects}
use boardbite_pos.Payment.Create.{payment_tx}
use boardbite_pos.Payment.Void.{is_original, reversal_kind, reversal_row, void_tx}

-- What the original of a reversal had moved, taken back.
abbrev pub taken_back : PaymentKind → ℕ → ℤ × ℤ
taken_back discount n = (pos 0, pos 0 -ℤ pos n)
taken_back _ n = (pos 0 -ℤ pos n, pos 0)

reversal-effect :
    (others : List Payment) (st : SessionStatus) (p original : Payment)
    → is_original original.kind ≡ true
    → p.reversed_id ≡ some original.id
    → p.amount ≡ original.amount
    → find (λ q. q.id == original.id) others ≡ some original
    → effect others (reversal_kind st) p ≡ taken_back original.kind original.amount
unfolding effect reverses_discount
reversal-effect others st p original kind of amount found = ground arith

module _ (pid staff : ℕ) (s : Session) (original : Payment) (db : Db) {p : Payment} {db' : Db}
    (none_yet : find_key (reversal_row pid staff s original).key db.payments ≡ none)
    (done : void_tx pid staff s original db ≡ ok (p, db')) where
  void_tx_row :
      (p ≡ reversal_row pid staff s original)
      × (db' ≡ with_payment p db)
      × (any (λ q. is_id q.reversed_id original.id) db.payments ≡ false)
  unfolding void_tx
  void_tx_row =
      let row = reversal_row pid staff s original in
      let (first, made) =
        throw_if_ok (any (λ q. is_id q.reversed_id original.id) db.payments) already_reversed _
          (rw (none_yet, void_tx) at done) in
      let (is, written, new_key) = create_row_ok row db made in (is, rw is written, first)

  -- A reversal that is written, under a fresh id and a new key, takes back exactly what its
  -- original charge or discount had moved on the session's bill, on the side (charged or
  -- discounted) where it had moved it, and leaves the orders' total alone.
  pub void_tx_takes_back :
      Fresh pid db.payments
      → pid ≢ original.id
      → is_original original.kind ≡ true
      → find (λ q. q.id == original.id) (session_payments s.id db) ≡ some original
      → Moves
          (taken_back original.kind original.amount).0
          (taken_back original.kind original.amount).1
          (compute_bill s.id db)
          (compute_bill s.id db')
  void_tx_takes_back fresh other kind found =
      let row = reversal_row pid staff s original in
      let (is, written, first) = void_tx_row in
      let apart : is_id row.reversed_id pid ≡ false = unfold reversal_row in ground arith in
      let own : is_id row.session_id s.id ≡ true = unfold reversal_row in ground arith in
      let same_id : row.id ≡ pid = unfold reversal_row in refl in
      let moved = compute_bill-own row db s.id (rw same_id fresh) own (rw same_id apart) in
      let moves : effect (session_payments s.id db) row.kind row
          ≡ taken_back original.kind original.amount =
        unfold reversal_row in
        reversal-effect (session_payments s.id db) s.status row original kind refl refl found in
      rw (written, is) (rw moves at moved)

second_refused :
    (pid staff : ℕ) (s : Session) (original : Payment) (db : Db) {q : Payment} {db' : Db}
    → any (λ q. is_id q.reversed_id original.id) db.payments ≡ true
    → void_tx pid staff s original db ≡ ok (q, db')
    → db' ≡ db
unfolding void_tx
second_refused pid staff s original db {q} {db'} there e =
    elim (Option-cases (find_key (reversal_row pid staff s original).key db.payments)) [
      | inl none_found ↦
          let (first, made) =
            throw_if_ok (any (λ q. is_id q.reversed_id original.id) db.payments) already_reversed _
              (rw (none_found, void_tx) at e) in
          absurd (ground arith)
      | inr (p, found) ↦ ap (λ r. r.1) (sym (ok_inj _ refl (rw (found, void_tx) at e)))
    ]

any_of-find :
    (f g : Payment → Bool) (ps : List Payment) {p : Payment}
    → find f ps ≡ some p
    → g p ≡ true
    → any g ps ≡ true
any_of-find f g [] e h = cc
any_of-find f g (q ∷ qs) {p} e h = elim (Bool-cases (f q)) [
  | inl here ↦ let same : q ≡ p = some_inj (rw here at e) in rw (same, h) refl
  | inr off ↦ let rest = any_of-find f g qs (rw off at e) h in ground (arith, rest)
]

-- Once the transaction of voidPayment has written a reversal of a payment (under a key that was
-- new), every reversal of the same payment that does not fail writes nothing in any later database
-- that still has that reversal under its id, whatever else was written in between, whoever asks
-- and whatever the status of the session is by then.
pub void_tx_once :
    (pid pid' staff staff' : ℕ) (s s' : Session) (original : Payment) (db later : Db)
    {p q : Payment} {db1 db2 : Db}
    → find_key (reversal_row pid staff s original).key db.payments ≡ none
    → void_tx pid staff s original db ≡ ok (p, db1)
    → find (λ r. r.id == p.id) later.payments ≡ some p
    → void_tx pid' staff' s' original later ≡ ok (q, db2)
    → db2 ≡ later
unfolding reversal_row
void_tx_once pid pid' staff staff' s s' original db later {p} {q} {db1} {db2} none_yet e kept e' =
    let (is, written, first) = void_tx_row pid staff s original db none_yet e in
    let same : (original.id == original.id) ≡ true = (==_iff original.id original.id).1 refl in
    let reverses : is_id p.reversed_id original.id ≡ true = rw (is, same) refl in
    let there =
      any_of-find (λ r. r.id == p.id) (λ r. is_id r.reversed_id original.id) later.payments kept
        reverses in
    second_refused pid' staff' s' original later there e'

bill-eq :
    (sid : ℕ) (a b : Db)
    → (compute_bill sid a).total ≡ (compute_bill sid b).total
    → (compute_bill sid a).charged ≡ (compute_bill sid b).charged
    → (compute_bill sid a).discounted ≡ (compute_bill sid b).discounted
    → compute_bill sid a ≡ compute_bill sid b
unfolding compute_bill bill_of
bill-eq sid a b t c d = rw (t, c, d)

back : (x a : ℤ) → x +ℤ a +ℤ (pos 0 -ℤ a) ≡ x
back x a = omega int_laws

back_zero : (x : ℤ) → x +ℤ pos 0 +ℤ pos 0 ≡ x
back_zero x = omega int_laws

-- A charge that is written and then reversed, under fresh row ids and a new key, leaves the bill
-- of its session exactly as it was before the charge.
pub void_tx-payment_tx :
    (pid vid staff : ℕ) (input : PaymentInput) (m : PaymentMethod) (s : Session) (db : Db)
    {p v : Payment} {db1 db2 : Db}
    → Fresh pid db.payments
    → s.id ≡ input.session_id
    → payment_tx pid input m db ≡ ok (p, db1)
    → Fresh vid db1.payments
    → find_key (reversal_row vid staff s p).key db1.payments ≡ none
    → void_tx vid staff s p db1 ≡ ok (v, db2)
    → compute_bill s.id db2 ≡ compute_bill s.id db
void_tx-payment_tx pid vid staff input m s db {p} {v} {db1} {db2} fresh same e fresh' none_yet e' =
    let c = payment_tx_collects pid input m db fresh e in
    let own : is_id p.session_id s.id ≡ true = rw same c.own in
    let fresh_v : Fresh vid (p ∷ db.payments) = rw c.written at fresh' in
    let same_id : (p.id == p.id) ≡ true = (==_iff p.id p.id).1 refl in
    let front : find (λ q. q.id == p.id) (session_payments s.id db1) ≡ some p =
      rw (c.written, own, same_id) refl in
    let v_moves =
      void_tx_takes_back vid staff s p db1 none_yet e' fresh' (λ k. fresh_v.0.0 (sym k))
        (rw c.kind refl) front in
    let back_moves : Moves (pos 0 -ℤ pos p.amount) (pos 0) (compute_bill s.id db1)
        (compute_bill s.id db2) =
      rw c.kind at v_moves in
    let moves : Moves (pos p.amount) (pos 0) (compute_bill s.id db) (compute_bill s.id db1) =
      rw same c.moves in
    bill-eq s.id db2 db (back_moves.total ∙ moves.total)
      (rw (back_moves.charged, moves.charged) (back (compute_bill s.id db).charged (pos p.amount)))
      (rw (back_moves.discounted, moves.discounted) (back_zero (compute_bill s.id db).discounted))
