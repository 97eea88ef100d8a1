-- ===== src/Payment/Charge.antt =====
-- Charges (createPayment of server/src/services/payment.ts) and the bill.
use boardbite_pos.Prelude.{
  ℕ, ◌<◌, ◌≡◌, refl, ◌⊎◌, inl, inr, not, Bool, true, false, Option, none, some, [], arith, ltb, any,
  ok, throw_if_ok, both_ok, is_id, ==_iff,
}
use boardbite_pos.Prelude.Int.{ℤ, pos, max_zero, ◌+ℤ◌, ◌-ℤ◌, ◌≤ℤ◌, int_laws, parts_disjoint}
use boardbite_pos.Domain.Status.{charge}
use boardbite_pos.Domain.Rows.{Payment, PaymentMethod, Db}
use boardbite_pos.Domain.Key.{key_eq}
use boardbite_pos.Billing.{compute_bill, session_payments}
use boardbite_pos.Billing.Effects.{Fresh, Moves, effect, with_payment, compute_bill-own}
use boardbite_pos.Payment.{
  PaymentInput, scope_key, Settled, create_row, assert_allowed, settle_amount, charge_row,
  amount_tx, PaymentMode, amount_mode, items_mode, item_missing, over_remaining,
}
use boardbite_pos.Payment.Items.{
  items_tx, total_of, settle_items, check_allocations, item_ids, chosen_items, check_rows,
  allocation_rows, is_present,
}
use boardbite_pos.Payment.Create.{payment_tx}

pub create_row_ok :
    (p : Payment) (db : Db) {q : Payment} {db' : Db}
    → create_row p db ≡ ok (q, db')
    → (q ≡ p) × (db' ≡ with_payment p db) × (any (λ r. key_eq r.key p.key) db.payments ≡ false)
unfolding create_row
create_row_ok p db e = ground arith

-- A charge of at most the remaining amount, which is taken off it exactly.
pub record Collected (sid : ℕ) (p : Payment) (db db' : Db) : Type 0 where
  pub moves : Moves (pos p.amount) (pos 0) (compute_bill sid db) (compute_bill sid db')
  pub covered : (p.amount ≡ 0) ⊎ (pos 0 ≤ℤ (compute_bill sid db').remaining)
  pub written : db' ≡ with_payment p db
  pub kind : p.kind ≡ charge
  pub own : is_id p.session_id sid ≡ true

within : (r a b : ℤ) → a +ℤ b ≤ℤ r → pos 0 ≤ℤ r -ℤ (a +ℤ b)
within r a b h = omega int_laws

charge_fits : (r : ℤ) (n : ℕ) → pos n ≤ℤ r → pos n +ℤ pos 0 ≤ℤ r
charge_fits r n h = omega int_laws

zero_or_more : (n : ℕ) → (n ≡ 0) ⊎ (0 < n)
zero_or_more n = ground arith

Moves-of_charge :
    (sid : ℕ) (p : Payment) (db : Db)
    → Fresh p.id db.payments
    → p.kind ≡ charge
    → is_id p.session_id sid ≡ true
    → p.reversed_id ≡ none
    → Moves (pos p.amount) (pos 0) (compute_bill sid db) (compute_bill sid (with_payment p db))
Moves-of_charge sid p db fresh kind own apart =
    let nothing : is_id p.reversed_id p.id ≡ false = rw apart in
    let moved = compute_bill-own p db sid fresh own nothing in
    let as_charge : effect (session_payments sid db) p.kind p ≡ (pos p.amount, pos 0) =
      rw kind (unfold effect in refl) in
    rw as_charge at moved

collected :
    (sid : ℕ) (p : Payment) (db : Db) {db' : Db}
    → Fresh p.id db.payments
    → p.kind ≡ charge
    → is_id p.session_id sid ≡ true
    → p.reversed_id ≡ none
    → (0 < p.amount → pos p.amount ≤ℤ (compute_bill sid db).remaining)
    → db' ≡ with_payment p db
    → Collected sid p db db'
collected sid p db {db'} fresh kind own apart fits e =
    let moved = Moves-of_charge sid p db fresh kind own apart in
    let r = (compute_bill sid db).remaining in
    rw e (record {
      moves = moved;
      covered = elim (zero_or_more p.amount) [
        | inl nothing ↦ inl nothing
        | inr some_amount ↦ inr (
            rw moved.remaining
              (within r (pos p.amount) (pos 0) (charge_fits r p.amount (fits some_amount))))
      ];
      written = refl;
      kind = kind;
      own = own;
    })

-- The amount that the branch on the method settles: positive, and covered by what remains.
settle_amount_ok :
    (cash : Bool) (input : PaymentInput) (r : ℤ) {s : Settled}
    → settle_amount cash input r ≡ ok s
    → (0 < s.amount) × (pos s.amount ≤ℤ r)
unfolding settle_amount
settle_amount_ok true input r h = ground (arith, parts_disjoint r)
settle_amount_ok false input r h = ground arith

amount_tx_collects :
    (pid : ℕ) (input : PaymentInput) (m : PaymentMethod) (db : Db) {p : Payment} {db' : Db}
    → Fresh pid db.payments
    → amount_tx pid input m db ≡ ok (p, db')
    → Collected input.session_id p db db'
      × (0 < p.amount)
      × (p.key ≡ scope_key input.session_id input.client_key)
unfolding amount_tx
amount_tx_collects pid input m db {p} {db'} fresh e =
    let (t, allowed, e1) = both_ok (assert_allowed input.session_id db) _ e in
    let (s, settled, e2) =
      both_ok (settle_amount m.is_cash input (compute_bill input.session_id db).remaining) _ e1 in
    let row = charge_row pid input m s [] in
    let (is, written, new_key) = create_row_ok row db e2 in
    let (some_amount, fits) = settle_amount_ok m.is_cash input _ settled in
    rw is (
      collected input.session_id row db fresh refl
          ((==_iff input.session_id input.session_id).1 refl) refl (λ _. fits) written,
      some_amount,
      refl,
    )

settle_items_ok :
    (cash : Bool) (tendered : Option ℕ) (n : ℕ) {s : Settled}
    → settle_items cash tendered n ≡ ok s
    → s.amount ≡ n
unfolding settle_items
settle_items_ok false tendered n h = ground arith
settle_items_ok true none n h = cc
settle_items_ok true (some t) n h = ground arith

fits_remaining : (r : ℤ) (n : ℕ) → ltb (max_zero r) n ≡ false → 0 < n → pos n ≤ℤ r
fits_remaining r n h some_amount = ground (arith, parts_disjoint r)

items_tx_collects :
    (pid : ℕ) (input : PaymentInput) (m : PaymentMethod) (db : Db) {p : Payment} {db' : Db}
    → Fresh pid db.payments
    → items_tx pid input m db ≡ ok (p, db')
    → Collected input.session_id p db db'
      × (p.amount ≡ total_of p.allocations)
      × (p.key ≡ scope_key input.session_id input.client_key)
unfolding items_tx
items_tx_collects pid input m db {p} {db'} fresh e =
    let sid = input.session_id in
    let ids = item_ids input.allocations in
    let rows = chosen_items ids db in
    let r = (compute_bill sid db).remaining in
    let (t1, checked, e1) = both_ok (check_allocations input.allocations) _ e in
    let (t2, allowed, e2) = both_ok (assert_allowed sid db) _ e1 in
    let (present, e3) = throw_if_ok (any (λ k. not (is_present rows k)) ids) item_missing _ e2 in
    let (t3, owned, e4) = both_ok (check_rows sid rows) _ e3 in
    let (lines, listed, e5) = both_ok (allocation_rows db rows input.allocations) _ e4 in
    let (fits, e6) = throw_if_ok (ltb (max_zero r) (total_of lines)) over_remaining _ e5 in
    let (s, settled, e7) = both_ok (settle_items m.is_cash input.tendered (total_of lines)) _ e6 in
    let row = charge_row pid input m s lines in
    let (is, written, new_key) = create_row_ok row db e7 in
    let amount = settle_items_ok m.is_cash input.tendered (total_of lines) settled in
    rw is (
      collected sid row db fresh refl ((==_iff sid sid).1 refl) refl
          (λ some_amount.
            rw amount (fits_remaining r (total_of lines) fits (rw amount at some_amount)))
          written,
      amount,
      refl,
    )

pub payment_tx_ok :
    (pid : ℕ) (input : PaymentInput) (m : PaymentMethod) (db : Db) {p : Payment} {db' : Db}
    → Fresh pid db.payments
    → payment_tx pid input m db ≡ ok (p, db')
    → Collected input.session_id p db db' × (p.key ≡ scope_key input.session_id input.client_key)
unfolding payment_tx
payment_tx_ok pid input m db {p} {db'} fresh e = go input.mode e
  where
    go :
        (mode : PaymentMode)
        → elim mode [
          | items_mode ↦ items_tx pid input m db
          | amount_mode ↦ amount_tx pid input m db
        ]
          ≡ ok (p, db')
        → Collected input.session_id p db db'
          × (p.key ≡ scope_key input.session_id input.client_key)
    go items_mode h = let r = items_tx_collects pid input m db fresh h in (r.0, r.2)
    go amount_mode h = let r = amount_tx_collects pid input m db fresh h in (r.0, r.2)

-- A charge that createPayment's transaction writes, in either mode and under a fresh row id, moves
-- the session's bill by exactly its amount, adds only its own row, belongs to the session and is a
-- CHARGE; and unless its amount is zero, what remains afterwards is not negative, so nothing is
-- collected beyond what is owed.
pub payment_tx_collects :
    (pid : ℕ) (input : PaymentInput) (m : PaymentMethod) (db : Db) {p : Payment} {db' : Db}
    → Fresh pid db.payments
    → payment_tx pid input m db ≡ ok (p, db')
    → Collected input.session_id p db db'
payment_tx_collects pid input m db fresh e = (payment_tx_ok pid input m db fresh e).0
