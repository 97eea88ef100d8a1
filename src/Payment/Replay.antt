-- ===== src/Payment/Replay.antt =====
-- Payment requests that are sent again (createPayment of server/src/services/payment.ts).
use mathlib.Core.Path.{subst}
use boardbite_pos.Prelude.{
  ℕ, ◌≡◌, refl, sym, inl, inr, Option-cases, none, some, Result, ok, err, both_ok, ok_inj,
}
use boardbite_pos.Domain.Key.{Key, key_eq_refl}
use boardbite_pos.Domain.Rows.{Payment, Db}
use boardbite_pos.TableSession.Settle.{auto_settle_frame}
use boardbite_pos.Payment.{PaymentError, unique_violation, PaymentInput, scope_key, find_key}
use boardbite_pos.Payment.Create.{
  find_method, payment_tx, PaymentResult, replay, finalize, or_winner, create_payment,
}
use boardbite_pos.Payment.Charge.{payment_tx_ok}
use boardbite_pos.Billing.Effects.{Fresh, with_payment}

or_winner_ok :
    (now sid : ℕ) (k : Key) (db : Db) (r : Result PaymentError (Payment × Db))
    {done : PaymentResult}
    → find_key k db.payments ≡ none
    → or_winner now sid k db r ≡ ok done
    → (w : Payment × Db) × (r ≡ ok w) × (done ≡ finalize now sid w)
unfolding or_winner
or_winner_ok now sid k db (ok w) {done} none_yet e = (w, refl, sym (ok_inj _ refl e))
or_winner_ok now sid k db (err unique_violation) none_yet e =
    let no_winner = rw (or_winner, none_yet) at e in cc
or_winner_ok now sid k db (err x) none_yet e = cc

finalize_kept :
    (now sid : ℕ) (k : Key) (w : Payment × Db)
    → find_key k w.1.payments ≡ some w.0
    → find_key k (finalize now sid w).after.payments ≡ some (finalize now sid w).payment
unfolding finalize
finalize_kept now sid k w h = rw ((auto_settle_frame now sid w.1 w.1).1) h

written_found :
    (k : Key) (p : Payment) (db : Db) → p.key ≡ k → find_key k (with_payment p db).payments ≡ some p
written_found k p db e = rw (e, key_eq_refl k) refl

kept_payment :
    (pid now : ℕ) (input : PaymentInput) (db : Db) {r : PaymentResult}
    → Fresh pid db.payments
    → create_payment pid now input db db ≡ ok r
    → find_key (scope_key input.session_id input.client_key) r.after.payments ≡ some r.payment
unfolding create_payment
kept_payment pid now input db {r} fresh e =
    let sid = input.session_id in
    let k = scope_key sid input.client_key in
    elim (Option-cases (find_key k db.payments)) [
      | inr (p, before) ↦
          let is : replay sid p db ≡ r = ok_inj _ refl (rw (create_payment, before) at e) in
          subst (λ r. find_key k r.after.payments ≡ some r.payment) is before
      | inl none_yet ↦
          let (m, method, e1) =
            both_ok (find_method input db) _ (rw (create_payment, none_yet) at e) in
          let (w, wrote, is) = or_winner_ok now sid k db (payment_tx pid input m db) none_yet e1 in
          let (c, key) = payment_tx_ok pid input m db fresh wrote in
          let found : find_key k w.1.payments ≡ some w.0 =
            rw c.written (written_found k w.0 db key) in
          subst (λ r. find_key k r.after.payments ≡ some r.payment) (sym is)
            (finalize_kept now sid k w found)
    ]

-- A payment request that succeeded and is sent again with the same session and client key returns
-- the payment of the first one and changes nothing, whatever else the second request names; the
-- row id of the first is fresh and nothing happens between a request's reads and its transaction.
pub create_payment_again :
    (pid pid' now later : ℕ) (input again : PaymentInput) (db : Db) {r : PaymentResult}
    → Fresh pid db.payments
    → scope_key again.session_id again.client_key ≡ scope_key input.session_id input.client_key
    → create_payment pid now input db db ≡ ok r
    → create_payment pid' later again r.after r.after
      ≡ ok (replay again.session_id r.payment r.after)
unfolding create_payment
create_payment_again pid pid' now later input again db {r} fresh same e =
    let found = kept_payment pid now input db fresh e in
    let found' : find_key (scope_key again.session_id again.client_key) r.after.payments
        ≡ some r.payment =
      rw same found in
    rw (create_payment, found') refl
