-- ===== src/Order/Again.antt =====
-- Order requests that are sent again (createOrder of server/src/services/order.ts).
use mathlib.Core.Path.{subst}
use boardbite_pos.Prelude.{
  ℕ, ◌≡◌, refl, sym, ap, ◌∙◌, ◌⊎◌, inl, inr, Option-cases, Bool-cases, some_inj, ◌>>=◌, ◌>>◌,
  throw_if, Result, err, none, some, List, ok, ok_inj,
}
use boardbite_pos.Domain.Key.{Key, key_eq_refl}
use boardbite_pos.Domain.Rows.{Order, Db}
use boardbite_pos.Menu.{to_table, Catalog}
use boardbite_pos.Order.Lines.{
  Line, LineError, resolve_order_lines, OrderInput, order_key, new_order, find_order, server_total,
  price_differs, store_order, create_order, price_mismatch,
}
use boardbite_pos.Order.Creation.{create_order_ok}

stored_found :
    (o : Order) (db : Db) → find_order o.key (store_order o db).1.orders ≡ some (store_order o db).0
unfolding store_order
stored_found o db = elim (Option-cases (find_order o.key db.orders)) [
  | inl e ↦ rw (store_order, e, key_eq_refl o.key) refl
  | inr (q, e) ↦ rw (store_order, e) e
]

kept_order :
    (oid : ℕ) (ids : ℕ → ℕ) (input : OrderInput) (catalog : Catalog) (seen db : Db) {o : Order}
    {db' : Db}
    → (find_order (order_key input) seen.orders ≡ none)
      ⊎ (find_order (order_key input) seen.orders ≡ find_order (order_key input) db.orders)
    → create_order oid ids input catalog seen db ≡ ok (o, db')
    → find_order (order_key input) db'.orders ≡ some o
unfolding create_order new_order
kept_order oid ids input catalog seen db {o} {db'} read e =
    elim (Option-cases (find_order (order_key input) seen.orders)) [
      | inr (q, before) ↦
          let is : (q, db) ≡ (o, db') = ok_inj _ refl (rw (create_order, before) at e) in
          subst (λ r. find_order (order_key input) r.1.orders ≡ some r.0) is (still q before read)
      | inl none_yet ↦
          let (ls, resolved, price, is) =
            create_order_ok oid ids input catalog seen db none_yet e in
          subst (λ r. find_order (order_key input) r.1.orders ≡ some r.0) (sym is)
            (stored_found (new_order oid ids input ls) db)
    ]
  where
    still :
        (q : Order)
        → find_order (order_key input) seen.orders ≡ some q
        → (find_order (order_key input) seen.orders ≡ none)
          ⊎ (find_order (order_key input) seen.orders ≡ find_order (order_key input) db.orders)
        → find_order (order_key input) db.orders ≡ some q
    still q before (inl nothing) = cc
    still q before (inr same) = sym same ∙ before

store_again :
    (oid : ℕ) (ids : ℕ → ℕ) (input : OrderInput) (lines : List Line) (db : Db) {winner : Order}
    → find_order (order_key input) db.orders ≡ some winner
    → store_order (new_order oid ids input lines) db ≡ (winner, db)
unfolding store_order new_order
store_again oid ids input lines db there = rw (store_order, there) refl

-- The request returns that order and writes nothing; or it has not seen the order yet and is
-- refused for its lines or its price.
abbrev pub Repeats : Key → Db → Db → Order → Result LineError (Order × Db) → Type 0
Repeats k seen later o r =
    (r ≡ ok (o, later)) ⊎ ((find_order k seen.orders ≡ none) × ((e : LineError) × (r ≡ err e)))

-- After an order request succeeded, a request with the same session and client key creates
-- nothing, whatever else it holds and whatever is on sale by then, if the order under that key is
-- as the first left it: it returns that order, or it is refused for its lines or its price, and
-- this only where its own read came before the order was there. Both requests may have read
-- earlier than their transactions, either no order under the key or the one that their
-- transactions find.
pub create_order_again :
    (oid oid' : ℕ) (ids ids' : ℕ → ℕ) (input again : OrderInput) (catalog catalog' : Catalog)
    (seen db seen' later : Db) {o : Order} {db' : Db}
    → order_key again ≡ order_key input
    → (find_order (order_key input) seen.orders ≡ none)
      ⊎ (find_order (order_key input) seen.orders ≡ find_order (order_key input) db.orders)
    → create_order oid ids input catalog seen db ≡ ok (o, db')
    → find_order (order_key input) later.orders ≡ find_order (order_key input) db'.orders
    → (find_order (order_key input) seen'.orders ≡ none)
      ⊎ (find_order (order_key input) seen'.orders ≡ find_order (order_key input) later.orders)
    → Repeats (order_key input) seen' later o (create_order oid' ids' again catalog' seen' later)
unfolding create_order
create_order_again oid oid' ids ids' input again catalog catalog' seen db seen' later {o} {db'} same
      read e kept read' =
    let found = kept ∙ kept_order oid ids input catalog seen db read e in
    let found' : find_order (order_key again) later.orders ≡ some o = rw same found in
    elim (Option-cases (find_order (order_key input) seen'.orders)) [
      | inr (q, before) ↦
          let now_there = seen_then q before read' in
          let is : q ≡ o = some_inj (sym now_there ∙ found) in
          let before' : find_order (order_key again) seen'.orders ≡ some q = rw same before in
          inl (rw (create_order, before', is) refl)
      | inl none_yet ↦
          let none_seen : find_order (order_key again) seen'.orders ≡ none = rw same none_yet in
          rw (create_order, none_seen)
            (go none_yet found' (resolve_order_lines again.lines to_table catalog'))
    ]
  where
    seen_then :
        (q : Order)
        → find_order (order_key input) seen'.orders ≡ some q
        → (find_order (order_key input) seen'.orders ≡ none)
          ⊎ (find_order (order_key input) seen'.orders ≡ find_order (order_key input) later.orders)
        → find_order (order_key input) later.orders ≡ some q
    seen_then q before (inl nothing) = cc
    seen_then q before (inr is) = sym is ∙ before

    go :
        find_order (order_key input) seen'.orders ≡ none
        → find_order (order_key again) later.orders ≡ some o
        → (r : Result LineError (List Line))
        → Repeats (order_key input) seen' later o (
            r >>= (λ lines.
              throw_if (price_differs again.expected_total (server_total lines)) price_mismatch
              >> ok (store_order (new_order oid' ids' again lines) later)))
    go none_yet there (err x) = inr (none_yet, (x, refl))
    go none_yet there (ok lines) =
        elim (Bool-cases (price_differs again.expected_total (server_total lines))) [
          | inl differs ↦ inr (none_yet, (price_mismatch, rw differs refl))
          | inr agrees ↦ inl (rw agrees (ap ok (store_again oid' ids' again lines later there)))
        ]
