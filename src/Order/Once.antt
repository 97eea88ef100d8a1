-- ===== src/Order/Once.antt =====
-- The steps of an order that are not taken twice (server/src/services/order.ts), over any course of
-- what happens to the orders.
use boardbite_pos.Prelude.{
  ℕ, ◌≤◌, ◌<◌, ◌≡◌, ◌≢◌, refl, sym, ap, ◌∙◌, inl, inr, Bool-cases, true, false, Option, none, some,
  List, [], ◌∷◌, arith, ◌==◌, ==_iff, update, count, All, All-update, Each, no_row, row, Distinct,
  fits_of-count, ok, is_ok,
}
use boardbite_pos.Domain.Status.{
  OrderStatus, new, accepted, preparing, ready, rejected, order_status_in,
}
use boardbite_pos.Domain.Rows.{Order, Db}
use boardbite_pos.Order.{
  stands_in, apply_transition, accept_order, reject_order, start_preparing, mark_ready, no_stamp,
}
use boardbite_pos.Order.Cancel.{CancelInput, cancel_order}
use boardbite_pos.Order.Cutting.{cancel_order-Cut}
use boardbite_pos.Order.Machine.{
  Edge, accept, reject, prepare, finish, bring, take_back, cancel_new, cancel_accepted,
  cancel_preparing, Follows, Action, accepting, rejecting, preparing_it, making_ready, reverting,
  serving_at, act, act-Follows,
}

-- How far an order has come; serving can be taken back, so that both ends are as far.
abbrev pub stage : OrderStatus → ℕ
stage new = 0
stage accepted = 1
stage preparing = 2
stage _ = 3

-- What happens to the orders: changes of status, cancellations, new orders under other ids, and
-- writes elsewhere.
pub data Course (oid : ℕ) : Db → Db → Type 0 where
  begin : {a : Db} → Course oid a a
  then_act : {a b c : Db} (x : Action) (k : ℕ) → Course oid a b → act x k b ≡ ok c → Course oid a c
  then_cancel :
      {a b c : Db} (now : ℕ) (input : CancelInput)
      → Course oid a b
      → cancel_order now input b ≡ ok c
      → Course oid a c
  then_new :
      {a b c : Db} (o : Order)
      → Course oid a b
      → o.id ≢ oid
      → c.orders ≡ o ∷ b.orders
      → Course oid a c
  elsewhere : {a b c : Db} → Course oid a b → c.orders ≡ b.orders → Course oid a c

edge_forward : {a b : OrderStatus} → Edge a b → stage a ≤ stage b
edge_forward accept = omega arith
edge_forward reject = omega arith
edge_forward prepare = omega arith
edge_forward finish = omega arith
edge_forward bring = omega arith
edge_forward take_back = omega arith
edge_forward cancel_new = omega arith
edge_forward cancel_accepted = omega arith
edge_forward cancel_preparing = omega arith

-- Every row of this id has come further than `n`.
abbrev Past : ℕ → ℕ → List Order → Type 0
Past oid n os = All (λ o. o.id ≡ oid → n < stage o.status) os

Follows-Past : (n : ℕ) (a b : Order) → Follows a b → n < stage a.status → n < stage b.status
Follows-Past n a b (same, inl stays) h = rw stays h
Follows-Past n a b (same, inr edge) h = let on = edge_forward edge in omega (arith, on, h)

each_Past :
    (oid n : ℕ) {R : Order → Order → Type 0} {os os' : List Order}
    → ((a b : Order) → R a b → Follows a b)
    → Each R os os'
    → Past oid n os
    → Past oid n os'
each_Past oid n f no_row h = tt
each_Past oid n f (row {x = a} {y = b} r rest) (p, h) =
    let g = f a b r in ((λ is. Follows-Past n a b g (p (sym g.0 ∙ is))), each_Past oid n f rest h)

Course-Past :
    {oid : ℕ} (n : ℕ) {a b : Db} → Course oid a b → Past oid n a.orders → Past oid n b.orders
Course-Past n begin h = h
Course-Past {oid} n (then_act {b = b} x k before e) h =
    each_Past oid n (λ a b f. f) (act-Follows x k b e) (Course-Past n before h)
Course-Past {oid} n (then_cancel {b = b} now input before e) h =
    each_Past oid n (λ a b c. c.0) (cancel_order-Cut now input b e) (Course-Past n before h)
Course-Past n (then_new o before other is) h =
    rw is ((λ same. absurd (other same)), Course-Past n before h)
Course-Past n (elsewhere before is) h = rw is (Course-Past n before h)

-- The steps that lead on, and the status that each starts from.
abbrev pub starts_from : Action → Option OrderStatus
starts_from accepting = some new
starts_from rejecting = some new
starts_from preparing_it = some accepted
starts_from making_ready = some preparing
starts_from _ = none

is_from : (a b : OrderStatus) → order_status_in (b ∷ []) a ≡ true → a ≡ b
is_from a b h = ground arith

-- A transition that led on leaves every row of the id further than where it started.
transition_Past :
    (oid : ℕ) (from to : OrderStatus) (db : Db) {db' : Db}
    → stage from < stage to
    → Distinct (λ o. o.id) db.orders
    → apply_transition oid (from ∷ []) to no_stamp db ≡ ok db'
    → Past oid (stage from) db'.orders
unfolding apply_transition
transition_Past oid from to db {db'} on apart e =
    let one : count (stands_in oid (from ∷ [])) db.orders ≡ 1 = ground arith in
    let is : db'.orders
        ≡ update (stands_in oid (from ∷ [])) (λ o. record o { status = to }) db.orders =
      ground arith in
    let all_from =
      fits_of-count (λ (o : Order). o.id) oid (λ o. order_status_in (from ∷ []) o.status) db.orders
        apart one in
    rw is (
      All-update (λ o. (o.id == oid) ≡ true → order_status_in (from ∷ []) o.status ≡ true)
        (λ o. o.id ≡ oid → stage from < stage o.status) (stands_in oid (from ∷ []))
        (λ o. record o { status = to }) (λ o h hit same. on)
        (λ o h miss same.
          let here : (o.id == oid) ≡ true = (==_iff o.id oid).1 same in
          let there = h here in absurd (ground (arith, miss, here, there)))
        db.orders all_from)

none_stand :
    (oid : ℕ) (from : OrderStatus) (os : List Order)
    → Past oid (stage from) os
    → count (stands_in oid (from ∷ [])) os ≡ 0
none_stand oid from [] h = refl
none_stand oid from (o ∷ os) (p, h) =
    let rest = none_stand oid from os h in
    elim (Bool-cases (stands_in oid (from ∷ []) o)) [
      | inl stands ↦
          let here : (o.id == oid) ≡ true = ground (arith, stands) in
          let status_is : o.status ≡ from = is_from o.status from (ground (arith, stands)) in
          let past = p ((==_iff o.id oid).0 here) in absurd (below o.status from status_is past)
      | inr other ↦ rw other (omega (arith, rest))
    ]
  where
    below : (a b : OrderStatus) → a ≡ b → stage b < stage a → ⊥
    below a b e h = let same = ap stage e in omega (arith, h, same)

refused :
    (oid : ℕ) (from to : OrderStatus) (db : Db)
    → Past oid (stage from) db.orders
    → is_ok (apply_transition oid (from ∷ []) to no_stamp db) ≡ false
unfolding apply_transition
refused oid from to db h = let gone = none_stand oid from db.orders h in ground (arith, gone)

once :
    (oid : ℕ) (from to : OrderStatus) (a b c : Db)
    → stage from < stage to
    → Distinct (λ o. o.id) a.orders
    → apply_transition oid (from ∷ []) to no_stamp a ≡ ok b
    → Course oid b c
    → is_ok (apply_transition oid (from ∷ []) to no_stamp c) ≡ false
once oid from to a b c on apart e course =
    refused oid from to c
      (Course-Past (stage from) course (transition_Past oid from to a on apart e))

-- In a database whose orders have different ids, accepting, rejecting, starting to prepare and
-- making ready each succeed at most once for an order: after a success the same operation fails,
-- whatever status operations, cancellations, new orders under other ids and writes that leave the
-- orders alone happen in between.
pub act_once :
    (x : Action) (oid : ℕ) (a b c : Db) {from : OrderStatus}
    → starts_from x ≡ some from
    → Distinct (λ o. o.id) a.orders
    → act x oid a ≡ ok b
    → Course oid b c
    → is_ok (act x oid c) ≡ false
unfolding act accept_order reject_order start_preparing mark_ready
act_once accepting oid a b c leads apart e course =
    once oid new accepted a b c (omega arith) apart e course
act_once rejecting oid a b c leads apart e course =
    once oid new rejected a b c (omega arith) apart e course
act_once preparing_it oid a b c leads apart e course =
    once oid accepted preparing a b c (omega arith) apart e course
act_once making_ready oid a b c leads apart e course =
    once oid preparing ready a b c (omega arith) apart e course
act_once reverting oid a b c leads apart e course = cc
act_once (serving_at now) oid a b c leads apart e course = cc
