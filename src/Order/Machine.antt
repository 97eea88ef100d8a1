-- ===== src/Order/Machine.antt =====
-- The state machine of an order, and the operations of server/src/services/order.ts on it.
use boardbite_pos.Prelude.{
  ℕ, ◌≡◌, refl, ◌⊎◌, inl, inr, true, Option, none, some, List, [], ◌∷◌, arith, ◌==◌, find, update,
  Each, Each-update, Result, ok, err,
}
use boardbite_pos.Domain.Status.{
  OrderStatus, new, accepted, preparing, ready, served, rejected, cancelled, order_status_in,
  same_order_status,
}
use boardbite_pos.Domain.Rows.{Order, Db}
use boardbite_pos.TableSession.Close.{auto_settle}
use boardbite_pos.TableSession.Settle.{auto_settle_frame}
use boardbite_pos.Order.{
  OrderError, stands_in, apply_transition, accept_order, reject_order, start_preparing, mark_ready,
  serve, revert_served_to_ready, mark_served, settle_if_table_order, no_stamp,
}

-- The edges of the machine.
pub data Edge : OrderStatus → OrderStatus → Type 0 where
  accept : Edge new accepted
  reject : Edge new rejected
  prepare : Edge accepted preparing
  finish : Edge preparing ready
  bring : Edge ready served
  take_back : Edge served ready
  cancel_new : Edge new cancelled
  cancel_accepted : Edge accepted cancelled
  cancel_preparing : Edge preparing cancelled

-- The same order, whose status stays or moves along an edge.
abbrev pub Follows : Order → Order → Type 0
Follows a b = (b.id ≡ a.id) × ((b.status ≡ a.status) ⊎ Edge a.status b.status)

module _ (oid : ℕ) (from : List OrderStatus) (to : OrderStatus) (stamp : Order → Order) (db : Db)
    (keeps : (o : Order) → (stamp o).id ≡ o.id) where
  apply_transition-Follows :
      {db' : Db}
      → ((st : OrderStatus) → order_status_in from st ≡ true → Edge st to)
      → apply_transition oid from to stamp db ≡ ok db'
      → Each Follows db.orders db'.orders
  unfolding apply_transition
  apply_transition-Follows {db'} edge e =
      let is : db'.orders
          ≡ update (stands_in oid from) (λ o. record (stamp o) { status = to }) db.orders =
        ground arith in
      rw is (
        Each-update Follows (stands_in oid from) (λ o. record (stamp o) { status = to })
          (λ o hit. (keeps o, inr (edge o.status (ground arith)))) (λ o miss. (refl, inl refl))
          db.orders)

-- The operations on one order's status, and what each does to the database.
pub data Action : Type 0 where
  accepting rejecting preparing_it making_ready reverting : Action
  serving_at : ℕ → Action

unfoldable pub act : Action → ℕ → Db → Result OrderError Db
unfolding accept_order reject_order start_preparing mark_ready revert_served_to_ready mark_served
act accepting oid db = accept_order oid db
act rejecting oid db = reject_order oid db
act preparing_it oid db = start_preparing oid db
act making_ready oid db = mark_ready oid db
act reverting oid db = revert_served_to_ready oid db
act (serving_at now) oid db = mark_served now oid db

settle_orders : (now oid : ℕ) (db : Db) → (settle_if_table_order now oid db).orders ≡ db.orders
unfolding settle_if_table_order
settle_orders now oid db = go (find (λ o. o.id == oid) db.orders)
  where
    of_session :
        (sid : Option ℕ)
        → (elim sid as (λ x. Db) [ none ↦ db | some k ↦ (auto_settle now k db db).1 ]).orders
          ≡ db.orders
    of_session none = refl
    of_session (some k) = (auto_settle_frame now k db db).0

    go :
        (found : Option Order)
        → (elim found as (λ x. Db) [
          | none ↦ db
          | some o ↦ elim o.session_id as (λ x. Db) [
            | none ↦ db
            | some k ↦ (auto_settle now k db db).1
          ]
        ]).orders
          ≡ db.orders
    go none = refl
    go (some o) = of_session o.session_id

mark_served_ok :
    (now oid : ℕ) (db : Db) {db' : Db}
    → mark_served now oid db ≡ ok db'
    → (mid : Db) × (serve now oid db ≡ ok mid) × (db' ≡ settle_if_table_order now oid mid)
unfolding mark_served
mark_served_ok now oid db {db'} e = go (serve now oid db) refl e
  where
    go :
        (r : Result OrderError Db)
        → serve now oid db ≡ r
        → elim r [ err e ↦ err e | ok mid ↦ ok (settle_if_table_order now oid mid) ] ≡ ok db'
        → (mid : Db) × (serve now oid db ≡ ok mid) × (db' ≡ settle_if_table_order now oid mid)
    go (err x) is h = cc
    go (ok mid) is h = (mid, is, cc)

eq_of_same : (a b : OrderStatus) → same_order_status a b ≡ true → a ≡ b
eq_of_same a b h = ground arith

along :
    (oid : ℕ) (from to : OrderStatus) (stamp : Order → Order) (db : Db)
    → ((o : Order) → (stamp o).id ≡ o.id)
    → Edge from to
    → {db' : Db} → apply_transition oid (from ∷ []) to stamp db ≡ ok db'
    → Each Follows db.orders db'.orders
along oid from to stamp db keeps edge e =
    apply_transition-Follows oid (from ∷ []) to stamp db keeps
      (λ st h. let is : st ≡ from = eq_of_same st from (ground arith) in rw is edge) e

-- Every operation on an order's status that succeeds (accept, reject, prepare, make ready, serve
-- with its settlement, take a serving back) keeps each order's id and keeps its status or moves it
-- along one edge of the state machine, and adds or removes no order.
pub act-Follows :
    (a : Action) (oid : ℕ) (db : Db) {db' : Db}
    → act a oid db ≡ ok db'
    → Each Follows db.orders db'.orders
unfolding act accept_order reject_order start_preparing mark_ready revert_served_to_ready
    mark_served serve
act-Follows accepting oid db e = along oid new accepted no_stamp db (λ o. refl) accept e
act-Follows rejecting oid db e = along oid new rejected no_stamp db (λ o. refl) reject e
act-Follows preparing_it oid db e = along oid accepted preparing no_stamp db (λ o. refl) prepare e
act-Follows making_ready oid db e = along oid preparing ready no_stamp db (λ o. refl) finish e
act-Follows reverting oid db e =
    along oid served ready (λ o. record o { served_at = none }) db (λ o. refl) take_back e
act-Follows (serving_at now) oid db {db'} e =
    let (mid, brought, settled) = mark_served_ok now oid db e in
    rw settled (
      rw (settle_orders now oid mid) (
        along oid ready served (λ o. record o { served_at = some now }) db (λ o. refl) bring
          brought))
