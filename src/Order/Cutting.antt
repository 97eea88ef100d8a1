-- ===== src/Order/Cutting.antt =====
-- Cancellations (server/src/services/order.ts), the orders' status and their cost.
use boardbite_pos.Prelude.{
  ℕ, ◌≤◌, ◌≡◌, refl, inl, inr, Bool-cases, Bool, true, false, not, ◌&&◌, some, List, [], ◌∷◌, arith,
  ◌==◌, map, length, any, all, find, update, filter, sum_by, Each, no_row, row, Each-update,
  Each-refl, Each-comp, ok, is_some, both_ok, or_throw, or_throw_ok, ok_inj, throw_if_ok, sym,
}
use boardbite_pos.Domain.Status.{
  OrderStatus, new, accepted, preparing, ready, served, rejected, cancelled, order_status_in,
}
use boardbite_pos.Domain.Rows.{Item, Order, Db}
use boardbite_pos.Billing.{item_total, order_total}
use boardbite_pos.Order.{order_missing, foreign_items, cannot_cancel, stands_in}
use boardbite_pos.Order.Cancel.{
  CancelInput, cancellable, target_ids, cancel_status, is_target, cancel_in, cancel_items,
  live_count, cancel_writes, cancel_order,
}
use boardbite_pos.Order.Machine.{Edge, cancel_new, cancel_accepted, cancel_preparing, Follows}

-- A change of the status alone, and one of the items alone.
abbrev StatusStep : Order → Order → Type 0
StatusStep a b = Follows a b × (b.session_id ≡ a.session_id) × (b.items ≡ a.items)

abbrev ItemStep : Order → Order → Type 0
ItemStep a b =
    (b.id ≡ a.id)
    × (b.status ≡ a.status)
    × (b.session_id ≡ a.session_id)
    × (order_total b ≤ order_total a)

-- The order may be cancelled, keeps its session, and costs no more.
abbrev pub Cut : Order → Order → Type 0
Cut a b = Follows a b × (b.session_id ≡ a.session_id) × (order_total b ≤ order_total a)

cancel-Edge : (st : OrderStatus) → order_status_in cancellable st ≡ true → Edge st cancelled
cancel-Edge new h = cancel_new
cancel-Edge accepted h = cancel_accepted
cancel-Edge preparing h = cancel_preparing
cancel-Edge ready h = absurd (ground arith)
cancel-Edge served h = absurd (ground arith)
cancel-Edge rejected h = absurd (ground arith)
cancel-Edge cancelled h = absurd (ground arith)

cancel_status_step :
    (now : ℕ) (input : CancelInput) (db : Db)
    → Each StatusStep db.orders (cancel_status now input db).orders
unfolding cancel_status
cancel_status_step now input db =
    Each-update StatusStep (stands_in input.order_id cancellable)
      (λ o. record o {
        status = cancelled;
        cancelled_at = some now;
        cancel_reason = some input.reason;
      })
      (λ o hit. ((refl, inr (cancel-Edge o.status (ground arith))), refl, refl))
      (λ o miss. ((refl, inl refl), refl, refl)) db.orders

cost_falls :
    (now : ℕ) (targets : List ℕ) (is : List Item)
    → sum_by item_total (
        filter
          (λ i. not (is_some i.cancelled_at))
          (update (is_target targets) (λ i. record i { cancelled_at = some now }) is))
      ≤ sum_by item_total (filter (λ i. not (is_some i.cancelled_at)) is)
cost_falls now targets [] = ground arith
cost_falls now targets (i ∷ is) = ground (arith, cost_falls now targets is)

cancel_in_step : (now : ℕ) (targets : List ℕ) (o : Order) → ItemStep o (cancel_in now targets o)
unfolding cancel_in order_total
cancel_in_step now targets o = (refl, refl, refl, cost_falls now targets o.items)

cancel_items_step :
    (now : ℕ) (targets : List ℕ) (os : List Order)
    → Each ItemStep os (map (cancel_in now targets) os)
cancel_items_step now targets [] = no_row
cancel_items_step now targets (o ∷ os) =
    row (cancel_in_step now targets o) (cancel_items_step now targets os)

same_cost : (a b : Order) → b.items ≡ a.items → order_total b ≡ order_total a
unfolding order_total
same_cost a b e = rw e

status_then_items : (a b c : Order) → StatusStep a b → ItemStep b c → Cut a c
status_then_items a b c s i = ground (arith, same_cost a b)

items_then_status : (a b c : Order) → ItemStep a b → StatusStep b c → Cut a c
items_then_status a b c i s = ground (arith, same_cost b c)

items_only : (a b : Order) → ItemStep a b → Cut a b
items_only a b i = ground arith

cancel_writes-Cut :
    (now : ℕ) (input : CancelInput) (targets : List ℕ) (whole : Bool) (db : Db)
    → Each Cut db.orders (cancel_writes now input targets whole db).orders
unfolding cancel_writes cancel_items
cancel_writes-Cut now input targets true db =
    Each-comp StatusStep ItemStep Cut status_then_items (cancel_status_step now input db)
      (cancel_items_step now targets (cancel_status now input db).orders)
cancel_writes-Cut now input targets false db =
    let without = cancel_items now targets db in
    let items = cancel_items_step now targets db.orders in
    elim (Bool-cases (live_count input.order_id without == 0)) [
      | inl e ↦ rw e (
          Each-comp ItemStep StatusStep Cut items_then_status items
            (cancel_status_step now input without))
      | inr e ↦ rw e (
          Each-comp ItemStep (λ a b. a ≡ b) Cut (λ a b c i same. rw (sym same) (items_only a b i))
            items (Each-refl (λ a b. a ≡ b) (λ a. refl) without.orders))
    ]

-- What a request to cancel that succeeds has checked, and what it writes.
pub cancel_order_ok :
    (now : ℕ) (input : CancelInput) (db : Db) {db' : Db}
    → cancel_order now input db ≡ ok db'
    → (o : Order) × (find (λ o. o.id == input.order_id) db.orders ≡ some o)
      × (db'
          ≡ cancel_writes now input
              (target_ids input o)
              (length (target_ids input o) == length o.items)
              db)
unfolding cancel_order
cancel_order_ok now input db {db'} e =
    let (o, found, e1) =
      both_ok (or_throw (find (λ o. o.id == input.order_id) db.orders) order_missing) _ e in
    let targets = target_ids input o in
    let whole = length targets == length o.items in
    let (own, e2) =
      throw_if_ok (not (all (λ k. any (λ i. i.id == k) o.items) targets)) foreign_items _ e1 in
    let (may, e3) =
      throw_if_ok
        (whole && not (order_status_in (new ∷ accepted ∷ preparing ∷ cancelled ∷ []) o.status))
        (cannot_cancel o.status) _ e2 in
    (o, or_throw_ok _ order_missing found, sym (ok_inj _ refl e3))

-- A cancellation that succeeds keeps for every order of the database its id and its session, keeps
-- its status or moves it along one edge of the state machine, never raises its cost, and adds or
-- removes no order.
pub cancel_order-Cut :
    (now : ℕ) (input : CancelInput) (db : Db) {db' : Db}
    → cancel_order now input db ≡ ok db'
    → Each Cut db.orders db'.orders
cancel_order-Cut now input db e =
    let (o, found, is) = cancel_order_ok now input db e in
    rw is (
      cancel_writes-Cut now input (target_ids input o)
        (length (target_ids input o) == length o.items) db)
