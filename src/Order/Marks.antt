-- ===== src/Order/Marks.antt =====
-- Which items a cancellation (server/src/services/order.ts) cancels, and what they cost.
use boardbite_pos.Prelude.{
  ℕ, ◌+◌, ◌≡◌, refl, sym, ap, ◌∙◌, inl, inr, Bool-cases, Bool, true, false, not, ◌&&◌, ◌||◌, some,
  some_inj, List, [], ◌∷◌, arith, ◌==◌, map, length, any, find, update, filter, sum_by, Each,
  no_row, row, Each-update, Each-comp, ok, is_some,
}
use boardbite_pos.Domain.Status.{cancelled}
use boardbite_pos.Domain.Rows.{Item, Order, Db}
use boardbite_pos.Billing.{item_total, order_total}
use boardbite_pos.Order.{stands_in}
use boardbite_pos.Order.Cancel.{
  CancelInput, cancellable, target_ids, cancel_status, is_target, cancel_in, cancel_items,
  live_count, cancel_writes, cancel_order,
}
use boardbite_pos.Order.Cutting.{cancel_order_ok}

abbrev pub named : List ℕ → Item → Bool
named targets i = any (λ k. i.id == k) targets

-- The same item at the same cost, cancelled where it was before or is named now.
abbrev pub ItemMarks : List ℕ → Item → Item → Type 0
ItemMarks targets i j =
    (j.id ≡ i.id)
    × (item_total j ≡ item_total i)
    × (is_some j.cancelled_at ≡ (is_some i.cancelled_at || named targets i))

-- The named items of an order that were not cancelled yet.
abbrev pub newly_cancelled : List ℕ → Order → ℕ
newly_cancelled targets o =
    sum_by item_total (filter (λ i. named targets i && not (is_some i.cancelled_at)) o.items)

abbrev pub Marks : List ℕ → Order → Order → Type 0
Marks targets a b =
    (b.id ≡ a.id)
    × Each (ItemMarks targets) a.items b.items
    × (order_total b + newly_cancelled targets a ≡ order_total a)

abbrev SameItems : Order → Order → Type 0
SameItems a b = (b.id ≡ a.id) × (b.items ≡ a.items)

cost_exact :
    (now : ℕ) (targets : List ℕ) (is : List Item)
    → sum_by item_total (
          filter
            (λ i. not (is_some i.cancelled_at))
            (update (is_target targets) (λ i. record i { cancelled_at = some now }) is))
        + sum_by item_total (filter (is_target targets) is)
      ≡ sum_by item_total (filter (λ i. not (is_some i.cancelled_at)) is)
unfolding item_total
cost_exact now targets [] = omega arith
cost_exact now targets (i ∷ is) = ground (arith, cost_exact now targets is)

item_marks :
    (now : ℕ) (targets : List ℕ) (is : List Item)
    → Each
        (ItemMarks targets)
        is
        (update (is_target targets) (λ i. record i { cancelled_at = some now }) is)
unfolding item_total
item_marks now targets is =
    Each-update (ItemMarks targets) (is_target targets) (λ i. record i { cancelled_at = some now })
      (λ i hit. (refl, refl, ground (arith, hit))) (λ i miss. (refl, refl, ground (arith, miss))) is

cancel_in-Marks :
    (now : ℕ) (targets : List ℕ) (o : Order) → Marks targets o (cancel_in now targets o)
unfolding cancel_in order_total
cancel_in-Marks now targets o =
    (refl, item_marks now targets o.items, cost_exact now targets o.items)

cancel_items-Marks :
    (now : ℕ) (targets : List ℕ) (os : List Order)
    → Each (Marks targets) os (map (cancel_in now targets) os)
cancel_items-Marks now targets [] = no_row
cancel_items-Marks now targets (o ∷ os) =
    row (cancel_in-Marks now targets o) (cancel_items-Marks now targets os)

cancel_status-SameItems :
    (now : ℕ) (input : CancelInput) (db : Db)
    → Each SameItems db.orders (cancel_status now input db).orders
unfolding cancel_status
cancel_status-SameItems now input db =
    Each-update SameItems (stands_in input.order_id cancellable)
      (λ o. record o {
        status = cancelled;
        cancelled_at = some now;
        cancel_reason = some input.reason;
      })
      (λ o hit. (refl, refl)) (λ o miss. (refl, refl)) db.orders

same_total : (a b : Order) → b.items ≡ a.items → order_total b ≡ order_total a
unfolding order_total
same_total a b e = rw e

status_first :
    (targets : List ℕ) (a b c : Order) → SameItems a b → Marks targets b c → Marks targets a c
status_first targets a b c (id_is, items_are) (kept, each, cost) = (
  kept ∙ id_is,
  rw (sym items_are) each,
  ap (λ is. order_total c + sum_by item_total (filter (is_target targets) is)) (sym items_are)
      ∙ cost
      ∙ same_total a b items_are,
)

items_first :
    (targets : List ℕ) (a b c : Order) → Marks targets a b → SameItems b c → Marks targets a c
items_first targets a b c (kept, each, cost) (id_is, items_are) = (
  id_is ∙ kept,
  rw items_are each,
  ap (λ n. n + newly_cancelled targets a) (same_total b c items_are) ∙ cost,
)

cancel_writes-Marks :
    (now : ℕ) (input : CancelInput) (targets : List ℕ) (whole : Bool) (db : Db)
    → Each (Marks targets) db.orders (cancel_writes now input targets whole db).orders
unfolding cancel_writes cancel_items
cancel_writes-Marks now input targets true db =
    Each-comp SameItems (Marks targets) (Marks targets) (status_first targets)
      (cancel_status-SameItems now input db)
      (cancel_items-Marks now targets (cancel_status now input db).orders)
cancel_writes-Marks now input targets false db =
    let without = cancel_items now targets db in
    let items = cancel_items-Marks now targets db.orders in
    elim (Bool-cases (live_count input.order_id without == 0)) [
      | inl e ↦ rw e (
          Each-comp (Marks targets) SameItems (Marks targets) (items_first targets) items
            (cancel_status-SameItems now input without))
      | inr e ↦ rw e items
    ]

-- After a cancellation that succeeds, each item of the database has its id and its cost and is
-- cancelled exactly if it was before or is among the ids that the request names, or of the items
-- of the order where it names none; and each order costs less than before by exactly the items
-- that are newly cancelled.
pub cancel_order-Marks :
    (now : ℕ) (input : CancelInput) (o : Order) (db : Db) {db' : Db}
    → find (λ o. o.id == input.order_id) db.orders ≡ some o
    → cancel_order now input db ≡ ok db'
    → Each (Marks (target_ids input o)) db.orders db'.orders
cancel_order-Marks now input o db found e =
    let (q, found', is) = cancel_order_ok now input db e in
    let same : q ≡ o = some_inj (sym found' ∙ found) in
    rw (is, sym same)
      (cancel_writes-Marks now input (target_ids input q)
        (length (target_ids input q) == length q.items) db)
