-- ===== src/Report.antt =====
-- computeRevenueSummary of server/src/services/reporting.ts: what the dashboard, the closing and the
-- exports add up from payments and orders. The times of the rows are a parameter, since the rows of
-- the model do not hold them; the order in which rows are shown, names and the counts of coupons and
-- sales are left out.
pub mod Sums
pub mod Windows
pub mod Closing
pub mod Cash
use boardbite_pos.Prelude.{
  ℕ, suc, ◌+◌, ◌++◌, ◌||◌, Bool, true, false, not, ◌&&◌, Option, none, some, List, [], ◌∷◌,
  if◌then◌else◌, ◌==◌, leb, find, filter, count, is_some,
}
use boardbite_pos.Prelude.Int.{ℤ, pos, ◌+ℤ◌, ◌-ℤ◌, is_zero_ℤ}
use boardbite_pos.Domain.Status.{
  OrderStatus, cancelled, rejected, PaymentKind, charge, discount, opened, settling,
  same_table_status,
}
use boardbite_pos.Domain.Rows.{Session, Item, Order, Allocation, Payment, Redemption, Db}
use boardbite_pos.Billing.{item_total}
use boardbite_pos.Billing.Sale.{coupon_method}

-- `since` and `until`
pub record Range : Type 0 where
  pub since : Option ℕ
  pub until : Option ℕ

abbrev pub from_on : Option ℕ → ℕ → Bool
from_on none t = true
from_on (some s) t = leb s t

abbrev pub up_to : Option ℕ → ℕ → Bool
up_to none t = true
up_to (some u) t = leb t u

-- `createdAtRange`
unfoldable pub in_range : Range → ℕ → Bool
in_range r t = from_on r.since t && up_to r.until t

-- The `createdAt` columns.
pub record Times : Type 0 where
  pub payment_at : Payment → ℕ
  pub order_at : Order → ℕ

abbrev pub or_missing : Option Payment → Option Payment → Option Payment
or_missing (some q) missing = some q
or_missing none missing = missing

-- `originalById.get(payment.reversedPaymentId)`: the payments of the range, then those outside it.
unfoldable pub original_of : List Payment → List Payment → Option ℕ → Option Payment
original_of inside all none = none
original_of inside all (some r) =
    or_missing (find (λ q. q.id == r) inside) (find (λ q. q.id == r) all)

-- `original?.kind === "DISCOUNT"`
unfoldable pub is_discount : Option Payment → Bool
is_discount none = false
is_discount (some q) = elim q.kind [ discount ↦ true | _ ↦ false ]

-- An entry of a map from ids or codes to amounts.
pub record Entry : Type 0 where
  pub key : ℕ
  pub amount : ℤ

-- `map.set(key, (map.get(key) ?? 0) + delta)`
unfoldable pub add_to : ℕ → ℤ → List Entry → List Entry
add_to k d [] = record { key = k; amount = pos 0 +ℤ d } ∷ []
add_to k d (e ∷ es) =
    let rest = add_to k d es in
    if e.key == k then record e { amount = e.amount +ℤ d } ∷ es else e ∷ rest

abbrev pub minus : ℕ → ℤ
minus n = pos 0 -ℤ pos n

-- What the first loop adds up.
pub record Takings : Type 0 where
  pub charged : ℕ
  pub refunded : ℕ
  pub manual : ℤ
  pub coupon : ℤ
  pub by_method : List Entry
  pub table : ℤ
  pub counter : ℤ

abbrev pub no_takings : Takings
no_takings = record {
  charged = 0;
  refunded = 0;
  manual = pos 0;
  coupon = pos 0;
  by_method = [];
  table = pos 0;
  counter = pos 0;
}

-- `addChannel`
unfoldable pub add_channel : Option ℕ → ℤ → Takings → Takings
add_channel none d s = record s { table = s.table +ℤ d }
add_channel (some k) d s = record s { counter = s.counter +ℤ d }

unfoldable pub add_discount : ℕ → ℤ → Takings → Takings
add_discount method d s =
    if method == coupon_method
    then record s { coupon = s.coupon +ℤ d }
    else record s { manual = s.manual +ℤ d }

unfoldable pub take_charge : Payment → Takings → Takings
take_charge p s = add_channel p.sale_id (pos p.amount) (record s {
  charged = s.charged + p.amount;
  by_method = add_to p.method (pos p.amount) s.by_method;
})

unfoldable pub give_back : Payment → Takings → Takings
give_back p s = add_channel p.sale_id (minus p.amount) (record s {
  refunded = s.refunded + p.amount;
  by_method = add_to p.method (minus p.amount) s.by_method;
})

abbrev pub method_of : Option Payment → ℕ
method_of none = coupon_method
method_of (some q) = q.method

-- One payment of the loop, with the one that it reverses.
unfoldable pub add_takings : PaymentKind → Option Payment → Payment → Takings → Takings
add_takings charge original p s = take_charge p s
add_takings discount original p s = add_discount p.method (pos p.amount) s
add_takings _ original p s =
    if is_discount original
    then add_discount (method_of original) (minus p.amount) s
    else give_back p s

unfoldable pub takings_from : List Payment → List Payment → Takings → List Payment → Takings
takings_from inside all s [] = s
takings_from inside all s (p ∷ ps) =
    takings_from inside all (add_takings p.kind (original_of inside all p.reversed_id) p s) ps

-- `MenuSales`
pub record MenuSales : Type 0 where
  pub menu_item_id : ℕ
  pub quantity_sold : ℕ
  pub order_amount : ℕ
  pub paid_revenue : ℤ

-- A change of the row that `ensureMenuRow` gives.
unfoldable pub change_row : (MenuSales → MenuSales) → ℕ → List MenuSales → List MenuSales
change_row f k [] =
    f (record { menu_item_id = k; quantity_sold = 0; order_amount = 0; paid_revenue = pos 0 }) ∷ []
change_row f k (r ∷ rs) =
    let rest = change_row f k rs in if r.menu_item_id == k then f r ∷ rs else r ∷ rest

-- What the loop over the orders adds up.
pub record Sold : Type 0 where
  pub total : ℕ
  pub cancelled_count : ℕ
  pub rejected_count : ℕ
  pub rows : List MenuSales

unfoldable pub add_item : Item → Sold → Sold
add_item i s = record s {
  total = s.total + item_total i;
  rows =
      change_row
        (λ r. record r {
          quantity_sold = r.quantity_sold + i.quantity;
          order_amount = r.order_amount + item_total i;
        })
        i.menu_item_id s.rows;
}

unfoldable pub add_items : List Item → Sold → Sold
add_items [] s = s
add_items (i ∷ is) s = add_items is (add_item i s)

unfoldable pub add_order : OrderStatus → Order → Sold → Sold
add_order cancelled o s = record s { cancelled_count = suc s.cancelled_count }
add_order rejected o s = record s { rejected_count = suc s.rejected_count }
add_order _ o s = add_items (filter (λ i. not (is_some i.cancelled_at)) o.items) s

unfoldable pub sold_from : Sold → List Order → Sold
sold_from s [] = s
sold_from s (o ∷ os) = sold_from (add_order o.status o s) os

-- `menuPaidRevenue` and the rows, while the allocations are added.
pub record MenuPaid : Type 0 where
  pub paid : ℤ
  pub rows : List MenuSales

unfoldable pub items_of : List Order → List Item
items_of [] = []
items_of (o ∷ os) = o.items ++ items_of os

-- One allocation; its item is a required relation, so that a missing one does not occur.
unfoldable pub add_paid : (ℕ → ℤ) → List Item → Allocation → MenuPaid → MenuPaid
add_paid sign items a m = elim (find (λ i. i.id == a.order_item_id) items) [
  | none ↦ m
  | some i ↦ record {
    paid = m.paid +ℤ sign a.amount;
    rows =
        change_row (λ r. record r { paid_revenue = r.paid_revenue +ℤ sign a.amount }) i.menu_item_id
          m.rows;
  }
]

unfoldable pub paid_for : (ℕ → ℤ) → List Item → MenuPaid → List Allocation → MenuPaid
paid_for sign items m [] = m
paid_for sign items m (a ∷ rest) = paid_for sign items (add_paid sign items a m) rest

unfoldable pub add_allocations :
    PaymentKind → Option Payment → List Item → Payment → MenuPaid → MenuPaid
add_allocations charge original items p m = paid_for pos items m p.allocations
add_allocations discount original items p m = m
add_allocations _ original items p m =
    if is_discount original then m else paid_for minus items m p.allocations

unfoldable pub menu_paid_from :
    List Payment → List Payment → List Item → MenuPaid → List Payment → MenuPaid
menu_paid_from inside all items m [] = m
menu_paid_from inside all items m (p ∷ ps) =
    menu_paid_from inside all items
      (add_allocations p.kind (original_of inside all p.reversed_id) items p m) ps

abbrev pub table_of : List Session → Option ℕ → Option ℕ
table_of sessions none = none
table_of sessions (some k) = elim (find (λ (s : Session). s.id == k) sessions) [
  | none ↦ none
  | some s ↦ some s.table_id
]

abbrev pub at_table : Option ℕ → ℤ → List Entry → List Entry
at_table none d es = es
at_table (some t) d es = add_to t d es

-- One payment of the loop over the tables.
unfoldable pub add_table_revenue :
    PaymentKind → Option Payment → Option ℕ → Payment → List Entry → List Entry
add_table_revenue charge original t p es = at_table t (pos p.amount) es
add_table_revenue discount original t p es = es
add_table_revenue _ original t p es =
    if is_discount original then es else at_table t (minus p.amount) es

unfoldable pub table_revenue_from :
    List Payment → List Payment → List Session → List Entry → List Payment → List Entry
table_revenue_from inside all sessions es [] = es
table_revenue_from inside all sessions es (p ∷ ps) =
    table_revenue_from inside all sessions
      (add_table_revenue p.kind (original_of inside all p.reversed_id)
        (table_of sessions p.session_id) p es)
      ps

-- `RevenueSummary`
pub record RevenueSummary : Type 0 where
  pub total_order_amount : ℕ
  pub cancelled_order_count : ℕ
  pub rejected_order_count : ℕ
  pub open_table_count : ℕ
  pub total_charged : ℕ
  pub total_refunded : ℕ
  pub total_revenue : ℤ
  pub manual_discount : ℤ
  pub coupon_discount : ℤ
  pub total_discount : ℤ
  pub by_method : List Entry
  pub table_revenue : ℤ
  pub counter_revenue : ℤ
  pub by_table : List Entry
  pub menu_sales : List MenuSales
  pub menu_paid_revenue : ℤ
  pub unallocated_charged : ℤ

-- `computeRevenueSummary`
unfoldable pub compute_revenue_summary : Times → Range → Db → RevenueSummary
compute_revenue_summary times range db =
    let inside = filter (λ p. in_range range (times.payment_at p)) db.payments in
    let all = db.payments in
    let t = takings_from inside all no_takings inside in
    let s =
      sold_from (record { total = 0; cancelled_count = 0; rejected_count = 0; rows = [] })
        (filter (λ o. in_range range (times.order_at o)) db.orders) in
    let m =
      menu_paid_from inside all (items_of db.orders) (record { paid = pos 0; rows = s.rows })
        inside in
    let revenue = pos t.charged -ℤ pos t.refunded in
    record {
      total_order_amount = s.total;
      cancelled_order_count = s.cancelled_count;
      rejected_order_count = s.rejected_count;
      open_table_count =
          count (λ r. same_table_status r.status opened || same_table_status r.status settling)
            db.tables;
      total_charged = t.charged;
      total_refunded = t.refunded;
      total_revenue = revenue;
      manual_discount = t.manual;
      coupon_discount = t.coupon;
      total_discount = t.manual +ℤ t.coupon;
      by_method = t.by_method;
      table_revenue = t.table;
      counter_revenue = t.counter;
      by_table =
          filter (λ e. not (is_zero_ℤ e.amount))
            (table_revenue_from inside all db.sessions [] inside);
      menu_sales = m.rows;
      menu_paid_revenue = m.paid;
      unallocated_charged = revenue -ℤ m.paid;
    }
