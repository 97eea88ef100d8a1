-- ===== src/Report/Sums.antt =====
-- The sums of computeRevenueSummary (server/src/services/reporting.ts): how they depend on the
-- payments and on one another.
use boardbite_pos.Prelude.{
  ℕ, ◌+◌, ◌≡◌, refl, sym, ap, ◌∙◌, inl, inr, Bool-cases, Bool, true, false, not, Option, none, some,
  List, [], ◌∷◌, arith, if◌then◌else◌, ◌==◌, ==_iff, Option-cases, find, filter, is_some, sum_by,
}
use boardbite_pos.Prelude.Int.{ℤ, pos, ◌+ℤ◌, ◌-ℤ◌, int_laws}
use boardbite_pos.Domain.Status.{OrderStatus, cancelled, rejected, PaymentKind, charge, discount}
use boardbite_pos.Domain.Rows.{Item, Order, Allocation, Payment, Db}
use boardbite_pos.Billing.{item_total}
use boardbite_pos.Billing.Sale.{coupon_method}
use boardbite_pos.Report.{
  Range, in_range, Times, original_of, is_discount, Entry, add_to, minus, Takings, no_takings,
  add_channel, add_discount, take_charge, give_back, method_of, add_takings, takings_from,
  MenuSales, change_row, Sold, add_item, add_items, add_order, sold_from, MenuPaid, items_of,
  add_paid, paid_for, add_allocations, menu_paid_from, RevenueSummary, compute_revenue_summary,
}

-- What one payment adds to what the shop has taken: a charge its amount, the reversal of a charge
-- less its amount, a discount and its reversal nothing.
abbrev pub revenue_part : PaymentKind → Option Payment → ℕ → ℤ
revenue_part charge original n = pos n
revenue_part discount original n = pos 0
revenue_part _ original n = if is_discount original then pos 0 else minus n

-- The same for the payments whose method `fits`.
abbrev pub revenue_of : (ℕ → Bool) → (Option ℕ → Option Payment) → List Payment → ℤ
revenue_of fits original [] = pos 0
revenue_of fits original (p ∷ ps) =
    (if fits p.method then revenue_part p.kind (original p.reversed_id) p.amount else pos 0)
    +ℤ revenue_of fits original ps

abbrev pub every : ℕ → Bool
every k = true

abbrev pub sum_where : (ℕ → Bool) → List Entry → ℤ
sum_where fits [] = pos 0
sum_where fits (e ∷ es) = (if fits e.key then e.amount else pos 0) +ℤ sum_where fits es

+ℤ_comm : (a b : ℤ) → a +ℤ b ≡ b +ℤ a
+ℤ_comm a b = omega int_laws

+ℤ_assoc : (a b c : ℤ) → a +ℤ (b +ℤ c) ≡ a +ℤ b +ℤ c
+ℤ_assoc a b c = omega int_laws

+ℤ_last : (a b c : ℤ) → a +ℤ b +ℤ c ≡ a +ℤ c +ℤ b
+ℤ_last a b c = omega int_laws

zero_+ℤ : (a : ℤ) → pos 0 +ℤ a ≡ a
zero_+ℤ a = omega int_laws

+ℤ_zero : (a : ℤ) → a +ℤ pos 0 ≡ a
+ℤ_zero a = omega int_laws

if_+ℤ :
    (b : Bool) (x y : ℤ)
    → (if b then x +ℤ y else pos 0) ≡ (if b then x else pos 0) +ℤ (if b then y else pos 0)
if_+ℤ true x y = refl
if_+ℤ false x y = sym (+ℤ_zero (pos 0))

pub sum_where-add_to :
    (fits : ℕ → Bool) (k : ℕ) (d : ℤ) (es : List Entry)
    → sum_where fits (add_to k d es) ≡ sum_where fits es +ℤ (if fits k then d else pos 0)
unfolding add_to
sum_where-add_to fits k d [] = rw (zero_+ℤ d) (+ℤ_comm (if fits k then d else pos 0) (pos 0))
sum_where-add_to fits k d (e ∷ es) = elim (Bool-cases (e.key == k)) [
  | inl same ↦
      rw (same, sym ((==_iff e.key k).0 same), if_+ℤ (fits e.key) e.amount d)
        (+ℤ_last (if fits e.key then e.amount else pos 0) (if fits e.key then d else pos 0)
          (sum_where fits es))
  | inr apart ↦
      rw (apart, sum_where-add_to fits k d es)
        (+ℤ_assoc (if fits e.key then e.amount else pos 0) (sum_where fits es)
          (if fits k then d else pos 0))
]

add_channel_methods :
    (o : Option ℕ) (d : ℤ) (s : Takings) → (add_channel o d s).by_method ≡ s.by_method
unfolding add_channel
add_channel_methods none d s = refl
add_channel_methods (some k) d s = refl

add_channel_total :
    (o : Option ℕ) (d : ℤ) (s : Takings)
    → (add_channel o d s).table +ℤ (add_channel o d s).counter ≡ s.table +ℤ s.counter +ℤ d
unfolding add_channel
add_channel_total none d s = +ℤ_last s.table d s.counter
add_channel_total (some k) d s = +ℤ_assoc s.table s.counter d

add_channel_charged :
    (o : Option ℕ) (d : ℤ) (s : Takings)
    → pos (add_channel o d s).charged -ℤ pos (add_channel o d s).refunded
      ≡ pos s.charged -ℤ pos s.refunded
unfolding add_channel
add_channel_charged none d s = refl
add_channel_charged (some k) d s = refl

-- What a discount leaves alone.
abbrev SameRevenue : Takings → Takings → Type 0
SameRevenue s t =
    (t.by_method ≡ s.by_method)
    × (t.table +ℤ t.counter ≡ s.table +ℤ s.counter)
    × (pos t.charged -ℤ pos t.refunded ≡ pos s.charged -ℤ pos s.refunded)

add_discount-SameRevenue : (m : ℕ) (d : ℤ) (s : Takings) → SameRevenue s (add_discount m d s)
unfolding add_discount
add_discount-SameRevenue m d s = elim (Bool-cases (m == coupon_method)) [
  | inl e ↦ rw e (refl, refl, refl)
  | inr e ↦ rw e (refl, refl, refl)
]

-- What a payment that is worth `v` and is made with method `k` moves.
abbrev Moved : (ℕ → Bool) → ℕ → ℤ → Takings → Takings → Type 0
Moved fits k v s t =
    (sum_where fits t.by_method ≡ sum_where fits s.by_method +ℤ (if fits k then v else pos 0))
    × (t.table +ℤ t.counter ≡ s.table +ℤ s.counter +ℤ v)
    × (pos t.charged -ℤ pos t.refunded ≡ pos s.charged -ℤ pos s.refunded +ℤ v)

same-Moved : (fits : ℕ → Bool) (k : ℕ) (s t : Takings) → SameRevenue s t → Moved fits k (pos 0) s t
same-Moved fits k s t h = (
  ap (sum_where fits) h.0 ∙ sym (nothing (fits k) (sum_where fits s.by_method)),
  h.1 ∙ sym (+ℤ_zero _),
  h.2 ∙ sym (+ℤ_zero _),
)
  where
    nothing : (b : Bool) (x : ℤ) → x +ℤ (if b then pos 0 else pos 0) ≡ x
    nothing true x = +ℤ_zero x
    nothing false x = +ℤ_zero x

take_charge-Moved :
    (fits : ℕ → Bool) (p : Payment) (s : Takings)
    → Moved fits p.method (pos p.amount) s (take_charge p s)
unfolding take_charge
take_charge-Moved fits p s = (
  ap (sum_where fits) (add_channel_methods p.sale_id _ _)
      ∙ sum_where-add_to fits p.method (pos p.amount) s.by_method,
  add_channel_total p.sale_id (pos p.amount) _,
  add_channel_charged p.sale_id (pos p.amount) _ ∙ more s.charged s.refunded p.amount,
)
  where
    more : (c r n : ℕ) → pos (c + n) -ℤ pos r ≡ pos c -ℤ pos r +ℤ pos n
    more c r n = omega int_laws

give_back-Moved :
    (fits : ℕ → Bool) (p : Payment) (s : Takings)
    → Moved fits p.method (minus p.amount) s (give_back p s)
unfolding give_back
give_back-Moved fits p s = (
  ap (sum_where fits) (add_channel_methods p.sale_id _ _)
      ∙ sum_where-add_to fits p.method (minus p.amount) s.by_method,
  add_channel_total p.sale_id (minus p.amount) _,
  add_channel_charged p.sale_id (minus p.amount) _ ∙ less s.charged s.refunded p.amount,
)
  where
    less : (c r n : ℕ) → pos c -ℤ pos (r + n) ≡ pos c -ℤ pos r +ℤ (pos 0 -ℤ pos n)
    less c r n = omega int_laws

add_takings-Moved :
    (fits : ℕ → Bool) (k : PaymentKind) (o : Option Payment) (p : Payment) (s : Takings)
    → Moved fits p.method (revenue_part k o p.amount) s (add_takings k o p s)
unfolding add_takings
add_takings-Moved fits charge o p s = take_charge-Moved fits p s
add_takings-Moved fits discount o p s =
    same-Moved fits p.method s (add_discount p.method (pos p.amount) s)
      (add_discount-SameRevenue p.method (pos p.amount) s)
add_takings-Moved fits _ o p s = elim (Bool-cases (is_discount o)) [
  | inl e ↦ rw e (
      same-Moved fits p.method s (add_discount (method_of o) (minus p.amount) s)
        (add_discount-SameRevenue (method_of o) (minus p.amount) s))
  | inr e ↦ rw e (give_back-Moved fits p s)
]

pub takings_revenue :
    (fits : ℕ → Bool) (inside all : List Payment) (s : Takings) (ps : List Payment)
    → (sum_where fits (takings_from inside all s ps).by_method
        ≡ sum_where fits s.by_method +ℤ revenue_of fits (original_of inside all) ps)
      × ((takings_from inside all s ps).table +ℤ (takings_from inside all s ps).counter
          ≡ s.table +ℤ s.counter +ℤ revenue_of every (original_of inside all) ps)
      × (pos (takings_from inside all s ps).charged -ℤ pos (takings_from inside all s ps).refunded
          ≡ pos s.charged -ℤ pos s.refunded +ℤ revenue_of every (original_of inside all) ps)
unfolding takings_from
takings_revenue fits inside all s [] = (sym (+ℤ_zero _), sym (+ℤ_zero _), sym (+ℤ_zero _))
takings_revenue fits inside all s (p ∷ ps) =
    let original = original_of inside all p.reversed_id in
    let step = add_takings-Moved fits p.kind original p s in
    let rest = takings_revenue fits inside all (add_takings p.kind original p s) ps in
    (
      rest.0
          ∙ ap (λ x. x +ℤ revenue_of fits (original_of inside all) ps) step.0
          ∙ sym (+ℤ_assoc _ _ _),
      rest.1
          ∙ ap (λ x. x +ℤ revenue_of every (original_of inside all) ps) step.1
          ∙ sym (+ℤ_assoc _ _ _),
      rest.2
          ∙ ap (λ x. x +ℤ revenue_of every (original_of inside all) ps) step.2
          ∙ sym (+ℤ_assoc _ _ _),
    )

abbrev pub ordered_sum : List MenuSales → ℕ
ordered_sum = sum_by (λ r. r.order_amount)

abbrev pub paid_sum : List MenuSales → ℤ
paid_sum [] = pos 0
paid_sum (r ∷ rs) = r.paid_revenue +ℤ paid_sum rs

change_row-ordered :
    (f : MenuSales → MenuSales) (n k : ℕ) (rows : List MenuSales)
    → ((r : MenuSales) → (f r).order_amount ≡ r.order_amount + n)
    → ordered_sum (change_row f k rows) ≡ ordered_sum rows + n
unfolding change_row
change_row-ordered f n k [] h = rw (h _) (omega arith)
change_row-ordered f n k (r ∷ rs) h = elim (Bool-cases (r.menu_item_id == k)) [
  | inl here ↦ rw (here, h r) (omega arith)
  | inr off ↦ rw (off, change_row-ordered f n k rs h) (omega arith)
]

change_row-paid :
    (f : MenuSales → MenuSales) (d : ℤ) (k : ℕ) (rows : List MenuSales)
    → ((r : MenuSales) → (f r).paid_revenue ≡ r.paid_revenue +ℤ d)
    → paid_sum (change_row f k rows) ≡ paid_sum rows +ℤ d
unfolding change_row
change_row-paid f d k [] h = rw (h _) (+ℤ_zero _)
change_row-paid f d k (r ∷ rs) h = elim (Bool-cases (r.menu_item_id == k)) [
  | inl here ↦ rw (here, h r) (+ℤ_last r.paid_revenue d (paid_sum rs))
  | inr off ↦ rw (off, change_row-paid f d k rs h) (+ℤ_assoc r.paid_revenue (paid_sum rs) d)
]

-- The total is that of the rows, and nothing has been paid yet.
abbrev Totalled : Sold → Type 0
Totalled s = (ordered_sum s.rows ≡ s.total) × (paid_sum s.rows ≡ pos 0)

add_item-Totalled : (i : Item) (s : Sold) → Totalled s → Totalled (add_item i s)
unfolding add_item
add_item-Totalled i s h = (
  change_row-ordered _ (item_total i) i.menu_item_id s.rows (λ r. refl)
      ∙ ap (λ n. n + item_total i) h.0,
  change_row-paid _ (pos 0) i.menu_item_id s.rows (λ r. sym (+ℤ_zero r.paid_revenue))
      ∙ +ℤ_zero _
      ∙ h.1,
)

add_items-Totalled : (is : List Item) (s : Sold) → Totalled s → Totalled (add_items is s)
unfolding add_items
add_items-Totalled [] s h = h
add_items-Totalled (i ∷ is) s h = add_items-Totalled is (add_item i s) (add_item-Totalled i s h)

add_order-Totalled :
    (k : OrderStatus) (o : Order) (s : Sold) → Totalled s → Totalled (add_order k o s)
unfolding add_order
add_order-Totalled cancelled o s h = h
add_order-Totalled rejected o s h = h
add_order-Totalled _ o s h =
    add_items-Totalled (filter (λ i. not (is_some i.cancelled_at)) o.items) s h

sold_from-Totalled : (s : Sold) (os : List Order) → Totalled s → Totalled (sold_from s os)
unfolding sold_from
sold_from-Totalled s [] h = h
sold_from-Totalled s (o ∷ os) h =
    sold_from-Totalled (add_order o.status o s) os (add_order-Totalled o.status o s h)

-- The rows hold what was paid for the menu, and `n` as the amount of the orders.
abbrev PaidOut : ℕ → MenuPaid → Type 0
PaidOut n m = (ordered_sum m.rows ≡ n) × (paid_sum m.rows ≡ m.paid)

add_paid-PaidOut :
    (sign : ℕ → ℤ) (items : List Item) (a : Allocation) {n : ℕ} (m : MenuPaid)
    → PaidOut n m
    → PaidOut n (add_paid sign items a m)
unfolding add_paid
add_paid-PaidOut sign items a {n} m h =
    elim (Option-cases (find (λ (i : Item). i.id == a.order_item_id) items)) [
      | inl gone ↦ rw (add_paid, gone) h
      | inr (i, there) ↦
          rw (add_paid, there)
            (
              change_row-ordered _ 0 i.menu_item_id m.rows (λ r. omega arith) ∙ omega (arith, h.0),
              change_row-paid _ (sign a.amount) i.menu_item_id m.rows (λ r. refl)
                  ∙ ap (λ x. x +ℤ sign a.amount) h.1,
            )
    ]

paid_for-PaidOut :
    (sign : ℕ → ℤ) (items : List Item) {n : ℕ} (m : MenuPaid) (rest : List Allocation)
    → PaidOut n m
    → PaidOut n (paid_for sign items m rest)
unfolding paid_for
paid_for-PaidOut sign items m [] h = h
paid_for-PaidOut sign items m (a ∷ rest) h =
    paid_for-PaidOut sign items (add_paid sign items a m) rest (add_paid-PaidOut sign items a m h)

add_allocations-PaidOut :
    (k : PaymentKind) (o : Option Payment) (items : List Item) (p : Payment) {n : ℕ} (m : MenuPaid)
    → PaidOut n m
    → PaidOut n (add_allocations k o items p m)
unfolding add_allocations
add_allocations-PaidOut charge o items p m h = paid_for-PaidOut pos items m p.allocations h
add_allocations-PaidOut discount o items p m h = h
add_allocations-PaidOut _ o items p m h = elim (Bool-cases (is_discount o)) [
  | inl e ↦ rw e h
  | inr e ↦ rw e (paid_for-PaidOut minus items m p.allocations h)
]

menu_paid_from-PaidOut :
    (inside all : List Payment) (items : List Item) {n : ℕ} (m : MenuPaid) (ps : List Payment)
    → PaidOut n m
    → PaidOut n (menu_paid_from inside all items m ps)
unfolding menu_paid_from
menu_paid_from-PaidOut inside all items m [] h = h
menu_paid_from-PaidOut inside all items m (p ∷ ps) h =
    let original = original_of inside all p.reversed_id in
    menu_paid_from-PaidOut inside all items (add_allocations p.kind original items p m) ps
      (add_allocations-PaidOut p.kind original items p m h)

-- What the parts of a summary come to.
pub record AddsUp (r : RevenueSummary) : Type 0 where
  pub by_method : sum_where every r.by_method ≡ r.total_revenue
  pub by_channel : r.table_revenue +ℤ r.counter_revenue ≡ r.total_revenue
  pub by_menu : paid_sum r.menu_sales +ℤ r.unallocated_charged ≡ r.total_revenue
  pub by_order : ordered_sum r.menu_sales ≡ r.total_order_amount

abbrev pub payments_in : Times → Range → Db → List Payment
payments_in times range db = filter (λ p. in_range range (times.payment_at p)) db.payments

net_zero : (c r : ℕ) (v : ℤ) → pos c -ℤ pos r ≡ pos 0 -ℤ pos 0 +ℤ v → v ≡ pos c -ℤ pos r
net_zero c r v h = sym (h ∙ nothing v)
  where
    nothing : (v : ℤ) → pos 0 -ℤ pos 0 +ℤ v ≡ v
    nothing v = omega int_laws

-- A summary of computeRevenueSummary adds up, for any range and any payments and orders: the
-- amounts by payment method, the two channels together, and what was paid for menu items with what
-- was not allocated, each come to the total revenue, and the order amounts of the menu items come
-- to the total order amount.
pub compute_revenue_summary-AddsUp :
    (times : Times) (range : Range) (db : Db) → AddsUp (compute_revenue_summary times range db)
unfolding compute_revenue_summary
compute_revenue_summary-AddsUp times range db =
    let inside = filter (λ (p : Payment). in_range range (times.payment_at p)) db.payments in
    let orders = filter (λ (o : Order). in_range range (times.order_at o)) db.orders in
    let none_sold : Sold = record {
      total = 0;
      cancelled_count = 0;
      rejected_count = 0;
      rows = [];
    } in
    let (methods, channels, net) = takings_revenue every inside db.payments no_takings inside in
    let sold = sold_from-Totalled none_sold orders (refl, refl) in
    let paid =
      menu_paid_from-PaidOut inside db.payments (items_of db.orders)
        (record { paid = pos 0; rows = (sold_from none_sold orders).rows }) inside sold in
    let t = takings_from inside db.payments no_takings inside in
    let is = net_zero t.charged t.refunded _ net in
    record {
      by_method = methods ∙ zero_+ℤ _ ∙ is;
      by_channel = channels ∙ no_channel _ ∙ is;
      by_menu = rest _ _ _ paid.1;
      by_order = paid.0;
    }
  where
    no_channel : (v : ℤ) → pos 0 +ℤ pos 0 +ℤ v ≡ v
    no_channel v = omega int_laws

    part : (x r : ℤ) → x +ℤ (r -ℤ x) ≡ r
    part x r = omega int_laws

    rest : (s x r : ℤ) → s ≡ x → s +ℤ (r -ℤ x) ≡ r
    rest s x r e = rw e (part x r)

-- The revenue is the sum, over the payments of the range, of what each adds.
pub total_revenue_is :
    (times : Times) (range : Range) (db : Db)
    → (compute_revenue_summary times range db).total_revenue
      ≡ revenue_of every
          (original_of (payments_in times range db) db.payments)
          (payments_in times range db)
unfolding compute_revenue_summary
total_revenue_is times range db =
    let inside = payments_in times range db in
    let t = takings_from inside db.payments no_takings inside in
    sym (
      net_zero t.charged t.refunded _
        (takings_revenue every inside db.payments no_takings inside).2)
