-- ===== src/Order/Creation.antt =====
-- Orders as they are accepted (server/src/services/order.ts): their options and their price.
use boardbite_pos.Prelude.{
  ℕ, suc, ◌+◌, ◌*◌, ◌≤◌, ◌≡◌, refl, sym, ap, ◌∙◌, Bool, true, false, not, ◌||◌, none, List, [], ◌∷◌,
  arith, ltb, ◌==◌, ==_iff, map, find, filter, sum_by, All, find_holds, ok, both_ok, throw_if_ok,
  or_throw, or_throw_ok, ok_inj, is_id, is_some,
}
use boardbite_pos.Domain.Rows.{Order, Db}
use boardbite_pos.Billing.{item_total, order_total, orders_total, is_billed, compute_bill, bill_of}
use boardbite_pos.Menu.{
  Choice, Group, MenuItem, Target, to_table, Catalog, is_sold_out, channel_allows,
  check_selected_count, above_max,
}
use boardbite_pos.Order.Lines.{
  belongs, take_choices, selected_in, check_groups, validate_item_options, has_duplicate_id,
  LineInput, Line, line_of, resolve_line, resolve_each, resolve_order_lines, OrderInput, items_of,
  order_key, new_order, find_order, server_total, price_differs, store_order, create_order,
  duplicate_option, option_invalid, option_sold_out, not_on_sale, wrong_channel, menu_sold_out,
  bad_quantity, price_mismatch,
}

-- A choice that can be taken with this menu item.
abbrev pub Allowed : MenuItem → Choice → Type 0
Allowed m c = (belongs m c ≡ true) × (is_sold_out c.stock c.own_sold_out ≡ false)

-- As many choices of the group as it asks for.
abbrev pub InRange : List Choice → Group → Type 0
InRange chosen g =
    (g.min_select ≤ selected_in g chosen) × (above_max g.max_select (selected_in g chosen) ≡ false)

is_true : (b : Bool) → not b ≡ false → b ≡ true
is_true b h = ground arith

take_choices_ok :
    (m : MenuItem) (choices : List Choice) (ids : List ℕ) {chosen : List Choice}
    → take_choices m choices ids ≡ ok chosen
    → All (Allowed m) chosen × (map (λ c. c.id) chosen ≡ ids)
unfolding take_choices
take_choices_ok m choices [] e = rw (sym (ok_inj _ refl e)) (tt, refl)
take_choices_ok m choices (k ∷ ks) e =
    let (c, found, e1) = both_ok (or_throw (find (λ c. c.id == k) choices) option_invalid) _ e in
    let (fits, e2) = throw_if_ok (not (belongs m c)) option_invalid _ e1 in
    let (in_stock, e3) = throw_if_ok (is_sold_out c.stock c.own_sold_out) option_sold_out _ e2 in
    let (rest, taken, e4) = both_ok (take_choices m choices ks) _ e3 in
    let (allowed, same) = take_choices_ok m choices ks taken in
    let of_id =
      (==_iff c.id k).0
        (find_holds (λ c. c.id == k) choices (or_throw_ok _ option_invalid found)) in
    let belongs_here : belongs m c ≡ true = is_true (belongs m c) fits in
    rw (sym (ok_inj _ refl e4)) (((belongs_here, in_stock), allowed), rw (of_id, same) refl)

check_groups_ok :
    (gs : List Group) (chosen : List Choice)
    → check_groups gs chosen ≡ ok tt
    → All (InRange chosen) gs
unfolding check_groups check_selected_count
check_groups_ok [] chosen e = tt
check_groups_ok (g ∷ gs) chosen e = ground (arith, check_groups_ok gs chosen)

-- Options that validateItemOptions accepts are exactly those sent, none twice, each an active
-- choice in stock of a live group of that menu item, and of every group as many as its minimum and
-- maximum allow.
pub validate_item_options_ok :
    (m : MenuItem) (ids : List ℕ) (choices : List Choice) {chosen : List Choice}
    → validate_item_options m ids choices ≡ ok chosen
    → (has_duplicate_id ids ≡ false)
      × (map (λ c. c.id) chosen ≡ ids)
      × All (Allowed m) chosen
      × All (InRange chosen) m.groups
unfolding validate_item_options
validate_item_options_ok m ids choices e =
    let (apart, e1) = throw_if_ok (has_duplicate_id ids) duplicate_option _ e in
    let (chosen, taken, e2) = both_ok (take_choices m choices ids) _ e1 in
    let (t, checked, e3) = both_ok (check_groups m.groups chosen) _ e2 in
    let (allowed, same) = take_choices_ok m choices ids taken in
    rw (sym (ok_inj _ refl e3)) (apart, same, allowed, check_groups_ok m.groups chosen checked)

-- The line's total is what the bill will make of it, and it has at least one piece.
abbrev pub Priced : Line → Type 0
Priced l =
    (l.line_total ≡ (l.unit_price + sum_by (λ o. o.extra_price) l.options) * l.quantity)
    × (1 ≤ l.quantity)

resolve_line-Priced :
    (t : Target) (catalog : Catalog) (i : LineInput) {l : Line}
    → resolve_line t catalog i ≡ ok l
    → Priced l
unfolding resolve_line line_of
resolve_line-Priced t catalog i e =
    let (m, found, e1) =
      both_ok (or_throw (find (λ m. m.id == i.menu_item_id) catalog.items) not_on_sale) _ e in
    let (on_sale, e2) = throw_if_ok (not m.is_active || m.is_deleted) not_on_sale _ e1 in
    let (here, e3) = throw_if_ok (not (channel_allows m.channel t)) wrong_channel _ e2 in
    let (in_stock, e4) = throw_if_ok (is_sold_out m.stock m.own_sold_out) menu_sold_out _ e3 in
    let (some_of, e5) = throw_if_ok (ltb i.quantity 1 || ltb 50 i.quantity) bad_quantity _ e4 in
    let (chosen, taken, e6) =
      both_ok (validate_item_options m i.option_choice_ids catalog.choices) _ e5 in
    rw (sym (ok_inj _ refl e6)) (refl, ground arith)

resolve_each-Priced :
    (t : Target) (catalog : Catalog) (is : List LineInput) {ls : List Line}
    → resolve_each t catalog is ≡ ok ls
    → All Priced ls
unfolding resolve_each
resolve_each-Priced t catalog [] e = rw (sym (ok_inj _ refl e)) tt
resolve_each-Priced t catalog (i ∷ is) e =
    let (l, first, e1) = both_ok (resolve_line t catalog i) _ e in
    let (rest, others, e2) = both_ok (resolve_each t catalog is) _ e1 in
    rw (sym (ok_inj _ refl e2))
      (resolve_line-Priced t catalog i first, resolve_each-Priced t catalog is others)

pub resolve_order_lines-Priced :
    (is : List LineInput) (t : Target) (catalog : Catalog) {ls : List Line}
    → resolve_order_lines is t catalog ≡ ok ls
    → All Priced ls
unfolding resolve_order_lines
resolve_order_lines-Priced [] t catalog e = cc
resolve_order_lines-Priced (i ∷ is) t catalog e = resolve_each-Priced t catalog (i ∷ is) e

pub items_total :
    (ids : ℕ → ℕ) (n : ℕ) (ls : List Line)
    → All Priced ls
    → sum_by item_total (filter (λ i. not (is_some i.cancelled_at)) (items_of ids n ls))
      ≡ server_total ls
unfolding items_of item_total
items_total ids n [] h = refl
items_total ids n (l ∷ ls) h = rw (items_total ids (suc n) ls h.1, h.0.0) refl

-- What an order that is not a repetition has gone through.
pub create_order_ok :
    (oid : ℕ) (ids : ℕ → ℕ) (input : OrderInput) (catalog : Catalog) (seen db : Db) {r : Order × Db}
    → find_order (order_key input) seen.orders ≡ none
    → create_order oid ids input catalog seen db ≡ ok r
    → (ls : List Line) × (resolve_order_lines input.lines to_table catalog ≡ ok ls)
      × (price_differs input.expected_total (server_total ls) ≡ false)
      × (r ≡ store_order (new_order oid ids input ls) db)
unfolding create_order
create_order_ok oid ids input catalog seen db none_yet e =
    let (ls, resolved, e1) =
      both_ok (resolve_order_lines input.lines to_table catalog) _
        (rw (create_order, none_yet) at e) in
    let (same_price, e2) =
      throw_if_ok (price_differs input.expected_total (server_total ls)) price_mismatch _ e1 in
    (ls, resolved, same_price, sym (ok_inj _ refl e2))

new_order_total :
    (oid : ℕ) (ids : ℕ → ℕ) (input : OrderInput) (ls : List Line)
    → All Priced ls
    → order_total (new_order oid ids input ls) ≡ server_total ls
unfolding order_total new_order
new_order_total oid ids input ls h = items_total ids 0 ls h

store_new :
    (o : Order) (db : Db)
    → find_order o.key db.orders ≡ none
    → store_order o db ≡ (o, record db { orders = o ∷ db.orders })
unfolding store_order
store_new o db h = rw (store_order, h) refl

more_owed :
    (o : Order) (sid : ℕ) (db : Db)
    → is_id o.session_id sid ≡ true
    → is_billed o ≡ true
    → (compute_bill sid (record db { orders = o ∷ db.orders })).total
      ≡ order_total o + (compute_bill sid db).total
unfolding compute_bill bill_of orders_total
more_owed o sid db own billed = rw (own, billed) refl

-- An order that createOrder creates (no order with its key is there before) raises what its
-- session's orders come to by exactly the order's own total, and a total that the client sent is
-- that same total.
pub create_order_total :
    (oid : ℕ) (ids : ℕ → ℕ) (input : OrderInput) (catalog : Catalog) (seen db : Db) {o : Order}
    {db' : Db}
    → find_order (order_key input) seen.orders ≡ none
    → find_order (order_key input) db.orders ≡ none
    → create_order oid ids input catalog seen db ≡ ok (o, db')
    → ((compute_bill input.session_id db').total
        ≡ order_total o + (compute_bill input.session_id db).total)
      × (price_differs input.expected_total (order_total o) ≡ false)
unfolding new_order
create_order_total oid ids input catalog seen db {o} {db'} none_yet none_still e =
    let (ls, resolved, price, is) = create_order_ok oid ids input catalog seen db none_yet e in
    let made = new_order oid ids input ls in
    let total =
      new_order_total oid ids input ls
        (resolve_order_lines-Priced input.lines to_table catalog resolved) in
    let stored = is ∙ store_new made db none_still in
    let order_is : o ≡ made = ap (λ r. r.0) stored in
    let db_is : db' ≡ record db { orders = made ∷ db.orders } = ap (λ r. r.1) stored in
    rw (order_is, db_is)
      (
        more_owed made input.session_id db ((==_iff input.session_id input.session_id).1 refl) refl,
        rw total price,
      )
