-- ===== src/Order/Lines.antt =====
-- validateItemOptions, resolveOrderLines and createOrder of server/src/services/order.ts. `seen` is
-- the database before the transaction. A name is only shown, so a line has none.
use boardbite_pos.Prelude.{
  ℕ, suc, ◌+◌, ◌*◌, Bool, false, not, ◌&&◌, ◌||◌, Option, none, some, List, [], ◌∷◌, ◌++◌,
  if◌then◌else◌, ltb, ◌==◌, map, any, find, count, sum_by, Result, ok, err, ◌>>=◌, ◌>>◌, throw_if,
  or_throw,
}
use boardbite_pos.Domain.Status.{new}
use boardbite_pos.Domain.Key.{Key, id, text, key_eq}
use boardbite_pos.Domain.Rows.{ServingMode, OptionSnapshot, Item, Order, Db}
use boardbite_pos.Menu.{
  Choice, Group, MenuItem, Target, to_table, Catalog, is_sold_out, channel_allows, serving_mode_of,
  check_selected_count,
}

-- A constructor for each `OrderValidationError`.
pub data LineError : Type 0 where
  no_items not_on_sale wrong_channel menu_sold_out bad_quantity : LineError
  duplicate_option option_invalid option_sold_out option_unavailable option_count_invalid :
      LineError
  price_mismatch : LineError

abbrev pub has_duplicate_id : List ℕ → Bool
has_duplicate_id [] = false
has_duplicate_id (k ∷ ks) = any (λ j. j == k) ks || has_duplicate_id ks

-- The first test of the loop over the choices.
abbrev pub belongs : MenuItem → Choice → Bool
belongs m c =
    c.is_active
    && not c.is_deleted
    && any (λ g. g.id == c.group_id) m.groups
    && c.menu_item_id == m.id

-- The loop over the choices.
unfoldable pub take_choices : MenuItem → List Choice → List ℕ → Result LineError (List Choice)
unfolding is_sold_out
take_choices m choices [] = ok []
take_choices m choices (k ∷ ks) = do
  c ← or_throw (find (λ c. c.id == k) choices) option_invalid
  throw_if (not (belongs m c)) option_invalid
  throw_if (is_sold_out c.stock c.own_sold_out) option_sold_out
  rest ← take_choices m choices ks
  ok (c ∷ rest)

-- `selectedByGroup.get(group.id) ?? 0`
abbrev pub selected_in : Group → List Choice → ℕ
selected_in g chosen = count (λ c. c.group_id == g.id) chosen

abbrev pub selectable : Group → ℕ
selectable g = count (λ c. c.is_active && not (is_sold_out c.stock c.own_sold_out)) g.choices

-- The loop over the groups.
unfoldable pub check_groups : List Group → List Choice → Result LineError (Unit {0})
check_groups [] chosen = ok tt
check_groups (g ∷ gs) chosen =
    let rest = check_groups gs chosen in
    let n = selected_in g chosen in
    elim (check_selected_count g.min_select g.max_select n) [
      | none ↦ rest
      | some problem ↦
          if ltb n g.min_select && ltb (selectable g) g.min_select
          then err option_unavailable
          else err option_count_invalid
    ]

-- `validateItemOptions`: the choices that it takes snapshots of.
unfoldable pub validate_item_options :
    MenuItem → List ℕ → List Choice → Result LineError (List Choice)
unfolding take_choices check_groups
validate_item_options m ids choices = do
  throw_if (has_duplicate_id ids) duplicate_option
  chosen ← take_choices m choices ids
  check_groups m.groups chosen
  ok chosen

-- `CreateOrderItemInput`
pub record LineInput : Type 0 where
  pub menu_item_id : ℕ
  pub quantity : ℕ
  pub option_choice_ids : List ℕ

-- `ResolvedOrderLine`
pub record Line : Type 0 where
  pub menu_item_id : ℕ
  pub unit_price : ℕ
  pub quantity : ℕ
  pub serving_mode : ServingMode
  pub options : List OptionSnapshot
  pub line_total : ℕ

abbrev pub snapshot : Choice → OptionSnapshot
snapshot c = record { choice_id = c.id; extra_price = c.extra_price }

unfoldable pub line_of : MenuItem → ℕ → List OptionSnapshot → Line
line_of m quantity options = record {
  menu_item_id = m.id;
  unit_price = m.price;
  quantity = quantity;
  serving_mode = serving_mode_of m;
  options = options;
  line_total = (m.price + sum_by (λ o. o.extra_price) options) * quantity;
}

-- The body of the `map` of `resolveOrderLines`.
unfoldable pub resolve_line : Target → Catalog → LineInput → Result LineError Line
unfolding validate_item_options line_of
resolve_line target catalog input = do
  m ← or_throw (find (λ m. m.id == input.menu_item_id) catalog.items) not_on_sale
  throw_if (not m.is_active || m.is_deleted) not_on_sale
  throw_if (not (channel_allows m.channel target)) wrong_channel
  throw_if (is_sold_out m.stock m.own_sold_out) menu_sold_out
  throw_if (ltb input.quantity 1 || ltb 50 input.quantity) bad_quantity
  chosen ← validate_item_options m input.option_choice_ids catalog.choices
  ok (line_of m input.quantity (map snapshot chosen))

unfoldable pub resolve_each : Target → Catalog → List LineInput → Result LineError (List Line)
unfolding resolve_line
resolve_each target catalog [] = ok []
resolve_each target catalog (i ∷ is) = do
  line ← resolve_line target catalog i
  rest ← resolve_each target catalog is
  ok (line ∷ rest)

-- `resolveOrderLines`
unfoldable pub resolve_order_lines :
    List LineInput → Target → Catalog → Result LineError (List Line)
unfolding resolve_each
resolve_order_lines [] target catalog = err no_items
resolve_order_lines (i ∷ is) target catalog = resolve_each target catalog (i ∷ is)

-- `CreateOrderInput`
pub record OrderInput : Type 0 where
  pub expected_total : Option ℕ
  pub session_id : ℕ
  pub client_key : Key
  pub lines : List LineInput

-- The items that are created, whose ids `ids` gives from the position `n` on.
unfoldable pub items_of : (ℕ → ℕ) → ℕ → List Line → List Item
items_of ids n [] = []
items_of ids n (l ∷ ls) =
    record {
      id = ids n;
      menu_item_id = l.menu_item_id;
      unit_price = l.unit_price;
      quantity = l.quantity;
      serving_mode = l.serving_mode;
      options = l.options;
      cancelled_at = none;
    }
    ∷ items_of ids (suc n) ls

unfoldable pub order_key : OrderInput → Key
order_key input = id input.session_id ∷ (text ":" ++ input.client_key)

unfoldable pub new_order : ℕ → (ℕ → ℕ) → OrderInput → List Line → Order
unfolding items_of
new_order oid ids input lines = record {
  id = oid;
  session_id = some input.session_id;
  sale_id = none;
  status = new;
  key = order_key input;
  items = items_of ids 0 lines;
  served_at = none;
  cancelled_at = none;
  cancel_reason = none;
}

abbrev pub find_order : Key → List Order → Option Order
find_order k os = find (λ o. key_eq o.key k) os

abbrev pub server_total : List Line → ℕ
server_total lines = sum_by (λ l. l.line_total) lines

abbrev pub price_differs : Option ℕ → ℕ → Bool
price_differs none total = false
price_differs (some expected) total = not (total == expected)

-- The transaction, and the `catch`: the row that won is returned.
unfoldable pub store_order : Order → Db → Order × Db
store_order o db = elim (find_order o.key db.orders) [
  | some winner ↦ (winner, db)
  | none ↦ (o, record db { orders = o ∷ db.orders })
]

-- `createOrder`
unfoldable pub create_order :
    ℕ → (ℕ → ℕ) → OrderInput → Catalog → Db → Db → Result LineError (Order × Db)
unfolding resolve_order_lines new_order store_order
create_order oid ids input catalog seen db =
    let fresh = (do
      lines ← resolve_order_lines input.lines to_table catalog
      throw_if (price_differs input.expected_total (server_total lines)) price_mismatch
      ok (store_order (new_order oid ids input lines) db)) in
    elim (find_order (order_key input) seen.orders) [ some o ↦ ok (o, db) | none ↦ fresh ]
