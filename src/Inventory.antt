-- ===== src/Inventory.antt =====
-- server/src/services/inventory.ts: the products that menu items and option choices share, and
-- what marks them as sold out.
pub mod Marked
pub mod Links
use boardbite_pos.Prelude.{
  ℕ, ◌+◌, Bool, true, false, not, ◌&&◌, ◌||◌, Option, none, some, List, [], ◌∷◌, ◌++◌,
  if◌then◌else◌, ltb, ◌==◌, map, any, find, filter, update, count, is_id, Result, ok, err, ◌>>=◌,
  ◌>>◌, throw_if, or_throw,
}
use boardbite_pos.Domain.Rows.{Db}
use boardbite_pos.Menu.{Stock, is_sold_out}
use boardbite_pos.Order.{OrderError}
use boardbite_pos.Order.Cancel.{CancelInput, cancel_order}

-- A constructor for each `InventoryError` and the error of `cancelOrder` that passes through.
pub data InventoryError : Type 0 where
  no_target menu_not_found choice_not_found inventory_not_found inventory_in_use : InventoryError
  order_error : OrderError → InventoryError

-- A row of `inventoryItem`.
pub record Product : Type 0 where
  pub id : ℕ
  pub is_sold_out : Bool
  pub is_deleted : Bool
  pub sold_out_at : Option ℕ
  pub sold_out_by : Option ℕ

-- A menu item or an option choice, as far as it can be sold out (`SoldOutResolvable`).
pub record Sellable : Type 0 where
  pub id : ℕ
  pub own_sold_out : Bool
  pub is_deleted : Bool
  pub product_id : Option ℕ

pub record Pantry : Type 0 where
  pub products : List Product
  pub menus : List Sellable
  pub choices : List Sellable

-- `SoldOutTargetKind`
pub data TargetKind : Type 0 where
  menu_item option_choice : TargetKind

-- `SoldOutTarget`
pub record SoldOutTarget : Type 0 where
  pub kind : TargetKind
  pub id : ℕ

abbrev pub product_of : ℕ → List Product → Option Product
product_of k ps = find (λ p. p.id == k) ps

abbrev pub linked_by : Option ℕ → List Product → Option Product
linked_by none ps = none
linked_by (some k) ps = product_of k ps

-- `INVENTORY_SELECT`: the product that an entity is linked to.
unfoldable pub linked : Sellable → List Product → Option Product
linked s ps = linked_by s.product_id ps

abbrev pub stock_of : Option Product → Option Stock
stock_of none = none
stock_of (some p) = some (record { is_sold_out = p.is_sold_out; is_deleted = p.is_deleted })

-- `isSoldOut` of an entity with its product.
unfoldable pub sold_out_now : Sellable → List Product → Bool
unfolding linked
sold_out_now s ps = is_sold_out (stock_of (linked s ps)) s.own_sold_out

-- `item.inventoryItem && !item.inventoryItem.deletedAt`
abbrev pub live_product : Option Product → Option ℕ
live_product none = none
live_product (some p) = if p.is_deleted then none else some p.id

abbrev pub rows_of : TargetKind → Pantry → List Sellable
rows_of menu_item pantry = pantry.menus
rows_of option_choice pantry = pantry.choices

abbrev pub with_rows : TargetKind → List Sellable → Pantry → Pantry
with_rows menu_item rows pantry = record pantry { menus = rows }
with_rows option_choice rows pantry = record pantry { choices = rows }

abbrev pub missing : TargetKind → InventoryError
missing menu_item = menu_not_found
missing option_choice = choice_not_found

abbrev pub sellable_of : ℕ → List Sellable → Option Sellable
sellable_of k rows = find (λ s. s.id == k) rows

-- `findUnique`, and the throw on a row that is missing or deleted.
unfoldable pub find_target : SoldOutTarget → Pantry → Result InventoryError Sellable
find_target t pantry = do
  s ← or_throw (sellable_of t.id (rows_of t.kind pantry)) (missing t.kind)
  throw_if s.is_deleted (missing t.kind)
  ok s

-- `update({ where: { id }, data: { isSoldOut: soldOut } })`
unfoldable pub mark_own : Bool → ℕ → List Sellable → List Sellable
mark_own sold_out k rows = update (λ s. s.id == k) (λ s. record s { own_sold_out = sold_out }) rows

-- One turn of the loop of `applySoldOutInTx`; `ids` are the products so far.
unfoldable pub mark_target :
    Bool → SoldOutTarget → Pantry → List ℕ → Result InventoryError (Pantry × List ℕ)
unfolding find_target mark_own linked
mark_target sold_out t pantry ids = do
  s ← find_target t pantry
  elim (live_product (linked s pantry.products)) [
    | some k ↦ ok (pantry, k ∷ ids)
    | none ↦ ok (with_rows t.kind (mark_own sold_out s.id (rows_of t.kind pantry)) pantry, ids)
  ]

unfoldable pub mark_targets :
    Bool → List SoldOutTarget → Pantry → List ℕ → Result InventoryError (Pantry × List ℕ)
unfolding mark_target
mark_targets sold_out [] pantry ids = ok (pantry, ids)
mark_targets sold_out (t ∷ ts) pantry ids = do
  marked ← mark_target sold_out t pantry ids
  mark_targets sold_out ts marked.0 marked.1

abbrev pub among : List ℕ → ℕ → Bool
among ids k = any (λ j. j == k) ids

-- The update of the products.
unfoldable pub mark_products : Bool → ℕ → ℕ → List ℕ → List Product → List Product
mark_products sold_out now staff ids ps =
    update (λ p. among ids p.id)
      (λ p. record p {
        is_sold_out = sold_out;
        sold_out_at = if sold_out then some now else none;
        sold_out_by = if sold_out then some staff else none;
      })
      ps

-- `applySoldOutInTx`
unfoldable pub apply_sold_out :
    Bool → ℕ → ℕ → List SoldOutTarget → Pantry → Result InventoryError Pantry
unfolding mark_targets mark_products
apply_sold_out sold_out now staff targets pantry = do
  marked ← mark_targets sold_out targets pantry []
  ok (record marked.0 { products = mark_products sold_out now staff marked.1 marked.0.products })

-- `SoldOutImpact`, without the names.
pub record Impact : Type 0 where
  pub target : SoldOutTarget
  pub product : Option ℕ
  pub already_sold_out : Bool
  pub menus : List ℕ
  pub choices : List ℕ

abbrev pub users_of : ℕ → List Sellable → List ℕ
users_of k rows = map (λ s. s.id) (filter (λ s. is_id s.product_id k && not s.is_deleted) rows)

abbrev pub own_menu : SoldOutTarget → List ℕ
own_menu t = elim t.kind [ menu_item ↦ t.id ∷ [] | option_choice ↦ [] ]

-- One turn of the loop of `computeSoldOutImpact`.
unfoldable pub impact_of : SoldOutTarget → Pantry → Result InventoryError Impact
unfolding find_target sold_out_now linked
impact_of t pantry = do
  s ← find_target t pantry
  let product = live_product (linked s pantry.products)
  ok (record {
    target = t;
    product = product;
    already_sold_out = sold_out_now s pantry.products;
    menus = elim product [ none ↦ own_menu t | some k ↦ users_of k pantry.menus ];
    choices = elim product [ none ↦ [] | some k ↦ users_of k pantry.choices ];
  })

-- `computeSoldOutImpact`
unfoldable pub compute_impact : List SoldOutTarget → Pantry → Result InventoryError (List Impact)
unfolding impact_of
compute_impact [] pantry = ok []
compute_impact (t ∷ ts) pantry = do
  i ← impact_of t pantry
  is ← compute_impact ts pantry
  ok (i ∷ is)

-- `setSoldOut`; `seen` is the pantry before the transaction.
unfoldable pub set_sold_out :
    Bool
    → ℕ
    → ℕ
    → List SoldOutTarget
    → Pantry
    → Pantry
    → Result InventoryError (List Impact × Pantry)
unfolding compute_impact apply_sold_out
set_sold_out sold_out now staff [] seen pantry = err no_target
set_sold_out sold_out now staff (t ∷ ts) seen pantry = do
  before ← compute_impact (t ∷ ts) seen
  after ← apply_sold_out sold_out now staff (t ∷ ts) pantry
  ok (before, after)

abbrev pub cancelled_in : Result OrderError Db → Result InventoryError Db
cancelled_in (ok db) = ok db
cancelled_in (err e) = err (order_error e)

-- The transaction of `cancelOrder` (server/src/services/order.ts) with the products that ran out.
unfoldable pub cancel_and_mark :
    ℕ → ℕ → CancelInput → List SoldOutTarget → Db → Pantry → Result InventoryError (Db × Pantry)
unfolding apply_sold_out
cancel_and_mark now staff input targets db pantry = do
  db' ← cancelled_in (cancel_order now input db)
  pantry' ← apply_sold_out true now staff targets pantry
  ok (db', pantry')

-- `inherited`: a row that leaves its product takes over the product's state.
abbrev pub inherited : Option ℕ → Sellable → List Product → Bool
inherited none s ps = sold_out_now s ps
inherited (some k) s ps = s.own_sold_out

-- The first check of `setInventoryLink`.
unfoldable pub check_product : Option ℕ → List Product → Result InventoryError (Unit {0})
check_product none ps = ok tt
check_product (some k) ps = do
  p ← or_throw (product_of k ps) inventory_not_found
  throw_if p.is_deleted inventory_not_found

-- `setInventoryLink`
unfoldable pub set_link : SoldOutTarget → Option ℕ → Pantry → Result InventoryError Pantry
unfolding check_product find_target
set_link t product pantry = do
  check_product product pantry.products
  s ← find_target t pantry
  ok (
      with_rows t.kind
        (update (λ r. r.id == s.id)
          (λ r. record r {
            product_id = product;
            own_sold_out = inherited product s pantry.products;
          })
          (rows_of t.kind pantry))
        pantry)

-- `deleteInventoryItem`
unfoldable pub delete_product : ℕ → Pantry → Result InventoryError Pantry
delete_product k pantry = do
  p ← or_throw (product_of k pantry.products) inventory_not_found
  throw_if p.is_deleted inventory_not_found
  throw_if
      (ltb 0 (
        count (λ s. is_id s.product_id k && not s.is_deleted) pantry.menus
        + count (λ s. is_id s.product_id k && not s.is_deleted) pantry.choices))
      inventory_in_use
  ok (record pantry {
    products = update (λ q. q.id == k) (λ q. record q { is_deleted = true }) pantry.products;
  })
