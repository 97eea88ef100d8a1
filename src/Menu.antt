-- ===== src/Menu.antt =====
-- What can be sold: isSoldOut of server/src/services/inventory.ts, the channel and the serving mode
-- of server/src/services/menuCatalog.ts, and the rules of server/src/services/optionRules.ts on how
-- many choices of an option group are taken.
use boardbite_pos.Prelude.{
  ℕ, Bool, true, false, ◌||◌, Option, none, some, List, if◌then◌else◌, ltb, Result, ok, ◌>>◌,
  throw_if,
}
use boardbite_pos.Domain.Rows.{ServingMode, kitchen, counter}

-- A product of the stock (`inventoryItem`).
pub record Stock : Type 0 where
  pub is_sold_out : Bool
  pub is_deleted : Bool

-- An option choice with its group's menu item.
pub record Choice : Type 0 where
  pub id : ℕ
  pub group_id : ℕ
  pub menu_item_id : ℕ
  pub extra_price : ℕ
  pub is_active : Bool
  pub is_deleted : Bool
  pub own_sold_out : Bool
  pub stock : Option Stock

-- A live option group with its live choices; `none` is no maximum.
pub record Group : Type 0 where
  pub id : ℕ
  pub min_select : ℕ
  pub max_select : Option ℕ
  pub choices : List Choice

pub data Channel : Type 0 where
  both_channels table_only front_only : Channel

pub data Target : Type 0 where
  to_table to_front : Target

-- A menu item with the groups that `LIVE_OPTION_INCLUDE` reads.
pub record MenuItem : Type 0 where
  pub id : ℕ
  pub price : ℕ
  pub is_active : Bool
  pub is_deleted : Bool
  pub channel : Channel
  pub needs_cooking : Bool
  pub show_in_kitchen : Bool
  pub own_sold_out : Bool
  pub stock : Option Stock
  pub groups : List Group

pub record Catalog : Type 0 where
  pub items : List MenuItem
  pub choices : List Choice

-- `isSoldOut`: a product that is linked and not deleted decides alone.
unfoldable pub is_sold_out : Option Stock → Bool → Bool
is_sold_out none own = own
is_sold_out (some s) own = if s.is_deleted then own else s.is_sold_out

-- `channelAllows`
unfoldable pub channel_allows : Channel → Target → Bool
channel_allows both_channels t = true
channel_allows table_only to_table = true
channel_allows table_only to_front = false
channel_allows front_only to_table = false
channel_allows front_only to_front = true

-- `servingModeOf`
unfoldable pub serving_mode_of : MenuItem → ServingMode
serving_mode_of m = if m.needs_cooking || m.show_in_kitchen then kitchen else counter

-- `isRequired` and `isMultiSelect`
abbrev pub is_required : ℕ → Bool
is_required min_select = ltb 0 min_select

abbrev pub is_multi_select : Option ℕ → Bool
is_multi_select none = true
is_multi_select (some m) = ltb 1 m

-- The three messages of `assertValidSelectRange` that a range of natural numbers can meet.
pub data RangeError : Type 0 where
  max_zero min_above_max too_few_choices : RangeError

abbrev pub check_max : ℕ → Option ℕ → Result RangeError (Unit {0})
check_max min_select none = ok tt
check_max min_select (some m) = do
  throw_if (ltb m 1) max_zero
  throw_if (ltb m min_select) min_above_max

-- `assertValidSelectRange`
unfoldable pub assert_valid_select_range : ℕ → Option ℕ → Option ℕ → Result RangeError (Unit {0})
assert_valid_select_range min_select max_select active_choices = do
  check_max min_select max_select
  throw_if (elim active_choices [ none ↦ false | some n ↦ ltb n min_select ]) too_few_choices

-- What `checkSelectedCount` has to say.
pub data CountProblem : Type 0 where
  too_many too_few : CountProblem

abbrev pub above_max : Option ℕ → ℕ → Bool
above_max none n = false
above_max (some m) n = ltb m n

-- `checkSelectedCount`
unfoldable pub check_selected_count : ℕ → Option ℕ → ℕ → Option CountProblem
check_selected_count min_select max_select n =
    if above_max max_select n
    then some too_many
    else if ltb n min_select
    then some too_few
    else none
