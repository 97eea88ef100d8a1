-- ===== src/Examples/Orders.antt =====
-- Orders of the example shop.
use boardbite_pos.Prelude.{
  ℕ, ◌+◌, ◌≡◌, refl, inl, true, false, none, some, List, [], ◌∷◌, map, All, Each, ok, is_ok,
}
use boardbite_pos.Domain.Status.{accepted, preparing}
use boardbite_pos.Domain.Key.{id, text}
use boardbite_pos.Domain.Rows.{Order, other, Db}
use boardbite_pos.Billing.{compute_bill, order_total}
use boardbite_pos.Menu.{Choice, Group, MenuItem, both_channels, Catalog}
use boardbite_pos.Order.Cancel.{CancelInput, cancel_order}
use boardbite_pos.Order.Cutting.{Cut, cancel_order-Cut}
use boardbite_pos.Order.Marks.{Marks, cancel_order-Marks}
use boardbite_pos.Order.Once.{begin, then_act, act_once}
use boardbite_pos.Order.Machine.{Follows, accepting, preparing_it, act, act-Follows}
use boardbite_pos.Order.Lines.{
  OrderInput, validate_item_options, has_duplicate_id, find_order, order_key, price_differs,
  create_order,
}
use boardbite_pos.Order.Creation.{Allowed, InRange, validate_item_options_ok, create_order_total}
use boardbite_pos.Order.Again.{Repeats, create_order_again}
use boardbite_pos.Examples.{coffee, cake, order_10, shop}

abbrev large : Choice
large = record {
  id = 60;
  group_id = 40;
  menu_item_id = 50;
  extra_price = 500;
  is_active = true;
  is_deleted = false;
  own_sold_out = false;
  stock = none;
}

abbrev size : Group
size = record { id = 40; min_select = 1; max_select = some 1; choices = large ∷ [] }

abbrev coffee_item : MenuItem
coffee_item = record {
  id = 50;
  price = 4000;
  is_active = true;
  is_deleted = false;
  channel = both_channels;
  needs_cooking = true;
  show_in_kitchen = true;
  own_sold_out = false;
  stock = none;
  groups = size ∷ [];
}

abbrev menu : Catalog
menu = record { items = coffee_item ∷ []; choices = large ∷ [] }

choices_run : validate_item_options coffee_item (60 ∷ []) menu.choices ≡ ok (large ∷ [])
unfolding validate_item_options boardbite_pos.Menu.check_selected_count
choices_run = refl

abbrev sent : List ℕ
sent = 60 ∷ []

validate_item_options_ok_example :
    (has_duplicate_id sent ≡ false)
    × (map (λ c. c.id) (large ∷ []) ≡ sent)
    × All (Allowed coffee_item) (large ∷ [])
    × All (InRange (large ∷ [])) coffee_item.groups
validate_item_options_ok_example =
    validate_item_options_ok coffee_item sent menu.choices choices_run

abbrev two_coffees : OrderInput
two_coffees = record {
  expected_total = some 9000;
  session_id = 1;
  client_key = text "o2";
  lines = record { menu_item_id = 50; quantity = 2; option_choice_ids = 60 ∷ [] } ∷ [];
}

abbrev order_11 : Order
order_11 = record order_10 {
  id = 11;
  key = id 1 ∷ text ":o2";
  items = record coffee { id = 200 } ∷ [];
}

abbrev ordered : Db
ordered = record shop { orders = order_11 ∷ order_10 ∷ [] }

order_run : create_order 11 (λ n. n + 200) two_coffees menu shop shop ≡ ok (order_11, ordered)
unfolding create_order boardbite_pos.Domain.Key.key_eq order_key boardbite_pos.Menu.channel_allows
    boardbite_pos.Menu.check_selected_count boardbite_pos.Menu.serving_mode_of
order_run = refl

no_order : find_order (order_key two_coffees) shop.orders ≡ none
unfolding order_key boardbite_pos.Domain.Key.key_eq
no_order = refl

create_order_total_example :
    ((compute_bill 1 ordered).total ≡ order_total order_11 + (compute_bill 1 shop).total)
    × (price_differs (some 9000) (order_total order_11) ≡ false)
create_order_total_example =
    create_order_total 11 (λ n. n + 200) two_coffees menu shop shop no_order no_order order_run

abbrev sent_again : OrderInput
sent_again = record two_coffees { expected_total = none; lines = [] }

same_order_key : order_key sent_again ≡ order_key two_coffees
unfolding order_key
same_order_key = refl

-- The second tap has not seen the order of the first.
create_order_again_example :
    Repeats
      (order_key two_coffees)
      shop
      ordered
      order_11
      (create_order 12 (λ n. n + 300) sent_again menu shop ordered)
create_order_again_example =
    create_order_again 11 12 (λ n. n + 200) (λ n. n + 300) two_coffees sent_again menu menu shop
      shop shop ordered same_order_key (inl no_order) order_run refl (inl no_order)

abbrev accepted_shop : Db
accepted_shop = record shop { orders = record order_10 { status = accepted } ∷ [] }

accept_run : act accepting 10 shop ≡ ok accepted_shop
unfolding act
accept_run = refl

act-Follows_example : Each Follows shop.orders accepted_shop.orders
act-Follows_example = act-Follows accepting 10 shop accept_run

-- The order goes on to the kitchen.
abbrev cooking_shop : Db
cooking_shop = record shop { orders = record order_10 { status = preparing } ∷ [] }

cook_run : act preparing_it 10 accepted_shop ≡ ok cooking_shop
unfolding act
cook_run = refl

act_once_example : is_ok (act accepting 10 cooking_shop) ≡ false
act_once_example =
    act_once accepting 10 shop accepted_shop cooking_shop refl (tt, tt) accept_run
      (then_act preparing_it 10 begin cook_run)

abbrev no_cake : CancelInput
no_cake = record { order_id = 10; reason = other; item_ids = 101 ∷ [] }

abbrev cut_shop : Db
cut_shop = record shop {
  orders = record order_10 { items = coffee ∷ record cake { cancelled_at = some 30 } ∷ [] } ∷ [];
}

cancel_run : cancel_order 30 no_cake shop ≡ ok cut_shop
unfolding cancel_order
cancel_run = refl

cancel_order-Cut_example : Each Cut shop.orders cut_shop.orders
cancel_order-Cut_example = cancel_order-Cut 30 no_cake shop cancel_run

cancel_order-Marks_example : Each (Marks (101 ∷ [])) shop.orders cut_shop.orders
cancel_order-Marks_example = cancel_order-Marks 30 no_cake order_10 shop refl cancel_run
