-- ===== src/Examples.antt =====
-- Small databases on which the theorems apply, and the runs that they are applied to.
pub mod Bills
pub mod Tables
pub mod Orders
pub mod Others
pub mod Sales
pub mod Stores
pub mod Days
pub mod People
use boardbite_pos.Prelude.{ℕ, Bool, true, false, none, some, List, [], ◌∷◌}
use boardbite_pos.Domain.Status.{opened, active, ready, new}
use boardbite_pos.Domain.Key.{Key, id, text}
use boardbite_pos.Domain.Rows.{
  Table, Session, Item, kitchen, OptionSnapshot, Order, Payment, PaymentMethod, Settings, Device,
  Db,
}

abbrev pub table_7 : Table
table_7 = record { id = 7; status = opened; payments_locked = false; orders_locked = false }

abbrev pub session_1 : Session
session_1 = record {
  id = 1;
  table_id = 7;
  status = active;
  opened_by = 3;
  guest_count = some 2;
  join_code_hash = none;
  join_code_issued_at = 0;
  closed_at = none;
  close_reason = none;
}

abbrev pub coffee : Item
coffee = record {
  id = 100;
  menu_item_id = 50;
  unit_price = 4000;
  quantity = 2;
  serving_mode = kitchen;
  options = record { choice_id = 60; extra_price = 500 } ∷ [];
  cancelled_at = none;
}

abbrev pub cake : Item
cake = record {
  id = 101;
  menu_item_id = 51;
  unit_price = 6000;
  quantity = 1;
  serving_mode = kitchen;
  options = [];
  cancelled_at = none;
}

abbrev pub order_10 : Order
order_10 = record {
  id = 10;
  session_id = some 1;
  sale_id = none;
  status = new;
  key = id 1 ∷ text ":o1";
  items = coffee ∷ cake ∷ [];
  served_at = none;
  cancelled_at = none;
  cancel_reason = none;
}

abbrev pub card : PaymentMethod
card = record { code = 2; is_cash = false; is_active = true }

abbrev pub device_1 : Device
device_1 = record { session_id = 1; token_hash = 77; expires_at = 50000; revoked_at = none }

-- A table with one session, which has ordered for 15000.
abbrev pub shop : Db
shop = record {
  tables = table_7 ∷ [];
  sessions = session_1 ∷ [];
  plans = [];
  usages = [];
  orders = order_10 ∷ [];
  payments = [];
  methods = card ∷ [];
  settings = some (record { payments_enabled = true; ordering_enabled = true });
  calls = [];
  devices = device_1 ∷ [];
  redemptions = [];
}
