-- ===== src/Domain/Rows.antt =====
-- The rows of the database, with the columns that decide something.
use boardbite_pos.Prelude.{ℕ, Bool, Option, List}
use boardbite_pos.Domain.Status.{
  TableStatus, SessionStatus, OrderStatus, PaymentKind, StaffCallStatus,
}
use boardbite_pos.Domain.Key.{Key}

pub record Table : Type 0 where
  pub id : ℕ
  pub status : TableStatus
  pub payments_locked : Bool
  pub orders_locked : Bool

-- `closeReason`: the texts of the code, or one that the staff gave.
pub data CloseReason : Type 0 where
  normal force_closed auto_settled : CloseReason
  given : ℕ → CloseReason

pub record Session : Type 0 where
  pub id : ℕ
  pub table_id : ℕ
  pub status : SessionStatus
  pub opened_by : ℕ
  pub guest_count : Option ℕ
  pub join_code_hash : Option ℕ
  pub join_code_issued_at : ℕ
  pub closed_at : Option ℕ
  pub close_reason : Option CloseReason

pub record GamePlan : Type 0 where
  pub id : ℕ
  pub minutes : ℕ
  pub price : ℕ
  pub is_active : Bool

pub record GameUsage : Type 0 where
  pub session_id : ℕ
  pub plan_id : ℕ
  pub minutes : ℕ
  pub price : ℕ
  pub ends_at : ℕ

pub data ServingMode : Type 0 where
  kitchen counter : ServingMode

pub record OptionSnapshot : Type 0 where
  pub choice_id : ℕ
  pub extra_price : ℕ

pub record Item : Type 0 where
  pub id : ℕ
  pub menu_item_id : ℕ
  pub unit_price : ℕ
  pub quantity : ℕ
  pub serving_mode : ServingMode
  pub options : List OptionSnapshot
  pub cancelled_at : Option ℕ

-- `CANCEL_REASON_CODES`
pub data CancelReason : Type 0 where
  out_of_stock customer_request cannot_cook wrong_order other : CancelReason

-- An order with its items; it belongs to a table session or to a counter sale.
pub record Order : Type 0 where
  pub id : ℕ
  pub session_id : Option ℕ
  pub sale_id : Option ℕ
  pub status : OrderStatus
  pub key : Key
  pub items : List Item
  pub served_at : Option ℕ
  pub cancelled_at : Option ℕ
  pub cancel_reason : Option CancelReason

pub record Allocation : Type 0 where
  pub order_item_id : ℕ
  pub quantity : ℕ
  pub amount : ℕ

-- Method codes are only compared.
pub record Payment : Type 0 where
  pub id : ℕ
  pub session_id : Option ℕ
  pub sale_id : Option ℕ
  pub kind : PaymentKind
  pub method : ℕ
  pub amount : ℕ
  pub tendered : Option ℕ
  pub change : Option ℕ
  pub reversed_id : Option ℕ
  pub coupon_code : Option ℕ  -- the number that `reason` names, where a coupon's discount set it
  pub key : Key
  pub created_by : ℕ
  pub allocations : List Allocation

pub record PaymentMethod : Type 0 where
  pub code : ℕ
  pub is_cash : Bool
  pub is_active : Bool

pub record Settings : Type 0 where
  pub payments_enabled : Bool
  pub ordering_enabled : Bool

pub record StaffCall : Type 0 where
  pub session_id : ℕ
  pub status : StaffCallStatus

pub record Device : Type 0 where
  pub session_id : ℕ
  pub token_hash : ℕ
  pub expires_at : ℕ
  pub revoked_at : Option ℕ

pub record Redemption : Type 0 where
  pub coupon_id : ℕ
  pub coupon_code : ℕ
  pub session_id : Option ℕ
  pub sale_id : Option ℕ
  pub original_amount : ℕ
  pub discount_amount : ℕ
  pub target_item_id : Option ℕ
  pub cancelled_at : Option ℕ

-- The tables of the database, newest row first.
pub record Db : Type 0 where
  pub tables : List Table
  pub sessions : List Session
  pub plans : List GamePlan
  pub usages : List GameUsage
  pub orders : List Order
  pub payments : List Payment
  pub methods : List PaymentMethod
  pub settings : Option Settings
  pub calls : List StaffCall
  pub devices : List Device
  pub redemptions : List Redemption
