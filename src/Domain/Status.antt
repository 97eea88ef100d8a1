-- ===== src/Domain/Status.antt =====
-- The literal unions of server/src/types/domain.ts, and the sets of statuses that it names.
use boardbite_pos.Prelude.{ℕ, Bool, true, false, List, [], ◌∷◌, ◌==◌, any}

pub data StaffRole : Type 0 where
  admin front pos serving : StaffRole

-- `OPEN` is `opened`.
pub data TableStatus : Type 0 where
  disabled available opened settling : TableStatus

pub data SessionStatus : Type 0 where
  active paid_pending_service closed expired : SessionStatus

pub data OrderStatus : Type 0 where
  new accepted preparing ready served rejected cancelled : OrderStatus

pub data PaymentKind : Type 0 where
  charge discount void refund : PaymentKind

pub data StaffCallStatus : Type 0 where
  pending acked done : StaffCallStatus

-- The literals are compared as texts; a number for each does the same.
abbrev pub order_code : OrderStatus → ℕ
order_code new = 0
order_code accepted = 1
order_code preparing = 2
order_code ready = 3
order_code served = 4
order_code rejected = 5
order_code cancelled = 6

abbrev pub same_order_status : OrderStatus → OrderStatus → Bool
same_order_status a b = order_code a == order_code b

-- `statuses.includes(s)`, and `status: { in: statuses }`
abbrev pub order_status_in : List OrderStatus → OrderStatus → Bool
order_status_in statuses s = any (same_order_status s) statuses

abbrev pub table_code : TableStatus → ℕ
table_code disabled = 0
table_code available = 1
table_code opened = 2
table_code settling = 3

abbrev pub same_table_status : TableStatus → TableStatus → Bool
same_table_status a b = table_code a == table_code b

abbrev pub session_code : SessionStatus → ℕ
session_code active = 0
session_code paid_pending_service = 1
session_code closed = 2
session_code expired = 3

abbrev pub same_session_status : SessionStatus → SessionStatus → Bool
same_session_status a b = session_code a == session_code b

-- `ACTIVE_ORDER_STATUSES`
abbrev pub active_order_statuses : List OrderStatus
active_order_statuses = new ∷ accepted ∷ preparing ∷ ready ∷ []

-- The statuses that a customer can see, and those of a session that goes on.
abbrev pub is_live : SessionStatus → Bool
is_live active = true
is_live paid_pending_service = true
is_live closed = false
is_live expired = false
