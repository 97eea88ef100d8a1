-- ===== src/Payment/Quantities.antt =====
-- The order items that a charge names (createItemBasedPayment of server/src/services/payment.ts).
use boardbite_pos.Prelude.{ℕ, ◌≡◌, true, is_id}
use boardbite_pos.Prelude.Int.{pos, ◌≤ℤ◌}
use boardbite_pos.Domain.Rows.{Item, Order, Allocation, Payment, Db}
use boardbite_pos.Billing.{is_billed, remaining_quantity}
use boardbite_pos.Payment.Items.{line_amount}

-- The item stands in an order of the session that is neither cancelled nor rejected.
abbrev Billed : ℕ → Order × Item → Type 0
Billed sid r = (is_id r.0.session_id sid ≡ true) × (is_billed r.0 ≡ true)

-- An allocation to such an item, at its price, and of no more pieces than are not paid for yet.
abbrev pub Covered : ℕ → Db → Allocation → Type 0
Covered sid db a =
    (r : Order × Item) × ((r.1.id ≡ a.order_item_id)
      × Billed sid r
      × (a.amount ≡ line_amount r.1 a.quantity)
      × (pos a.quantity ≤ℤ remaining_quantity r.1 db))
