-- ===== src/Examples/Bills.antt =====
-- Payments of the example shop.
use boardbite_pos.Prelude.{ℕ, ◌≡◌, refl, true, none, some, [], ◌∷◌, ◌++◌, ok, err, find, arith}
use boardbite_pos.Prelude.Int.{pos, ◌-ℤ◌, ◌≤ℤ◌}
use boardbite_pos.Domain.Key.{id, text}
use boardbite_pos.Domain.Status.{charge, void, discount}
use boardbite_pos.TableSession.Close.{no_change}
use boardbite_pos.Domain.Rows.{Payment, Db}
use boardbite_pos.Billing.{compute_bill, bill_of}
use boardbite_pos.Billing.Effects.{Fresh, Moves, with_payment}
use boardbite_pos.Payment.{
  PaymentInput, amount_mode, items_mode, amount_tx, assert_allowed, scope_key, find_key,
}
use boardbite_pos.Payment.Create.{
  payment_tx, create_payment, DiscountInput, discount_tx, replay, PaymentResult,
}
use boardbite_pos.Payment.Charge.{Collected, payment_tx_collects}
use boardbite_pos.Payment.Discounting.{discount_tx_covered}
use boardbite_pos.Payment.Replay.{create_payment_again}
use boardbite_pos.Payment.Reverse.{void_tx_takes_back, void_tx_once, void_tx-payment_tx}
use boardbite_pos.Payment.Void.{reversal_row, void_tx}
use boardbite_pos.Billing.{session_payments}
use boardbite_pos.Prelude.{map}
use boardbite_pos.Billing.Sale.{
  sale_payments, in_session, compute_counter_sale_ledger, compute_counter_sale_ledger-compute_bill,
}
use boardbite_pos.Examples.{order_10, session_1, card, shop}

abbrev tap : PaymentInput
tap = record {
  session_id = 1;
  client_key = text "k1";
  method_code = 2;
  mode = amount_mode;
  amount = some 4000;
  tendered = none;
  allocations = [];
  created_by = 3;
}

abbrev pub paid : Payment
paid = record {
  id = 900;
  session_id = some 1;
  sale_id = none;
  kind = charge;
  method = 2;
  amount = 4000;
  tendered = none;
  change = none;
  reversed_id = none;
  coupon_code = none;
  key = id 1 ∷ text ":k1";
  created_by = 3;
  allocations = [];
}

abbrev paid_shop : Db
paid_shop = with_payment paid shop

abbrev pub voided : Payment
voided = record {
  id = 901;
  session_id = some 1;
  sale_id = none;
  kind = void;
  method = 2;
  amount = 4000;
  tendered = none;
  change = none;
  reversed_id = some 900;
  coupon_code = none;
  key = id 1 ∷ text ":void:" ++ (id 900 ∷ []);
  created_by = 4;
  allocations = [];
}

abbrev voided_shop : Db
voided_shop = with_payment voided paid_shop

abbrev off : DiscountInput
off = record {
  session_id = 1;
  client_key = text "d1";
  amount = 5000;
  has_reason = true;
  created_by = 3;
}

abbrev taken_off : Payment
taken_off = record {
  id = 910;
  session_id = some 1;
  sale_id = none;
  kind = discount;
  method = 1;
  amount = 5000;
  tendered = none;
  change = none;
  reversed_id = none;
  coupon_code = none;
  key = id 1 ∷ text ":d1";
  created_by = 3;
  allocations = [];
}

abbrev done : PaymentResult
done = record {
  payment = paid;
  bill = compute_bill 1 paid_shop;
  settlement = no_change;
  after = paid_shop;
}

abbrev again : PaymentInput
again = record tap { amount = some 9000 }

paid_run : payment_tx 900 tap card shop ≡ ok (paid, paid_shop)
unfolding payment_tx amount_tx assert_allowed compute_bill bill_of ◌-ℤ◌
    boardbite_pos.Prelude.Int.◌+ℤ◌ boardbite_pos.Billing.ledger_from
    boardbite_pos.Billing.orders_total boardbite_pos.Billing.order_total
    boardbite_pos.Billing.item_total scope_key
paid_run = refl

payment_tx_collects_example : Collected 1 paid shop paid_shop
payment_tx_collects_example = payment_tx_collects 900 tap card shop tt paid_run

void_key : find_key (reversal_row 901 4 session_1 paid).key paid_shop.payments ≡ none
unfolding reversal_row boardbite_pos.Domain.Key.key_eq scope_key
void_key = refl

void_run : void_tx 901 4 session_1 paid paid_shop ≡ ok (voided, voided_shop)
unfolding void_tx boardbite_pos.Domain.Key.key_eq scope_key
void_run = refl

-- The orders are gone by then.
abbrev later_shop : Db
later_shop = record voided_shop { orders = [] }

second_run : void_tx 902 5 session_1 paid later_shop ≡ ok (voided, later_shop)
unfolding void_tx boardbite_pos.Domain.Key.key_eq scope_key
second_run = refl

fresh_901 : Fresh 901 paid_shop.payments
fresh_901 = (((λ e. absurd (omega (arith, e))), refl), tt)

void_tx_takes_back_example :
    Moves (pos 0 -ℤ pos 4000) (pos 0) (compute_bill 1 paid_shop) (compute_bill 1 voided_shop)
void_tx_takes_back_example =
    void_tx_takes_back 901 4 session_1 paid paid_shop void_key void_run fresh_901
      (λ e. absurd (omega (arith, e))) refl refl

void_tx_once_example : later_shop ≡ later_shop
void_tx_once_example =
    void_tx_once 901 902 4 5 session_1 session_1 paid paid_shop later_shop void_key void_run refl
      second_run

void_tx-payment_tx_example : compute_bill 1 voided_shop ≡ compute_bill 1 shop
void_tx-payment_tx_example =
    void_tx-payment_tx 900 901 4 tap card session_1 shop tt refl paid_run fresh_901 void_key
      void_run

done_run : create_payment 900 20 tap shop shop ≡ ok done
unfolding create_payment amount_tx assert_allowed compute_bill bill_of ◌-ℤ◌
    boardbite_pos.Prelude.Int.◌+ℤ◌ boardbite_pos.Billing.ledger_from
    boardbite_pos.Billing.orders_total boardbite_pos.Billing.order_total
    boardbite_pos.Billing.item_total scope_key boardbite_pos.TableSession.Close.auto_settle
done_run = refl

same_key : scope_key again.session_id again.client_key ≡ scope_key tap.session_id tap.client_key
same_key = refl

create_payment_again_example :
    create_payment 905 30 again paid_shop paid_shop ≡ ok (replay 1 paid paid_shop)
create_payment_again_example =
    create_payment_again 900 905 20 30 tap again shop tt same_key done_run

off_run : discount_tx 910 off shop ≡ ok (taken_off, with_payment taken_off shop)
unfolding discount_tx assert_allowed compute_bill bill_of ◌-ℤ◌ boardbite_pos.Prelude.Int.◌+ℤ◌
    boardbite_pos.Billing.ledger_from boardbite_pos.Billing.orders_total
    boardbite_pos.Billing.order_total boardbite_pos.Billing.item_total scope_key
off_run = refl

discount_tx_covered_example :
    Moves (pos 0) (pos 5000) (compute_bill 1 shop) (compute_bill 1 (with_payment taken_off shop))
    × (pos 0 ≤ℤ (compute_bill 1 (with_payment taken_off shop)).remaining)
discount_tx_covered_example = discount_tx_covered 910 off shop tt off_run

-- A counter sale of the same orders, with the same payment.
abbrev sold : Db
sold = record shop {
  orders = record order_10 { session_id = none; sale_id = some 9 } ∷ [];
  payments = record paid { session_id = none; sale_id = some 9 } ∷ [];
}

same_payments : session_payments 1 paid_shop ≡ map (in_session 1) (sale_payments 9 sold)
same_payments = refl

same_total : (compute_counter_sale_ledger 9 sold).order_amount ≡ (compute_bill 1 paid_shop).total
unfolding compute_bill compute_counter_sale_ledger bill_of boardbite_pos.Billing.orders_total
    boardbite_pos.Billing.order_total
same_total = refl

compute_counter_sale_ledger-compute_bill_example :
    ((compute_counter_sale_ledger 9 sold).net_charged_amount ≡ (compute_bill 1 paid_shop).charged)
    × ((compute_counter_sale_ledger 9 sold).discount_amount ≡ (compute_bill 1 paid_shop).discounted)
    × ((compute_counter_sale_ledger 9 sold).remaining_amount ≡ (compute_bill 1 paid_shop).remaining)
compute_counter_sale_ledger-compute_bill_example =
    compute_counter_sale_ledger-compute_bill 9 1 sold paid_shop same_payments same_total

-- One of the two coffees, paid for by name.
abbrev one_coffee : PaymentInput
one_coffee = record tap {
  client_key = text "k2";
  mode = items_mode;
  amount = none;
  allocations = record { order_item_id = 100; quantity = 1 } ∷ [];
}

abbrev coffee_paid : Payment
coffee_paid = record paid {
  id = 920;
  amount = 4500;
  key = id 1 ∷ text ":k2";
  allocations = record { order_item_id = 100; quantity = 1; amount = 4500 } ∷ [];
}
