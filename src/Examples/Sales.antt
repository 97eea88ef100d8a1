-- ===== src/Examples/Sales.antt =====
-- Counter sales and coupons of the example shop.
use boardbite_pos.Prelude.{
  ℕ, ◌+◌, ◌≡◌, ◌<◌, refl, true, false, none, some, List, [], ◌∷◌, arith, map, Result, ok, err, ◌==◌,
  if◌then◌else◌, sum_by,
}
use boardbite_pos.Prelude.Int.{pos, ◌≤ℤ◌}
use boardbite_pos.Domain.Key.{id, text}
use boardbite_pos.Domain.Rows.{Payment}
use boardbite_pos.Billing.{compute_bill}
use boardbite_pos.Billing.Effects.{Moves}
use boardbite_pos.Billing.Sale.{compute_counter_sale_ledger}
use boardbite_pos.Menu.{MenuItem, both_channels, Catalog}
use boardbite_pos.Coupon.{Coupon, Batch, Book, available, amount_off}
use boardbite_pos.CounterSale.{
  CounterSale, sale_completed, Shop, SaleError, Cart, ConfirmInput, scope_counter_key,
}
use boardbite_pos.CounterSale.Quote.{Quote, quote_counter_sale}
use boardbite_pos.CounterSale.Confirm.{
  Sha, SaleIds, or_zero, request_hash, confirm_tx, Confirmed, confirm_counter_sale,
}
use boardbite_pos.CounterSale.Settled.{FreshSale, IsSettled, confirm_tx_settles}
use boardbite_pos.CounterSale.Once.{confirm_counter_sale_again}
use boardbite_pos.CounterSale.Cancel.{cancel_sale_tx}
use boardbite_pos.CounterSale.Cancelled.{Unreversed, IsUndone, cancel_sale_tx_undoes}
use boardbite_pos.TableCoupon.{ApplyInput, apply_tx}
use boardbite_pos.TableCoupon.Covered.{apply_tx_covered}
use boardbite_pos.Redemption.{
  Steps, done, then_step, confirm, cancel_sale, RedeemedOnce, Steps-RedeemedOnce,
}
use boardbite_pos.Examples.{shop}
use boardbite_pos.Examples.Bills.{paid}

abbrev udon : MenuItem
udon = record {
  id = 50;
  price = 8000;
  is_active = true;
  is_deleted = false;
  channel = both_channels;
  needs_cooking = true;
  show_in_kitchen = true;
  own_sold_out = false;
  stock = none;
  groups = [];
}

-- What the counter hands over at once.
abbrev roulette : MenuItem
roulette = record {
  id = 51;
  price = 3000;
  is_active = true;
  is_deleted = false;
  channel = both_channels;
  needs_cooking = false;
  show_in_kitchen = false;
  own_sold_out = false;
  stock = none;
  groups = [];
}

abbrev menu : Catalog
menu = record { items = udon ∷ roulette ∷ []; choices = [] }

abbrev coupon_7 : Coupon
coupon_7 = record {
  id = 70;
  batch_id = 80;
  code = 7;
  status = available;
  used_at = none;
  cancelled_at = none;
}

abbrev batch_80 : Batch
batch_80 = record {
  id = 80;
  benefit = amount_off 5000;
  issued_count = 1;
  expires_at = none;
  key = text "b";
}

abbrev open_shop : Shop
open_shop = record {
  db = shop;
  book = record { batches = batch_80 ∷ []; coupons = coupon_7 ∷ []; menu = 50 ∷ 51 ∷ [] };
  sales = [];
}

abbrev ids : SaleIds
ids = record {
  sale = 500;
  kitchen_order = 501;
  counter_order = 502;
  discount = 601;
  charge = 602;
  item = λ n. 700 + n;
}

abbrev sha : Sha
sha = record { of_quote = λ q. q.total_amount; of_request = λ r. or_zero r.method_code }

abbrev two_udon : Cart
two_udon = record {
  items =
      record { menu_item_id = 50; quantity = 2; option_choice_ids = [] }
      ∷ record { menu_item_id = 51; quantity = 1; option_choice_ids = [] }
      ∷ [];
  coupon_code = some 7;
  coupon_target = none;
}

abbrev by_card : ConfirmInput
by_card = record {
  cart = two_udon;
  client_key = text "k";
  method_code = some 2;
  tendered = none;
  expected_hash = some 14000;
  staff_id = 3;
}

abbrev sale_500 : CounterSale
sale_500 = record {
  id = 500;
  sale_no = 1;
  status = sale_completed;
  created_by = 3;
  key = scope_counter_key 3 (text "k");
  request_hash = 2;
  cancelled_at = none;
}

abbrev shop_of : Result SaleError (CounterSale × Shop) → Shop
shop_of (ok r) = r.1
shop_of (err e) = open_shop

after_sale : Shop
unfolding confirm_tx
after_sale = shop_of (confirm_tx ids sha 10 11 by_card menu open_shop)

sale_run : confirm_tx ids sha 10 11 by_card menu open_shop ≡ ok (sale_500, after_sale)
unfolding confirm_tx after_sale boardbite_pos.CounterSale.Confirm.operations_off quote_counter_sale
    boardbite_pos.Order.Lines.resolve_order_lines boardbite_pos.CounterSale.normalize_cart
    boardbite_pos.Menu.channel_allows boardbite_pos.Coupon.normalize_coupon_code
    boardbite_pos.Coupon.assert_redeemable boardbite_pos.CounterSale.compute_coupon_discount
    boardbite_pos.Allocation.allocate_proportional boardbite_pos.CounterSale.Quote.hashed_quote
    boardbite_pos.Menu.serving_mode_of boardbite_pos.Domain.Key.key_eq scope_counter_key
    boardbite_pos.Coupon.consume_coupon
sale_run = refl

fresh_sale : FreshSale 500 shop
fresh_sale = ((refl, tt), tt)

confirm_tx_settles_example :
    (q : Quote) × (quote_counter_sale 10 two_udon menu open_shop.book ≡ ok q)
    × IsSettled q (compute_counter_sale_ledger 500 after_sale.db)
confirm_tx_settles_example =
    confirm_tx_settles ids sha 10 11 by_card menu open_shop fresh_sale sale_run

confirmed : Confirmed
unfolding after_sale
confirmed = record { sale = sale_500; reused = false; after = after_sale }

confirmed_run : confirm_counter_sale ids sha 10 11 by_card menu open_shop open_shop ≡ ok confirmed
unfolding confirm_counter_sale confirmed boardbite_pos.CounterSale.Confirm.operations_off
    quote_counter_sale boardbite_pos.Order.Lines.resolve_order_lines
    boardbite_pos.CounterSale.normalize_cart boardbite_pos.Menu.channel_allows
    boardbite_pos.Coupon.normalize_coupon_code boardbite_pos.Coupon.assert_redeemable
    boardbite_pos.CounterSale.compute_coupon_discount boardbite_pos.Allocation.allocate_proportional
    boardbite_pos.CounterSale.Quote.hashed_quote boardbite_pos.Menu.serving_mode_of
    boardbite_pos.Domain.Key.key_eq scope_counter_key boardbite_pos.Coupon.consume_coupon
confirmed_run = refl

-- The same key with another method of payment.
abbrev by_cash : ConfirmInput
by_cash = record by_card { method_code = some 1; tendered = some 20000 }

confirm_counter_sale_again_example :
    confirm_counter_sale ids sha 20 21 by_cash menu confirmed.after confirmed.after ≡ (
      if request_hash sha by_card == request_hash sha by_cash
      then ok (record { sale = confirmed.sale; reused = true; after = confirmed.after })
      else err boardbite_pos.CounterSale.idempotency_conflict)
confirm_counter_sale_again_example =
    confirm_counter_sale_again ids ids sha 10 20 11 21 by_card by_cash menu menu open_shop refl
      confirmed_run

abbrev refund_ids : ℕ → ℕ
refund_ids n = 800 + n

shop_after : Result SaleError Shop → Shop
shop_after (ok s) = s
shop_after (err e) = open_shop

after_cancel : Shop
unfolding cancel_sale_tx
after_cancel = shop_after (cancel_sale_tx 30 500 3 refund_ids after_sale)

cancel_run : cancel_sale_tx 30 500 3 refund_ids after_sale ≡ ok after_cancel
unfolding cancel_sale_tx after_cancel after_sale boardbite_pos.CounterSale.Confirm.operations_off
    quote_counter_sale boardbite_pos.Order.Lines.resolve_order_lines
    boardbite_pos.CounterSale.normalize_cart boardbite_pos.Menu.channel_allows
    boardbite_pos.Coupon.normalize_coupon_code boardbite_pos.Coupon.assert_redeemable
    boardbite_pos.CounterSale.compute_coupon_discount boardbite_pos.Allocation.allocate_proportional
    boardbite_pos.CounterSale.Quote.hashed_quote boardbite_pos.Menu.serving_mode_of
    boardbite_pos.Domain.Key.key_eq scope_counter_key boardbite_pos.Coupon.consume_coupon shop_after
cancel_run = refl

unreversed : Unreversed 500 refund_ids after_sale.db
unfolding after_sale boardbite_pos.CounterSale.Confirm.operations_off quote_counter_sale
    boardbite_pos.Order.Lines.resolve_order_lines boardbite_pos.CounterSale.normalize_cart
    boardbite_pos.Menu.channel_allows boardbite_pos.Coupon.normalize_coupon_code
    boardbite_pos.Coupon.assert_redeemable boardbite_pos.CounterSale.compute_coupon_discount
    boardbite_pos.Allocation.allocate_proportional boardbite_pos.CounterSale.Quote.hashed_quote
    boardbite_pos.Menu.serving_mode_of boardbite_pos.Domain.Key.key_eq scope_counter_key
    boardbite_pos.Coupon.consume_coupon
unreversed = record {
  kinds = (refl, (refl, tt));
  unreversed = (refl, (refl, tt));
  apart = ((omega arith, tt), (tt, tt));
  new_ids = (λ k. omega arith, (λ k. omega arith, tt));
}

cancel_sale_tx_undoes_example : IsUndone 500 after_sale after_cancel
cancel_sale_tx_undoes_example =
    cancel_sale_tx_undoes 30 500 3 refund_ids after_sale unreversed cancel_run

trade : Steps open_shop after_cancel
trade =
    then_step (then_step done (confirm ids sha 10 11 by_card menu sale_run))
      (cancel_sale 30 500 3 refund_ids cancel_run)

none_redeemed : RedeemedOnce [] (coupon_7 ∷ [])
none_redeemed = record { spent = tt; once = tt; one_each = λ sid. omega arith }

Steps-RedeemedOnce_example : RedeemedOnce after_cancel.db.redemptions after_cancel.book.coupons
Steps-RedeemedOnce_example = Steps-RedeemedOnce trade none_redeemed

abbrev at_table : ApplyInput
at_table = record {
  session_id = 1;
  code = 7;
  target_item_id = none;
  client_key = text "c";
  staff_id = 3;
}

abbrev row_of : Result boardbite_pos.TableCoupon.TableCouponError (Payment × Shop) → Payment × Shop
row_of (ok r) = r
row_of (err e) = (paid, open_shop)

couponed : Payment × Shop
unfolding apply_tx
couponed = row_of (apply_tx 900 40 at_table open_shop)

coupon_run : apply_tx 900 40 at_table open_shop ≡ ok couponed
unfolding apply_tx couponed boardbite_pos.Payment.is_locked
    boardbite_pos.Coupon.normalize_coupon_code boardbite_pos.CounterSale.Quote.find_coupon_by_code
    boardbite_pos.Coupon.assert_redeemable compute_bill boardbite_pos.Billing.bill_of
    boardbite_pos.Prelude.Int.◌-ℤ◌ boardbite_pos.Prelude.Int.◌+ℤ◌ boardbite_pos.Billing.ledger_from
    boardbite_pos.Billing.orders_total boardbite_pos.Billing.order_total
    boardbite_pos.Billing.item_total boardbite_pos.Coupon.consume_coupon
    boardbite_pos.Allocation.allocate_proportional
coupon_run = refl

apply_tx_covered_example :
    (0 < couponed.0.amount)
    × Moves (pos 0) (pos couponed.0.amount) (compute_bill 1 shop) (compute_bill 1 couponed.1.db)
    × (pos 0 ≤ℤ (compute_bill 1 couponed.1.db).remaining)
apply_tx_covered_example = apply_tx_covered 900 40 at_table open_shop tt coupon_run
