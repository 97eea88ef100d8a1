-- ===== src/CounterSale/Settled.antt =====
-- The ledger of a counter sale that has just been confirmed (server/src/services/counterSale.ts,
-- computeCounterSaleLedger of server/src/services/billing.ts).
use boardbite_pos.Prelude.{
  ℕ, ◌+◌, ◌≡◌, refl, sym, ap, ◌∙◌, false, Option, none, some, List, [], ◌∷◌, ◌++◌, arith, ==_iff,
  filter, sum_by, All, filter_none, All-filter, All_of-map, ok, is_id,
}
use boardbite_pos.Prelude.Int.{pos, ◌+ℤ◌, ◌-ℤ◌, int_laws}
use boardbite_pos.Domain.Key.{Key}
use boardbite_pos.Domain.Rows.{ServingMode, kitchen, counter, Order, Payment, PaymentMethod, Db}
use boardbite_pos.Billing.{item_total, order_total, orders_total}
use boardbite_pos.Billing.Sale.{
  SaleSums, add_sale_payment, sums_from, no_sums, SaleLedger, sale_ledger_of,
  compute_counter_sale_ledger,
}
use boardbite_pos.Menu.{Catalog}
use boardbite_pos.Order.Creation.{Priced}
use boardbite_pos.Coupon.{Coupon}
use boardbite_pos.CounterSale.{CounterSale, Shop, ConfirmInput}
use boardbite_pos.CounterSale.Quote.{Applied, QuoteLine, Quote, given_of, quote_counter_sale}
use boardbite_pos.CounterSale.Quoted.{quote_counter_sale_ok}
use boardbite_pos.CounterSale.Confirm.{
  Sha, SaleIds, sale_item, mode_order, lines_in, same_mode, confirm_tx, new_sale, charge_of,
  discount_of,
}
use boardbite_pos.CounterSale.Written.{
  made_order, discount_rows, charge_rows, MethodFits, sold, confirm_tx_ok,
}

-- No order and no payment has this sale yet.
abbrev pub FreshSale : ℕ → Db → Type 0
FreshSale k db =
    All (λ o. is_id o.sale_id k ≡ false) db.orders
    × All (λ p. is_id p.sale_id k ≡ false) db.payments

others_total :
    (k : ℕ) (os : List Order)
    → All (λ o. is_id o.sale_id k ≡ false) os
    → orders_total (λ o. is_id o.sale_id k) os ≡ 0
unfolding orders_total
others_total k [] h = refl
others_total k (o ∷ os) h = rw h.0 (others_total k os h.1)

abbrev line_sum : List QuoteLine → ℕ
line_sum qs = sum_by (λ q. q.line.line_total) qs

mode_order_total :
    (ids : SaleIds) (now : ℕ) (key : Key) (mode : ServingMode) (qs : List QuoteLine)
    → All (λ q. Priced q.line) qs
    → order_total (mode_order ids now key mode qs) ≡ line_sum qs
unfolding order_total mode_order sale_item item_total
mode_order_total ids now key mode [] h = refl
mode_order_total ids now key mode (q ∷ qs) h =
    rw (mode_order_total ids now key mode qs h.1) (ap (λ t. t + line_sum qs) (sym h.0.0))

made_order_total :
    (ids : SaleIds) (now : ℕ) (key : Key) (mode : ServingMode) (qs : List QuoteLine)
    (os : List Order)
    → All (λ q. Priced q.line) qs
    → orders_total
        (λ o. is_id o.sale_id ids.sale)
        (made_order (mode_order ids now key mode qs) ++ os)
      ≡ line_sum qs + orders_total (λ o. is_id o.sale_id ids.sale) os
unfolding orders_total mode_order
made_order_total ids now key mode [] os h = omega arith
made_order_total ids now key kitchen (q ∷ qs) os h =
    rw ((==_iff ids.sale ids.sale).1 refl, mode_order_total ids now key kitchen (q ∷ qs) h) refl
made_order_total ids now key counter (q ∷ qs) os h =
    rw ((==_iff ids.sale ids.sale).1 refl, mode_order_total ids now key counter (q ∷ qs) h) refl

-- Each line is in one of the two orders.
both_modes :
    (qs : List QuoteLine)
    → line_sum (lines_in counter qs) + line_sum (lines_in kitchen qs) ≡ line_sum qs
both_modes [] = refl
both_modes (q ∷ qs) = go q.line.serving_mode refl (both_modes qs)
  where
    go :
        (m : ServingMode)
        → q.line.serving_mode ≡ m
        → line_sum (lines_in counter qs) + line_sum (lines_in kitchen qs) ≡ line_sum qs
        → line_sum (lines_in counter (q ∷ qs)) + line_sum (lines_in kitchen (q ∷ qs))
          ≡ line_sum (q ∷ qs)
    go kitchen e rest = simp e (omega (arith, rest))
    go counter e rest = simp e (omega (arith, rest))

-- What the orders of the sale come to.
orders_of_sale :
    (ids : SaleIds) (now : ℕ) (input : ConfirmInput) (q : Quote) (method : Option PaymentMethod)
    (sale : CounterSale) (shop : Shop) (coupons : List Coupon)
    → FreshSale ids.sale shop.db
    → All (λ x. Priced x.line) q.lines
    → orders_total
        (λ o. is_id o.sale_id ids.sale)
        (sold ids now input q method sale shop coupons).db.orders
      ≡ line_sum q.lines
orders_of_sale ids now input q method sale shop coupons fresh priced =
    let cooked =
      All-filter (λ x. same_mode x.line.serving_mode kitchen) (λ x. Priced x.line) q.lines priced in
    let handed =
      All-filter (λ x. same_mode x.line.serving_mode counter) (λ x. Priced x.line) q.lines priced in
    omega (
      arith,
      made_order_total ids now sale.key counter (lines_in counter q.lines)
          (made_order (mode_order ids now sale.key kitchen (lines_in kitchen q.lines))
            ++ shop.db.orders)
          handed,
      made_order_total ids now sale.key kitchen (lines_in kitchen q.lines) shop.db.orders cooked,
      others_total ids.sale shop.db.orders fresh.0,
      both_modes q.lines,
    )

-- The payments of the sale are its charge and its discount.
payments_of_sale :
    (ids : SaleIds) (input : ConfirmInput) (q : Quote) (method : Option PaymentMethod)
    (c : Option Applied) (ps : List Payment)
    → All (λ p. is_id p.sale_id ids.sale ≡ false) ps
    → filter
        (λ p. is_id p.sale_id ids.sale)
        (charge_rows ids input q method ++ (discount_rows ids input q c ++ ps))
      ≡ charge_rows ids input q method ++ discount_rows ids input q c
unfolding charge_of discount_of
payments_of_sale ids input q none none ps h = filter_none (λ p. is_id p.sale_id ids.sale) ps h
payments_of_sale ids input q none (some a) ps h =
    rw ((==_iff ids.sale ids.sale).1 refl)
      (rw (filter_none (λ p. is_id p.sale_id ids.sale) ps h) refl)
payments_of_sale ids input q (some m) none ps h =
    rw ((==_iff ids.sale ids.sale).1 refl)
      (rw (filter_none (λ p. is_id p.sale_id ids.sale) ps h) refl)
payments_of_sale ids input q (some m) (some a) ps h =
    rw ((==_iff ids.sale ids.sale).1 refl)
      (rw (filter_none (λ p. is_id p.sale_id ids.sale) ps h) refl)

-- Everything that was ordered is discounted or charged, and nothing is left to pay.
pub record IsSettled (q : Quote) (l : SaleLedger) : Type 0 where
  pub ordered : l.order_amount ≡ q.subtotal
  pub discounted : l.discount_amount ≡ pos q.discount_amount
  pub by_coupon : l.coupon_discount_amount ≡ pos q.discount_amount
  pub charged : l.gross_charged_amount ≡ q.total_amount
  pub nothing_refunded : l.refunded_amount ≡ 0
  pub net : l.net_charged_amount ≡ pos q.total_amount
  pub nothing_left : l.remaining_amount ≡ pos 0

added : (n : ℕ) → pos 0 +ℤ pos n ≡ pos n
added n = omega int_laws

taken : (n : ℕ) → pos n -ℤ pos 0 ≡ pos n
taken n = omega int_laws

nothing_remains : (t d s : ℕ) → t + d ≡ s → pos s -ℤ pos d -ℤ pos t ≡ pos 0
nothing_remains t d s h = rw (sym h) (go t d)
  where
    go : (t d : ℕ) → pos (t + d) -ℤ pos d -ℤ pos t ≡ pos 0
    go t d = omega int_laws

sale_by_sums :
    (q : Quote) (s : SaleSums)
    → s.gross ≡ q.total_amount
    → s.refunded ≡ 0
    → s.discounted ≡ pos q.discount_amount
    → s.coupon ≡ pos q.discount_amount
    → q.total_amount + q.discount_amount ≡ q.subtotal
    → IsSettled q (sale_ledger_of q.subtotal s)
unfolding sale_ledger_of
sale_by_sums q s g r d c t = record {
  ordered = refl;
  discounted = d;
  by_coupon = c;
  charged = g;
  nothing_refunded = r;
  net = rw (g, r) (taken q.total_amount);
  nothing_left =
      rw (g, r, d, taken q.total_amount)
        (nothing_remains q.total_amount q.discount_amount q.subtotal t);
}

-- The sums of the two rows, whichever of them there are.
rows_settle :
    (ids : SaleIds) (input : ConfirmInput) (q : Quote) (method : Option PaymentMethod)
    (c : Option Applied)
    → MethodFits q.total_amount method
    → q.discount_amount ≡ (given_of c).discount
    → q.total_amount + q.discount_amount ≡ q.subtotal
    → (all : List Payment)
    → IsSettled q (
        sale_ledger_of q.subtotal
          (sums_from all no_sums (charge_rows ids input q method ++ discount_rows ids input q c)))
unfolding sums_from add_sale_payment charge_of discount_of
rows_settle ids input q none none nothing d t all =
    sale_by_sums q _ (sym nothing) refl (ap pos (sym d)) (ap pos (sym d)) t
rows_settle ids input q none (some a) nothing d t all =
    sale_by_sums q _ (sym nothing) refl (added _ ∙ ap pos (sym d)) (added _ ∙ ap pos (sym d)) t
rows_settle ids input q (some m) none some_of d t all =
    sale_by_sums q _ (omega arith) refl (ap pos (sym d)) (ap pos (sym d)) t
rows_settle ids input q (some m) (some a) some_of d t all =
    sale_by_sums q _ (omega arith) refl (added _ ∙ ap pos (sym d)) (added _ ∙ ap pos (sym d)) t

-- A counter sale that the transaction of confirmCounterSale writes, under a sale id that no order
-- and no payment has, owes by computeCounterSaleLedger exactly what its quote says: its orders
-- come to the subtotal, the discount (all of it by coupon) and the charge are those of the quote,
-- nothing is refunded and nothing is left to pay.
pub confirm_tx_settles :
    (ids : SaleIds) (sha : Sha) (quoted now : ℕ) (input : ConfirmInput) (catalog : Catalog)
    (shop : Shop) {sale : CounterSale} {after : Shop}
    → FreshSale ids.sale shop.db
    → confirm_tx ids sha quoted now input catalog shop ≡ ok (sale, after)
    → (q : Quote) × (quote_counter_sale quoted input.cart catalog shop.book ≡ ok q)
      × IsSettled q (compute_counter_sale_ledger sale.id after.db)
unfolding compute_counter_sale_ledger new_sale
confirm_tx_settles ids sha quoted now input catalog shop {sale} {after} fresh e =
    let (q, method, coupons, quote, fits, consumed, sale_is, after_is) =
      confirm_tx_ok ids sha quoted now input catalog shop e in
    let (lines, c, applied, is_quote) =
      quote_counter_sale_ok quoted input.cart catalog shop.book quote in
    let id_is : sale.id ≡ ids.sale = ap (λ (s : CounterSale). s.id) sale_is in
    let priced = All_of-map Priced (λ x. x.line) q.lines (rw is_quote.lines_are is_quote.priced) in
    let ordered = orders_of_sale ids now input q method sale shop coupons fresh priced in
    let paid = payments_of_sale ids input q method q.coupon shop.db.payments fresh.1 in
    let amount : q.discount_amount ≡ (given_of q.coupon).discount =
      rw is_quote.coupon_is is_quote.discount_is in
    (
      q,
      quote,
      rw (id_is, after_is, ordered, is_quote.subtotal, paid)
          (rows_settle ids input q method q.coupon fits amount is_quote.total _),
    )
