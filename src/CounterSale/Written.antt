-- ===== src/CounterSale/Written.antt =====
-- What the transaction of confirmCounterSale (server/src/services/counterSale.ts) writes.
use mathlib.Core.Path.{subst}
use boardbite_pos.Prelude.{
  ℕ, ◌≡◌, refl, sym, ap, ◌∙◌, inl, inr, Bool-cases, Option-cases, true, ◌||◌, Option, none, some,
  List, [], ◌∷◌, ◌++◌, arith, ltb, ◌==◌, any, ok, both_ok, throw_if_ok, ok_inj, map_err, map_err_ok,
  or_throw, not, find, ◌&&◌,
}
use boardbite_pos.Domain.Key.{Key, key_eq}
use boardbite_pos.Domain.Rows.{
  kitchen, counter, Item, Order, Payment, PaymentMethod, Redemption, Db,
}
use boardbite_pos.Menu.{Catalog}
use boardbite_pos.Coupon.{Coupon, assert_redeemable, consume_coupon}
use boardbite_pos.CounterSale.{
  CounterSale, Shop, operations_disabled, quote_stale, unique_violation, coupon_error,
  method_required, method_invalid, tender_insufficient, ConfirmInput,
}
use boardbite_pos.CounterSale.Quote.{Applied, QuoteLine, Quote, quote_counter_sale, hashed_quote}
use boardbite_pos.CounterSale.Confirm.{
  Sha, SaleIds, is_stale, check_method, new_sale, mode_order, lines_in, add_order, add_orders,
  add_payment_row, new_redemption, discount_of, redeem, charge_of, collect, operations_off,
  confirm_tx, or_zero,
}

-- The order, where it has an item.
abbrev pub if_any : List Item → Order → List Order
if_any [] o = []
if_any (i ∷ is) o = o ∷ []

abbrev pub made_order : Order → List Order
made_order o = if_any o.items o

abbrev pub discount_rows : SaleIds → ConfirmInput → Quote → Option Applied → List Payment
discount_rows ids input q none = []
discount_rows ids input q (some a) = discount_of ids input q a ∷ []

abbrev pub charge_rows : SaleIds → ConfirmInput → Quote → Option PaymentMethod → List Payment
charge_rows ids input q none = []
charge_rows ids input q (some m) = charge_of ids input q m ∷ []

abbrev pub redemption_rows : SaleIds → Quote → Option Applied → List Redemption
redemption_rows ids q none = []
redemption_rows ids q (some a) = new_redemption ids q a ∷ []

-- The coupons after the sale.
abbrev pub Consumed : ℕ → Option Applied → List Coupon → List Coupon → Type 0
Consumed now none before after = after ≡ before
Consumed now (some a) before after = consume_coupon a.coupon.id now before ≡ ok after

add_order_ok :
    (o : Order) (db : Db) {db' : Db}
    → add_order o db ≡ ok db'
    → db' ≡ record db { orders = made_order o ++ db.orders }
unfolding add_order
add_order_ok o db {db'} e = go o.items refl
  where
    go : (is : List Item) → o.items ≡ is → db' ≡ record db { orders = made_order o ++ db.orders }
    go [] h =
        subst (λ t. db' ≡ record db { orders = if_any t o ++ db.orders }) (sym h)
          (sym (ok_inj _ refl (rw (add_order, h) at e)))
    go (i ∷ is) h =
        let (new_key, e1) =
          throw_if_ok (any (λ p. key_eq p.key o.key) db.orders) unique_violation _
            (rw (add_order, h) at e) in
        subst (λ t. db' ≡ record db { orders = if_any t o ++ db.orders }) (sym h)
          (sym (ok_inj _ refl e1))

pub add_payment_row_ok :
    (p : Payment) (db : Db) {db' : Db}
    → add_payment_row p db ≡ ok db'
    → db' ≡ record db { payments = p ∷ db.payments }
unfolding add_payment_row
add_payment_row_ok p db e =
    sym (
      ok_inj _ refl
        (throw_if_ok (any (λ q. key_eq q.key p.key) db.payments) unique_violation _ e).1)

-- The shop after a sale, written out.
abbrev pub sold :
    SaleIds
    → ℕ
    → ConfirmInput
    → Quote
    → Option PaymentMethod
    → CounterSale
    → Shop
    → List Coupon
    → Shop
sold ids now input q method sale shop coupons = record {
  db = record shop.db {
    orders =
        made_order (mode_order ids now sale.key counter (lines_in counter q.lines))
        ++ (made_order (mode_order ids now sale.key kitchen (lines_in kitchen q.lines))
            ++ shop.db.orders);
    payments =
        charge_rows ids input q method ++ (discount_rows ids input q q.coupon ++ shop.db.payments);
    redemptions = redemption_rows ids q q.coupon ++ shop.db.redemptions;
  };
  book = record shop.book { coupons = coupons };
  sales = sale ∷ shop.sales;
}

add_orders_ok :
    (ids : SaleIds) (now : ℕ) (key : Key) (lines : List QuoteLine) (db : Db) {db' : Db}
    → add_orders ids now key lines db ≡ ok db'
    → db' ≡ record db {
      orders =
          made_order (mode_order ids now key counter (lines_in counter lines))
          ++ (made_order (mode_order ids now key kitchen (lines_in kitchen lines)) ++ db.orders);
    }
unfolding add_orders
add_orders_ok ids now key lines db e =
    let (cooked, first, e1) = both_ok (add_order _ db) _ e in
    add_order_ok _ cooked e1
    ∙ ap
        (λ (d : Db). record d {
          orders = made_order (mode_order ids now key counter (lines_in counter lines)) ++ d.orders;
        })
        (add_order_ok _ db first)

redeem_ok :
    (ids : SaleIds) (now : ℕ) (input : ConfirmInput) (q : Quote) (shop : Shop) {after : Shop}
    → redeem ids now input q shop ≡ ok after
    → (coupons : List Coupon) × Consumed now q.coupon shop.book.coupons coupons
      × (after ≡ record shop {
        book = record shop.book { coupons = coupons };
        db = record shop.db {
          payments = discount_rows ids input q q.coupon ++ shop.db.payments;
          redemptions = redemption_rows ids q q.coupon ++ shop.db.redemptions;
        };
      })
unfolding redeem
redeem_ok ids now input q shop e = elim (Option-cases q.coupon) [
  | inl no_coupon ↦ (
    shop.book.coupons,
    rw no_coupon refl,
    rw no_coupon (sym (ok_inj _ refl (rw (redeem, no_coupon) at e))),
  )
  | inr (a, coupon) ↦
      let (t, usable, e1) =
        both_ok (map_err coupon_error (assert_redeemable a.coupon.status a.batch.expires_at now)) _
          (rw (redeem, coupon) at e) in
      let (coupons, consumed, e2) =
        both_ok (map_err coupon_error (consume_coupon a.coupon.id now shop.book.coupons)) _ e1 in
      let (db, written, e3) = both_ok (add_payment_row (discount_of ids input q a) _) _ e2 in
      (
        coupons,
        rw coupon (map_err_ok coupon_error _ consumed),
        rw coupon (
            sym (ok_inj _ refl e3)
            ∙ ap (λ (d : Db). record shop { db = d; book = record shop.book { coupons = coupons } })
                (add_payment_row_ok _ _ written)),
      )
]

collect_ok :
    (ids : SaleIds) (input : ConfirmInput) (q : Quote) (method : Option PaymentMethod) (shop : Shop)
    {after : Shop}
    → collect ids input q method shop ≡ ok after
    → after ≡ record shop {
      db = record shop.db { payments = charge_rows ids input q method ++ shop.db.payments };
    }
unfolding collect
collect_ok ids input q none shop e = sym (ok_inj _ refl e)
collect_ok ids input q (some m) shop e =
    let (db, written, e1) = both_ok (add_payment_row (charge_of ids input q m) shop.db) _ e in
    sym (ok_inj _ refl e1) ∙ ap (λ d. record shop { db = d }) (add_payment_row_ok _ _ written)

-- A method stands there exactly where something is to be paid.
abbrev pub MethodFits : ℕ → Option PaymentMethod → Type 0
MethodFits total none = total ≡ 0
MethodFits total (some m) = ltb 0 total ≡ true

check_method-Fits :
    (input : ConfirmInput) (total : ℕ) (db : Db) {method : Option PaymentMethod}
    → check_method input total db ≡ ok method
    → MethodFits total method
unfolding check_method
check_method-Fits input total db e = elim (Bool-cases (ltb 0 total)) [
  | inr nothing ↦ rw (sym (ok_inj _ refl (rw (check_method, nothing) at e))) (ground arith)
  | inl some_of ↦
      let (code, named, e1) =
        both_ok (or_throw input.method_code method_required) _ (rw (check_method, some_of) at e) in
      let (m, found, e2) =
        both_ok (or_throw (find (λ m. m.code == code) db.methods) method_invalid) _ e1 in
      let (usable, e3) = throw_if_ok (not m.is_active) method_invalid _ e2 in
      let (enough, e4) =
        throw_if_ok (m.is_cash && ltb (or_zero input.tendered) total) tender_insufficient _ e3 in
      rw (sym (ok_inj _ refl e4)) some_of
]

-- A sale that is confirmed has gone through its quote, and the rows after it are those of `sold`.
pub confirm_tx_ok :
    (ids : SaleIds) (sha : Sha) (quoted now : ℕ) (input : ConfirmInput) (catalog : Catalog)
    (shop : Shop) {sale : CounterSale} {after : Shop}
    → confirm_tx ids sha quoted now input catalog shop ≡ ok (sale, after)
    → (q : Quote) × (method : Option PaymentMethod) × (coupons : List Coupon) × (quote_counter_sale
          quoted input.cart catalog shop.book
        ≡ ok q)
      × MethodFits q.total_amount method
      × Consumed now q.coupon shop.book.coupons coupons
      × (sale ≡ new_sale ids sha input shop.sales)
      × (after ≡ sold ids now input q method sale shop coupons)
unfolding confirm_tx
confirm_tx_ok ids sha quoted now input catalog shop {sale} {after} e =
    let (on, e1) = throw_if_ok (operations_off shop.db.settings) operations_disabled _ e in
    let (q, quote, e2) = both_ok (quote_counter_sale quoted input.cart catalog shop.book) _ e1 in
    let (fresh, e3) =
      throw_if_ok (is_stale input.expected_hash (sha.of_quote (hashed_quote input.staff_id q)))
        quote_stale _ e2 in
    let (method, checked, e4) = both_ok (check_method input q.total_amount shop.db) _ e3 in
    let made = new_sale ids sha input shop.sales in
    let (alone, e5) =
      throw_if_ok (any (λ s. key_eq s.key made.key || s.sale_no == made.sale_no) shop.sales)
        unique_violation _ e4 in
    let (db, ordered, e6) = both_ok (add_orders ids now made.key q.lines shop.db) _ e5 in
    let (redeemed, used, e7) = both_ok (redeem ids now input q _) _ e6 in
    let (paid, collected, e8) = both_ok (collect ids input q method redeemed) _ e7 in
    let is : (made, paid) ≡ (sale, after) = ok_inj _ refl e8 in
    let (coupons, consumed, redeemed_is) = redeem_ok ids now input q _ used in
    let sale_is : sale ≡ made = sym (ap (λ r. r.0) is) in
    (
      q,
      method,
      coupons,
      quote,
      check_method-Fits input q.total_amount shop.db checked,
      consumed,
      sale_is,
      subst (λ k. after ≡ sold ids now input q method k shop coupons) (sym sale_is)
          (sym (ap (λ r. r.1) is)
            ∙ collect_ok ids input q method redeemed collected
            ∙ ap
                (λ (t : Shop). record t {
                  db = record t.db { payments = charge_rows ids input q method ++ t.db.payments };
                })
                redeemed_is
            ∙ ap
                (λ (d : Db). record {
                  db = record d {
                    payments =
                        charge_rows ids input q method
                        ++ (discount_rows ids input q q.coupon ++ d.payments);
                    redemptions = redemption_rows ids q q.coupon ++ d.redemptions;
                  };
                  book = record shop.book { coupons = coupons };
                  sales = made ∷ shop.sales;
                })
                (add_orders_ok ids now made.key q.lines shop.db ordered)),
    )
