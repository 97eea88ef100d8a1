-- ===== src/CounterSale/Cancelled.antt =====
-- What cancelCounterSale (server/src/services/counterSale.ts) leaves behind, and its repetition.
use mathlib.Core.Path.{subst}
use mathlib.Core.List.{append_assoc}
use boardbite_pos.Prelude.{
  ℕ, ◌≡◌, ◌≢◌, refl, sym, ap, ◌∙◌, inl, inr, Bool-cases, Bool, true, false, not, ◌&&◌, some, List,
  [], ◌∷◌, ◌++◌, arith, ◌==◌, ==_iff, filter, find, update, count, All, All-map, All-both, Distinct,
  filter-append, ok, err, both_ok, throw_if_ok, ok_inj, or_throw, ◌>>=◌, is_id, is_some,
}
use boardbite_pos.Prelude.Int.{pos, ◌+ℤ◌, ◌-ℤ◌, int_laws}
use boardbite_pos.Domain.Rows.{Order, Payment, Redemption, Db}
use boardbite_pos.Billing.{orders_total}
use boardbite_pos.Billing.Sale.{
  sums_from, sale_payments, no_sums, sale_ledger_of, compute_counter_sale_ledger,
}
use boardbite_pos.CounterSale.{
  CounterSale, sale_cancelled, Shop, reason_required, sale_not_found, already_cancelled,
}
use boardbite_pos.CounterSale.Confirm.{add_payment_row}
use boardbite_pos.CounterSale.Written.{add_payment_row_ok}
use boardbite_pos.CounterSale.Cancel.{
  is_completed, is_open_sale, is_reversible, is_reversed, refund_of, refund_each,
  cancel_sale_orders, cancel_sale_redemptions, cancel_sale_tx, cancel_counter_sale,
}
use boardbite_pos.CounterSale.Undone.{
  Found, refunds, refunds-Adds, originals-Adds, charged_in, minus, sums_from-append,
}

refund_each_ok :
    (sid staff : ℕ) (rids : ℕ → ℕ) (before ps : List Payment) (db : Db) {db' : Db}
    → All (λ p. is_reversed before p ≡ false) ps
    → refund_each sid staff rids before ps db ≡ ok db'
    → db' ≡ record db { payments = refunds sid staff rids ps ++ db.payments }
unfolding refund_each refunds
refund_each_ok sid staff rids before [] db h e = sym (ok_inj _ refl e)
refund_each_ok sid staff rids before (p ∷ ps) db h e =
    let row = refund_of sid staff (rids p.id) p in
    let (db1, written, e1) = both_ok (add_payment_row row db) _ (rw h.0 at e) in
    refund_each_ok sid staff rids before ps db1 h.1 e1
    ∙ ap (λ (d : Db). record d { payments = refunds sid staff rids ps ++ d.payments })
        (add_payment_row_ok row db written)
    ∙ ap (λ t. record db { payments = t })
        (sym (append_assoc (refunds sid staff rids ps) (row ∷ []) db.payments))

own_refunds :
    (sid staff : ℕ) (rids : ℕ → ℕ) (ps : List Payment)
    → filter (λ p. is_id p.sale_id sid) (refunds sid staff rids ps) ≡ refunds sid staff rids ps
unfolding refunds refund_of
own_refunds sid staff rids [] = refl
own_refunds sid staff rids (p ∷ ps) =
    rw
      (
        filter-append (λ p. is_id p.sale_id sid) (refunds sid staff rids ps)
            (refund_of sid staff (rids p.id) p ∷ []),
        own_refunds sid staff rids ps,
        (==_iff sid sid).1 refl,
      )
      refl

reversible_only :
    (own rev : Payment → Bool) (ps : List Payment)
    → All (λ p. rev p ≡ true) (filter own ps)
    → filter (λ p. own p && rev p) ps ≡ filter own ps
reversible_only own rev [] h = refl
reversible_only own rev (p ∷ ps) h = elim (Bool-cases (own p)) [
  | inl e ↦
      let (r, rest) : (rev p ≡ true) × All (λ p. rev p ≡ true) (filter own ps) = rw e at h in
      rw (e, r) (ap (λ t. p ∷ t) (reversible_only own rev ps rest))
  | inr e ↦ rw e (reversible_only own rev ps (rw e at h))
]

find_own : (ps : List Payment) → Distinct (λ p. p.id) ps → All (Found ps) ps
find_own [] d = tt
find_own (p ∷ ps) d = (
  rw ((==_iff p.id p.id).1 refl) refl,
  All-map (λ q. (q.id ≢ p.id) × Found ps q) (Found (p ∷ ps))
      (λ q h. let other : (p.id == q.id) ≡ false = ground (arith, h.0) in rw other h.1) ps
      (All-both _ _ ps d.0 (find_own ps d.1)),
)

behind_refunds :
    (sid staff : ℕ) (rids : ℕ → ℕ) (ps qs : List Payment) (q : Payment)
    → ((k : ℕ) → q.id ≢ rids k)
    → Found qs q
    → Found (refunds sid staff rids ps ++ qs) q
unfolding refunds refund_of
behind_refunds sid staff rids [] qs q fresh h = h
behind_refunds sid staff rids (p ∷ ps) qs q fresh h =
    let row = refund_of sid staff (rids p.id) p in
    let other : (rids p.id == q.id) ≡ false = ground (arith, fresh p.id) in
    let front : Found (row ∷ qs) q = rw other h in
    subst (λ t. Found t q) (sym (append_assoc (refunds sid staff rids ps) (row ∷ []) qs))
      (behind_refunds sid staff rids ps (row ∷ qs) q fresh front)

no_orders_left :
    (now sid : ℕ) (os : List Order)
    → orders_total (λ o. is_id o.sale_id sid) (cancel_sale_orders now sid os) ≡ 0
unfolding orders_total cancel_sale_orders
no_orders_left now sid [] = refl
no_orders_left now sid (o ∷ os) = ground (arith, no_orders_left now sid os)

abbrev gives_back : ℕ → Redemption → Bool
gives_back sid r = is_id r.sale_id sid && not (is_some r.cancelled_at)

no_redemption_left :
    (now sid : ℕ) (rs : List Redemption)
    → count (gives_back sid) (cancel_sale_redemptions now sid rs) ≡ 0
unfolding cancel_sale_redemptions
no_redemption_left now sid [] = refl
no_redemption_left now sid (r ∷ rs) = ground (arith, no_redemption_left now sid rs)

-- The sale's payments are charges and discounts of different ids that nothing reverses yet, and the
-- ids of the refunds are new.
pub record Unreversed (sid : ℕ) (rids : ℕ → ℕ) (db : Db) : Type 0 where
  pub kinds : All (λ p. is_reversible p.kind ≡ true) (sale_payments sid db)
  pub unreversed : All (λ p. is_reversed db.payments p ≡ false) (sale_payments sid db)
  pub apart : Distinct (λ p. p.id) (sale_payments sid db)
  pub new_ids : All (λ p. (k : ℕ) → p.id ≢ rids k) (sale_payments sid db)

-- Nothing was ordered, discounted or charged in the end, and all that was charged came back.
pub record IsUndone (sid : ℕ) (before after : Shop) : Type 0 where
  pub nothing_ordered : (compute_counter_sale_ledger sid after.db).order_amount ≡ 0
  pub nothing_discounted : (compute_counter_sale_ledger sid after.db).discount_amount ≡ pos 0
  pub no_coupon : (compute_counter_sale_ledger sid after.db).coupon_discount_amount ≡ pos 0
  pub all_back :
      (compute_counter_sale_ledger sid after.db).refunded_amount
      ≡ (compute_counter_sale_ledger sid before.db).gross_charged_amount
  pub nothing_kept : (compute_counter_sale_ledger sid after.db).net_charged_amount ≡ pos 0
  pub nothing_left : (compute_counter_sale_ledger sid after.db).remaining_amount ≡ pos 0
  pub no_redemption : count (gives_back sid) after.db.redemptions ≡ 0
  pub coupons_stay : after.book ≡ before.book

cancelled_out : (d : ℕ) → pos 0 +ℤ minus d +ℤ pos d ≡ pos 0
cancelled_out d = omega int_laws

even : (g : ℕ) → pos g -ℤ pos g ≡ pos 0
even g = omega int_laws

zeros : (g : ℕ) → pos 0 -ℤ pos 0 -ℤ (pos g -ℤ pos g) ≡ pos 0
zeros g = omega int_laws

-- The sums over the rows of a sale with their refunds in front.
record SumsBack (ps rows : List Payment) : Type 0 where
  gross : (sums_from rows no_sums rows).gross ≡ charged_in ps
  refunded : (sums_from rows no_sums rows).refunded ≡ charged_in ps
  discounted : (sums_from rows no_sums rows).discounted ≡ pos 0
  coupon : (sums_from rows no_sums rows).coupon ≡ pos 0

refunds-SumsBack :
    (sid staff : ℕ) (rids : ℕ → ℕ) (ps : List Payment)
    → All (λ p. is_reversible p.kind ≡ true) ps
    → All (Found (refunds sid staff rids ps ++ ps)) ps
    → SumsBack ps (refunds sid staff rids ps ++ ps)
refunds-SumsBack sid staff rids ps kinds found =
    let rows = refunds sid staff rids ps in
    let all = rows ++ ps in
    let back = refunds-Adds all sid staff rids ps no_sums kinds found in
    let in_first = originals-Adds all ps (sums_from all no_sums rows) kinds in
    let sums : sums_from all no_sums all ≡ sums_from all (sums_from all no_sums rows) ps =
      sums_from-append all no_sums rows ps in
    record {
      gross = rw sums (omega (arith, back.gross, in_first.gross));
      refunded = rw sums (omega (arith, back.refunded, in_first.refunded));
      discounted = rw (sums, in_first.discounted, back.discounted) (cancelled_out _);
      coupon = rw (sums, in_first.coupon, back.coupon) (cancelled_out _);
    }

-- The shop after a cancellation, written out.
cancel_sale_tx_ok :
    (now sid staff : ℕ) (rids : ℕ → ℕ) (shop : Shop) {after : Shop}
    → Unreversed sid rids shop.db
    → cancel_sale_tx now sid staff rids shop ≡ ok after
    → (after.db.payments ≡ refunds sid staff rids (sale_payments sid shop.db) ++ shop.db.payments)
      × (after.db.orders ≡ cancel_sale_orders now sid shop.db.orders)
      × (after.db.redemptions ≡ cancel_sale_redemptions now sid shop.db.redemptions)
      × (after.book ≡ shop.book)
unfolding cancel_sale_tx
cancel_sale_tx_ok now sid staff rids shop {after} u e =
    let own = λ (p : Payment). is_id p.sale_id sid in
    let listed = filter (λ p. own p && is_reversible p.kind) shop.db.payments in
    let (claimed, e1) =
      throw_if_ok (not (count (is_open_sale sid) shop.sales == 1)) already_cancelled _ e in
    let selected : listed ≡ sale_payments sid shop.db =
      reversible_only own (λ p. is_reversible p.kind) shop.db.payments u.kinds in
    let (db, refunded, e2) =
      both_ok (refund_each sid staff rids shop.db.payments listed shop.db) _ e1 in
    let db_is =
      refund_each_ok sid staff rids shop.db.payments (sale_payments sid shop.db) shop.db
        u.unreversed
        (subst (λ l. refund_each sid staff rids shop.db.payments l shop.db ≡ ok db) selected
          refunded) in
    subst
      (λ (t : Shop).
        (t.db.payments ≡ refunds sid staff rids (sale_payments sid shop.db) ++ shop.db.payments)
        × (t.db.orders ≡ cancel_sale_orders now sid shop.db.orders)
        × (t.db.redemptions ≡ cancel_sale_redemptions now sid shop.db.redemptions)
        × (t.book ≡ shop.book))
      (ok_inj _ refl e2) (rw db_is (refl, refl, refl, refl))

-- The transaction of cancelCounterSale on a sale whose payments are charges and discounts of
-- different ids that nothing reverses yet, with new ids for its refunds, brings every sum of the
-- sale's ledger to zero, refunds exactly what was charged, leaves no redemption of the sale that
-- is not cancelled, and changes no coupon.
pub cancel_sale_tx_undoes :
    (now sid staff : ℕ) (rids : ℕ → ℕ) (shop : Shop) {after : Shop}
    → Unreversed sid rids shop.db
    → cancel_sale_tx now sid staff rids shop ≡ ok after
    → IsUndone sid shop after
unfolding compute_counter_sale_ledger sale_ledger_of
cancel_sale_tx_undoes now sid staff rids shop {after} u e =
    let ps = sale_payments sid shop.db in
    let (payments, orders, redemptions, book) = cancel_sale_tx_ok now sid staff rids shop u e in
    let own = λ (p : Payment). is_id p.sale_id sid in
    let rows : sale_payments sid after.db ≡ refunds sid staff rids ps ++ ps =
      ap (filter own) payments
      ∙ filter-append own (refunds sid staff rids ps) shop.db.payments
      ∙ ap (λ t. t ++ ps) (own_refunds sid staff rids ps) in
    let found =
      All-map _ _ (λ p (fresh, h). behind_refunds sid staff rids ps ps p fresh h) ps
        (All-both _ _ ps u.new_ids (find_own ps u.apart)) in
    let sums = refunds-SumsBack sid staff rids ps u.kinds found in
    let before = originals-Adds ps ps no_sums u.kinds in
    let none_left : orders_total (λ o. is_id o.sale_id sid) after.db.orders ≡ 0 =
      rw orders (no_orders_left now sid shop.db.orders) in
    record {
      nothing_ordered = none_left;
      nothing_discounted = rw rows sums.discounted;
      no_coupon = rw rows sums.coupon;
      all_back = rw rows (omega (arith, sums.refunded, before.gross));
      nothing_kept = rw (rows, sums.gross, sums.refunded) (even _);
      nothing_left = rw (none_left, rows, sums.gross, sums.refunded, sums.discounted) (zeros _);
      no_redemption = rw redemptions (no_redemption_left now sid shop.db.redemptions);
      coupons_stay = book;
    }

count_closed :
    (now sid : ℕ) (ss : List CounterSale)
    → count (is_open_sale sid) (
        update
          (is_open_sale sid)
          (λ s. record s { status = sale_cancelled; cancelled_at = some now })
          ss)
      ≡ 0
count_closed now sid [] = refl
count_closed now sid (s ∷ ss) = ground (arith, count_closed now sid ss)

refund_each_redemptions :
    (sid staff : ℕ) (rids : ℕ → ℕ) (before ps : List Payment) (db : Db) {db' : Db}
    → refund_each sid staff rids before ps db ≡ ok db'
    → db'.redemptions ≡ db.redemptions
unfolding refund_each
refund_each_redemptions sid staff rids before [] db e =
    ap (λ d. d.redemptions) (sym (ok_inj _ refl e))
refund_each_redemptions sid staff rids before (p ∷ ps) db e =
    elim (Bool-cases (is_reversed before p)) [
      | inl r ↦ refund_each_redemptions sid staff rids before ps db (rw r at e)
      | inr r ↦
          let row = refund_of sid staff (rids p.id) p in
          let (db1, written, e1) = both_ok (add_payment_row row db) _ (rw r at e) in
          refund_each_redemptions sid staff rids before ps db1 e1
          ∙ ap (λ (d : Db). d.redemptions) (add_payment_row_ok row db written)
    ]

-- What a cancellation does beside the ledger.
pub cancel_sale_tx_frame :
    (now sid staff : ℕ) (rids : ℕ → ℕ) (shop : Shop) {after : Shop}
    → cancel_sale_tx now sid staff rids shop ≡ ok after
    → (count (is_open_sale sid) after.sales ≡ 0)
      × (after.db.redemptions ≡ cancel_sale_redemptions now sid shop.db.redemptions)
      × (after.book ≡ shop.book)
unfolding cancel_sale_tx
cancel_sale_tx_frame now sid staff rids shop {after} e =
    let listed = filter (λ p. is_id p.sale_id sid && is_reversible p.kind) shop.db.payments in
    let (claimed, e1) =
      throw_if_ok (not (count (is_open_sale sid) shop.sales == 1)) already_cancelled _ e in
    let (db, refunded, e2) =
      both_ok (refund_each sid staff rids shop.db.payments listed shop.db) _ e1 in
    let same = refund_each_redemptions sid staff rids shop.db.payments listed shop.db refunded in
    subst
      (λ (t : Shop).
        (count (is_open_sale sid) t.sales ≡ 0)
        × (t.db.redemptions ≡ cancel_sale_redemptions now sid shop.db.redemptions)
        × (t.book ≡ shop.book))
      (ok_inj _ refl e2)
      (count_closed now sid shop.sales, ap (cancel_sale_redemptions now sid) same, refl)

-- After a sale was cancelled, a request to cancel it that succeeds answers that it was cancelled
-- before, and changes nothing.
pub cancel_counter_sale_once :
    (now later sid staff staff' : ℕ) (rids rids' : ℕ → ℕ) (has_reason : Bool) (shop seen : Shop)
    {after : Shop} {r : Bool × Shop}
    → cancel_sale_tx now sid staff rids shop ≡ ok after
    → cancel_counter_sale later sid staff' rids' has_reason seen after ≡ ok r
    → r ≡ (true, after)
unfolding cancel_sale_tx cancel_counter_sale
cancel_counter_sale_once now later sid staff staff' rids rids' has_reason shop seen {after} {r} e
      e' =
    let (given, e1) = throw_if_ok (not has_reason) reason_required _ e' in
    let (s, found, e2) =
      both_ok (or_throw (find (λ s. s.id == sid) seen.sales) sale_not_found) _ e1 in
    go (is_completed s.status) e2
  where
    go :
        (open_still : Bool)
        → elim open_still [
          | false ↦ ok (true, after)
          | true ↦ (do t ← cancel_sale_tx later sid staff' rids' after; ok (false, t))
        ]
          ≡ ok r
        → r ≡ (true, after)
    go false h = sym (ok_inj _ refl h)
    go true h =
        let (closed, redemptions, book) = cancel_sale_tx_frame now sid staff rids shop e in
        let no : err already_cancelled ≡ ok r = rw (cancel_sale_tx, closed) at h in cc
