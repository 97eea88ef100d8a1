-- ===== src/Redemption.antt =====
-- The coupons that table sessions and counter sales redeem, over any sequence of what the services
-- do with them (tableCoupon.ts, counterSale.ts, coupon.ts and payment.ts of server/src/services).
use mathlib.Core.Path.{subst}
use boardbite_pos.Prelude.{
  ℕ, ◌≤◌, ◌≡◌, ◌≢◌, refl, sym, inl, inr, Bool-cases, Bool, false, ◌&&◌, Option, none, some, List,
  [], ◌∷◌, ◌++◌, arith, ◌==◌, ==_iff, any, update, count, All, All-map, All-both, All-update,
  All-every, Distinct, Distinct-update, count-update-le, ok, if_ok,
}
use boardbite_pos.Domain.Rows.{Payment, Redemption}
use boardbite_pos.Menu.{Catalog}
use boardbite_pos.Coupon.{
  Coupon, Batch, Book, IssueInput, can_use, consume_coupon, cancel_coupons, already_used,
}
use boardbite_pos.Coupon.Issue.{issue_tx, issue_tx_ok, new_coupons}
use boardbite_pos.Coupon.Use.{Spent, consume_spends, consume_keeps, cancel_keeps}
use boardbite_pos.Payment.Void.{cancel_redemption}
use boardbite_pos.CounterSale.{CounterSale, Shop, ConfirmInput}
use boardbite_pos.CounterSale.Quote.{Applied, Quote}
use boardbite_pos.CounterSale.Confirm.{Sha, SaleIds, confirm_tx, new_redemption}
use boardbite_pos.CounterSale.Written.{Consumed, redemption_rows, confirm_tx_ok}
use boardbite_pos.CounterSale.Cancel.{cancel_sale_tx, cancel_sale_redemptions}
use boardbite_pos.CounterSale.Cancelled.{cancel_sale_tx_frame}
use boardbite_pos.TableCoupon.{
  ApplyInput, TableQuote, is_live_redemption, table_redemption, apply_tx,
}
use boardbite_pos.TableCoupon.Covered.{apply_tx_ok, resolve_first}

-- What happens to the coupons and the redemptions.
pub data Step : Shop → Shop → Type 0 where
  confirm :
      {a b : Shop} {sale : CounterSale} (ids : SaleIds) (sha : Sha) (quoted now : ℕ)
      (input : ConfirmInput) (catalog : Catalog)
      → confirm_tx ids sha quoted now input catalog a ≡ ok (sale, b)
      → Step a b
  cancel_sale :
      {a b : Shop} (now sid staff : ℕ) (rids : ℕ → ℕ)
      → cancel_sale_tx now sid staff rids a ≡ ok b
      → Step a b
  apply :
      {a b : Shop} {p : Payment} (pid now : ℕ) (input : ApplyInput)
      → apply_tx pid now input a ≡ ok (p, b)
      → Step a b
  void_coupon :
      {a : Shop} (now sid : ℕ) (code : Option ℕ)
      → Step a (record a { db = cancel_redemption now sid code a.db })
  cancel_some :
      {a : Shop} (ids : List ℕ) (now : ℕ)
      → Step a (record a {
        book = record a.book { coupons = (cancel_coupons ids now a.book.coupons).0 };
      })
  -- the ids of new coupons are new
  issue :
      {a : Shop} {b : Batch} {book : Book} (bid : ℕ) (ids : ℕ → ℕ) (input : IssueInput)
      → All (λ r. (k : ℕ) → ids k ≢ r.coupon_id) a.db.redemptions
      → issue_tx bid ids input a.book ≡ ok (b, book)
      → Step a (record a { book = book })
  -- orders, payments, tables and all else
  elsewhere :
      {a b : Shop}
      → b.db.redemptions ≡ a.db.redemptions
      → b.book.coupons ≡ a.book.coupons
      → Step a b

pub data Steps : Shop → Shop → Type 0 where
  done : {a : Shop} → Steps a a
  then_step : {a b c : Shop} → Steps a b → Step b c → Steps a c

-- No coupon is redeemed twice, a redeemed coupon cannot be used, and a table session has at most
-- one redemption that is not cancelled.
pub record RedeemedOnce (rs : List Redemption) (cs : List Coupon) : Type 0 where
  pub spent : All (λ r. Spent r.coupon_id cs) rs
  pub once : Distinct (λ r. r.coupon_id) rs
  pub one_each : (sid : ℕ) → count (is_live_redemption sid) rs ≤ 1

was_usable :
    (cid now : ℕ) (cs : List Coupon) {cs' : List Coupon}
    → consume_coupon cid now cs ≡ ok cs'
    → (k : ℕ) → Spent k cs
    → k ≢ cid
unfolding consume_coupon
was_usable cid now cs e k spent same =
    let fits = count (λ (c : Coupon). c.id == cid && can_use c.status) cs in
    let (one, after_is) = if_ok (fits == 1) _ already_used e in
    let exactly : fits ≡ 1 = (==_iff fits 1).0 one in
    let none_left : fits ≡ 0 = subst (λ j. Spent j cs) same spent in
    absurd (omega (arith, exactly, none_left))

-- A coupon that is consumed goes into a new redemption.
redeem-Once :
    (r : Redemption) (now : ℕ) (rs : List Redemption) (cs : List Coupon) {cs' : List Coupon}
    → consume_coupon r.coupon_id now cs ≡ ok cs'
    → ((sid : ℕ) → count (is_live_redemption sid) (r ∷ rs) ≤ 1)
    → RedeemedOnce rs cs
    → RedeemedOnce (r ∷ rs) cs'
redeem-Once r now rs cs {cs'} e one h = record {
  spent = (
    consume_spends r.coupon_id now cs e,
    All-map (λ q. Spent q.coupon_id cs) (λ q. Spent q.coupon_id cs')
        (λ q spent. consume_keeps q.coupon_id r.coupon_id now cs e spent) rs h.spent,
  );
  once = (
    All-map (λ q. Spent q.coupon_id cs) _
        (λ q spent. was_usable r.coupon_id now cs e q.coupon_id spent) rs h.spent,
    h.once,
  );
  one_each = one;
}

-- A cancellation of redemptions keeps their coupons.
undo-Once :
    (now : ℕ) (p : Redemption → Bool) (rs : List Redemption) (cs : List Coupon)
    → RedeemedOnce rs cs
    → RedeemedOnce (update p (λ r. record r { cancelled_at = some now }) rs) cs
undo-Once now p rs cs h = record {
  spent = All-update _ _ p _ (λ r spent _. spent) (λ r spent _. spent) rs h.spent;
  once = Distinct-update (λ r. r.coupon_id) p _ (λ r. refl) rs h.once;
  one_each = λ sid.
      let fewer =
        count-update-le (is_live_redemption sid) p (λ r. record r { cancelled_at = some now })
          (λ r. ground arith) rs in
      omega (arith, fewer, h.one_each sid);
}

-- Coupons that come and go keep it as long as a redeemed one stays spent.
keep-Once :
    (rs : List Redemption) (cs cs' : List Coupon)
    → All (λ r. Spent r.coupon_id cs → Spent r.coupon_id cs') rs
    → RedeemedOnce rs cs
    → RedeemedOnce rs cs'
keep-Once rs cs cs' keeps h = record {
  spent = All-map _ _ (λ r (f, spent). f spent) rs (All-both _ _ rs keeps h.spent);
  once = h.once;
  one_each = h.one_each;
}

sale-Once :
    (ids : SaleIds) (now : ℕ) (q : Quote) (c : Option Applied) (rs : List Redemption)
    (cs cs' : List Coupon)
    → Consumed now c cs cs'
    → RedeemedOnce rs cs
    → RedeemedOnce (redemption_rows ids q c ++ rs) cs'
unfolding new_redemption
sale-Once ids now q none rs cs cs' same h = rw same h
sale-Once ids now q (some a) rs cs cs' consumed h =
    redeem-Once (new_redemption ids q a) now rs cs consumed (λ sid. omega (arith, h.one_each sid)) h

none_live : (p : Redemption → Bool) (rs : List Redemption) → any p rs ≡ false → count p rs ≡ 0
none_live p [] h = refl
none_live p (r ∷ rs) h = ground (arith, none_live p rs)

table-Once :
    (now : ℕ) (input : ApplyInput) (q : TableQuote) (rs : List Redemption) (cs cs' : List Coupon)
    → any (is_live_redemption input.session_id) rs ≡ false
    → consume_coupon q.coupon.id now cs ≡ ok cs'
    → RedeemedOnce rs cs
    → RedeemedOnce (table_redemption input q ∷ rs) cs'
unfolding table_redemption
table-Once now input q rs cs cs' first consumed h =
    redeem-Once (table_redemption input q) now rs cs consumed one h
  where
    one : (sid : ℕ) → count (is_live_redemption sid) (table_redemption input q ∷ rs) ≤ 1
    one sid = elim (Bool-cases (input.session_id == sid)) [
      | inl e ↦
          let same : input.session_id ≡ sid = (==_iff input.session_id sid).0 e in
          let none_yet : count (is_live_redemption sid) rs ≡ 0 =
            rw (sym same) (none_live (is_live_redemption input.session_id) rs first) in
          rw (e, none_yet) (omega arith)
      | inr e ↦ rw e (omega (arith, h.one_each sid))
    ]

new_spent :
    (bid : ℕ) (ids : ℕ → ℕ) (k : ℕ) (codes : List ℕ) (cs : List Coupon)
    → ((j : ℕ) → ids j ≢ k)
    → Spent k cs
    → Spent k (new_coupons bid ids codes ++ cs)
unfolding new_coupons
new_spent bid ids k [] cs apart h = h
new_spent bid ids k (c ∷ codes) cs apart h =
    ground (arith, apart c, new_spent bid ids k codes cs apart h)

Step-Once :
    {a b : Shop}
    → Step a b
    → RedeemedOnce a.db.redemptions a.book.coupons
    → RedeemedOnce b.db.redemptions b.book.coupons
unfolding cancel_redemption cancel_sale_redemptions
Step-Once {a} (confirm ids sha quoted now input catalog e) h =
    let (q, method, coupons, quote, fits, consumed, sale_is, after_is) =
      confirm_tx_ok ids sha quoted now input catalog a e in
    rw after_is (sale-Once ids now q q.coupon a.db.redemptions a.book.coupons coupons consumed h)
Step-Once {a} (cancel_sale now sid staff rids e) h =
    let (closed, redemptions, book) = cancel_sale_tx_frame now sid staff rids a e in
    rw (redemptions, book) (undo-Once now _ a.db.redemptions a.book.coupons h)
Step-Once {a} (apply pid now input e) h =
    let (q, allocations, coupons, resolved, consumed, is, after_is) =
      apply_tx_ok pid now input a e in
    rw after_is (
      table-Once now input q a.db.redemptions a.book.coupons coupons
        (resolve_first now input a resolved) consumed h)
Step-Once {a} (void_coupon now sid code) h = undo-Once now _ a.db.redemptions a.book.coupons h
Step-Once {a} (cancel_some ids now) h =
    keep-Once a.db.redemptions a.book.coupons _
      (All-every _ (λ r. cancel_keeps r.coupon_id ids now a.book.coupons) a.db.redemptions) h
Step-Once {a} (issue bid ids input new_ids e) h =
    let (codes, given, coupons, counted) = issue_tx_ok bid ids input a.book e in
    rw coupons (
      keep-Once a.db.redemptions a.book.coupons _
        (All-map _ _ (λ r apart. new_spent bid ids r.coupon_id codes a.book.coupons apart)
          a.db.redemptions new_ids)
        h)
Step-Once (elsewhere redemptions coupons) h = rw (redemptions, coupons) h

-- Over every sequence of confirmed and cancelled counter sales, coupons applied to tables and
-- voided there, cancelled coupons, issues of coupons with new ids, and writes that leave
-- redemptions and coupons alone: no coupon is redeemed twice, no redeemed coupon can be used, and
-- no table session has two redemptions that are not cancelled, where it is so at the start.
pub Steps-RedeemedOnce :
    {a b : Shop}
    → Steps a b
    → RedeemedOnce a.db.redemptions a.book.coupons
    → RedeemedOnce b.db.redemptions b.book.coupons
Steps-RedeemedOnce done h = h
Steps-RedeemedOnce (then_step before step) h = Step-Once step (Steps-RedeemedOnce before h)
