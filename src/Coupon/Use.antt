-- ===== src/Coupon/Use.antt =====
-- The use of coupons, and what may come after it (server/src/services/coupon.ts).
use mathlib.Core.Path.{subst}
use boardbite_pos.Prelude.{
  ℕ, ◌≡◌, refl, Bool, false, ◌&&◌, some, List, [], ◌∷◌, arith, ◌==◌, any, update, count, ok, is_ok,
  if_ok, ok_inj,
}
use boardbite_pos.Coupon.{
  Coupon, used, cancelled, can_use, consume_coupon, cancel_coupons, already_used,
}

count_used :
    (cid now : ℕ) (cs : List Coupon)
    → count
        (λ c. c.id == cid && can_use c.status)
        (update
          (λ c. c.id == cid && can_use c.status)
          (λ c. record c { status = used; used_at = some now })
          cs)
      ≡ 0
count_used cid now [] = refl
count_used cid now (c ∷ cs) = ground (arith, count_used cid now cs)

count_kept :
    (cid : ℕ) (p : Coupon → Bool) (f : Coupon → Coupon) (cs : List Coupon)
    → ((c : Coupon) → can_use (f c).status ≡ false)
    → count (λ c. c.id == cid && can_use c.status) cs ≡ 0
    → count (λ c. c.id == cid && can_use c.status) (update p f cs) ≡ 0
count_kept cid p f [] dead h = refl
count_kept cid p f (c ∷ cs) dead h = ground (arith, dead c, count_kept cid p f cs dead)

-- What later payments and cancellations make of the coupons.
pub data Later : List Coupon → List Coupon → Type 0 where
  same : {cs : List Coupon} → Later cs cs
  use_one :
      {a b c : List Coupon} (k now : ℕ) → Later a b → consume_coupon k now b ≡ ok c → Later a c
  cancel_some :
      {a b : List Coupon} (ids : List ℕ) (now : ℕ)
      → Later a b
      → Later a (cancel_coupons ids now b).0

abbrev pub Spent : ℕ → List Coupon → Type 0
Spent cid cs = count (λ c. c.id == cid && can_use c.status) cs ≡ 0

pub consume_spends :
    (cid now : ℕ) (cs : List Coupon) {cs' : List Coupon}
    → consume_coupon cid now cs ≡ ok cs'
    → Spent cid cs'
unfolding consume_coupon
consume_spends cid now cs {cs'} e =
    let (one, done) = if_ok _ _ already_used e in
    subst (Spent cid) (ok_inj _ refl done) (count_used cid now cs)

pub consume_keeps :
    (cid k now : ℕ) (cs : List Coupon) {cs' : List Coupon}
    → consume_coupon k now cs ≡ ok cs'
    → Spent cid cs
    → Spent cid cs'
unfolding consume_coupon
consume_keeps cid k now cs {cs'} e h =
    let (one, done) = if_ok _ _ already_used e in
    subst (Spent cid) (ok_inj _ refl done) (
      count_kept cid (λ c. c.id == k && can_use c.status)
        (λ c. record c { status = used; used_at = some now }) cs (λ c. refl) h)

pub cancel_keeps :
    (cid : ℕ) (ids : List ℕ) (now : ℕ) (cs : List Coupon)
    → Spent cid cs
    → Spent cid (cancel_coupons ids now cs).0
unfolding cancel_coupons
cancel_keeps cid ids now cs h =
    count_kept cid (λ c. any (λ k. c.id == k) ids && can_use c.status)
      (λ c. record c { status = cancelled; cancelled_at = some now }) cs (λ c. refl) h

Later-Spent : (cid : ℕ) {a b : List Coupon} → Later a b → Spent cid a → Spent cid b
Later-Spent cid same h = h
Later-Spent cid (use_one {b = b} k now before e) h =
    consume_keeps cid k now b e (Later-Spent cid before h)
Later-Spent cid (cancel_some {b = b} ids now before) h =
    cancel_keeps cid ids now b (Later-Spent cid before h)

-- A coupon that a payment has used cannot be used again, whatever sequence of uses and
-- cancellations of coupons follows.
pub consume_coupon_once :
    (cid now later : ℕ) (cs : List Coupon) {cs1 cs2 : List Coupon}
    → consume_coupon cid now cs ≡ ok cs1
    → Later cs1 cs2
    → is_ok (consume_coupon cid later cs2) ≡ false
unfolding consume_coupon
consume_coupon_once cid now later cs {cs1} {cs2} e after =
    let spent : Spent cid cs2 = Later-Spent cid after (consume_spends cid now cs e) in
    rw (consume_coupon, spent) refl
