-- ===== src/Report/Windows.antt =====
-- The revenue of computeRevenueSummary (server/src/services/reporting.ts) over one range after
-- another.
use mathlib.Core.Path.{subst}
use boardbite_pos.Prelude.{
  ℕ, suc, ◌≡◌, ◌≢◌, refl, ap, ◌∙◌, inl, inr, Bool-cases, Bool, true, false, ◌||◌, ◌&&◌, Option,
  none, some, List, [], ◌∷◌, arith, if◌then◌else◌, ◌==◌, ==_iff, find, filter, All, Distinct,
  Option-cases,
}
use boardbite_pos.Prelude.Int.{ℤ, pos, ◌+ℤ◌, int_laws}
use boardbite_pos.Domain.Rows.{Payment, Db}
use boardbite_pos.Report.{
  Range, from_on, up_to, in_range, Times, original_of, compute_revenue_summary,
}
use boardbite_pos.Report.Sums.{revenue_part, revenue_of, every, payments_in, total_revenue_is}

module _ {A : Type 0} (key : A → ℕ) where
  not_among :
      (k : ℕ) (xs : List A) {x : A}
      → All (λ y. key y ≢ k) xs
      → find (λ y. key y == k) xs ≡ some x
      → ⊥
  not_among k [] h e = cc
  not_among k (y ∷ ys) h e = elim (Bool-cases (key y == k)) [
    | inl is ↦ h.0 ((==_iff (key y) k).0 is)
    | inr off ↦ not_among k ys (h.1) (rw off at e)
  ]

  pub find-filter :
      (p : A → Bool) (k : ℕ) (xs : List A) {x : A}
      → Distinct key xs
      → find (λ y. key y == k) (filter p xs) ≡ some x
      → find (λ y. key y == k) xs ≡ some x
  find-filter p k [] d e = e
  find-filter p k (y ∷ ys) {x} d e = elim (Bool-cases (p y)) [
    | inl kept ↦ elim (Bool-cases (key y == k)) [
      | inl is ↦ rw is (rw (kept, is) at e)
      | inr off ↦ rw off (find-filter p k ys d.1 (rw (kept, off) at e))
    ]
    | inr dropped ↦
        let later = find-filter p k ys d.1 (rw dropped at e) in
        elim (Bool-cases (key y == k)) [
          | inl is ↦ absurd (
              not_among k ys (subst (λ j. All (λ z. key z ≢ j) ys) ((==_iff (key y) k).0 is) d.0)
                later)
          | inr off ↦ rw off later
        ]
  ]

-- A payment that is reversed is found, in the range or outside it.
original_everywhere :
    (inside : Payment → Bool) (all : List Payment)
    → Distinct (λ p. p.id) all
    → (o : Option ℕ) → original_of (filter inside all) all o ≡ original_of all all o
unfolding original_of
original_everywhere inside all d none = refl
original_everywhere inside all d (some r) =
    elim (Option-cases (find (λ (q : Payment). q.id == r) (filter inside all))) [
      | inl gone ↦ elim (Option-cases (find (λ (q : Payment). q.id == r) all)) [
        | inl nowhere ↦ rw (gone, nowhere) refl
        | inr (q, there) ↦ rw (gone, there) refl
      ]
      | inr (q, there) ↦ rw (there, find-filter (λ (p : Payment). p.id) inside r all d there) refl
    ]

+ℤ_both : (x a b : ℤ) → x +ℤ a +ℤ b ≡ x +ℤ (a +ℤ b)
+ℤ_both x a b = omega int_laws

+ℤ_second : (x a b : ℤ) → a +ℤ (x +ℤ b) ≡ x +ℤ (a +ℤ b)
+ℤ_second x a b = omega int_laws

not_both : (a b : Bool) → a ≡ true → b ≡ true → (a && b) ≡ false → ⊥
not_both a b x y h = ground arith

revenue_of-split :
    (fits : ℕ → Bool) (original : Option ℕ → Option Payment) (f g h : Payment → Bool)
    → ((p : Payment) → h p ≡ (f p || g p))
    → ((p : Payment) → (f p && g p) ≡ false)
    → (ps : List Payment)
    → revenue_of fits original (filter f ps) +ℤ revenue_of fits original (filter g ps)
      ≡ revenue_of fits original (filter h ps)
revenue_of-split fits original f g h either apart [] = omega int_laws
revenue_of-split fits original f g h either apart (p ∷ ps) =
    let part : Payment → ℤ =
      λ q. if fits q.method then revenue_part q.kind (original q.reversed_id) q.amount else pos 0 in
    let rest = revenue_of-split fits original f g h either apart ps in
    elim (Bool-cases (f p)) [
      | inl first ↦ elim (Bool-cases (g p)) [
        | inl both ↦ absurd (not_both (f p) (g p) first both (apart p))
        | inr only ↦
            let one : h p ≡ true = rw first at (either p) in
            rw (first, only, one) (+ℤ_both _ _ _ ∙ ap (λ x. part p +ℤ x) rest)
      ]
      | inr later ↦ elim (Bool-cases (g p)) [
        | inl second ↦
            let one : h p ≡ true = rw (later, second) at (either p) in
            rw (later, second, one) (+ℤ_second _ _ _ ∙ ap (λ x. part p +ℤ x) rest)
        | inr neither ↦
            let out : h p ≡ false = rw (later, neither) at (either p) in
            rw (later, neither, out) rest
      ]
    ]

in_either :
    (since until : Option ℕ) (m t : ℕ)
    → from_on since m ≡ true
    → up_to until m ≡ true
    → in_range (record { since = since; until = until }) t ≡ (
        in_range (record { since = since; until = some m }) t
        || in_range (record { since = some (suc m); until = until }) t)
unfolding in_range
in_either none none m t a b = ground arith
in_either none (some u) m t a b = ground arith
in_either (some s) none m t a b = ground arith
in_either (some s) (some u) m t a b = ground arith

not_in_both :
    (since until : Option ℕ) (m t : ℕ)
    → (in_range (record { since = since; until = some m }) t
        && in_range (record { since = some (suc m); until = until }) t)
      ≡ false
unfolding in_range
not_in_both none none m t = ground arith
not_in_both none (some u) m t = ground arith
not_in_both (some s) none m t = ground arith
not_in_both (some s) (some u) m t = ground arith

revenue_in :
    (times : Times) (range : Range) (db : Db)
    → Distinct (λ p. p.id) db.payments
    → (compute_revenue_summary times range db).total_revenue
      ≡ revenue_of every (original_of db.payments db.payments) (payments_in times range db)
revenue_in times range db d =
    total_revenue_is times range db
    ∙ ap (λ g. revenue_of every g (payments_in times range db))
        (λ i o. original_everywhere (λ p. in_range range (times.payment_at p)) db.payments d o i)

-- Where payments have different ids, the total revenues that computeRevenueSummary gives up to an
-- instant and from the next millisecond on add up to that of the whole range, wherever the
-- payments that are reversed stand, if that instant lies in the range.
pub revenue_by_windows :
    (times : Times) (since until : Option ℕ) (m : ℕ) (db : Db)
    → Distinct (λ p. p.id) db.payments
    → from_on since m ≡ true
    → up_to until m ≡ true
    → (compute_revenue_summary times (record { since = since; until = some m }) db).total_revenue
        +ℤ (compute_revenue_summary times
            (record { since = some (suc m); until = until })
            db).total_revenue
      ≡ (compute_revenue_summary times (record { since = since; until = until }) db).total_revenue
revenue_by_windows times since until m db d a b =
    rw
      (
        revenue_in times (record { since = since; until = some m }) db d,
        revenue_in times (record { since = some (suc m); until = until }) db d,
        revenue_in times (record { since = since; until = until }) db d,
      )
      (revenue_of-split every (original_of db.payments db.payments) _ _ _
        (λ p. in_either since until m (times.payment_at p) a b)
        (λ p. not_in_both since until m (times.payment_at p)) db.payments)
