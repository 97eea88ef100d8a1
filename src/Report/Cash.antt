-- ===== src/Report/Cash.antt =====
-- What createClosingSettlement of server/src/services/closing.ts writes, and two closings in a row.
use mathlib.Core.Path.{subst}
use boardbite_pos.Prelude.{
  ℕ, ◌≤◌, ◌≡◌, refl, sym, ap, ◌∙◌, ◌⊎◌, inl, inr, Bool-cases, Bool, true, false, not, ◌&&◌, some,
  List, [], ◌∷◌, arith, if◌then◌else◌, ◌==◌, ltb, filter, length, All, Option-cases, ok,
  throw_if_ok, ok_inj, some_inj,
}
use boardbite_pos.Prelude.Int.{ℤ, pos, ◌+ℤ◌, ◌-ℤ◌, int_laws}
use boardbite_pos.Domain.Rows.{Payment, Db}
use boardbite_pos.Report.{
  Range, in_range, Times, original_of, Entry, no_takings, takings_from, compute_revenue_summary,
}
use boardbite_pos.Report.Sums.{
  revenue_of, every, sum_where, payments_in, takings_revenue, total_revenue_is,
}
use boardbite_pos.Report.Closing.{
  Closing, last_closing, resolve_window_start, is_cash_code, sum_amounts, expected_cash_of,
  unsettled_from, closing_range, compute_closing_preview, tables_unsettled, closing_row,
  create_closing_settlement,
}

sum_amounts-filter :
    (fits : ℕ → Bool) (es : List Entry)
    → sum_amounts (filter (λ e. fits e.key) es) ≡ sum_where fits es
sum_amounts-filter fits [] = refl
sum_amounts-filter fits (e ∷ es) = elim (Bool-cases (fits e.key)) [
  | inl y ↦ rw (y, sum_amounts-filter fits es) refl
  | inr n ↦ rw (n, sum_amounts-filter fits es) (skip (sum_where fits es))
]
  where
    skip : (x : ℤ) → x ≡ pos 0 +ℤ x
    skip x = omega int_laws

expected_cash_is :
    (times : Times) (range : Range) (db : Db)
    → expected_cash_of db.methods (compute_revenue_summary times range db).by_method
      ≡ revenue_of
          (is_cash_code db.methods)
          (original_of (payments_in times range db) db.payments)
          (payments_in times range db)
unfolding expected_cash_of compute_revenue_summary
expected_cash_is times range db =
    let inside = payments_in times range db in
    sum_amounts-filter (is_cash_code db.methods)
      (takings_from inside db.payments no_takings inside).by_method
    ∙ (takings_revenue (is_cash_code db.methods) inside db.payments no_takings inside).0
    ∙ from_nothing _
  where
    from_nothing : (x : ℤ) → pos 0 +ℤ x ≡ x
    from_nothing x = omega int_laws

-- What a new row of the closings holds, of the payments in its range.
pub record IsCounted (times : Times) (actual_cash : ℕ) (has_override : Bool) (db : Db)
    (row : Closing) : Type 0 where
  pub inside : List Payment
  pub inside_is : inside ≡ payments_in times (closing_range row.opened_at row.closed_at) db
  pub cash_is :
      row.expected_cash
      ≡ revenue_of (is_cash_code db.methods) (original_of inside db.payments) inside
  pub difference_is : row.expected_cash +ℤ row.cash_difference ≡ pos actual_cash
  pub revenue_is : row.total_revenue ≡ revenue_of every (original_of inside db.payments) inside
  pub settled_or_overridden : (unsettled_from db db.tables ≡ []) ⊎ (has_override ≡ true)

none_or_some :
    {A : Type 0} (xs : List A) (b : Bool)
    → (ltb 0 (length xs) && not b) ≡ false
    → (xs ≡ []) ⊎ (b ≡ true)
none_or_some [] b h = inl refl
none_or_some (x ∷ xs) true h = inr refl
none_or_some (x ∷ xs) false h = absurd (ground arith)

created :
    (times : Times) (start_of_today now actual_cash staff : ℕ) (has_override : Bool)
    (closings : List Closing) (db : Db) {after : List Closing}
    → create_closing_settlement times start_of_today now actual_cash staff has_override closings db
      ≡ ok after
    → ((unsettled_from db db.tables ≡ []) ⊎ (has_override ≡ true))
      × (after
          ≡ closing_row
              (compute_closing_preview times start_of_today now closings db)
              actual_cash
              staff
            ∷ closings)
unfolding create_closing_settlement compute_closing_preview
created times start_of_today now actual_cash staff has_override closings db e =
    let (checked, e1) =
      throw_if_ok (ltb 0 (length (unsettled_from db db.tables)) && not has_override)
        tables_unsettled _ e in
    (none_or_some (unsettled_from db db.tables) has_override checked, sym (ok_inj _ refl e1))

-- A closing that createClosingSettlement writes goes before those that there were; its expected
-- cash is the sum, over the payments of its range with a cash method, of the charges less the
-- reversals of charges, its revenue is the same sum over all methods, its difference is the cash
-- that was counted less the expected cash, and no table is open unless a reason was given.
pub create_closing_settlement-IsCounted :
    (times : Times) (start_of_today now actual_cash staff : ℕ) (has_override : Bool)
    (closings : List Closing) (db : Db) {row : Closing} {rows : List Closing}
    → create_closing_settlement times start_of_today now actual_cash staff has_override closings db
      ≡ ok (row ∷ rows)
    → IsCounted times actual_cash has_override db row × (rows ≡ closings)
unfolding compute_closing_preview closing_row
create_closing_settlement-IsCounted times start_of_today now actual_cash staff has_override closings
      db {row} {rows} e =
    let (settled, is) =
      created times start_of_today now actual_cash staff has_override closings db e in
    let preview = compute_closing_preview times start_of_today now closings db in
    let range = closing_range preview.opened_at now in
    let row_is : row ≡ closing_row preview actual_cash staff = cc in
    let rows_are : rows ≡ closings = cc in
    (
      subst (IsCounted times actual_cash has_override db) (sym row_is) (record {
        inside = payments_in times range db;
        inside_is = refl;
        cash_is = expected_cash_is times range db;
        difference_is = whole preview.expected_cash (pos actual_cash);
        revenue_is = total_revenue_is times range db;
        settled_or_overridden = settled;
      }),
      rows_are,
    )
  where
    whole : (x a : ℤ) → x +ℤ (a -ℤ x) ≡ a
    whole x a = omega int_laws

last_is :
    (c : Closing) (cs : List Closing)
    → All (λ d. d.closed_at ≤ c.closed_at) cs
    → last_closing (c ∷ cs) ≡ some c.closed_at
last_is c [] h = refl
last_is c (d ∷ ds) h = elim (Option-cases (last_closing (d ∷ ds))) [
  | inl gone ↦ rw gone refl
  | inr (t, there) ↦
      let below = at_most c.closed_at (d ∷ ds) h there in
      let stays : ltb c.closed_at t ≡ false = ground (arith, below) in rw (there, stays) refl
]
  where
    at_most :
        (n : ℕ) (cs : List Closing) {t : ℕ}
        → All (λ d. d.closed_at ≤ n) cs
        → last_closing cs ≡ some t
        → t ≤ n
    at_most n [] h e = cc
    at_most n (c ∷ cs) {t} h e = elim (Option-cases (last_closing cs)) [
      | inl gone ↦ let is : c.closed_at ≡ t = some_inj (rw gone at e) in omega (arith, is, h.0)
      | inr (u, there) ↦
          let below = at_most n cs h.1 there in
          let is : (if ltb c.closed_at u then u else c.closed_at) ≡ t = some_inj (rw there at e) in
          ground (arith, is, h.0, below)
    ]

-- Two closings in a row, written by a clock that does not run back from the closings before or
-- from the start of the first, both have exactly one instant in their range, the one at which the
-- first was closed.
pub closings_share_boundary :
    (times : Times) (today today' now later cash cash' staff staff' : ℕ) (over over' : Bool)
    (closings : List Closing) (db seen : Db) {first second : Closing} {rows rows' : List Closing}
    → All (λ c. c.closed_at ≤ now) closings
    → create_closing_settlement times today now cash staff over closings db ≡ ok (first ∷ rows)
    → create_closing_settlement times today' later cash' staff' over' (first ∷ rows) seen
      ≡ ok (second ∷ rows')
    → first.opened_at ≤ now
    → now ≤ later
    → (t : ℕ)
    → (in_range (closing_range first.opened_at first.closed_at) t
        && in_range (closing_range second.opened_at second.closed_at) t)
      ≡ (t == now)
unfolding compute_closing_preview closing_row in_range resolve_window_start
closings_share_boundary times today today' now later cash cash' staff staff' over over' closings db
      seen {first} {second} {rows} {rows'} h e e' from to t =
    let (s, is) = created times today now cash staff over closings db e in
    let (s', is') = created times today' later cash' staff' over' (first ∷ rows) seen e' in
    let one = compute_closing_preview times today now closings db in
    let first_is : first ≡ closing_row one cash staff = cc in
    let rows_are : rows ≡ closings = cc in
    let closed : first.closed_at ≡ now = ap (λ (c : Closing). c.closed_at) first_is in
    let two = compute_closing_preview times today' later (first ∷ rows) seen in
    let second_is : second ≡ closing_row two cash' staff' = cc in
    let begins : second.opened_at ≡ first.closed_at =
      ap (λ (c : Closing). c.opened_at) second_is
      ∙ starts (
          last_is first rows (
            subst (λ n. All (λ (c : Closing). c.closed_at ≤ n) rows) (sym closed)
              (subst (All (λ (c : Closing). c.closed_at ≤ now)) (sym rows_are) h))) in
    let ends : second.closed_at ≡ later = ap (λ (c : Closing). c.closed_at) second_is in
    rw (begins, ends, closed) (ground (arith, from, to))
  where
    starts :
        {n : ℕ}
        → last_closing (first ∷ rows) ≡ some n
        → resolve_window_start times today' (first ∷ rows) seen ≡ n
    starts e = rw (resolve_window_start, e) refl
