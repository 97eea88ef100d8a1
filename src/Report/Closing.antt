-- ===== src/Report/Closing.antt =====
-- server/src/services/closing.ts: the end of a business day. Sales that are still open are only
-- shown and are left out, and so are the other sums that the snapshot copies from the report.
use boardbite_pos.Prelude.{
  ℕ, ◌+◌, Bool, true, false, not, ◌&&◌, ◌||◌, Option, none, some, List, [], ◌∷◌, if◌then◌else◌,
  ◌==◌, ltb, any, find, filter, length, Result, ok, throw_if, ◌>>◌,
}
use boardbite_pos.Prelude.Int.{ℤ, pos, ◌+ℤ◌, ◌-ℤ◌}
use boardbite_pos.Domain.Status.{
  PaymentKind, void, refund, opened, settling, same_table_status, is_live,
}
use boardbite_pos.Domain.Rows.{Table, Session, Payment, PaymentMethod, Db}
use boardbite_pos.Billing.{compute_bill}
use boardbite_pos.Report.{Range, in_range, Times, Entry, RevenueSummary, compute_revenue_summary}

-- A row of `ClosingSettlement`, with what its snapshot adds.
pub record Closing : Type 0 where
  pub opened_at : ℕ
  pub closed_at : ℕ
  pub expected_cash : ℤ
  pub actual_cash : ℕ
  pub cash_difference : ℤ
  pub total_revenue : ℤ
  pub total_discount : ℤ
  pub total_refund : ℕ
  pub total_void : ℕ
  pub closed_by : ℕ

-- The greatest `closedAt`, as `orderBy: { closedAt: "desc" }` finds it.
abbrev pub last_closing : List Closing → Option ℕ
last_closing [] = none
last_closing (c ∷ cs) = elim (last_closing cs) [
  | none ↦ some c.closed_at
  | some t ↦ some (if ltb c.closed_at t then t else c.closed_at)
]

abbrev pub first_payment : Times → List Payment → Option ℕ
first_payment times [] = none
first_payment times (p ∷ ps) = elim (first_payment times ps) [
  | none ↦ some (times.payment_at p)
  | some t ↦ some (if ltb t (times.payment_at p) then t else times.payment_at p)
]

-- `resolveClosingWindowStart`
unfoldable pub resolve_window_start : Times → ℕ → List Closing → Db → ℕ
resolve_window_start times start_of_today closings db = elim (last_closing closings) [
  | some t ↦ t
  | none ↦ elim (first_payment times db.payments) [ some t ↦ t | none ↦ start_of_today ]
]

unfoldable pub is_cash_code : List PaymentMethod → ℕ → Bool
is_cash_code methods code = any (λ m. m.is_cash && (m.code == code)) methods

abbrev pub sum_amounts : List Entry → ℤ
sum_amounts [] = pos 0
sum_amounts (e ∷ es) = e.amount +ℤ sum_amounts es

-- `expectedCash`
unfoldable pub expected_cash_of : List PaymentMethod → List Entry → ℤ
expected_cash_of methods entries = sum_amounts (filter (λ e. is_cash_code methods e.key) entries)

abbrev pub is_void : PaymentKind → Bool
is_void void = true
is_void _ = false

abbrev pub is_refund : PaymentKind → Bool
is_refund refund = true
is_refund _ = false

-- `totalVoid` and `totalRefund`
unfoldable pub sum_of_kind : (PaymentKind → Bool) → List Payment → ℕ
sum_of_kind fits [] = 0
sum_of_kind fits (p ∷ ps) =
    let rest = sum_of_kind fits ps in if fits p.kind then p.amount + rest else rest

pub record Unsettled : Type 0 where
  pub table_id : ℕ
  pub remaining : ℤ

-- The live session of a table that was opened last.
abbrev pub live_session : ℕ → Db → Option Session
live_session tid db = find (λ s. (s.table_id == tid) && is_live s.status) db.sessions

abbrev pub unsettled_row : Db → ℕ → Option Session → Unsettled
unsettled_row db tid none = record { table_id = tid; remaining = pos 0 }
unsettled_row db tid (some s) = record {
  table_id = tid;
  remaining = (compute_bill s.id db).remaining;
}

unfoldable pub unsettled_from : Db → List Table → List Unsettled
unsettled_from db [] = []
unsettled_from db (t ∷ ts) =
    let rest = unsettled_from db ts in
    if same_table_status t.status opened || same_table_status t.status settling
    then unsettled_row db t.id (live_session t.id db) ∷ rest
    else rest

-- `ClosingPreview`
pub record ClosingPreview : Type 0 where
  pub opened_at : ℕ
  pub closed_at : ℕ
  pub summary : RevenueSummary
  pub total_void : ℕ
  pub total_refund : ℕ
  pub expected_cash : ℤ
  pub unsettled_tables : List Unsettled

-- The range of a closing, which both its ends belong to.
abbrev pub closing_range : ℕ → ℕ → Range
closing_range opened_at closed_at = record { since = some opened_at; until = some closed_at }

-- `computeClosingPreview`, without given times
unfoldable pub compute_closing_preview : Times → ℕ → ℕ → List Closing → Db → ClosingPreview
unfolding compute_revenue_summary
compute_closing_preview times start_of_today now closings db =
    let opened_at = resolve_window_start times start_of_today closings db in
    let range = closing_range opened_at now in
    let inside = filter (λ p. in_range range (times.payment_at p)) db.payments in
    let summary = compute_revenue_summary times range db in
    record {
      opened_at = opened_at;
      closed_at = now;
      summary = summary;
      total_void = sum_of_kind is_void inside;
      total_refund = sum_of_kind is_refund inside;
      expected_cash = expected_cash_of db.methods summary.by_method;
      unsettled_tables = unsettled_from db db.tables;
    }

pub data ClosingError : Type 0 where
  tables_unsettled : ClosingError

-- The `data` of the row.
unfoldable pub closing_row : ClosingPreview → ℕ → ℕ → Closing
closing_row preview actual_cash staff = record {
  opened_at = preview.opened_at;
  closed_at = preview.closed_at;
  expected_cash = preview.expected_cash;
  actual_cash = actual_cash;
  cash_difference = pos actual_cash -ℤ preview.expected_cash;
  total_revenue = preview.summary.total_revenue;
  total_discount = preview.summary.total_discount;
  total_refund = preview.total_refund;
  total_void = preview.total_void;
  closed_by = staff;
}

-- `createClosingSettlement`
unfoldable pub create_closing_settlement :
    Times → ℕ → ℕ → ℕ → ℕ → Bool → List Closing → Db → Result ClosingError (List Closing)
create_closing_settlement times start_of_today now actual_cash staff has_override closings db = do
  let preview = compute_closing_preview times start_of_today now closings db
  throw_if (ltb 0 (length preview.unsettled_tables) && not has_override) tables_unsettled
  ok (closing_row preview actual_cash staff ∷ closings)
