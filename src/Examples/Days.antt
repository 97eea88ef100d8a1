-- ===== src/Examples/Days.antt =====
-- Reports and closings of the example shop, with a payment at the instant 900 and its reversal later.
use boardbite_pos.Prelude.{
  ◌≡◌, refl, true, ◌&&◌, none, some, List, [], ◌∷◌, arith, ◌==◌, Result, ok, err,
}
use boardbite_pos.Prelude.Int.{pos, ◌+ℤ◌}
use boardbite_pos.Domain.Rows.{Db}
use boardbite_pos.Report.{in_range, Times, compute_revenue_summary}
use boardbite_pos.Report.Sums.{AddsUp, compute_revenue_summary-AddsUp}
use boardbite_pos.Report.Windows.{revenue_by_windows}
use boardbite_pos.Report.Closing.{Closing, closing_range, ClosingError, create_closing_settlement}
use boardbite_pos.Report.Cash.{
  IsCounted, create_closing_settlement-IsCounted, closings_share_boundary,
}
use boardbite_pos.Examples.{shop}
use boardbite_pos.Examples.Bills.{paid, voided}

-- A payment is made at the instant that its id says.
abbrev times : Times
times = record { payment_at = λ p. p.id; order_at = λ o. o.id }

abbrev day : Db
day = record shop { payments = voided ∷ paid ∷ [] }

compute_revenue_summary-AddsUp_example :
    AddsUp (compute_revenue_summary times (record { since = some 0; until = some 900 }) day)
compute_revenue_summary-AddsUp_example =
    compute_revenue_summary-AddsUp times (record { since = some 0; until = some 900 }) day

revenue_by_windows_example :
    (compute_revenue_summary times (record { since = none; until = some 900 }) day).total_revenue
      +ℤ (compute_revenue_summary times
          (record { since = some 901; until = none })
          day).total_revenue
    ≡ (compute_revenue_summary times (record { since = none; until = none }) day).total_revenue
revenue_by_windows_example =
    revenue_by_windows times none none 900 day (((λ e. absurd (omega (arith, e))), tt), (tt, tt))
      refl refl

abbrev rows_of : Result ClosingError (List Closing) → List Closing
rows_of (ok rows) = rows
rows_of (err e) = []

abbrev no_row : Closing
no_row = record {
  opened_at = 0;
  closed_at = 0;
  expected_cash = pos 0;
  actual_cash = 0;
  cash_difference = pos 0;
  total_revenue = pos 0;
  total_discount = pos 0;
  total_refund = 0;
  total_void = 0;
  closed_by = 0;
}

abbrev first_row : List Closing → Closing
first_row [] = no_row
first_row (c ∷ cs) = c

abbrev first_closing : Closing
unfolding create_closing_settlement
first_closing = first_row (rows_of (create_closing_settlement times 0 900 100 3 true [] day))

abbrev second_closing : Closing
unfolding create_closing_settlement
second_closing =
    first_row (rows_of (create_closing_settlement times 0 2000 100 3 true (first_closing ∷ []) day))

create_closing_settlement-IsCounted_example :
    IsCounted times 100 true day first_closing × (◌≡◌ {A = List Closing} [] [])
unfolding create_closing_settlement boardbite_pos.Report.Closing.compute_closing_preview
    boardbite_pos.Report.Closing.unsettled_from
create_closing_settlement-IsCounted_example =
    create_closing_settlement-IsCounted times 0 900 100 3 true [] day refl

closings_share_boundary_example :
    (in_range (closing_range first_closing.opened_at first_closing.closed_at) 900
      && in_range (closing_range second_closing.opened_at second_closing.closed_at) 900)
    ≡ (900 == 900)
unfolding create_closing_settlement boardbite_pos.Report.Closing.compute_closing_preview
    boardbite_pos.Report.Closing.unsettled_from boardbite_pos.Report.Closing.closing_row
    boardbite_pos.Report.Closing.resolve_window_start
closings_share_boundary_example =
    closings_share_boundary times 0 0 900 2000 100 100 3 3 true true [] day day tt refl refl
      (omega arith) (omega arith) 900
