-- ===== src/Examples/Others.antt =====
-- Discounts, shares, coupons and logins.
use boardbite_pos.Prelude.{
  ℕ, ◌+◌, ◌*◌, ◌/◌, ◌≤◌, ◌<◌, ◌≡◌, ◌↔◌, refl, false, none, some, List, [], ◌∷◌, arith, length, any,
  sum_by, ◌==◌, All, Distinct, ok, err,
}
use boardbite_pos.Prelude.Int.{pos}
use boardbite_pos.Domain.Key.{text}
use boardbite_pos.Allocation.{Line, Row, grand_of, allocate_proportional}
use boardbite_pos.Allocation.Exact.{IsExact, allocate_proportional-IsExact}
use boardbite_pos.Split.{split_evenly}
use boardbite_pos.Split.Shares.{split_evenly_exact}
use boardbite_pos.Coupon.{
  Coupon, Batch, Book, amount_off, available, used, max_coupon_number, allocate_codes,
  numbers_exhausted, consume_coupon, IssueInput, batch_key,
}
use boardbite_pos.Coupon.Numbers.{free_count, allocate_codes_exact, allocate_codes_refuses}
use boardbite_pos.Coupon.Issue.{issue_tx, issue_tx_unique}
use boardbite_pos.Login.{
  assert_login_allowed, backoff_delay, Try, try_from, other_address_unaffected,
}

abbrev two_lines : List Line
two_lines = record { key = 1; amount = 3000 } ∷ record { key = 2; amount = 4000 } ∷ []

two_lines_sum : 1000 ≤ grand_of two_lines
unfolding grand_of
two_lines_sum = omega arith

allocate_proportional-IsExact_example :
    (rows : List Row) × (allocate_proportional (pos 1000) two_lines ≡ ok (some rows))
    × IsExact 1000 two_lines rows
allocate_proportional-IsExact_example = allocate_proportional-IsExact 1000 two_lines two_lines_sum

too_much : grand_of two_lines < 8000
unfolding grand_of
too_much = omega arith

split_evenly_exact_example :
    (shares : List ℕ) × (split_evenly (pos 10000) (pos 3) ≡ ok shares)
    × ((sum_by (λ s. s) shares ≡ 10000)
        × (length shares ≡ 3)
        × All (λ s. (10000 / 3 ≤ s) × (s ≤ 10000 / 3 + 1)) shares)
split_evenly_exact_example = split_evenly_exact 10000 3 (omega arith)

abbrev given : List ℕ
given = 3 ∷ 5 ∷ []

codes_run : allocate_codes (2 ∷ 1 ∷ 4 ∷ []) 2 ≡ ok given
unfolding allocate_codes
codes_run = refl

allocate_codes_exact_example :
    (length given ≡ 2)
    × All
        (λ k. (1 ≤ k) × (k ≤ max_coupon_number) × (any (λ j. k == j) (2 ∷ 1 ∷ 4 ∷ []) ≡ false))
        given
    × Distinct (λ k. k) given
allocate_codes_exact_example = allocate_codes_exact (2 ∷ 1 ∷ 4 ∷ []) 2 codes_run

abbrev coupon_1 : Coupon
coupon_1 = record {
  id = 70;
  batch_id = 5;
  code = 1;
  status = available;
  used_at = none;
  cancelled_at = none;
}

abbrev coupon_2 : Coupon
coupon_2 = record {
  id = 71;
  batch_id = 5;
  code = 2;
  status = available;
  used_at = none;
  cancelled_at = none;
}

abbrev book : Book
book = record { batches = []; coupons = coupon_1 ∷ coupon_2 ∷ []; menu = [] }

abbrev order_one : IssueInput
order_one = record {
  benefit = amount_off 3000;
  quantity = 1;
  expires_at = none;
  key = text "b";
  created_by = 9;
}

abbrev batch_6 : Batch
batch_6 = record {
  id = 6;
  benefit = amount_off 3000;
  issued_count = 1;
  expires_at = none;
  key = batch_key order_one;
}

abbrev book_after : Book
book_after = record {
  batches = batch_6 ∷ [];
  menu = [];
  coupons =
      record {
        id = 103;
        batch_id = 6;
        code = 3;
        status = available;
        used_at = none;
        cancelled_at = none;
      }
      ∷ coupon_1
      ∷ coupon_2
      ∷ [];
}

codes_apart : Distinct (λ c. c.code) book.coupons
codes_apart = (((λ e. absurd (omega (arith, e))), tt), (tt, tt))

issue_run : issue_tx 6 (λ k. k + 100) order_one book ≡ ok (batch_6, book_after)
unfolding issue_tx allocate_codes
issue_run = refl

issue_tx_unique_example :
    Distinct (λ c. c.code) book_after.coupons
    × (length book_after.coupons ≡ 1 + length book.coupons)
    × (batch_6.issued_count ≡ order_one.quantity)
issue_tx_unique_example = issue_tx_unique 6 (λ k. k + 100) order_one book codes_apart issue_run

abbrev spent : List Coupon
spent = record coupon_1 { status = used; used_at = some 20 } ∷ coupon_2 ∷ []

use_run : consume_coupon 70 20 book.coupons ≡ ok spent
unfolding consume_coupon
use_run = refl

-- Failures of one name, a minute apart.
abbrev guess : ℕ → Try
guess k = record { username = 5; succeeded = false; at = 60000 * k }

abbrev guesses : List Try
guesses = guess 8 ∷ guess 7 ∷ guess 6 ∷ guess 5 ∷ guess 4 ∷ guess 3 ∷ guess 2 ∷ guess 1 ∷ []

other_address_unaffected_example :
    (assert_login_allowed 5 (some 2) 500000 (try_from (some 1) guesses [])
      ≡ assert_login_allowed 5 (some 2) 500000 [])
    × (backoff_delay 6 ≤ 4000)
other_address_unaffected_example =
    other_address_unaffected 5 1 2 500000 6 guesses [] (λ e. absurd (omega (arith, e)))

abbrev many : List ℕ
many = 1 ∷ 2 ∷ []

allocate_codes_refuses_example :
    (allocate_codes many 998 ≡ err numbers_exhausted) ↔ (free_count many max_coupon_number 1 < 998)
allocate_codes_refuses_example =
    allocate_codes_refuses many 998 (((λ e. absurd (omega (arith, e))), tt), (tt, tt))
      ((omega arith, omega arith), ((omega arith, omega arith), tt))
