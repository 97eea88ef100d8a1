-- ===== src/Examples/Stores.antt =====
-- Products, exported rows and runs that are tried again.
use boardbite_pos.Prelude.{
  ℕ, ◌≡◌, refl, true, false, none, some, List, [], ◌∷◌, ltb, map, All, Result, ok, err,
  if◌then◌else◌,
}
use boardbite_pos.Inventory.{
  Sellable, Pantry, menu_item, option_choice, SoldOutTarget, apply_sold_out, InventoryError,
}
use boardbite_pos.Inventory.Marked.{target_now, apply_sold_out_all}
use boardbite_pos.Csv.{Cell, words, raw, shown, to_csv}
use boardbite_pos.Csv.Read.{read_document, is_harmless, read_document-to_csv}
use boardbite_pos.Retry.{
  max_retries, IsTried, with_write_conflict_retry, with_write_conflict_retry_stops,
}

abbrev ramen : Sellable
ramen = record { id = 1; own_sold_out = false; is_deleted = false; product_id = none }

abbrev with_egg : Sellable
with_egg = record { id = 2; own_sold_out = false; is_deleted = false; product_id = some 9 }

abbrev pantry : Pantry
pantry = record {
  products =
      record {
        id = 9;
        is_sold_out = false;
        is_deleted = false;
        sold_out_at = none;
        sold_out_by = none;
      }
      ∷ [];
  menus = ramen ∷ [];
  choices = with_egg ∷ [];
}

abbrev targets : List SoldOutTarget
targets = record { kind = menu_item; id = 1 } ∷ record { kind = option_choice; id = 2 } ∷ []

abbrev pantry_of : Result InventoryError Pantry → Pantry
pantry_of (ok p) = p
pantry_of (err e) = pantry

emptied : Pantry
unfolding apply_sold_out
emptied = pantry_of (apply_sold_out true 5 3 targets pantry)

emptied_run : apply_sold_out true 5 3 targets pantry ≡ ok emptied
unfolding apply_sold_out emptied
emptied_run = refl

apply_sold_out_all_example : All (λ t. target_now t emptied ≡ some true) targets
apply_sold_out_all_example = apply_sold_out_all true 5 3 targets pantry emptied_run

-- A formula, a text with a quote and a comma, and a coupon number.
abbrev cells : List Cell
cells = words (b'"' ∷ b',' ∷ []) ∷ raw (9 ∷ b'0' ∷ b'7' ∷ []) ∷ []

abbrev titles : List (List ℕ)
titles = (b'a' ∷ []) ∷ (b'b' ∷ 10 ∷ []) ∷ []

abbrev table_rows : List (List Cell)
table_rows = cells ∷ (words (b'=' ∷ b'1' ∷ 13 ∷ 10 ∷ []) ∷ []) ∷ []

read_document-to_csv_example :
    (read_document (to_csv titles table_rows) ≡ map (map shown) (map words titles ∷ table_rows))
    × All (All (λ d. is_harmless d ≡ true)) table_rows
read_document-to_csv_example = read_document-to_csv titles table_rows (refl, (refl, (refl, tt)))

-- Two conflicts, then a result.
abbrev busy_twice : ℕ → Result ℕ ℕ
busy_twice k = if ltb k 2 then err 1 else ok k

with_write_conflict_retry_stops_example :
    IsTried (λ e. true) busy_twice 0 max_retries (with_write_conflict_retry (λ e. true) busy_twice)
with_write_conflict_retry_stops_example = with_write_conflict_retry_stops (λ e. true) busy_twice
