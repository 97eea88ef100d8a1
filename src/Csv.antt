-- ===== src/Csv.antt =====
-- server/src/services/csv.ts: the tables that are exported. A text is the list of its code points.
pub mod Read
use boardbite_pos.Prelude.{
  ℕ, Bool, true, false, ◌||◌, Option, none, some, List, [], ◌∷◌, ◌++◌, map, any, ◌==◌,
  if◌then◌else◌,
}

abbrev pub quote : ℕ
quote = b'"'

abbrev pub comma : ℕ
comma = b','

abbrev pub line_feed : ℕ
line_feed = 10

abbrev pub carriage_return : ℕ
carriage_return = 13

abbrev pub tab : ℕ
tab = 9

abbrev pub apostrophe : ℕ
apostrophe = 39

-- `FORMULA_TRIGGERS`
abbrev pub is_trigger : ℕ → Bool
is_trigger c =
    c == b'=' || (c == b'+' || (c == b'-' || (c == b'@' || (c == tab || c == carriage_return))))

-- `neutralizeFormula`
unfoldable pub neutralize_formula : List ℕ → List ℕ
neutralize_formula [] = []
neutralize_formula (c ∷ cs) = if is_trigger c then apostrophe ∷ c ∷ cs else c ∷ cs

-- `CsvCell`; a number is the text that `String` makes of it.
pub data Cell : Type 0 where
  nothing : Cell
  words number raw : List ℕ → Cell

-- `excelText`
abbrev pub excel_text : List ℕ → Cell
excel_text value = raw (tab ∷ value)

-- `str`
unfoldable pub shown : Cell → List ℕ
unfolding neutralize_formula
shown nothing = []
shown (words s) = neutralize_formula s
shown (number s) = s
shown (raw s) = s

-- `/[",\n\r\t]/`
abbrev pub is_special : ℕ → Bool
is_special c = c == quote || (c == comma || (c == line_feed || (c == carriage_return || c == tab)))

-- `str.replace(/"/g, '""')`
unfoldable pub double_quotes : List ℕ → List ℕ
double_quotes [] = []
double_quotes (c ∷ cs) =
    let rest = double_quotes cs in if c == quote then quote ∷ quote ∷ rest else c ∷ rest

unfoldable pub escape_text : List ℕ → List ℕ
unfolding double_quotes
escape_text s = if any is_special s then quote ∷ (double_quotes s ++ (quote ∷ [])) else s

-- `escape`; a missing value has an empty text, which is not quoted.
unfoldable pub escape : Cell → List ℕ
unfolding shown escape_text
escape c = escape_text (shown c)

-- `row.map(escape).join(",")`
unfoldable pub join_row : List Cell → List ℕ
unfolding escape
join_row [] = []
join_row (c ∷ []) = escape c
join_row (c ∷ d ∷ cs) = escape c ++ (comma ∷ join_row (d ∷ cs))

-- `lines.join("\r\n")`
unfoldable pub join_lines : List (List ℕ) → List ℕ
join_lines [] = []
join_lines (l ∷ []) = l
join_lines (l ∷ m ∷ ls) = l ++ (carriage_return ∷ line_feed ∷ join_lines (m ∷ ls))

abbrev pub byte_order_mark : ℕ
byte_order_mark = 0xfeff

-- `toCsv`
unfoldable pub to_csv : List (List ℕ) → List (List Cell) → List ℕ
unfolding join_row join_lines
to_csv headers rows =
    byte_order_mark ∷ join_lines (join_row (map words headers) ∷ map join_row rows)
