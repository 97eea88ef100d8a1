-- ===== src/Csv/Read.antt =====
-- A reader of CSV documents (RFC 4180), which describes independently what an exported table holds.
use mathlib.Core.List.{append_assoc, append-nil}
use boardbite_pos.Prelude.{
  ℕ, ◌≡◌, ◌⊎◌, refl, sym, ap, ◌∙◌, inl, inr, Bool-cases, Bool, true, false, not, List, [], ◌∷◌,
  ◌++◌, map, arith, any, All, All-every, ◌==◌, if◌then◌else◌,
}
use boardbite_pos.Csv.{
  quote, comma, line_feed, carriage_return, byte_order_mark, Cell, nothing, words, number, raw,
  shown, is_special, is_trigger, neutralize_formula, double_quotes, escape_text, escape, join_row,
  join_lines, to_csv,
}

-- Where the reader stands: before a field, in one without quotes, between quotes, behind a quote
-- that stood between quotes.
pub data Place : Type 0 where
  start plain quoted behind : Place

-- What it does with a character.
pub data Act : Type 0 where
  keep skip end_field end_record : Act

-- What a character is to the reader.
pub data Mark : Type 0 where
  quote_mark comma_mark return_mark feed_mark other_mark : Mark

abbrev pub mark_of : ℕ → Mark
mark_of c =
    if c == quote
    then quote_mark
    else if c == comma
    then comma_mark
    else if c == carriage_return
    then return_mark
    else if c == line_feed
    then feed_mark
    else other_mark

-- Outside quotes a comma ends a field and a line feed the record, and a carriage return belongs to
-- the end of a line, so that only quotes keep them.
unfoldable pub turn : Place → Mark → Place × Act
turn quoted quote_mark = (behind, skip)
turn quoted _ = (quoted, keep)
turn start quote_mark = (quoted, skip)
turn plain quote_mark = (plain, keep)
turn behind quote_mark = (quoted, keep)
turn _ comma_mark = (start, end_field)
turn _ feed_mark = (start, end_record)
turn p return_mark = (p, skip)
turn _ other_mark = (plain, keep)

-- The records of a document, each with its fields.
abbrev pub Page : Type 0
Page = List (List (List ℕ))

abbrev pub grow : ℕ → Page → Page
grow c [] = ((c ∷ []) ∷ []) ∷ []
grow c ([] ∷ rs) = ((c ∷ []) ∷ []) ∷ rs
grow c ((f ∷ fs) ∷ rs) = ((c ∷ f) ∷ fs) ∷ rs

abbrev pub new_field : Page → Page
new_field [] = ([] ∷ []) ∷ []
new_field (r ∷ rs) = ([] ∷ r) ∷ rs

abbrev pub act_on : Act → ℕ → Page → Page
act_on keep c page = grow c page
act_on skip c page = page
act_on end_field c page = new_field page
act_on end_record c page = ([] ∷ []) ∷ page

unfoldable pub read : Place → List ℕ → Page
unfolding turn
read p [] = ([] ∷ []) ∷ []
read p (c ∷ cs) = act_on (turn p (mark_of c)).1 c (read (turn p (mark_of c)).0 cs)

-- A document may begin with a byte order mark.
unfoldable pub read_document : List ℕ → Page
unfolding read
read_document [] = []
read_document (c ∷ cs) = if c == byte_order_mark then read start cs else read start (c ∷ cs)

abbrev before_first : List ℕ → Page → Page
before_first [] page = page
before_first (c ∷ cs) page = grow c (before_first cs page)

before_first-cons :
    (s : List ℕ) (fs : List (List ℕ)) (rs : Page) → before_first s (([] ∷ fs) ∷ rs) ≡ (s ∷ fs) ∷ rs
before_first-cons [] fs rs = refl
before_first-cons (c ∷ s) fs rs = rw (before_first-cons s fs rs) refl

kept_in_quotes : (c : ℕ) → (c == quote) ≡ false → turn quoted (mark_of c) ≡ (quoted, keep)
unfolding turn
kept_in_quotes c h = ground arith

kept_plain : (c : ℕ) → is_special c ≡ false → turn plain (mark_of c) ≡ (plain, keep)
unfolding turn
kept_plain c h = ground arith

kept_first : (c : ℕ) → is_special c ≡ false → turn start (mark_of c) ≡ (plain, keep)
unfolding turn
kept_first c h = ground arith

read-quoted :
    (s rest : List ℕ)
    → read quoted (double_quotes s ++ (quote ∷ rest)) ≡ before_first s (read behind rest)
unfolding read turn double_quotes
read-quoted [] rest = refl
read-quoted (c ∷ s) rest = elim (Bool-cases (c == quote)) [
  | inl e ↦ let same : c ≡ quote = ground arith in rw (same, read-quoted s rest) refl
  | inr e ↦ rw (e, kept_in_quotes c e, read-quoted s rest) refl
]

read-plain :
    (s rest : List ℕ)
    → any is_special s ≡ false
    → read plain (s ++ rest) ≡ before_first s (read plain rest)
unfolding read
read-plain [] rest h = refl
read-plain (c ∷ s) rest h =
    let free : is_special c ≡ false = ground arith in
    let others : any is_special s ≡ false = ground arith in
    rw (kept_plain c free, read-plain s rest others) refl

-- Behind a field there is the end, a comma or the end of a line.
data Ending : List ℕ → Page → Type 0 where
  at_end : Ending [] (([] ∷ []) ∷ [])
  at_comma : (t : List ℕ) → Ending (comma ∷ t) (new_field (read start t))
  at_line : (t : List ℕ) → Ending (carriage_return ∷ line_feed ∷ t) (([] ∷ []) ∷ read start t)

read-Ending :
    (p : Place) {rest : List ℕ} {page : Page}
    → (p ≡ start) ⊎ ((p ≡ plain) ⊎ (p ≡ behind))
    → Ending rest page
    → read p rest ≡ page
unfolding read turn
read-Ending p h at_end = refl
read-Ending p (inl h) (at_comma t) = rw h refl
read-Ending p (inr (inl h)) (at_comma t) = rw h refl
read-Ending p (inr (inr h)) (at_comma t) = rw h refl
read-Ending p (inl h) (at_line t) = rw h refl
read-Ending p (inr (inl h)) (at_line t) = rw h refl
read-Ending p (inr (inr h)) (at_line t) = rw h refl

read-field :
    (s : List ℕ) {rest : List ℕ} {page : Page}
    → Ending rest page
    → read start (escape_text s ++ rest) ≡ before_first s page
unfolding read turn escape_text
read-field s {rest} {page} end = elim (Bool-cases (any is_special s)) [
  | inl special ↦ rw special (
      ap (read quoted) (append_assoc (double_quotes s) (quote ∷ []) rest)
      ∙ read-quoted s rest
      ∙ ap (before_first s) (read-Ending behind (inr (inr refl)) end))
  | inr none_special ↦ rw none_special (go s none_special)
]
  where
    go : (s : List ℕ) → any is_special s ≡ false → read start (s ++ rest) ≡ before_first s page
    go [] h = read-Ending start (inl refl) end
    go (c ∷ s) h =
        let free : is_special c ≡ false = ground arith in
        let others : any is_special s ≡ false = ground arith in
        rw (kept_first c free) (
          ap (grow c) (
            read-plain s rest others
            ∙ ap (before_first s) (read-Ending plain (inr (inl refl)) end)))

-- A text that a user wrote does not begin like a formula.
abbrev pub begins_formula : List ℕ → Bool
begins_formula [] = false
begins_formula (c ∷ cs) = is_trigger c

abbrev pub is_harmless : Cell → Bool
is_harmless (words s) = not (begins_formula (shown (words s)))
is_harmless _ = true

each_harmless : (c : Cell) → is_harmless c ≡ true
unfolding shown neutralize_formula
each_harmless nothing = refl
each_harmless (words []) = refl
each_harmless (words (c ∷ cs)) = ground arith
each_harmless (number s) = refl
each_harmless (raw s) = refl

-- A row that has a cell.
abbrev pub has_cell : List Cell → Bool
has_cell [] = false
has_cell (c ∷ cs) = true

read-join_row :
    (c : Cell) (cs : List Cell) {rest : List ℕ} {rs : Page}
    → Ending rest (([] ∷ []) ∷ rs)
    → read start (join_row (c ∷ cs) ++ rest) ≡ map shown (c ∷ cs) ∷ rs
unfolding join_row escape
read-join_row c [] {rest} {rs} end = read-field (shown c) end ∙ before_first-cons (shown c) [] rs
read-join_row c (d ∷ cs) {rest} {rs} end =
    ap (read start) (append_assoc (escape c) (comma ∷ join_row (d ∷ cs)) rest)
    ∙ read-field (shown c) (at_comma (join_row (d ∷ cs) ++ rest))
    ∙ ap (λ page. before_first (shown c) (new_field page)) (read-join_row d cs end)
    ∙ before_first-cons (shown c) (map shown (d ∷ cs)) rs

read-join_lines :
    (r : List Cell) (rows : List (List Cell))
    → All (λ r. has_cell r ≡ true) (r ∷ rows)
    → read start (join_lines (join_row r ∷ map join_row rows)) ≡ map (map shown) (r ∷ rows)
unfolding join_lines
read-join_lines [] rows h = absurd (ground (arith, h.0))
read-join_lines (c ∷ cs) [] h =
    ap (read start) (sym (append-nil (join_row (c ∷ cs)))) ∙ read-join_row c cs at_end
read-join_lines (c ∷ cs) (q ∷ rows) h =
    read-join_row c cs (at_line (join_lines (join_row q ∷ map join_row rows)))
    ∙ ap (λ page. map shown (c ∷ cs) ∷ page) (read-join_lines q rows h.1)

-- A table that toCsv writes, whose header and rows have at least one cell each, is read back by a
-- reader of RFC 4180, to which a comma ends a field and a line end ends a row unless they stand
-- between quotes, as exactly its header and rows, each cell with its text, whatever quotes, commas
-- and line ends the texts hold; and no cell of text that a user wrote begins with a character that
-- starts a formula.
pub read_document-to_csv :
    (headers : List (List ℕ)) (rows : List (List Cell))
    → All (λ r. has_cell r ≡ true) (map words headers ∷ rows)
    → (read_document (to_csv headers rows) ≡ map (map shown) (map words headers ∷ rows))
      × All (All (λ d. is_harmless d ≡ true)) rows
unfolding read_document to_csv
read_document-to_csv headers rows h = (
  read-join_lines (map words headers) rows h,
  All-every _ (λ r. All-every _ each_harmless r) rows,
)
