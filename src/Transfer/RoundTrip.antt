-- ===== src/Transfer/RoundTrip.antt =====
-- What `parseCsv` reads back of what `csvCell` and `toCsv` wrote (src/core/transfer.js).
use mathlib.Core.List.{append_assoc, append-nil}
use mathlib.Core.Path.{◌∙◌, subst}
use bencpass.Prelude.{
  ℕ, true, false, Bool-cases, List, [], ◌∷◌, ◌++◌, ◌≡◌, refl, ap, sym, All, inl, inr, ◌==◌, arith,
}
use bencpass.Text.{Text, join}
use bencpass.Map.{get}
use bencpass.Plain.{Body, text_is}
use bencpass.Model.{login}
use bencpass.Transfer.Csv.{
  quote_mark, comma, is_special, has_special, doubled, csv_cell, Row, crlf, csv_line, csv_text,
  Reading, next_is, in_quotes, in_row, read_char, read_from, last_row, drop_mark, parse_csv,
  csv_columns, csv_row, login_rows, to_csv,
}

-- Outside quotes, and inside
abbrev outside : List Row → Row → Text → Reading
outside rows row cell = record { rows = rows; row = row; cell = cell; quoted = false; pass = false }

abbrev inside : List Row → Row → Text → Reading
inside rows row cell = record { rows = rows; row = row; cell = cell; quoted = true; pass = false }

quote_of : (c : ℕ) → c == quote_mark ≡ true → c ≡ quote_mark
quote_of c e = ground (arith, e)

plain_head : (c : ℕ) (t : Text) → has_special (c ∷ t) ≡ false → is_special c ≡ false
unfolding has_special
plain_head c t h = ground (arith, h)

doubled_other : (c : ℕ) (t : Text) → c == quote_mark ≡ false → doubled (c ∷ t) ≡ c ∷ doubled t
unfolding doubled
doubled_other c t e = ground (arith, e)

plain_tail : (c : ℕ) (t : Text) → has_special (c ∷ t) ≡ false → has_special t ≡ false
unfolding has_special
plain_tail c t h = ground (arith, h)

module _ (rows : List Row) where
  read_plain_char :
      (row : Row) (cell : Text) (c : ℕ) (s : Text)
      → is_special c ≡ false
      → read_char (outside rows row cell) c s ≡ outside rows row (cell ++ c ∷ [])
  unfolding read_char in_row
  read_plain_char row cell c s h = ground (arith, h)

  read_plain :
      (row : Row) (cell t s : Text)
      → has_special t ≡ false
      → read_from (outside rows row cell) (t ++ s) ≡ read_from (outside rows row (cell ++ t)) s
  unfolding read_from has_special
  read_plain row cell [] s h = rw (append-nil cell) refl
  read_plain row cell (c ∷ t) s h =
      ap (λ (r : Reading). read_from r (t ++ s))
        (read_plain_char row cell c (t ++ s) (plain_head c t h))
      ∙ read_plain row (cell ++ c ∷ []) t s (plain_tail c t h)
      ∙ ap (λ (x : Text). read_from (outside rows row x) s) (append_assoc cell (c ∷ []) t)

  read_inner_char :
      (row : Row) (cell : Text) (c : ℕ) (s : Text)
      → c == quote_mark ≡ false
      → read_char (inside rows row cell) c s ≡ inside rows row (cell ++ c ∷ [])
  unfolding read_char in_quotes
  read_inner_char row cell c s e = ground (arith, e)

  read_quoted :
      (row : Row) (cell t s : Text)
      → next_is quote_mark s ≡ false
      → read_from (inside rows row cell) (doubled t ++ quote_mark ∷ s)
        ≡ read_from (outside rows row (cell ++ t)) s
  unfolding read_from doubled read_char in_quotes
  read_quoted row cell [] s h = rw h (rw (append-nil cell) refl)
  read_quoted row cell (c ∷ t) s h = elim (Bool-cases (c == quote_mark)) [
    | inl e ↦
        subst
          (λ (x : ℕ).
            read_from (inside rows row cell) (doubled (x ∷ t) ++ quote_mark ∷ s)
            ≡ read_from (outside rows row (cell ++ x ∷ t)) s)
          (sym (quote_of c e))
          (read_quoted row (cell ++ quote_mark ∷ []) t s h
            ∙ ap (λ (x : Text). read_from (outside rows row x) s)
                (append_assoc cell (quote_mark ∷ []) t))
    | inr e ↦
        ap (λ (x : Text). read_from (inside rows row cell) (x ++ quote_mark ∷ s))
          (doubled_other c t e)
        ∙ ap (λ (r : Reading). read_from r (doubled t ++ quote_mark ∷ s))
            (read_inner_char row cell c (doubled t ++ quote_mark ∷ s) e)
        ∙ read_quoted row (cell ++ c ∷ []) t s h
        ∙ ap (λ (x : Text). read_from (outside rows row x) s) (append_assoc cell (c ∷ []) t)
  ]

  read_cell :
      (row : Row) (t s : Text)
      → next_is quote_mark s ≡ false
      → read_from (outside rows row []) (csv_cell t ++ s) ≡ read_from (outside rows row t) s
  unfolding csv_cell read_from read_char in_row
  read_cell row t s h = elim (Bool-cases (has_special t)) [
    | inr e ↦ rw e (read_plain row [] t s e)
    | inl e ↦ rw e (
        ap (λ (x : Text). read_from (inside rows row []) x)
          (append_assoc (doubled t) (quote_mark ∷ []) s)
        ∙ read_quoted row [] t s h)
  ]

  read_line :
      (row : Row) (t : Text) (ts : Row) (s : Text)
      → read_from (outside rows row []) (csv_line (t ∷ ts) ++ (crlf ++ s))
        ≡ read_from (outside (rows ++ (row ++ t ∷ ts) ∷ []) [] []) s
  unfolding csv_line read_from read_char in_row join
  read_line row t [] s =
      ap (λ (x : Text). read_from (outside rows row []) (x ++ (crlf ++ s)))
        (append-nil (csv_cell t))
      ∙ read_cell row t (crlf ++ s) refl
  read_line row t (t' ∷ ts) s =
      ap (λ (x : Text). read_from (outside rows row []) x)
        (append_assoc (csv_cell t) (comma ∷ csv_line (t' ∷ ts)) (crlf ++ s))
      ∙ read_cell row t (comma ∷ (csv_line (t' ∷ ts) ++ (crlf ++ s))) refl
      ∙ read_line (row ++ t ∷ []) t' ts s
      ∙ ap (λ (x : Row). read_from (outside (rows ++ x ∷ []) [] []) s)
          (append_assoc row (t ∷ []) (t' ∷ ts))

-- A row with a cell
abbrev pub IsRow : Row → Type 0
IsRow [] = ⊥
IsRow (t ∷ ts) = Unit {0}

read_text :
    (rows : List Row) (row : Row) (next : List Row)
    → All IsRow (row ∷ next)
    → read_from (outside rows [] []) (csv_text (row ∷ next)) ≡ outside (rows ++ row ∷ next) [] []
unfolding csv_text read_from
read_text rows [] next h = elim h.0 [ ]
read_text rows (t ∷ ts) [] h = read_line rows [] t ts []
read_text rows (t ∷ ts) (row ∷ next) h =
    read_line rows [] t ts (csv_text (row ∷ next))
    ∙ read_text (rows ++ (t ∷ ts) ∷ []) row next h.1
    ∙ ap (λ (x : List Row). outside x [] []) (append_assoc rows ((t ∷ ts) ∷ []) (row ∷ next))

parse-csv_text :
    (row : Row) (next : List Row)
    → All IsRow (row ∷ next)
    → drop_mark (csv_text (row ∷ next)) ≡ csv_text (row ∷ next)
    → parse_csv (csv_text (row ∷ next)) ≡ row ∷ next
unfolding parse_csv last_row
parse-csv_text row next h m = rw (m, read_text [] row next h) refl

login_rows-IsRow : (records : List Body) → All IsRow (login_rows records)
unfolding login_rows csv_row
login_rows-IsRow [] = tt
login_rows-IsRow (r ∷ rs) = elim (Bool-cases (text_is (get "type" r) login)) [
  | inl e ↦ rw e (tt, login_rows-IsRow rs)
  | inr e ↦ rw e (login_rows-IsRow rs)
]

columns_clean :
    (rows : List Row) → drop_mark (csv_text (csv_columns ∷ rows)) ≡ csv_text (csv_columns ∷ rows)
unfolding csv_text csv_line csv_cell has_special drop_mark join
columns_clean [] = refl
columns_clean (row ∷ rows) = refl

-- What the CSV reader reads of the CSV of any records is the row of the column names and the row
-- of each login, cell by cell, whatever quotes, commas and line ends the cells hold.
pub parse-to_csv :
    (records : List Body) → parse_csv (to_csv records) ≡ csv_columns ∷ login_rows records
unfolding to_csv
parse-to_csv records =
    parse-csv_text csv_columns (login_rows records) (tt, login_rows-IsRow records)
      (columns_clean (login_rows records))
