-- ===== src/Transfer/Csv.antt =====
-- CSV out and in (src/core/transfer.js): `toCsv`, `csvCell` and `parseCsv`.
use bencpass.Prelude.{
  ℕ, Bool, true, false, ◌||◌, ◌&&◌, Option, some, List, [], ◌∷◌, ◌++◌, map, ◌==◌, if◌then◌else◌,
}
use bencpass.Map.{get}
use bencpass.Text.{Text, join}
use bencpass.Text.Codes.{codes}
use bencpass.Plain.{
  Body, Value, str, num, neg, not_finite, flag, null, urls, history, custom, Old, or_else, text_is,
  as_urls,
}
use bencpass.Crypto.{digits}
use bencpass.Model.{login}

abbrev pub quote_mark : ℕ
quote_mark = 34

abbrev pub comma : ℕ
comma = 44

abbrev pub return : ℕ
return = 13

abbrev pub newline : ℕ
newline = 10

-- A character that would change the shape of a row
abbrev pub is_special : ℕ → Bool
is_special c = (c == quote_mark) || (c == comma) || (c == return) || (c == newline)

unfoldable pub has_special : Text → Bool
has_special [] = false
has_special (c ∷ s) = is_special c || has_special s

-- `s.replaceAll('"', '""')`
unfoldable pub doubled : Text → Text
doubled [] = []
doubled (c ∷ s) = let rest = doubled s in if c == quote_mark then c ∷ c ∷ rest else c ∷ rest

-- `csvCell`
unfoldable pub csv_cell : Text → Text
unfolding has_special doubled
csv_cell s = if has_special s then (quote_mark ∷ doubled s) ++ quote_mark ∷ [] else s

abbrev pub Row : Type 0
Row = List Text

abbrev pub crlf : Text
crlf = return ∷ newline ∷ []

unfoldable pub csv_line : Row → Text
unfolding csv_cell join
csv_line row = join comma (map csv_cell row)

-- `rows.join('\r\n') + '\r\n'`
unfoldable pub csv_text : List Row → Text
unfolding csv_line
csv_text [] = crlf
csv_text (row ∷ []) = csv_line row ++ crlf
csv_text (row ∷ next ∷ rows) = csv_line row ++ (crlf ++ csv_text (next ∷ rows))

-- The state of the loop of `parseCsv`. A character that `i++` steps over is passed.
pub record Reading : Type 0 where
  pub rows : List Row
  pub row : Row
  pub cell : Text
  pub quoted : Bool
  pub pass : Bool

abbrev pub is_empty : Text → Bool
is_empty [] = true
is_empty (c ∷ s) = false

abbrev pub next_is : ℕ → Text → Bool
next_is d [] = false
next_is d (c ∷ s) = c == d

abbrev pub add_char : ℕ → Reading → Reading
add_char c s = record s { cell = s.cell ++ c ∷ [] }

-- Inside quotes
unfoldable pub in_quotes : Reading → ℕ → Text → Reading
in_quotes s c rest =
    if c == quote_mark
    then (if next_is quote_mark rest
        then record s { cell = s.cell ++ quote_mark ∷ []; pass = true }
        else record s { quoted = false })
    else add_char c s

abbrev pub end_row : Reading → Bool → Reading
end_row s pass = record {
  rows = s.rows ++ (s.row ++ s.cell ∷ []) ∷ [];
  row = [];
  cell = [];
  quoted = s.quoted;
  pass = pass;
}

-- Outside quotes
unfoldable pub in_row : Reading → ℕ → Text → Reading
in_row s c rest =
    if (c == quote_mark) && is_empty s.cell
    then record s { quoted = true }
    else if c == comma
    then record s { row = s.row ++ s.cell ∷ []; cell = [] }
    else if (c == newline) || (c == return)
    then end_row s ((c == return) && next_is newline rest)
    else add_char c s

-- The body of the loop at one character, before the rest
unfoldable pub read_char : Reading → ℕ → Text → Reading
unfolding in_quotes in_row
read_char s c rest =
    if s.pass
    then record s { pass = false }
    else if s.quoted
    then in_quotes s c rest
    else in_row s c rest

unfoldable pub read_from : Reading → Text → Reading
unfolding read_char
read_from s [] = s
read_from s (c ∷ rest) = read_from (read_char s c rest) rest

-- A text that does not end in a newline still ends in a row.
unfoldable pub last_row : Reading → List Row
last_row s = finish s.row s.cell
  where
    finish : Row → Text → List Row
    finish [] [] = s.rows
    finish [] (c ∷ cell) = s.rows ++ ((c ∷ cell) ∷ []) ∷ []
    finish (w ∷ ws) cell = s.rows ++ (w ∷ ws ++ cell ∷ []) ∷ []

abbrev pub at_start : Reading
at_start = record { rows = []; row = []; cell = []; quoted = false; pass = false }

-- `text.replace(/^\uFEFF/, '')`
unfoldable pub drop_mark : Text → Text
drop_mark [] = []
drop_mark (c ∷ s) = if c == 0xfeff then s else c ∷ s

-- `parseCsv`
unfoldable pub parse_csv : Text → List Row
unfolding read_from last_row drop_mark
parse_csv text = last_row (read_from at_start (drop_mark text))

abbrev pub csv_columns : Row
csv_columns =
    codes "name"
    ∷ codes "url"
    ∷ codes "username"
    ∷ codes "password"
    ∷ codes "note"
    ∷ codes "timeCreated"
    ∷ codes "timeLastUsed"
    ∷ codes "timePasswordChanged"
    ∷ []

abbrev pub flag_text : Bool → Text
flag_text true = codes "true"
flag_text false = codes "false"

abbrev pub object_text : Text
object_text = codes "[object Object]"

-- `String(v)`. A number that is not finite is printed as NaN.
unfoldable pub string_of : Value → Text
unfolding digits join
string_of (str s) = s
string_of (num n) = digits n
string_of (neg n) = b'-' ∷ digits n
string_of not_finite = codes "NaN"
string_of (flag b) = flag_text b
string_of null = codes "null"
string_of (urls us) = join comma us
string_of (history olds) = join comma (map (λ (o : Old). object_text) olds)
string_of (custom fs) = join comma (map (λ (f : Text × Text). object_text) fs)

-- `csvTime`
unfoldable pub csv_time : Option Value → Text
unfolding digits
csv_time (some (num n)) = if n == 0 then [] else digits n
csv_time _ = []

-- `us[0] ?? ''`
abbrev pub first_of : List Text → Text
first_of [] = []
first_of (u ∷ us) = u

-- `r[k] ?? ''`, as a cell
abbrev pub cell_of : Option Value → Text
cell_of v = string_of (or_else v (str []))

unfoldable pub csv_row : Body → Row
unfolding get string_of csv_time
csv_row r =
    cell_of (get "title" r)
    ∷ first_of (as_urls (get "urls" r))
    ∷ cell_of (get "username" r)
    ∷ cell_of (get "password" r)
    ∷ cell_of (get "notes" r)
    ∷ csv_time (get "created" r)
    ∷ csv_time (get "lastUsed" r)
    ∷ csv_time (get "passwordChanged" r)
    ∷ []

unfoldable pub login_rows : List Body → List Row
unfolding csv_row get
login_rows [] = []
login_rows (r ∷ rs) =
    let rest = login_rows rs in if text_is (get "type" r) login then csv_row r ∷ rest else rest

-- `toCsv`
unfoldable pub to_csv : List Body → Text
unfolding csv_text login_rows
to_csv records = csv_text (csv_columns ∷ login_rows records)
