-- ===== src/Transfer/Import.antt =====
-- CSV and JSON in (src/core/transfer.js): `fromCsv`, `fromJson` after the parse, and `recordFrom`.
-- A text holds no character outside the basic plane, so that a code point is a unit of its length.
use Prim.Native.Nat.{zero, suc}
use bencpass.Prelude.{
  ℕ, ◌+◌, ◌*◌, ◌-◌, Bool, true, false, not, ◌||◌, ◌&&◌, Option, none, some, List, [], ◌∷◌, ◌⊎◌, inl,
  inr, String, map, ◌==◌, ltb, leb, length, take, if◌then◌else◌,
}
use bencpass.Map.{get, set}
use bencpass.Text.{Text, same, trim, to_lower, starts_with}
use bencpass.Text.Codes.{codes}
use bencpass.Plain.{Body, str, num, urls, as_urls, is_truthy}
use bencpass.Model.{login, new_record}
use bencpass.Transfer.Csv.{Row, parse_csv, quote_mark, is_empty}

abbrev pub max_records : ℕ
max_records = 10000

abbrev pub max_text : ℕ
max_text = 32 * 1024 * 1024

abbrev pub max_field : ℕ
max_field = 64 * 1024

abbrev pub max_urls : ℕ
max_urls = 64

-- The `code` of a TransferError
pub data TransferError : Type 0 where
  too_large too_many empty no_columns : TransferError

-- What the reading of numbers and addresses takes from the browser: `Number(s)` where it is a finite
-- number above 0 and `s` is not all digits, and the host of `new URL(s)`.
pub record Browser : Type 0 where
  pub other_number : Text → Option ℕ
  pub url_hostname : Text → Option Text

abbrev pub is_digit : ℕ → Bool
is_digit c = leb b'0' c && leb c b'9'

unfoldable pub all_digits : Text → Bool
all_digits [] = true
all_digits (c ∷ s) = is_digit c && all_digits s

unfoldable pub number_after : ℕ → Text → ℕ
number_after n [] = n
number_after n (c ∷ s) = number_after (n * 10 + (c - b'0')) s

abbrev pub positive : ℕ → Option ℕ
positive n = if n == 0 then none else some n

-- Below 1e11 a number is read as seconds.
abbrev pub as_milliseconds : Option ℕ → Option ℕ
as_milliseconds none = none
as_milliseconds (some n) = if ltb n 100000000000 then some (n * 1000) else some n

-- `epochMs`
unfoldable pub epoch_ms : Browser → Text → Option ℕ
unfolding all_digits number_after
epoch_ms b cell =
    if is_empty cell
    then none
    else as_milliseconds
        (if all_digits cell then positive (number_after 0 cell) else b.other_number cell)

-- `s.replace(/^"|"$/g, '')`
unfoldable pub unquoted : Text → Text
unquoted [] = []
unquoted (c ∷ s) = drop_last (if c == quote_mark then s else c ∷ s)
  where
    drop_last : Text → Text
    drop_last [] = []
    drop_last (d ∷ []) = if d == quote_mark then [] else d ∷ []
    drop_last (d ∷ e ∷ t) = d ∷ drop_last (e ∷ t)

abbrev pub heading : Text → Text
heading h = unquoted (to_lower (trim h))

unfoldable pub one_of : List Text → Text → Bool
unfolding same
one_of [] s = false
one_of (t ∷ ts) s = same t s || one_of ts s

-- `header.findIndex((h) => names.includes(h))`
unfoldable pub find_column : List Text → Row → Option ℕ
unfolding one_of
find_column names [] = none
find_column names (h ∷ hs) =
    let rest = find_column names hs in if one_of names h then some 0 else next rest
  where
    next : Option ℕ → Option ℕ
    next none = none
    next (some i) = some (i + 1)

pub record Columns : Type 0 where
  pub title : Option ℕ
  pub url : Option ℕ
  pub username : Option ℕ
  pub password : Option ℕ
  pub notes : Option ℕ
  pub totp : Option ℕ
  pub time_created : Option ℕ
  pub time_last_used : Option ℕ
  pub time_password_changed : Option ℕ

abbrev all_codes : List String → List Text
all_codes = map codes

-- `ALIASES`, looked up in a header
unfoldable pub columns_of : Row → Columns
unfolding find_column
columns_of header = record {
  title =
      find_column (all_codes ("name" ∷ "title" ∷ "account" ∷ "display name" ∷ "entry" ∷ [])) header;
  url =
      find_column
        (all_codes
          ("url" ∷ "login_uri" ∷ "web site" ∷ "website" ∷ "login url" ∷ "uri" ∷ "hostname" ∷ []))
        header;
  username =
      find_column
        (all_codes
          ("username" ∷ "login name" ∷ "login_username" ∷ "user name" ∷ "user" ∷ "email" ∷ []))
        header;
  password = find_column (all_codes ("password" ∷ "login_password" ∷ "pass" ∷ [])) header;
  notes = find_column (all_codes ("notes" ∷ "note" ∷ "comments" ∷ "comment" ∷ [])) header;
  totp = find_column (all_codes ("totp" ∷ "login_totp" ∷ "otpauth" ∷ "otp" ∷ [])) header;
  time_created =
      find_column (all_codes ("timecreated" ∷ "time created" ∷ "created" ∷ "creation time" ∷ []))
        header;
  time_last_used =
      find_column (all_codes ("timelastused" ∷ "time last used" ∷ "last used" ∷ [])) header;
  time_password_changed =
      find_column
        (all_codes ("timepasswordchanged" ∷ "time password changed" ∷ "password changed" ∷ []))
        header;
}

unfoldable pub nth_cell : ℕ → Row → Text
nth_cell i [] = []
nth_cell zero (c ∷ cs) = c
nth_cell (suc i) (c ∷ cs) = nth_cell i cs

-- `cell(i)`
unfoldable pub cell_at : Option ℕ → Row → Text
unfolding nth_cell
cell_at none row = []
cell_at (some i) row = take max_field (trim (nth_cell i row))

-- `a || b` on texts
abbrev pub or_text : Text → Text → Text
or_text [] b = b
or_text (c ∷ a) b = c ∷ a

abbrev bare_host : Option Text → Text
bare_host none = []
bare_host (some h) = if starts_with h (codes "www.") then drop_www h else h
  where
    drop_www : Text → Text
    drop_www (a ∷ b ∷ c ∷ d ∷ s) = s
    drop_www s = s

-- `hostOf`
unfoldable pub host_or_none : Browser → Text → Text
host_or_none b url = if is_empty url then [] else bare_host (b.url_hostname url)

abbrev pub one_url : Text → List Text
one_url [] = []
one_url (c ∷ s) = (c ∷ s) ∷ []

abbrev pub set_time : String → Option ℕ → Body → Body
set_time k none r = r
set_time k (some t) r = set k (num t) r

abbrev or_zero : Option ℕ → ℕ
or_zero none = 0
or_zero (some n) = n

abbrev max_of : ℕ → ℕ → ℕ
max_of m n = if ltb m n then n else m

-- `if (created || pwChanged) rec.updated = …`
abbrev pub last_written : Option ℕ → Option ℕ → Option ℕ
last_written none none = none
last_written created changed = some (max_of (or_zero created) (or_zero changed))

-- `empty`
unfoldable pub has_nothing : Body → Bool
unfolding get
has_nothing r =
    not (is_truthy (get "password" r))
    && not (is_truthy (get "username" r))
    && (length (as_urls (get "urls" r)) == 0)
    && not (is_truthy (get "notes" r))

module _ (b : Browser) (now : ℕ) (at : Columns) where
  -- The fields that a row gives to `newRecord`
  unfoldable pub row_fields : Row → Body
  unfolding cell_at host_or_none
  row_fields row =
      ("type", str login)
      ∷ (
        "title",
        str (
            or_text (cell_at at.title row) (
              or_text (host_or_none b (cell_at at.url row))
                (or_text (cell_at at.username row) (codes "Imported")))),
      )
      ∷ ("username", str (cell_at at.username row))
      ∷ ("password", str (cell_at at.password row))
      ∷ ("notes", str (cell_at at.notes row))
      ∷ ("totp", str (cell_at at.totp row))
      ∷ ("urls", urls (one_url (cell_at at.url row)))
      ∷ []

  -- The dates of the file, over those of `newRecord`
  unfoldable pub dated_row : Row → Body → Body
  unfolding epoch_ms cell_at
  dated_row row rec =
      let created = epoch_ms b (cell_at at.time_created row) in
      let used = epoch_ms b (cell_at at.time_last_used row) in
      let changed = epoch_ms b (cell_at at.time_password_changed row) in
      set_time "updated" (last_written created changed) (
        set_time "passwordChanged" changed
          (set_time "lastUsed" used (set_time "created" created rec)))

  unfoldable pub add_record : Row → Option Body → List Body → List Body
  unfolding dated_row has_nothing
  add_record row none rest = rest
  add_record row (some rec) rest =
      if has_nothing (dated_row row rec) then rest else dated_row row rec ∷ rest

  unfoldable pub is_blank : Row → Bool
  is_blank [] = true
  is_blank (c ∷ cs) = is_empty c && is_blank cs

  unfoldable pub import_rows : List Row → List Body
  unfolding is_blank row_fields add_record
  import_rows [] = []
  import_rows (row ∷ rows) =
      let rest = import_rows rows in
      if is_blank row then rest else add_record row (new_record (row_fields row) now) rest

abbrev pub is_missing : Option ℕ → Bool
is_missing none = true
is_missing (some i) = false

abbrev pub not_empty_or : TransferError → List Body → TransferError ⊎ List Body
not_empty_or e [] = inl e
not_empty_or e (r ∷ rs) = inr (r ∷ rs)

module _ (b : Browser) (now : ℕ) where
  -- `fromCsv` on the columns
  unfoldable pub from_columns : Columns → List Row → TransferError ⊎ List Body
  unfolding import_rows
  from_columns at rows =
      if is_missing at.password && is_missing at.username
      then inl no_columns
      else not_empty_or empty (import_rows b now at rows)

  -- `fromCsv` on the rows
  unfoldable pub from_rows : List Row → TransferError ⊎ List Body
  unfolding from_columns columns_of
  from_rows [] = inl empty
  from_rows (header ∷ rows) =
      if ltb max_records (length rows)
      then inl too_many
      else from_columns (columns_of (map heading header)) rows

  -- `fromCsv`
  unfoldable pub from_csv : Text → TransferError ⊎ List Body
  unfolding from_rows parse_csv
  from_csv text = if ltb max_text (length text) then inl too_large else from_rows (parse_csv text)
