-- ===== src/Transfer/Bounds.antt =====
-- How much a CSV import takes in (src/core/transfer.js).
use Prim.Native.Nat.{suc}
use bencpass.Prelude.{
  ℕ, false, Bool-cases, ◌≤◌, ◌&&◌, Option, none, some, List, [], ◌∷◌, ◌⊎◌, ◌≡◌, inl, inr, All, ltb,
  length, map, arith,
}
use bencpass.Text.{Text}
use bencpass.Plain.{Body}
use bencpass.Model.{new_record}
use bencpass.Transfer.Csv.{Row, parse_csv}
use bencpass.Transfer.Import.{
  TransferError, empty, Browser, Columns, columns_of, heading, max_records, max_text, has_nothing,
  dated_row, row_fields, add_record, is_blank, import_rows, not_empty_or, from_columns, from_rows,
  from_csv, is_missing,
}

-- At most `n` records, each with something in it
abbrev pub IsWorth : ℕ → List Body → Type 0
IsWorth n rs = (length rs ≤ n) × All (λ (r : Body). has_nothing r ≡ false) rs

one_more : (n : ℕ) (rs : List Body) → IsWorth n rs → IsWorth (suc n) rs
one_more n rs h = (omega (arith, h.0), h.1)

-- An error, or records within the bounds
abbrev pub ImportOutcome : TransferError ⊎ List Body → Type 0
ImportOutcome (inl e) = Unit {0}
ImportOutcome (inr rs) = IsWorth max_records rs

module _ (b : Browser) (now : ℕ) where
  add_record-IsWorth :
      (at : Columns) (row : Row) (o : Option Body) (rest : List Body) (n : ℕ)
      → IsWorth n rest
      → IsWorth (suc n) (add_record b now at row o rest)
  unfolding add_record
  add_record-IsWorth at row none rest n h = one_more n rest h
  add_record-IsWorth at row (some rec) rest n h =
      elim (Bool-cases (has_nothing (dated_row b now at row rec))) [
        | inl e ↦ rw e (one_more n rest h)
        | inr e ↦ rw e (omega (arith, h.0), (e, h.1))
      ]

  import_rows-IsWorth :
      (at : Columns) (rows : List Row) → IsWorth (length rows) (import_rows b now at rows)
  unfolding import_rows
  import_rows-IsWorth at [] = (omega arith, tt)
  import_rows-IsWorth at (row ∷ rows) = elim (Bool-cases (is_blank b now at row)) [
    | inl e ↦
        rw e (one_more (length rows) (import_rows b now at rows) (import_rows-IsWorth at rows))
    | inr e ↦ rw e (
        add_record-IsWorth at row (new_record (row_fields b now at row) now)
          (import_rows b now at rows) (length rows) (import_rows-IsWorth at rows))
  ]

  not_empty_or-IsWorth :
      (e : TransferError) (n : ℕ) (rs : List Body)
      → IsWorth n rs
      → n ≤ max_records
      → ImportOutcome (not_empty_or e rs)
  not_empty_or-IsWorth e n [] h k = tt
  not_empty_or-IsWorth e n (r ∷ rs) h k = (omega (arith, h.0), h.1)

  from_columns-IsWorth :
      (at : Columns) (rows : List Row)
      → length rows ≤ max_records
      → ImportOutcome (from_columns b now at rows)
  unfolding from_columns
  from_columns-IsWorth at rows k =
      elim (Bool-cases (is_missing at.password && is_missing at.username)) [
        | inl e ↦ rw e tt
        | inr e ↦ rw e (
            not_empty_or-IsWorth empty (length rows) (import_rows b now at rows)
              (import_rows-IsWorth at rows) k)
      ]

  from_rows-IsWorth : (rows : List Row) → ImportOutcome (from_rows b now rows)
  unfolding from_rows
  from_rows-IsWorth [] = tt
  from_rows-IsWorth (header ∷ rows) = elim (Bool-cases (ltb max_records (length rows))) [
    | inl e ↦ rw e tt
    | inr e ↦ rw e (from_columns-IsWorth (columns_of (map heading header)) rows (ground (arith, e)))
  ]

  -- A CSV import ends in an error, or yields at most 10,000 records, each with a password, a
  -- username, a URL or notes.
  pub from_csv-IsWorth : (text : Text) → ImportOutcome (from_csv b now text)
  unfolding from_csv
  from_csv-IsWorth text = elim (Bool-cases (ltb max_text (length text))) [
    | inl e ↦ rw e tt
    | inr e ↦ rw e (from_rows-IsWorth (parse_csv text))
  ]
