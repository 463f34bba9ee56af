-- ===== src/Sync/Codes.antt =====
-- The sequence floor that an enrolment code carries (src/core/sync.js).
pub mod RoundTrip
use bencpass.Prelude.{
  ℕ, zero, suc, ◌+◌, ◌*◌, ◌/◌, ◌%◌, Bool, ◌||◌, Option, none, some, List, [], ◌∷◌, ◌++◌, ◌==◌,
  if◌then◌else◌,
}
use bencpass.Text.{Text, dot, trim}
use bencpass.Recovery.{alphabet, char_at, upper_char}

-- The loop of `encodeFloor`, on fuel: each division by 31 brings v down, so v + 1 is enough.
unfoldable pub encode_from : ℕ → ℕ → Text
encode_from zero v = []
encode_from (suc fuel) v =
    let rest = encode_from fuel (v / 31) in
    if v / 31 == 0 then char_at (v % 31) alphabet ∷ [] else rest ++ char_at (v % 31) alphabet ∷ []

-- `encodeFloor`
unfoldable pub encode_floor : ℕ → Text
unfolding encode_from
encode_floor n = encode_from (suc n) n

abbrev next_index : Option ℕ → Option ℕ
next_index none = none
next_index (some i) = some (suc i)

-- s.indexOf(c), none for -1
abbrev pub position : ℕ → Text → Option ℕ
position c [] = none
position c (d ∷ s) = let rest = position c s in if d == c then some zero else next_index rest

-- FLOOR_ALPHABET.indexOf(c), of a character in upper case
unfoldable pub digit_of : ℕ → Option ℕ
unfolding upper_char
digit_of c = position (upper_char c) alphabet

add_digit : ℕ → Option ℕ → (ℕ → ℕ) → ℕ
add_digit v none more = 0
add_digit v (some at') more = more (v * 31 + at')

-- The loop of `decodeFloor`, at the value so far.
unfoldable pub decode_from : Text → ℕ → ℕ
unfolding add_digit
decode_from [] v = v
decode_from (c ∷ s) v = add_digit v (digit_of c) (decode_from s)

-- `decodeFloor`
unfoldable pub decode_floor : Text → ℕ
unfolding decode_from
decode_floor s = decode_from s 0

-- `packEnrolCode`
unfoldable pub pack_enrol_code : Text → ℕ → Text
unfolding encode_floor
pack_enrol_code code floor = if floor == 0 then code else code ++ dot ∷ encode_floor floor

abbrev put_before : ℕ → Option (Text × Text) → Option (Text × Text)
put_before c none = none
put_before c (some (a, b)) = some (c ∷ a, b)

abbrev or_cut : ℕ → Text → Option (Text × Text) → Option (Text × Text)
or_cut c s (some r) = put_before c (some r)
or_cut c s none = if c == dot then some ([], s) else none

-- What stands before and after the last dot, if there is one.
unfoldable pub cut_last : Text → Option (Text × Text)
cut_last [] = none
cut_last (c ∷ s) = or_cut c s (cut_last s)

-- `{ code, floor }`
pub record EnrolCode : Type 0 where
  pub code : Text
  pub floor : ℕ

abbrev pub the_code : Text → ℕ → EnrolCode
the_code code floor = record { code = code; floor = floor }

abbrev pub read_cut : Text → Option (Text × Text) → EnrolCode
read_cut s none = the_code s 0
read_cut s (some (a, b)) = the_code a (decode_floor b)

-- `splitEnrolCode`
unfoldable pub split_enrol_code : Text → EnrolCode
unfolding cut_last
split_enrol_code raw = read_cut (trim raw) (cut_last (trim raw))
