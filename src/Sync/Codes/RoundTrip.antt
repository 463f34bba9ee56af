-- ===== src/Sync/Codes/RoundTrip.antt =====
-- A floor that is packed into a code is read back (src/core/sync.js).
use bencpass.Prelude.{
  ℕ, zero, suc, ◌+◌, ◌*◌, ◌/◌, ◌%◌, ◌<◌, ◌≡◌, ◌∙◌, refl, ap, Bool, true, false, Option, none, some,
  [], ◌∷◌, ◌++◌, ◌==◌, not, All, arith, Bool-cases, inl, inr, below, below-all, if◌then◌else◌,
}
use bencpass.Text.{Text, dot, has_char, trim}
use bencpass.Recovery.{alphabet, char_at, upper_char}
use bencpass.Sync.Codes.{
  encode_from, encode_floor, digit_of, decode_from, decode_floor, pack_enrol_code, cut_last,
  read_cut, split_enrol_code, the_code,
}

is_digit_value : ℕ → Option ℕ → Bool
is_digit_value i none = false
is_digit_value i (some j) = i == j

reads_back : ℕ → Bool
reads_back i = is_digit_value i (digit_of (char_at i alphabet))

all_read_back : below 31 reads_back ≡ true
unfolding reads_back is_digit_value digit_of upper_char
all_read_back = refl

is_digit_value-eq : (i : ℕ) (o : Option ℕ) → is_digit_value i o ≡ true → o ≡ some i
unfolding is_digit_value
is_digit_value-eq i none h = ground (arith, h)
is_digit_value-eq i (some j) h = ground (arith, h)

digit_of-char_at : (i : ℕ) → i < 31 → digit_of (char_at i alphabet) ≡ some i
unfolding reads_back
digit_of-char_at i h =
    is_digit_value-eq i (digit_of (char_at i alphabet)) (below-all 31 i reads_back all_read_back h)

-- What `encodeFloor` writes: digits, and no dot among them.
IsDigit : ℕ → Type 0
IsDigit c = (i : ℕ) × (digit_of c ≡ some i) × ((c == dot) ≡ false)

no_dot : ℕ → Bool
no_dot i = not (char_at i alphabet == dot)

all_no_dot : below 31 no_dot ≡ true
unfolding no_dot
all_no_dot = refl

char_at-ne-dot : (i : ℕ) → i < 31 → (char_at i alphabet == dot) ≡ false
unfolding no_dot
char_at-ne-dot i h = not_true (char_at i alphabet == dot) (below-all 31 i no_dot all_no_dot h)
  where
    not_true : (b : Bool) → not b ≡ true → b ≡ false
    not_true b h = ground (arith, h)

char_at-IsDigit : (i : ℕ) → i < 31 → IsDigit (char_at i alphabet)
unfolding IsDigit
char_at-IsDigit i h = (i, digit_of-char_at i h, char_at-ne-dot i h)

All-append : (P : ℕ → Type 0) (s t : Text) → All P s → All P t → All P (s ++ t)
All-append P [] t h k = k
All-append P (c ∷ s) t h k = (h.0, All-append P s t h.1 k)

All-if : (P : ℕ → Type 0) (b : Bool) (s t : Text) → All P s → All P t → All P (if b then s else t)
All-if P true s t h k = h
All-if P false s t h k = k

encode_from-IsDigit : (fuel n : ℕ) → All IsDigit (encode_from fuel n)
unfolding encode_from
encode_from-IsDigit zero n = tt
encode_from-IsDigit (suc fuel) n =
    let last : All IsDigit (char_at (n % 31) alphabet ∷ []) =
      (char_at-IsDigit (n % 31) (omega arith), tt) in
    All-if IsDigit (n / 31 == 0) (char_at (n % 31) alphabet ∷ [])
      (encode_from fuel (n / 31) ++ char_at (n % 31) alphabet ∷ []) last
      (All-append IsDigit (encode_from fuel (n / 31)) (char_at (n % 31) alphabet ∷ [])
        (encode_from-IsDigit fuel (n / 31)) last)

decode_from-append :
    (s t : Text) (v : ℕ) → All IsDigit s → decode_from (s ++ t) v ≡ decode_from t (decode_from s v)
unfolding decode_from IsDigit
decode_from-append [] t v h = refl
decode_from-append (c ∷ s) t v h = rw h.0.1 (decode_from-append s t (v * 31 + h.0.0) h.1)

decode_from-one : (c i v : ℕ) → digit_of c ≡ some i → decode_from (c ∷ []) v ≡ v * 31 + i
unfolding decode_from
decode_from-one c i v h = rw h refl

quotient_lt : (fuel n : ℕ) → (n / 31 == 0) ≡ false → n < suc fuel → n / 31 < fuel
quotient_lt fuel n t h = ground (arith, t, h)

one_digit : (n : ℕ) → (n / 31 == 0) ≡ true → 0 * 31 + n % 31 ≡ n
one_digit n t = ground (arith, t)

decode_from-encode_from : (fuel n : ℕ) → n < fuel → decode_from (encode_from fuel n) 0 ≡ n
unfolding encode_from
decode_from-encode_from zero n h = absurd (omega (arith, h))
decode_from-encode_from (suc fuel) n h =
    let c = char_at (n % 31) alphabet in
    let d = digit_of-char_at (n % 31) (omega arith) in
    elim (Bool-cases (n / 31 == 0)) [
      | inl t ↦ rw t (decode_from-one c (n % 31) 0 d ∙ one_digit n t)
      | inr t ↦ rw t (
          decode_from-append (encode_from fuel (n / 31)) (c ∷ []) 0
            (encode_from-IsDigit fuel (n / 31))
          ∙ decode_from-one c (n % 31) (decode_from (encode_from fuel (n / 31)) 0) d
          ∙ ap (λ (m : ℕ). m * 31 + n % 31)
              (decode_from-encode_from fuel (n / 31) (quotient_lt fuel n t h))
          ∙ omega arith)
    ]

decode_floor-encode_floor : (n : ℕ) → decode_floor (encode_floor n) ≡ n
unfolding decode_floor encode_floor
decode_floor-encode_floor n = decode_from-encode_from (suc n) n (omega arith)

-- A text without a dot is not cut; one with a dot in front of it is cut there.
cut_last-none : (s : Text) → has_char dot s ≡ false → cut_last s ≡ none
unfolding cut_last has_char
cut_last-none [] h = refl
cut_last-none (c ∷ s) h = rw (cut_last-none s (ground (arith, h))) (ground (arith, h))

cut_last-digits : (s : Text) → All IsDigit s → cut_last s ≡ none
unfolding cut_last IsDigit
cut_last-digits [] h = refl
cut_last-digits (c ∷ s) h = rw (cut_last-digits s h.1, h.0.2) refl

cut_last-append : (code s : Text) → All IsDigit s → cut_last (code ++ dot ∷ s) ≡ some (code, s)
unfolding cut_last
cut_last-append [] s h = rw (cut_last-digits s h) refl
cut_last-append (c ∷ code) s h = rw (cut_last-append code s h) refl

no_floor : (code : Text) (floor : ℕ) → (floor == 0) ≡ true → the_code code 0 ≡ the_code code floor
no_floor code floor t = ap (the_code code) (ground (arith, t))

-- An enrolment code without a dot and the floor that is packed after it read back as they were,
-- also with white space around what is pasted.
pub split-pack_enrol_code :
    (code raw : Text) (floor : ℕ)
    → has_char dot code ≡ false
    → trim raw ≡ pack_enrol_code code floor
    → split_enrol_code raw ≡ the_code code floor
unfolding split_enrol_code pack_enrol_code encode_floor
split-pack_enrol_code code raw floor h q = elim (Bool-cases (floor == 0)) [
  | inl t ↦
      ap (λ (s : Text). read_cut s (cut_last s)) q
      ∙ rw t (rw (cut_last-none code h) (no_floor code floor t))
  | inr t ↦
      ap (λ (s : Text). read_cut s (cut_last s)) q
      ∙ rw t (
          rw (cut_last-append code (encode_floor floor) (encode_from-IsDigit (suc floor) floor))
            (ap (λ (n : ℕ). the_code code n) (decode_floor-encode_floor floor)))
]
