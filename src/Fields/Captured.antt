-- ===== src/Fields/Captured.antt =====
-- What a captured value may be (src/core/fields.js).
use bencpass.Prelude.{ℕ, Bool, true, false, not, ◌||◌, ◌&&◌, [], ◌∷◌, leb, ◌==◌}
use bencpass.Text.{Text, trim}

unfoldable pub all_decimal : Text → Bool
all_decimal [] = true
all_decimal (c ∷ s) = (leb b'0' c && leb c b'9') && all_decimal s

abbrev pub is_empty_value : Text → Bool
is_empty_value [] = true
is_empty_value (c ∷ s) = false

-- `plausibleUsername`
unfoldable pub plausible_username : Text → Bool
unfolding trim all_decimal
plausible_username value = let v = trim value in is_empty_value v || not (all_decimal v)

-- A character that stands for a hidden one
abbrev pub is_mask : ℕ → Bool
is_mask c =
    (c == b'*')
    || (c == 0x2022)
    || (c == 0x25CF)
    || (c == 0x25CB)
    || (c == 0x25E6)
    || (c == 0x2219)
    || (c == 0x00B7)
    || (c == 0x2027)
    || (c == 0x2043)
    || (c == 0x25AA)
    || (c == 0x25A0)

-- `MASKED`
unfoldable pub all_masked : Text → Bool
all_masked [] = true
all_masked (c ∷ s) = is_mask c && all_masked s

-- `plausiblePassword`
unfoldable pub plausible_password : Text → Bool
unfolding trim all_masked
plausible_password value = let v = trim value in not (is_empty_value v) && not (all_masked v)
