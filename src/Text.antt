-- ===== src/Text.antt =====
-- Texts that the program walks, as lists of code points, with the operations of JavaScript strings
-- that it uses on them. Case is that of ASCII.
pub mod Laws
pub mod Split
pub mod Codes
use bencpass.Prelude.{
  ℕ, ◌+◌, ◌-◌, Bool, true, false, ◌&&◌, ◌||◌, List, [], ◌∷◌, ◌++◌, map, leb, ltb, ◌==◌, length,
  take, if◌then◌else◌,
}
use mathlib.Core.List.{reverse}

abbrev pub Text : Type 0
Text = List ℕ

abbrev pub dot : ℕ
dot = b'.'

-- s === t
unfoldable pub same : Text → Text → Bool
same [] [] = true
same (x ∷ s) (y ∷ t) = (x == y) && same s t
same _ _ = false

-- s.startsWith(t)
unfoldable pub starts_with : Text → Text → Bool
starts_with s [] = true
starts_with [] (y ∷ t) = false
starts_with (x ∷ s) (y ∷ t) = (x == y) && starts_with s t

-- s.endsWith(t)
unfoldable pub ends_with : Text → Text → Bool
unfolding same
ends_with [] t = same [] t
ends_with (x ∷ s) t = same (x ∷ s) t || ends_with s t

-- s.includes(c), for one character
unfoldable pub has_char : ℕ → Text → Bool
has_char c [] = false
has_char c (x ∷ s) = (x == c) || has_char c s

-- A line terminator or white space, which `trim` removes.
abbrev pub is_space : ℕ → Bool
is_space c =
    (leb 9 c && leb c 13)
    || (c == 0x20)
    || (c == 0xa0)
    || (c == 0x1680)
    || (leb 0x2000 c && leb c 0x200a)
    || (c == 0x2028)
    || (c == 0x2029)
    || (c == 0x202f)
    || (c == 0x205f)
    || (c == 0x3000)
    || (c == 0xfeff)

unfoldable pub trim_start : Text → Text
trim_start [] = []
trim_start (c ∷ s) = let rest = trim_start s in if is_space c then rest else c ∷ s

-- s.trim()
unfoldable pub trim : Text → Text
unfolding trim_start
trim s = reverse (trim_start (reverse (trim_start s)))

abbrev pub lower_char : ℕ → ℕ
lower_char c = if leb b'A' c && leb c b'Z' then c + 32 else c

-- s.toLowerCase()
unfoldable pub to_lower : Text → Text
to_lower [] = []
to_lower (c ∷ s) = lower_char c ∷ to_lower s

-- s.replace(/\.$/, '')
unfoldable pub drop_dot : Text → Text
drop_dot [] = []
drop_dot (c ∷ []) = if c == dot then [] else c ∷ []
drop_dot (c ∷ d ∷ s) = c ∷ drop_dot (d ∷ s)

-- s.slice(0, -n)
unfoldable pub drop_end : ℕ → Text → Text
drop_end n s = take (length s - n) s

abbrev cons_head : ℕ → List Text → List Text
cons_head c [] = (c ∷ []) ∷ []
cons_head c (w ∷ ws) = (c ∷ w) ∷ ws

-- s.split(c)
unfoldable pub split : ℕ → Text → List Text
split c [] = [] ∷ []
split c (x ∷ s) = let rest = split c s in if x == c then [] ∷ rest else cons_head x rest

abbrev pub join_more : ℕ → List Text → Text
join_more c [] = []
join_more c (w ∷ ws) = c ∷ (w ++ join_more c ws)

-- ws.join(c)
unfoldable pub join : ℕ → List Text → Text
join c [] = []
join c (w ∷ ws) = w ++ join_more c ws
