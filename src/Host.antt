-- ===== src/Host.antt =====
-- Host names: normal form, address literals, the public suffix and the registrable domain
-- (src/core/match.js).
pub mod Suffix
pub mod Domain
pub mod Site
mod Tests
use bencpass.Prelude.{
  ℕ, ◌+◌, ◌-◌, ◌*◌, ◌≡◌, Bool, true, false, not, ◌&&◌, ◌||◌, Option, none, some, List, [], ◌∷◌,
  ◌++◌, leb, ltb, ◌==◌, length, if◌then◌else◌,
}
use bencpass.Text.{
  Text, dot, same, starts_with, ends_with, has_char, trim, to_lower, drop_dot, drop_end, split,
  join,
}
use bencpass.Text.Codes.{codes}

-- `normaliseHost`
unfoldable pub normalise_host : Text → Text
unfolding trim to_lower drop_dot
normalise_host host = drop_dot (to_lower (trim host))

abbrev is_digit : ℕ → Bool
is_digit c = leb b'0' c && leb c b'9'

abbrev all_digits : Text → Bool
all_digits [] = true
all_digits (c ∷ s) = is_digit c && all_digits s

-- `\d{1,3}`
abbrev is_octet : Text → Bool
is_octet s = leb 1 (length s) && leb (length s) 3 && all_digits s

abbrev four_octets : List Text → Bool
four_octets (a ∷ b ∷ c ∷ d ∷ []) = is_octet a && is_octet b && is_octet c && is_octet d
four_octets _ = false

-- `IPV4.test(h)`
unfoldable pub is_ipv4 : Text → Bool
unfolding split
is_ipv4 h = four_octets (split dot h)

-- `isIpHost`
unfoldable pub is_ip_host : Text → Bool
unfolding normalise_host is_ipv4 has_char starts_with ends_with
is_ip_host host =
    let h = normalise_host host in
    is_ipv4 h || has_char b':' h || (starts_with h (codes "[") && ends_with h (codes "]"))

-- `Number(s)`, for digits
unfoldable pub number_from : ℕ → Text → ℕ
number_from n [] = n
number_from n (c ∷ s) = number_from (n * 10 + (c - b'0')) s

abbrev private_range : List Text → Bool
private_range (x ∷ y ∷ rest) =
    let a = number_from 0 x in
    let b = number_from 0 y in
    (a == 127)
    || (a == 10)
    || ((a == 172) && leb 16 b && leb b 31)
    || ((a == 192) && (b == 168))
    || ((a == 169) && (b == 254))
private_range _ = false

-- `isPrivateHost`
unfoldable pub is_private_host : Text → Bool
unfolding normalise_host is_ipv4 ends_with number_from split
is_private_host host =
    let h = normalise_host host in
    if same h (codes "localhost")
      || ends_with h (codes ".localhost")
      || ends_with h (codes ".local")
    then true
    else if same h (codes "::1") || same h (codes "[::1]")
    then true
    else if not (is_ipv4 h)
    then false
    else private_range (split dot h)

abbrev pub is_empty : Text → Bool
is_empty [] = true
is_empty _ = false

abbrev is_nil : List Text → Bool
is_nil [] = true
is_nil _ = false

-- `labels[labels.length - 1]`
unfoldable pub last_label : List Text → Text
last_label [] = []
last_label (l ∷ []) = l
last_label (l ∷ m ∷ ls) = last_label (m ∷ ls)

-- `best || labels[labels.length - 1]`
abbrev pub or_last : Text → List Text → Text
or_last best labels = if is_empty best then last_label labels else best

-- the end of `sameSite`
abbrev pub same_domain : Option Text → Option Text → Text → Text → Bool
same_domain (some a) (some b) x y = same a b
same_domain _ _ x y = same (normalise_host x) (normalise_host y)

-- The Public Suffix List is data of another project (src/vendor/psl.js): `has_rule` is
-- `PSL_RULES.has`.
module _ (has_rule : Text → Bool) where
  -- the loop over the exception rules, from the longest tail of the labels
  unfoldable pub exception : List Text → Option Text
  unfolding join
  exception [] = none
  exception (l ∷ ls) =
      let rest = exception ls in
      if has_rule (b'!' ∷ join dot (l ∷ ls)) then some (join dot ls) else rest

  -- `PSL_RULES.has(candidate) || (i < labels.length - 1 && PSL_RULES.has(wildcard))`
  unfoldable pub is_rule : Text → List Text → Bool
  unfolding join
  is_rule l ls =
      has_rule (join dot (l ∷ ls)) || (not (is_nil ls) && has_rule (join dot (codes "*" ∷ ls)))

  -- the loop for the longest rule: it runs from the last label, and the last match stays
  unfoldable pub best_rule : List Text → Text
  unfolding is_rule
  best_rule [] = []
  best_rule (l ∷ ls) = let best = best_rule ls in if is_rule l ls then join dot (l ∷ ls) else best

  abbrev pub or_best : Option Text → List Text → Text
  or_best (some suffix) labels = suffix
  or_best none labels = or_last (best_rule labels) labels

  -- `publicSuffix`
  unfoldable pub public_suffix : Text → Text
  unfolding exception best_rule last_label
  public_suffix host =
      let h = normalise_host host in
      if is_empty h || is_ip_host h then h else or_best (exception (split dot h)) (split dot h)

  -- `registrableDomain`; `none` is null.
  unfoldable pub registrable_domain : Text → Option Text
  unfolding public_suffix drop_end
  registrable_domain host =
      let h = normalise_host host in
      let suffix = public_suffix h in
      if is_empty h
      then none
      else if is_ip_host h
      then some h
      else if same h suffix
      then none
      else some (last_label (split dot (drop_end (length suffix + 1) h)) ++ (dot ∷ suffix))

  -- `sameSite`
  unfoldable pub same_site : Text → Text → Bool
  unfolding registrable_domain
  same_site a b = same_domain (registrable_domain a) (registrable_domain b) a b
