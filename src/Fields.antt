-- ===== src/Fields.antt =====
-- Which fields of a page are its username, its passwords and its one-time code (src/core/fields.js).
-- Two fields of a page differ in their index.
pub mod Login
pub mod Captured
pub mod Chosen
mod Tests
use bencpass.Prelude.{
  ℕ, Bool, true, false, not, ◌&&◌, ◌||◌, Option, none, some, List, [], ◌∷◌, ◌++◌, String, map, ◌==◌,
  ltb, leb, if◌then◌else◌,
}
use bencpass.Text.{Text, same, starts_with, is_space, to_lower, trim}
use bencpass.Text.Codes.{codes}

pub record Field : Type 0 where
  pub index : ℕ
  pub tag : Text
  pub type : Option Text
  pub autocomplete : Text
  pub hints : List Text
  pub hidden : Bool
  pub disabled : Bool
  pub read_only : Bool

-- `a.includes(s)` on texts
unfoldable pub listed : Text → List Text → Bool
unfolding same
listed s [] = false
listed s (t ∷ ts) = same t s || listed s ts

abbrev texts : List String → List Text
texts = map codes

abbrev put_char : ℕ → List Text → List Text
put_char c [] = (c ∷ []) ∷ []
put_char c (w ∷ ws) = (c ∷ w) ∷ ws

-- `s.split(/\s+/).filter(Boolean)`: the word that is being read first
unfoldable pub word_list : Text → List Text
word_list [] = [] ∷ []
word_list (c ∷ s) = let rest = word_list s in if is_space c then [] ∷ rest else put_char c rest

unfoldable pub filled : List Text → List Text
filled [] = []
filled ([] ∷ ws) = filled ws
filled ((c ∷ w) ∷ ws) = (c ∷ w) ∷ filled ws

abbrev pub last_of : List Text → Option Text
last_of [] = none
last_of (w ∷ []) = some w
last_of (w ∷ v ∷ ws) = last_of (v ∷ ws)

-- `MODIFIERS`
abbrev pub modifiers : List Text
modifiers = texts ("shipping" ∷ "billing" ∷ "home" ∷ "work" ∷ "mobile" ∷ "fax" ∷ "pager" ∷ [])

token_of : Option Text → Option Text
unfolding same starts_with listed
token_of none = none
token_of (some t) =
    if same t (codes "off") || same t (codes "on")
    then none
    else if starts_with t (codes "section-") || listed t modifiers
    then none
    else some t

-- `autocompleteToken`
unfoldable pub autocomplete_token : Text → Option Text
unfolding token_of word_list filled to_lower
autocomplete_token value = token_of (last_of (filled (word_list (to_lower value))))

-- `haystack`
abbrev join_words : List Text → Text
join_words [] = []
join_words (w ∷ []) = w
join_words (w ∷ v ∷ ws) = w ++ b' ' ∷ join_words (v ∷ ws)

unfoldable pub haystack : Field → Text
unfolding filled to_lower
haystack f = to_lower (join_words (filled f.hints))

-- A word stands somewhere in the text.
unfoldable pub starts_any : List Text → Text → Bool
unfolding starts_with
starts_any [] s = false
starts_any (w ∷ ws) s = starts_with s w || starts_any ws s

unfoldable pub contains_any : List Text → Text → Bool
unfolding starts_any
contains_any ws [] = starts_any ws []
contains_any ws (c ∷ s) = starts_any ws (c ∷ s) || contains_any ws s

abbrev is_small : ℕ → Bool
is_small c = leb b'a' c && leb c b'z'

-- A word stands at the start, or after what is no letter.
unfoldable pub begins_any : Bool → List Text → Text → Bool
unfolding starts_any
begins_any boundary ws [] = boundary && starts_any ws []
begins_any boundary ws (c ∷ s) =
    (boundary && starts_any ws (c ∷ s)) || begins_any (not (is_small c)) ws s

-- `USERNAME_HINTS`
unfoldable pub username_hint : Text → Bool
unfolding begins_any
username_hint h =
    begins_any true
      (texts (
        "user" ∷ "usr" ∷ "uid" ∷ "login" ∷ "logon" ∷ "email" ∷ "e-mail" ∷ "account" ∷ "identifier"
        ∷ "signin" ∷ []))
      h

-- `NEW_HINTS`
unfoldable pub new_hint : Text → Bool
unfolding contains_any
new_hint h =
    contains_any
      (texts ("new" ∷ "confirm" ∷ "retype" ∷ "repeat" ∷ "verify" ∷ "again" ∷ "second" ∷ [])) h

-- `OTP_HINTS`, its optional parts written out
unfoldable pub otp_hint : Text → Bool
unfolding contains_any
otp_hint h =
    contains_any
      (texts (
        "otp" ∷ "onetime" ∷ "one-time" ∷ "2fa" ∷ "mfa" ∷ "totp" ∷ "authcode" ∷ "auth-code"
        ∷ "authenticationcode" ∷ "authentication-code" ∷ "verificationcode" ∷ "verification-code"
        ∷ "securitycode" ∷ "security-code" ∷ []))
      h

-- `NOT_A_CREDENTIAL`
unfoldable pub no_credential : Text → Bool
unfolding contains_any
no_credential h =
    contains_any
      (texts (
        "search" ∷ "query" ∷ "coupon" ∷ "promo" ∷ "discount" ∷ "voucher" ∷ "captcha" ∷ "zip"
        ∷ "postal" ∷ []))
      h

-- `f.type ?? d`, in lower case
abbrev pub type_or : Text → Field → Text
type_or d f = lowered f.type
  where
    lowered : Option Text → Text
    lowered none = to_lower d
    lowered (some t) = to_lower t

-- `isFillableInput`
unfoldable pub is_fillable : Field → Bool
unfolding same listed to_lower
is_fillable f =
    (same f.tag (codes "input") || same f.tag (codes "textarea"))
    && not f.disabled
    && not f.read_only
    && listed (type_or (codes "text") f) (
        texts (
          "text" ∷ "email" ∷ "tel" ∷ "password" ∷ "url" ∷ "number" ∷ "search" ∷ "textarea" ∷ ""
          ∷ []))

-- `isPasswordInput`
unfoldable pub is_password : Field → Bool
unfolding same to_lower
is_password f = same (type_or [] f) (codes "password")

abbrev pub is_usable : Field → Bool
is_usable f = not f.hidden && is_fillable f

-- `fs.filter(p)` and `fs.find(p) ?? null`
module _ (p : Field → Bool) where
  unfoldable pub keep : List Field → List Field
  keep [] = []
  keep (f ∷ fs) = let rest = keep fs in if p f then f ∷ rest else rest

  unfoldable pub find : List Field → Option Field
  find [] = none
  find (f ∷ fs) = let rest = find fs in if p f then some f else rest

-- `autocompleteToken(f.autocomplete) === t`
unfoldable pub has_token : Text → Field → Bool
unfolding same autocomplete_token
has_token t f = is_token (autocomplete_token f.autocomplete)
  where
    is_token : Option Text → Bool
    is_token none = false
    is_token (some s) = same s t
