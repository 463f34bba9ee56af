-- ===== src/Match/Tests.antt =====
-- Concrete pages and logins.
use Prim.Native.Nat.{Ordering}
use bencpass.Prelude.{◌≡◌, ◌↔◌, inl, refl, Bool, true, false, ◌||◌, none, [], ◌∷◌, Any}
use bencpass.Map.{get}
use bencpass.Text.{Text, same, split, join, has_char}
use bencpass.Text.Codes.{codes}
use bencpass.Plain.{str, urls, Body, as_urls}
use bencpass.Model.{login}
use bencpass.Host.{normalise_host, is_ip_host, same_site}
use bencpass.Match.{
  Platform, Frame, fill, refuse, insecure_page, host_of, is_login, matches_for, capture_target,
  can_fill,
}
use bencpass.Match.Score.{BelongsTo}
use bencpass.Match.Filling.{IsGuarded, can_fill_iff}
use bencpass.Match.Candidates.{IsOffered, IsOverwritable, overwritable-IsOverwritable}
use bencpass.Match.Ranking.{IsCollation}

abbrev rules : Text → Bool
rules t = same t (codes "com") || same t (codes "org")

-- A platform that parses no URL, so that all are bare host names, and finds all texts equal.
abbrev plain : Platform
plain = record { has_rule = rules; url_hostname = λ u. none; locale_compare = λ s t. Ordering.eq }

abbrev bank : Body
bank =
    ("type", str login)
    ∷ ("username", str (codes "ann"))
    ∷ ("urls", urls (codes "bank.com" ∷ []))
    ∷ []

abbrev shop : Body
shop = ("username", str (codes "ann")) ∷ ("urls", urls (codes "shop.org" ∷ [])) ∷ []

abbrev secure : Frame
secure = record {
  page_host = codes "www.bank.com";
  allow_insecure = false;
  protocol = codes "https:";
}

abbrev plain_http : Frame
plain_http = record secure { protocol = codes "http:" }

filled : can_fill plain bank (codes "login.bank.com") secure ≡ fill
unfolding can_fill get is_ip_host same split join has_char
filled = refl

refused_http : can_fill plain bank (codes "login.bank.com") plain_http ≡ refuse insecure_page
unfolding can_fill get is_ip_host same split join has_char
refused_http = refl

one_offer : matches_for plain (shop ∷ bank ∷ []) (codes "login.bank.com") ≡ bank ∷ []
unfolding matches_for get is_ip_host same split join has_char
one_offer = refl

can_fill_iff_example : (can_fill plain bank (codes "login.bank.com") secure ≡ fill) ↔ (
    (is_login bank ≡ true)
    × Any (λ u. BelongsTo plain u (codes "login.bank.com")) (as_urls (get "urls" bank))
    × IsGuarded (codes "login.bank.com") secure
    × (same_site rules (codes "login.bank.com") (codes "www.bank.com") ≡ true))
can_fill_iff_example = can_fill_iff plain (codes "login.bank.com") secure bank

bank-IsOffered : IsOffered plain (codes "bank.com") bank
unfolding get is_login host_of normalise_host same_site is_ip_host same split join has_char
bank-IsOffered = record {
  a_login = refl;
  matching = inl (record { stored = refl; page = refl; site = refl });
}

overwritable-IsOverwritable_example : IsOverwritable plain (codes "bank.com") (codes "ann") bank
unfolding capture_target get is_ip_host same split join has_char
overwritable-IsOverwritable_example =
    overwritable-IsOverwritable plain (shop ∷ bank ∷ []) (codes "bank.com") (codes "ann") bank refl

plain-IsCollation : IsCollation plain
plain-IsCollation = record { total = λ s t e. cc; trans = λ s t u p q. p }
