-- ===== src/Match.antt =====
-- Which stored login belongs to a page, and whether it may be filled there (src/core/match.js). The
-- proofs are in the modules below.
pub mod Score
pub mod Candidates
pub mod Filling
pub mod Ranking
mod Tests
use Prim.Native.Nat.{Ordering, compare}
use bencpass.Prelude.{
  ℕ, Bool, true, false, not, ◌&&◌, ◌||◌, Option, none, some, List, [], ◌∷◌, ◌++◌, leb, ltb, ◌==◌,
  map, if◌then◌else◌,
}
use bencpass.Map.{get}
use bencpass.Text.{Text, same, ends_with, has_char, split, dot}
use bencpass.Text.Codes.{codes}
use bencpass.Plain.{Value, Body, as_text, as_urls, is_truthy, text_is}
use bencpass.Model.{login, address, count_of}
use bencpass.Host.{normalise_host, is_private_host, same_site, is_empty}
use bencpass.Sort.{sort}

-- What the program uses of its platform and of the Public Suffix List (src/vendor/psl.js).
pub record Platform : Type 0 where
  pub has_rule : Text → Bool  -- `PSL_RULES.has`
  pub url_hostname : Text → Option Text  -- `new URL(url).hostname`, `none` where it throws
  pub locale_compare : Text → Text → Ordering  -- `a.localeCompare(b)`

abbrev first_of_split : List Text → Text
first_of_split [] = []
first_of_split (w ∷ ws) = w

-- the `catch` of `hostOf`: a bare host name
unfoldable pub bare_host : Text → Text
unfolding split same has_char normalise_host
bare_host url =
    let bare = first_of_split (split b'/' (normalise_host url)) in
    if has_char dot bare || same bare (codes "localhost") then bare else []

abbrev host_or : Option Text → Text → Text
host_or (some hostname) url = normalise_host hostname
host_or none url = bare_host url

abbrev pub no_match : ℕ
no_match = 0

abbrev pub site : ℕ
site = 1

abbrev pub subdomain : ℕ
subdomain = 2

abbrev pub exact : ℕ
exact = 3

-- `(r.type ?? 'login') === 'login'`
abbrev pub type_of : Option Value → Text
type_of none = login
type_of (some Value.null) = login
type_of v = as_text v

unfoldable pub is_login : Body → Bool
unfolding same
is_login r = same (type_of (get "type" r)) login

-- `{ record, score }`
pub record Scored : Type 0 where
  pub body : Body
  pub score : ℕ

-- the reasons of a refusal
pub data Reason : Type 0 where
  not_a_login origin_mismatch insecure_page cross_origin_frame : Reason

pub data Verdict : Type 0 where
  fill : Verdict
  refuse : Reason → Verdict

-- `{ pageHost, allowInsecure, frameProtocol }`
pub record Frame : Type 0 where
  pub page_host : Text
  pub allow_insecure : Bool
  pub protocol : Text

-- `frameProtocol === 'http:' && !allowInsecure && !isPrivateHost(frameHost)`
unfoldable pub is_insecure : Text → Frame → Bool
unfolding same is_private_host
is_insecure frame_host f =
    same f.protocol (codes "http:") && not f.allow_insecure && not (is_private_host frame_host)

-- The first record that passes a test: `find`.
unfoldable pub find {ℓ} : {A : Type ℓ} → (A → Bool) → List A → Option A
find p [] = none
find p (x ∷ xs) = if p x then some x else find p xs

unfoldable pub filter_by {ℓ} : {A : Type ℓ} → (A → Bool) → List A → List A
filter_by p [] = []
filter_by p (x ∷ xs) = let rest = filter_by p xs in if p x then x ∷ rest else rest

unfoldable pub every {ℓ} : {A : Type ℓ} → (A → Bool) → List A → Bool
every p [] = true
every p (x ∷ xs) = p x && every p xs

-- What `captureTarget` answers.
pub record Target : Type 0 where
  pub for_host : List Body
  pub candidate : Option Body
  pub overwritable : Option Body
  pub provisional : Option Body

abbrev keep_if : (Body → Bool) → Option Body → Option Body
keep_if p none = none
keep_if p (some r) = if p r then some r else none

module _ (platform : Platform) where
  open platform use {has_rule, url_hostname, locale_compare}

  -- `hostOf`
  unfoldable pub host_of : Text → Text
  unfolding bare_host normalise_host
  host_of url = host_or (url_hostname url) url

  -- `scoreUrl`
  unfoldable pub score_url : Text → Text → ℕ
  unfolding host_of normalise_host same same_site ends_with
  score_url stored_url page_host =
      let stored = host_of stored_url in
      let page = normalise_host page_host in
      if is_empty stored || is_empty page
      then no_match
      else if same stored page
      then exact
      else if not (same_site has_rule stored page)
      then no_match
      else if ends_with page (dot ∷ stored) || ends_with stored (dot ∷ page)
      then subdomain
      else site

  -- the loop of `scoreRecord`
  unfoldable pub best_score : ℕ → List Text → Text → ℕ
  unfolding score_url
  best_score best [] page_host = best
  best_score best (u ∷ us) page_host =
      let s = score_url u page_host in best_score (if ltb best s then s else best) us page_host

  -- `scoreRecord`
  unfoldable pub score_record : Body → Text → ℕ
  unfolding best_score
  score_record r page_host = best_score no_match (as_urls (get "urls" r)) page_host

  -- the comparison of `matchesFor`, as "not after"
  unfoldable pub ranks_before : Scored → Scored → Bool
  ranks_before a b = elim (compare b.score a.score) [
    | Ordering.lt ↦ true
    | Ordering.gt ↦ false
    | Ordering.eq ↦
        elim (compare (count_of (get "timesUsed" b.body)) (count_of (get "timesUsed" a.body))) [
          | Ordering.lt ↦ true
          | Ordering.gt ↦ false
          | Ordering.eq ↦
              elim (locale_compare (as_text (get "title" a.body)) (as_text (get "title" b.body))) [
                | Ordering.gt ↦ false
                | _ ↦ true
              ]
        ]
  ]

  unfoldable pub scored_logins : List Body → Text → List Scored
  unfolding filter_by is_login score_record
  scored_logins records page_host =
      filter_by (λ m. ltb no_match m.score)
        (map (λ r. record { body = r; score = score_record r page_host })
          (filter_by is_login records))

  -- `matchesFor`
  unfoldable pub matches_for : List Body → Text → List Body
  unfolding scored_logins sort ranks_before
  matches_for records page_host =
      map (λ m. m.body) (sort ranks_before (scored_logins records page_host))

  -- `belongsOnlyTo`
  unfoldable pub belongs_only_to : Body → Text → Bool
  unfolding every host_of same_site
  belongs_only_to r host =
      every (λ u. is_empty (host_of u) || same_site has_rule (host_of u) host)
        (as_urls (get "urls" r))

  -- `captureTarget`
  unfoldable pub capture_target : List Body → Text → Text → Target
  unfolding matches_for find belongs_only_to
  capture_target records host username =
      let for_host = matches_for records host in
      let candidate = find (λ r. same (as_text (get "username" r)) username) for_host in
      record {
        for_host = for_host;
        candidate = candidate;
        overwritable = keep_if (λ r. belongs_only_to r host) candidate;
        provisional = find (λ r. is_truthy (get "provisional" r)) for_host;
      }

  -- `canFillAddress`
  unfoldable pub can_fill_address : Text → Frame → Verdict
  unfolding is_insecure same_site
  can_fill_address frame_host f =
      if is_insecure frame_host f
      then refuse insecure_page
      else if not (same_site has_rule frame_host f.page_host)
      then refuse cross_origin_frame
      else fill

  -- `canFill`
  unfoldable pub can_fill : Body → Text → Frame → Verdict
  unfolding is_login score_record is_insecure same_site
  can_fill r frame_host f =
      if not (is_login r)
      then refuse not_a_login
      else if score_record r frame_host == no_match
      then refuse origin_mismatch
      else if is_insecure frame_host f
      then refuse insecure_page
      else if not (same_site has_rule frame_host f.page_host)
      then refuse cross_origin_frame
      else fill

  -- `addressesFor`
  unfoldable pub addresses_for : List Body → List Body
  unfolding filter_by sort same
  addresses_for records =
      sort
        (λ a b. elim (locale_compare (as_text (get "title" a)) (as_text (get "title" b))) [
          | Ordering.gt ↦ false
          | _ ↦ true
        ])
        (filter_by (λ r. text_is (get "type" r) address) records)
