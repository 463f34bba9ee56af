-- ===== src/Match/Candidates.antt =====
-- The logins that are offered for a page, and the one that a captured password may be written into
-- (src/core/match.js).
use mathlib.Core.List.{map}
use bencpass.Prelude.{
  ◌≡◌, refl, ap, ◌⊎◌, inl, inr, Bool, true, ◌||◌, Option, none, some, List, [], ◌∷◌, arith,
  Bool-cases, All, Any, ltb,
}
use bencpass.Map.{get}
use bencpass.Text.{Text, same}
use bencpass.Text.Laws.{eq_of_same}
use bencpass.Plain.{Body, as_urls, as_text}
use bencpass.Host.{same_site, is_empty}
use bencpass.Sort.{sort, All-sort, Any-sort}
use bencpass.Match.{
  Platform, Scored, is_login, no_match, find, filter_by, every, keep_if, host_of, score_record,
  ranks_before, scored_logins, matches_for, belongs_only_to, capture_target,
}
use bencpass.Match.Score.{BelongsTo, score_record-pos}

module _ {ℓ} {A : Type ℓ} (p : A → Bool) where
  pub filter_by-All :
      (P : A → Type 0) (xs : List A) → All P xs → All (λ x. P x × (p x ≡ true)) (filter_by p xs)
  unfolding filter_by
  filter_by-All P [] h = tt
  filter_by-All P (x ∷ xs) h = elim (Bool-cases (p x)) [
    | inl e ↦ rw e ((h.0, e), filter_by-All P xs h.1)
    | inr e ↦ rw e (filter_by-All P xs h.1)
  ]

  -- What `find` returns passes the test and is in the list.
  pub find-some :
      (P : A → Type 0) (xs : List A) (x : A) → All P xs → find p xs ≡ some x → P x × (p x ≡ true)
  unfolding find
  find-some P [] x h e = cc
  find-some P (y ∷ ys) x h e = elim (Bool-cases (p y)) [
    | inl t ↦ let same_one : y ≡ x = cc (rw t at e) in rw (← same_one) (h.0, t)
    | inr t ↦ find-some P ys x h.1 (rw t at e)
  ]

  every-All : (xs : List A) → every p xs ≡ true → All (λ x. p x ≡ true) xs
  unfolding every
  every-All [] h = tt
  every-All (x ∷ xs) h = (ground arith, every-All xs (ground arith))

module _ {A : Type 0} (p : A → Bool) where
  filter_by-Any :
      (x : A) (xs : List A) → Any (λ y. y ≡ x) xs → p x ≡ true → Any (λ y. y ≡ x) (filter_by p xs)
  unfolding filter_by
  filter_by-Any x [] h k = h
  filter_by-Any x (y ∷ xs) (inl e) k = rw (e, k) (inl refl)
  filter_by-Any x (y ∷ xs) (inr h) k = elim (Bool-cases (p y)) [
    | inl e ↦ rw e (inr (filter_by-Any x xs h k))
    | inr e ↦ rw e (filter_by-Any x xs h k)
  ]

Any-map :
    {A B : Type 0} (f : A → B) (x : A) (xs : List A)
    → Any (λ y. y ≡ x) xs
    → Any (λ z. z ≡ f x) (map f xs)
Any-map f x [] h = h
Any-map f x (y ∷ xs) (inl e) = inl (ap f e)
Any-map f x (y ∷ xs) (inr h) = inr (Any-map f x xs h)

All-map {ℓ κ} :
    {A : Type ℓ} {B : Type κ} (f : A → B) (P : A → Type 0) (Q : B → Type 0)
    → ((x : A) → P x → Q (f x))
    → (xs : List A) → All P xs
    → All Q (map f xs)
All-map f P Q h [] a = tt
All-map f P Q h (x ∷ xs) a = (h x a.0, All-map f P Q h xs a.1)

module _ (platform : Platform) where
  open platform use {has_rule, locale_compare}

  -- A login one of whose URLs is of the page's site.
  pub record IsOffered (page_host : Text) (r : Body) : Type 0 where
    pub a_login : is_login r ≡ true
    pub matching : Any (λ u. BelongsTo platform u page_host) (as_urls (get "urls" r))

  All-trivially {ℓ} : {A : Type ℓ} (xs : List A) → All (λ x. Unit {0}) xs
  All-trivially [] = tt
  All-trivially (x ∷ xs) = (tt, All-trivially xs)

  abbrev scored : Text → Body → Scored
  scored page_host r = record { body = r; score = score_record platform r page_host }

  abbrev IsGood : Text → Scored → Type 0
  IsGood page_host m = (is_login m.body ≡ true) × (m.score ≡ score_record platform m.body page_host)

  scored_logins-IsGood :
      (records : List Body) (page_host : Text)
      → All
          (λ m. IsGood page_host m × (ltb no_match m.score ≡ true))
          (scored_logins platform records page_host)
  unfolding scored_logins
  scored_logins-IsGood records p =
      filter_by-All (λ m. ltb no_match m.score) (IsGood p)
        (map (scored p) (filter_by is_login records))
        (All-map (scored p) (λ r. Unit × (is_login r ≡ true)) (IsGood p) (λ r h. (h.1, refl))
          (filter_by is_login records)
          (filter_by-All is_login (λ r. Unit) records (All-trivially records)))

  IsOffered-of_good :
      (page_host : Text) (m : Scored)
      → IsGood page_host m × (ltb no_match m.score ≡ true)
      → IsOffered page_host m.body
  IsOffered-of_good p m (g, h) = record {
    a_login = g.0;
    matching = (score_record-pos platform m.body p).0 (ground arith);
  }

  -- Only logins are offered for a page, and of those only ones with a URL of the page's site.
  pub matches_for-IsOffered :
      (records : List Body) (page_host : Text)
      → All (IsOffered page_host) (matches_for platform records page_host)
  unfolding matches_for
  matches_for-IsOffered records p =
      All-map (λ (m : Scored). m.body) (λ m. IsGood p m × (ltb no_match m.score ≡ true))
        (IsOffered p) (IsOffered-of_good p)
        (sort (ranks_before platform) (scored_logins platform records p))
        (All-sort (ranks_before platform) (λ m. IsGood p m × (ltb no_match m.score ≡ true))
          (scored_logins platform records p) (scored_logins-IsGood records p))

  -- Every login of the list that has a URL of the page's site is offered for the page.
  pub matches_for_complete :
      (records : List Body) (page_host : Text) (r : Body)
      → Any (λ x. x ≡ r) records
      → IsOffered page_host r
      → Any (λ x. x ≡ r) (matches_for platform records page_host)
  unfolding matches_for scored_logins
  matches_for_complete records p r h o =
      let pos = (score_record-pos platform r p).1 o.matching in
      Any-map (λ (m : Scored). m.body) (scored p r) _
        (Any-sort (ranks_before platform) (λ m. m ≡ scored p r) _
          (filter_by-Any (λ m. ltb no_match m.score) (scored p r) _
            (Any-map (scored p) r _ (filter_by-Any is_login r records h o.a_login)) (ground arith)))

  -- The entry that a capture may overwrite is one that is offered for the host, carries the captured
  -- username, and names no other site.
  pub record IsOverwritable (host username : Text) (r : Body) : Type 0 where
    pub offered : IsOffered host r
    pub named : as_text (get "username" r) ≡ username
    pub only_here :
        All
          (λ u.
            (is_empty (host_of platform u) ≡ true)
            ⊎ (same_site has_rule (host_of platform u) host ≡ true))
          (as_urls (get "urls" r))

  keep_if-some :
      (p : Body → Bool) (o : Option Body) (r : Body)
      → keep_if p o ≡ some r
      → (o ≡ some r) × (p r ≡ true)
  keep_if-some p none r h = cc
  keep_if-some p (some x) r h = elim (Bool-cases (p x)) [
    | inl t ↦ let e : x ≡ r = cc (rw t at h) in (ap some e, rw e at t)
    | inr t ↦ cc (rw t at h)
  ]

  only_here_of :
      (host : Text) (us : List Text)
      → All
          (λ u.
            (is_empty (host_of platform u) || same_site has_rule (host_of platform u) host) ≡ true)
          us
      → All
          (λ u.
            (is_empty (host_of platform u) ≡ true)
            ⊎ (same_site has_rule (host_of platform u) host ≡ true))
          us
  only_here_of host [] h = tt
  only_here_of host (u ∷ us) h = (ground arith, only_here_of host us h.1)

  -- The entry that a capture may overwrite is one that is offered for the host, carries the
  -- captured username, and names no other site: the host of each of its URLs is empty or of the
  -- site.
  pub overwritable-IsOverwritable :
      (records : List Body) (host username : Text) (r : Body)
      → (capture_target platform records host username).overwritable ≡ some r
      → IsOverwritable host username r
  unfolding capture_target belongs_only_to
  overwritable-IsOverwritable records host username r h =
      let (found, only) = keep_if-some (λ x. belongs_only_to platform x host) _ r h in
      let (o, n) =
        find-some (λ x. same (as_text (get "username" x)) username) (IsOffered host)
          (matches_for platform records host) r (matches_for-IsOffered records host) found in
      record {
        offered = o;
        named = eq_of_same (as_text (get "username" r)) username n;
        only_here =
            only_here_of host (as_urls (get "urls" r)) (every-All _ (as_urls (get "urls" r)) only);
      }
