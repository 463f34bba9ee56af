-- ===== src/Match/Score.antt =====
-- When a stored URL counts for a page (src/core/match.js).
use bencpass.Prelude.{
  ℕ, ◌≤◌, ◌<◌, ◌≡◌, ◌↔◌, ◌⊎◌, inl, inr, true, false, List, [], ◌∷◌, arith, Bool-cases, Any, ltb,
  if◌then◌else◌,
}
use bencpass.Map.{get}
use bencpass.Text.{Text, same}
use bencpass.Text.Laws.{same_refl, eq_of_same}
use bencpass.Plain.{Body, as_urls}
use bencpass.Host.{normalise_host, same_site, is_empty}
use bencpass.Host.Site.{same_site_refl}
use bencpass.Match.{Platform, no_match, exact, host_of, score_url, best_score, score_record}

module _ (platform : Platform) where
  open platform use {has_rule}

  -- The host of a stored URL is of the site of a page.
  pub record BelongsTo (url page_host : Text) : Type 0 where
    pub stored : is_empty (host_of platform url) ≡ false
    pub page : is_empty (normalise_host page_host) ≡ false
    pub site : same_site has_rule (host_of platform url) (normalise_host page_host) ≡ true

  score_url-BelongsTo : (u p : Text) → 0 < score_url platform u p → BelongsTo u p
  unfolding score_url
  score_url-BelongsTo u p h = elim (Bool-cases (same (host_of platform u) (normalise_host p))) [
    | inl e ↦ record {
      stored = ground arith;
      page = ground arith;
      site =
          rw (eq_of_same (host_of platform u) (normalise_host p) e)
            (same_site_refl has_rule (normalise_host p));
    }
    | inr e ↦ record { stored = ground arith; page = ground arith; site = ground arith }
  ]

  BelongsTo-score_url : (u p : Text) → BelongsTo u p → 0 < score_url platform u p
  unfolding score_url
  BelongsTo-score_url u p b = ground arith

  -- The score is the highest exactly for the very host of the page, if that is not empty.
  pub score_url-exact :
      (u p : Text)
      → (score_url platform u p ≡ exact)
        ↔ ((host_of platform u ≡ normalise_host p) × (is_empty (normalise_host p) ≡ false))
  unfolding score_url
  score_url-exact u p = (
    λ h. elim (Bool-cases (same (host_of platform u) (normalise_host p))) [
      | inl e ↦ (eq_of_same (host_of platform u) (normalise_host p) e, ground arith)
      | inr e ↦ absurd (ground arith)
    ],
    λ h. rw (h.0, h.1, same_refl (normalise_host p)),
  )

  best_score-grows : (best : ℕ) (us : List Text) (p : Text) → best ≤ best_score platform best us p
  unfolding best_score
  best_score-grows best [] p = omega arith
  best_score-grows best (u ∷ us) p = ground (
    arith,
    best_score-grows (if ltb best (score_url platform u p) then score_url platform u p else best) us
        p,
  )

  best_score-some :
      (best : ℕ) (us : List Text) (p : Text)
      → 0 < best_score platform best us p
      → (0 < best) ⊎ Any (λ u. BelongsTo u p) us
  unfolding best_score
  best_score-some best [] p h = inl h
  best_score-some best (u ∷ us) p h = elim (Bool-cases (ltb best (score_url platform u p))) [
    | inl e ↦ inr (inl (score_url-BelongsTo u p (ground arith)))
    | inr e ↦ elim (best_score-some best us p (rw e at h)) [ inl b ↦ inl b | inr a ↦ inr (inr a) ]
  ]

  some-best_score :
      (best : ℕ) (us : List Text) (p : Text)
      → Any (λ u. BelongsTo u p) us
      → 0 < best_score platform best us p
  unfolding best_score
  some-best_score best [] p h = elim h [ ]
  some-best_score best (u ∷ us) p (inl b) = ground (
    arith,
    BelongsTo-score_url u p b,
    best_score-grows (if ltb best (score_url platform u p) then score_url platform u p else best) us
        p,
  )
  some-best_score best (u ∷ us) p (inr a) =
      some-best_score (if ltb best (score_url platform u p) then score_url platform u p else best)
        us p a

  -- A record scores for a page exactly when one of its URLs is of the page's site.
  pub score_record-pos :
      (r : Body) (page_host : Text)
      → (0 < score_record platform r page_host)
        ↔ Any (λ u. BelongsTo u page_host) (as_urls (get "urls" r))
  unfolding score_record
  score_record-pos r p = (
    λ h. elim (best_score-some no_match (as_urls (get "urls" r)) p h) [
      | inl z ↦ absurd (omega arith)
      | inr a ↦ a
    ],
    some-best_score no_match (as_urls (get "urls" r)) p,
  )
