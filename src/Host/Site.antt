-- ===== src/Host/Site.antt =====
-- `sameSite` is an equivalence of hosts (src/core/match.js).
use bencpass.Prelude.{◌≡◌, inl, inr, Bool, true, Option, none, some, Option-cases}
use bencpass.Text.{Text, same}
use bencpass.Text.Laws.{same_refl, eq_of_same}
use bencpass.Host.{normalise_host, registrable_domain, same_domain, same_site}

module _ (has_rule : Text → Bool) where
  -- Two spellings of one host have one registrable domain.
  registrable_domain-normal :
      (a b : Text)
      → normalise_host a ≡ normalise_host b
      → registrable_domain has_rule a ≡ registrable_domain has_rule b
  unfolding registrable_domain
  registrable_domain-normal a b e = rw e

  same-sym : (s t : Text) → same s t ≡ true → same t s ≡ true
  same-sym s t h = rw (eq_of_same s t h) (same_refl t)

  same_trans : (s t u : Text) → same s t ≡ true → same t u ≡ true → same s u ≡ true
  same_trans s t u h k = rw (eq_of_same s t h) k

  pub same_site_refl : (a : Text) → same_site has_rule a a ≡ true
  unfolding same_site
  same_site_refl a = elim (Option-cases (registrable_domain has_rule a)) [
    | inl e ↦ rw e (same_refl (normalise_host a))
    | inr (d, e) ↦ rw e (same_refl d)
  ]

  domain-sym :
      (da db : Option Text) (a b : Text)
      → same_domain da db a b ≡ true
      → same_domain db da b a ≡ true
  domain-sym (some x) (some y) a b h = same-sym x y h
  domain-sym (some x) none a b h = same-sym (normalise_host a) (normalise_host b) h
  domain-sym none (some y) a b h = same-sym (normalise_host a) (normalise_host b) h
  domain-sym none none a b h = same-sym (normalise_host a) (normalise_host b) h

  module _ (a b c : Text) where
    domain_trans :
        (da db dc : Option Text)
        → (normalise_host a ≡ normalise_host b → da ≡ db)
        → (normalise_host b ≡ normalise_host c → db ≡ dc)
        → same_domain da db a b ≡ true
        → same_domain db dc b c ≡ true
        → same_domain da dc a c ≡ true
    domain_trans (some x) (some y) (some z) p q h k = same_trans x y z h k
    domain_trans (some x) (some y) none p q h k = cc (q (eq_of_same _ _ k))
    domain_trans (some x) none dc p q h k = cc (p (eq_of_same _ _ h))
    domain_trans none (some y) dc p q h k = cc (p (eq_of_same _ _ h))
    domain_trans none none (some z) p q h k = cc (q (eq_of_same _ _ k))
    domain_trans none none none p q h k =
        same_trans (normalise_host a) (normalise_host b) (normalise_host c) h k

  pub same_site-sym : (a b : Text) → same_site has_rule a b ≡ true → same_site has_rule b a ≡ true
  unfolding same_site
  same_site-sym a b h =
      domain-sym (registrable_domain has_rule a) (registrable_domain has_rule b) a b h

  pub same_site_trans :
      (a b c : Text)
      → same_site has_rule a b ≡ true
      → same_site has_rule b c ≡ true
      → same_site has_rule a c ≡ true
  unfolding same_site
  same_site_trans a b c h k =
      domain_trans a b c (registrable_domain has_rule a) (registrable_domain has_rule b)
        (registrable_domain has_rule c) (registrable_domain-normal a b)
        (registrable_domain-normal b c) h k

  -- sameSite is reflexive, symmetric and transitive, so hosts fall into sites.
  pub same_site_equivalence :
      ((a : Text) → same_site has_rule a a ≡ true)
      × ((a b : Text) → same_site has_rule a b ≡ true → same_site has_rule b a ≡ true)
      × ((a b c : Text)
          → same_site has_rule a b ≡ true
          → same_site has_rule b c ≡ true
          → same_site has_rule a c ≡ true)
  same_site_equivalence = (same_site_refl, same_site-sym, same_site_trans)
