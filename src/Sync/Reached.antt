-- ===== src/Sync/Reached.antt =====
-- Which address answers a request (src/core/sync.js).
use Prim.Native.Nat.{zero, suc}
use bencpass.Prelude.{
  ℕ, Bool, Bool-cases, Option, none, some, List, [], ◌∷◌, ◌++◌, ◌⊎◌, inl, inr, ◌≡◌, refl, ap, sym,
  Any, take,
}
use bencpass.Text.{Text, same}
use bencpass.Text.Laws.{eq_of_same, same_refl}
use bencpass.Sync.Routes.{slice, index_of, or_first, Routes, order, is_last, try_each, reach}

-- The list begins with `b`.
abbrev pub Starts : Text → List Text → Type 0
Starts b [] = ⊥
Starts b (e ∷ es) = b ≡ e

Starts-append : (b : Text) (es fs : List Text) → Starts b es → Starts b (es ++ fs)
Starts-append b [] fs h = elim h [ ]
Starts-append b (e ∷ es) fs h = h

module _ (b : Text) where
  abbrev Listed : List Text → Type 0
  Listed es = Any (λ (e : Text). b ≡ e) es

  Listed-slice : (n : ℕ) (es : List Text) → Listed (slice n es) → Listed es
  Listed-slice zero es h = h
  Listed-slice (suc n) [] h = h
  Listed-slice (suc n) (e ∷ es) h = inr (Listed-slice n es h)

  Listed-take : (n : ℕ) (es : List Text) → Listed (take n es) → Listed es
  Listed-take zero es h = elim h [ ]
  Listed-take (suc n) [] h = h
  Listed-take (suc n) (e ∷ es) (inl h) = inl h
  Listed-take (suc n) (e ∷ es) (inr h) = inr (Listed-take n es h)

  Listed-append : (es fs : List Text) → Listed (es ++ fs) → Listed es ⊎ Listed fs
  Listed-append [] fs h = inr h
  Listed-append (e ∷ es) fs (inl h) = inl (inl h)
  Listed-append (e ∷ es) fs (inr h) = elim (Listed-append es fs h) [
    | inl k ↦ inl (inr k)
    | inr k ↦ inr k
  ]

  Listed-order : (r : Routes) → Listed (order r) → Listed r.endpoints
  unfolding order
  Listed-order r h =
      elim (Listed-append (slice r.preferred r.endpoints) (take r.preferred r.endpoints) h) [
        | inl k ↦ Listed-slice r.preferred r.endpoints k
        | inr k ↦ Listed-take r.preferred r.endpoints k
      ]

  found : (es : List Text) → Listed es → (i : ℕ) × (index_of b es ≡ some i) × Starts b (slice i es)
  unfolding index_of
  found [] h = elim h [ ]
  found (e ∷ es) (inl h) = (0, rw (ap (λ (x : Text). same e x) h, same_refl e) refl, h)
  found (e ∷ es) (inr k) = elim (Bool-cases (same e b)) [
    | inl t ↦ (0, rw t refl, sym (eq_of_same e b t))
    | inr t ↦ let (i, q, starts) = found es k in (suc i, rw t (rw q refl), starts)
  ]

module _ {S A : Type 0} (fetch : Text → Bool → S → Option A × S) where
  -- No address of the list was reached, each tried in turn.
  abbrev pub AllFailed : List Text → S → S → Type 0
  AllFailed [] s s' = s' ≡ s
  AllFailed (e ∷ es) s s' =
      ((fetch e (is_last es) s).0 ≡ none) × AllFailed es (fetch e (is_last es) s).1 s'

  -- Address `b` answered with `a`, and those before it were not reached.
  abbrev pub Answers : List Text → S → Text → A → S → Type 0
  Answers [] s b a s' = ⊥
  Answers (e ∷ es) s b a s' =
      ((fetch e (is_last es) s ≡ (some a, s')) × (b ≡ e))
      ⊎ (((fetch e (is_last es) s).0 ≡ none) × Answers es (fetch e (is_last es) s).1 b a s')

  abbrev TryOutcome : List Text → Routes → S → Option A × Routes × S → Type 0
  TryOutcome es r s (none, r', s') = AllFailed es s s' × (r' ≡ r)
  TryOutcome es r s (some a, r', s') =
      (b : Text) × Answers es s b a s'
      × Listed b es
      × (r' ≡ record r { preferred = or_first (index_of b r.endpoints) })

  -- The request has the answer of the first address that was reached, in order, which then comes
  -- first; or none was reached.
  abbrev pub ReachOutcome : Routes → S → Option A × Routes × S → Type 0
  ReachOutcome r s (none, r', s') = AllFailed (order r) s s' × (r' ≡ r)
  ReachOutcome r s (some a, r', s') =
      (b : Text) × Answers (order r) s b a s' × (r'.endpoints ≡ r.endpoints) × Starts b (order r')

  skipped :
      (e : Text) (es : List Text) (r : Routes) (s t : S)
      → fetch e (is_last es) s ≡ (none, t)
      → (o : Option A × Routes × S) → TryOutcome es r t o
      → TryOutcome (e ∷ es) r s o
  skipped e es r s t q (none, r', s') h = rw q ((refl, h.0), h.1)
  skipped e es r s t q (some a, r', s') (b, answers, listed, p) =
      (b, rw q (inr (refl, answers)), inr listed, p)

  tried :
      (e : Text) (es : List Text) (r : Routes) (s : S) (o : Option A × S)
      → fetch e (is_last es) s ≡ o
      → ((t : S) → TryOutcome es r t (try_each fetch es r t))
      → TryOutcome (e ∷ es) r s (try_each fetch (e ∷ es) r s)
  unfolding try_each
  tried e es r s (none, t) q ih = rw q (skipped e es r s t q (try_each fetch es r t) (ih t))
  tried e es r s (some a, t) q ih = rw q (e, inl (q, refl), inl refl, refl)

  try_each_lem : (es : List Text) (r : Routes) (s : S) → TryOutcome es r s (try_each fetch es r s)
  unfolding try_each
  try_each_lem [] r s = (refl, refl)
  try_each_lem (e ∷ es) r s =
      tried e es r s (fetch e (is_last es) s) refl (λ t. try_each_lem es r t)

  reached_from :
      (r : Routes) (s : S) (o : Option A × Routes × S)
      → TryOutcome (order r) r s o
      → ReachOutcome r s o
  unfolding order
  reached_from r s (none, r', s') h = h
  reached_from r s (some a, r', s') (b, answers, listed, q) =
      let (i, at_i, starts) = found b r.endpoints (Listed-order b r listed) in
      (
        b,
        answers,
        ap (λ (x : Routes). x.endpoints) q,
        rw q (rw at_i (Starts-append b (slice i r.endpoints) (take i r.endpoints) starts)),
      )

  -- A request has the answer of the first address, in order from the preferred one round, that is
  -- reached, each before it having failed in turn, and the address that answered comes first in
  -- the order from then on; if no address is reached the request fails, after every one was tried,
  -- and the preference stays.
  pub reach-ReachOutcome : (r : Routes) (s : S) → ReachOutcome r s (reach fetch r s)
  unfolding reach
  reach-ReachOutcome r s =
      reached_from r s (try_each fetch (order r) r s) (try_each_lem (order r) r s)
