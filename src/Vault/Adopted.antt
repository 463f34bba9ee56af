-- ===== src/Vault/Adopted.antt =====
-- The vault after it has adopted envelopes (src/core/vault.js).
use mathlib.Core.Path.{subst}
use bencpass.Prelude.{
  String, ◌≡◌, refl, sym, ap, ◌∙◌, true, false, Option, none, some, [], ◌∷◌, arith, eq_iff, inl,
  inr, Bool-cases, str_eq, if◌then◌else◌,
}
use bencpass.Map.{Map, get, set, has}
use bencpass.Map.Laws.{get-set, get-delete}
use bencpass.Envelope.{Envelope}
use bencpass.Plain.{Body}
use bencpass.Merge.{Entries, as_map}
use bencpass.Crypto.{Platform, open_envelope}
use bencpass.Vault.{Vault, Fault}
use bencpass.Vault.Opening.{corrected}
use bencpass.Vault.Adopting.{
  Adoption, guard_all, is_settled, settle_opened, keep_listed, adopt_one, adopt_all, adoption,
  commit, apply_with, apply_envelopes,
}
use bencpass.Vault.Guarded.{AreOurs, guard_all-AreOurs, guard_all-Distinct}
use bencpass.Vault.Settled.{adopt_one-Agrees}
use bencpass.Vault.Shown.{get-cons_none, Agrees, InStep, IsHonest, Distinct}

-- The entry of another id leaves this one alone.
get-settle_opened :
    (id j : String) (cur : Option Envelope) (e : Envelope) (o : Option Body) (s : Adoption)
    → str_eq j id ≡ false
    → (get id (settle_opened j cur e o s).next ≡ get id s.next)
      × (get id (settle_opened j cur e o s).committed ≡ get id s.committed)
unfolding settle_opened
get-settle_opened id j cur e none s h = (refl, refl)
get-settle_opened id j none e (some body) s h = ground (
  arith,
  h,
  get-set j id (corrected e body) s.next,
  get-set j id body s.committed,
  get-delete j id s.committed,
)
get-settle_opened id j (some c) e (some body) s h = ground (
  arith,
  h,
  get-set j id (corrected e body) s.next,
  get-set j id body s.committed,
  get-delete j id s.committed,
  get-set j id c s.next,
  get-set j id c (set j (corrected e body) s.next),
)

module _ (p : Platform) (key : String) (current : Map Envelope) where
  get-adopt_one :
      (id j : String) (e : Envelope) (o : Option Fault) (s : Adoption)
      → str_eq j id ≡ false
      → (get id (adopt_one p key current o s j e).next ≡ get id s.next)
        × (get id (adopt_one p key current o s j e).committed ≡ get id s.committed)
  unfolding adopt_one
  get-adopt_one id j e (some f) s h = (refl, refl)
  get-adopt_one id j e none s h =
      elim (Bool-cases (is_settled (get j current) e (has j s.committed))) [
        | inl t ↦ rw t (refl, refl)
        | inr t ↦ rw t (get-settle_opened id j (get j current) e (open_envelope p key e) s h)
      ]

  get-adopt_all :
      (id : String) (s : Adoption) (es : Map Envelope)
      → get id es ≡ none
      → (get id (adopt_all p key current s es).next ≡ get id s.next)
        × (get id (adopt_all p key current s es).committed ≡ get id s.committed)
  unfolding adopt_all
  get-adopt_all id s [] h = (refl, refl)
  get-adopt_all id s ((j, e) ∷ es) h =
      let rest =
        get-adopt_all id (adopt_one p key current s.fault s j e) es (get-cons_none id j e es h).1 in
      let here = get-adopt_one id j e s.fault s (get-cons_none id j e es h).0 in
      (rest.0 ∙ here.0, rest.1 ∙ here.1)

  -- An error stays.
  fault-adopt_one :
      (j : String) (e : Envelope) (f : Fault) (o : Option Fault) (s : Adoption)
      → o ≡ some f
      → s.fault ≡ some f
      → (adopt_one p key current o s j e).fault ≡ some f
  unfolding adopt_one
  fault-adopt_one j e f none s h k = ground (arith, h)
  fault-adopt_one j e f (some g) s h k = k

  fault-adopt_all :
      (f : Fault) (s : Adoption) (es : Map Envelope)
      → s.fault ≡ some f
      → (adopt_all p key current s es).fault ≡ some f
  unfolding adopt_all
  fault-adopt_all f s [] h = h
  fault-adopt_all f s ((j, e) ∷ es) h =
      fault-adopt_all f (adopt_one p key current s.fault s j e) es
        (fault-adopt_one j e f s.fault s h h)

  -- So without one at the end there was none before.
  faultless :
      (o : Option Fault) (s : Adoption) (es : Map Envelope)
      → s.fault ≡ o
      → (adopt_all p key current s es).fault ≡ none
      → s.fault ≡ none
  faultless none s es h k = h
  faultless (some f) s es h k = ground (arith, fault-adopt_all f s es h, k)

  adopt_all-Agrees :
      (honest : IsHonest p key) (id : String) (e : Envelope) (s : Adoption) (es : Map Envelope)
      → AreOurs current es
      → Distinct es
      → get id es ≡ some e
      → get id s.next ≡ some e
      → Agrees p key (get id current) (get id s.committed)
      → (adopt_all p key current s es).fault ≡ none
      → Agrees p key
          (get id (adopt_all p key current s es).next)
          (get id (adopt_all p key current s es).committed)
  unfolding adopt_all get
  adopt_all-Agrees honest id e s [] ours d g h k f = ground (arith, g)
  adopt_all-Agrees honest id e s ((j, e') ∷ es) ours d g h k f =
      let s' = adopt_one p key current s.fault s j e' in
      let ok = faultless s'.fault s' es refl f in
      elim (Bool-cases (str_eq j id)) [
        | inl t ↦
            let q = (eq_iff j id).0 t in
            let rest = get-adopt_all id s' es (ap (λ (i : String). get i es) (sym q) ∙ d.0) in
            rw (rest.0, rest.1)
              (subst (λ (i : String). Agrees p key (get i s'.next) (get i s'.committed)) q
                (adopt_one-Agrees p key honest current j e' s.fault s ours.0
                  (subst (λ (i : String). Agrees p key (get i current) (get i s.committed)) (sym q)
                    k)
                  (ap (λ (i : String). get i s.next) q ∙ h ∙ sym (rw t at g))
                  (faultless s.fault s ((j, e') ∷ es) refl f) ok))
        | inr t ↦
            let here = get-adopt_one id j e' s.fault s t in
            adopt_all-Agrees honest id e s' es ours.1 d.1 (rw t at g) (here.0 ∙ h) (rw here.1 k) f
      ]

has-none : (id : String) (next : Map Envelope) → has id next ≡ false → get id next ≡ none
unfolding get has
has-none id [] h = refl
has-none id ((j, e) ∷ next) h = ground (arith, h, has-none id next)

has-false : (id : String) (next : Map Envelope) → get id next ≡ none → has id next ≡ false
unfolding get has
has-false id [] h = refl
has-false id ((j, e) ∷ next) h = ground (arith, h, has-false id next)

get-keep_listed :
    (id : String) (next : Map Envelope) (plain : Map Body)
    → get id (keep_listed next plain) ≡ (if has id next then get id plain else none)
unfolding keep_listed get
get-keep_listed id next [] = ground arith
get-keep_listed id next ((j, body) ∷ plain) =
    ground (arith, get-keep_listed id next plain, eq_iff j id)

module _ (p : Platform) (key : String) where
  kept-Agrees :
      (id : String) (next : Map Envelope) (plain : Map Body)
      → (has id next ≡ true → Agrees p key (get id next) (get id plain))
      → Agrees p key (get id next) (get id (keep_listed next plain))
  kept-Agrees id next plain h = elim (Bool-cases (has id next)) [
    | inl t ↦ rw (get-keep_listed id next plain, t) (h t)
    | inr t ↦
        rw (get-keep_listed id next plain, t, has-none id next t)
          (record { is_shown = refl; has_true_flag = tt })
  ]

  abbrev start : Map Envelope → Vault → Adoption
  start next v = record { next = next; committed = v.plain; vault = v; fault = none }

  looped-Agrees :
      (honest : IsHonest p key) (id : String) (o : Option Envelope) (next : Map Envelope)
      (v : Vault)
      → InStep p key v
      → AreOurs v.envelopes next
      → Distinct next
      → get id next ≡ o
      → (adopt_all p key v.envelopes (start next v) next).fault ≡ none
      → has id (adopt_all p key v.envelopes (start next v) next).next ≡ true
      → Agrees p key
          (get id (adopt_all p key v.envelopes (start next v) next).next)
          (get id (adopt_all p key v.envelopes (start next v) next).committed)
  looped-Agrees honest id none next v h ours d g f t =
      let final = adopt_all p key v.envelopes (start next v) next in
      let gone = (get-adopt_all p key v.envelopes id (start next v) next g).0 ∙ g in
      ground (arith, t, has-false id final.next gone)
  looped-Agrees honest id (some e) next v h ours d g f t =
      adopt_all-Agrees p key v.envelopes honest id e (start next v) next ours d g g (h id) f

  commit-InStep :
      (o : Option Fault) (s : Adoption)
      → ((id : String) → has id s.next ≡ true → Agrees p key (get id s.next) (get id s.committed))
      → (commit o s).1 ≡ none
      → InStep p key (commit o s).0
  unfolding commit
  commit-InStep (some f) s h k = ground (arith, k)
  commit-InStep none s h k = λ id. kept-Agrees id s.next s.committed (h id)

  commit-faultless : (o : Option Fault) (s : Adoption) → (commit o s).1 ≡ none → o ≡ none
  unfolding commit
  commit-faultless (some f) s k = k
  commit-faultless none s k = refl

  unlocked-InStep :
      (es : Map Envelope) (v : Vault)
      → IsHonest p key
      → InStep p key v
      → AreOurs v.envelopes es
      → Distinct es
      → (apply_with p (some key) es v).1 ≡ none
      → InStep p key (apply_with p (some key) es v).0
  unfolding apply_with adoption
  unlocked-InStep es v honest h ours d f =
      let next = guard_all false v.envelopes es in
      let s = adopt_all p key v.envelopes (start next v) next in
      commit-InStep s.fault s
        (λ id.
          looped-Agrees honest id (get id next) next v h (guard_all-AreOurs v.envelopes es ours)
            (guard_all-Distinct false v.envelopes es d) refl (commit-faultless s.fault s f))
        f

-- In an unlocked vault whose two maps agree, envelopes that are adopted without an error leave
-- maps that agree at every id, those of other records included: what is shown is what the adopted
-- envelopes open to. Each id is adopted once, an adopted envelope with the revision, the
-- ciphertext and the flag of ours is ours, and what opens under a flag has that flag in its body.
pub apply-InStep :
    (p : Platform) (key : String) (es : Entries) (v : Vault)
    → IsHonest p key
    → InStep p key v
    → AreOurs v.envelopes (as_map es)
    → Distinct (as_map es)
    → v.key ≡ some key
    → (apply_envelopes p es v).1 ≡ none
    → InStep p key (apply_envelopes p es v).0
unfolding apply_envelopes
apply-InStep p key es v honest h ours d q f =
    subst
      (λ (o : Option String).
        (apply_with p o (as_map es) v).1 ≡ none → InStep p key (apply_with p o (as_map es) v).0)
      (sym q) (unlocked-InStep p key (as_map es) v honest h ours d) f
