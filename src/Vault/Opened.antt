-- ===== src/Vault/Opened.antt =====
-- The vault after an unlock (src/core/vault.js).
use mathlib.Core.Path.{subst}
use bencpass.Prelude.{
  String, ◌≡◌, refl, sym, ap, ◌∙◌, true, false, Option, none, some, [], ◌∷◌, arith, eq_iff, inl,
  inr, Bool-cases, str_eq, if◌then◌else◌,
}
use bencpass.Map.{Map, get, values}
use bencpass.Map.Laws.{get-set, get-set_self}
use bencpass.Envelope.{Envelope}
use bencpass.Plain.{Body}
use bencpass.Merge.{bool_eq}
use bencpass.Crypto.{Platform, is_dead, open_envelope}
use bencpass.Vault.{Vault}
use bencpass.Vault.Parked.{park-OnlyParked}
use bencpass.Vault.Opening.{Opening, smuggled, corrected, take_in, open_all, unlock_with_vault_key}
use bencpass.Vault.Shown.{
  Agrees, InStep, IsHonest, Distinct, OwnIds, corrected-Agrees, corrected_same, get-cons_none,
  bool_eq-eq,
}

-- An entry of another id leaves this one alone.
get-take_in :
    (id : String) (e : Envelope) (o : Option Body) (s : Opening)
    → str_eq e.id id ≡ false
    → (get id (take_in e o s).opened ≡ get id s.opened)
      × (get id (take_in e o s).vault.envelopes ≡ get id s.vault.envelopes)
unfolding take_in
get-take_in id e none s h = (refl, refl)
get-take_in id e (some body) s h = ground (
  arith,
  h,
  get-set e.id id body s.opened,
  get-set e.id id (corrected e body) s.vault.envelopes,
  park-OnlyParked (e ∷ []) s.vault,
)

get-believed :
    (e : Envelope) (body : Body) (s : Opening)
    → smuggled e body ≡ false
    → get e.id s.vault.envelopes ≡ some e
    → get e.id s.opened ≡ none
    → (get e.id (take_in e (some body) s).vault.envelopes ≡ some (corrected e body))
      × (get e.id (take_in e (some body) s).opened ≡ (if is_dead body then none else some body))
unfolding take_in
get-believed e body s t h k = (
  rw t (elim (Bool-cases (bool_eq e.deleted (is_dead body))) [
    | inl b ↦ rw b (
        h
        ∙ ap (λ (x : Envelope). some x)
            (sym (corrected_same e body (bool_eq-eq e.deleted (is_dead body) b))))
    | inr b ↦ rw b (get-set_self e.id (corrected e body) s.vault.envelopes)
  ]),
  rw t (elim (Bool-cases (is_dead body)) [
    | inl b ↦ rw b k
    | inr b ↦ rw b (get-set_self e.id body s.opened)
  ]),
)

get-smuggled :
    (e : Envelope) (body : Body) (s : Opening)
    → smuggled e body ≡ true
    → get e.id s.vault.envelopes ≡ some e
    → get e.id s.opened ≡ none
    → (get e.id (take_in e (some body) s).vault.envelopes ≡ some e)
      × (get e.id (take_in e (some body) s).opened ≡ none)
unfolding take_in
get-smuggled e body s t h k = ground (arith, t, h, k, park-OnlyParked (e ∷ []) s.vault)

module _ (p : Platform) (key : String) (honest : IsHonest p key) where
  take_in-Agrees :
      (e : Envelope) (o : Option Body) (s : Opening)
      → open_envelope p key e ≡ o
      → get e.id s.vault.envelopes ≡ some e
      → get e.id s.opened ≡ none
      → Agrees p key (get e.id (take_in e o s).vault.envelopes) (get e.id (take_in e o s).opened)
  unfolding take_in
  take_in-Agrees e none s q h k =
      rw (h, k)
        (record { is_shown = ground (arith, q); has_true_flag = λ b x _. ground (arith, q, x) })
  take_in-Agrees e (some body) s q h k = elim (Bool-cases (smuggled e body)) [
    | inl t ↦
        rw ((get-smuggled e body s t h k).0, (get-smuggled e body s t h k).1)
          (record {
            is_shown = ground (arith, q, t);
            has_true_flag = λ b x y. ground (arith, q, x, y, t);
          })
    | inr t ↦
        rw ((get-believed e body s t h k).0, (get-believed e body s t h k).1)
          (corrected-Agrees p key honest e body q)
  ]

  take_in-Agrees_at :
      (id : String) (e : Envelope) (s : Opening)
      → e.id ≡ id
      → get id s.vault.envelopes ≡ some e
      → get id s.opened ≡ none
      → let s' = take_in e (open_envelope p key e) s in
        Agrees p key (get id s'.vault.envelopes) (get id s'.opened)
  take_in-Agrees_at id e s r h k =
      subst
        (λ (i : String).
          let s' = take_in e (open_envelope p key e) s in
          Agrees p key (get i s'.vault.envelopes) (get i s'.opened))
        r
        (take_in-Agrees e (open_envelope p key e) s refl
          (ap (λ (i : String). get i s.vault.envelopes) r ∙ h)
          (ap (λ (i : String). get i s.opened) r ∙ k))

  open_all-other :
      (id : String) (s : Opening) (es : Map Envelope)
      → OwnIds es
      → get id es ≡ none
      → (get id (open_all p key s (values es)).opened ≡ get id s.opened)
        × (get id (open_all p key s (values es)).vault.envelopes ≡ get id s.vault.envelopes)
  unfolding open_all values get
  open_all-other id s [] own h = (refl, refl)
  open_all-other id s ((j, e) ∷ es) own h =
      let o = open_envelope p key e in
      let rest = open_all-other id (take_in e o s) es own.1 (get-cons_none id j e es h).1 in
      let here = get-take_in id e o s (rw own.0 (get-cons_none id j e es h).0) in
      (rest.0 ∙ here.0, rest.1 ∙ here.1)

  open_all-Agrees :
      (id : String) (s : Opening) (es : Map Envelope)
      → OwnIds es
      → Distinct es
      → get id s.vault.envelopes ≡ get id es
      → get id s.opened ≡ none
      → Agrees p key
          (get id (open_all p key s (values es)).vault.envelopes)
          (get id (open_all p key s (values es)).opened)
  unfolding open_all values get
  open_all-Agrees id s [] own d h k = rw (h, k) (record { is_shown = refl; has_true_flag = tt })
  open_all-Agrees id s ((j, e) ∷ es) own d h k = elim (Bool-cases (str_eq j id)) [
    | inl t ↦
        let s' = take_in e (open_envelope p key e) s in
        let rest = open_all-other id s' es own.1 (rw (sym ((eq_iff j id).0 t)) d.0) in
        rw (rest.1, rest.0) (take_in-Agrees_at id e s (own.0 ∙ (eq_iff j id).0 t) (rw t at h) k)
    | inr t ↦
        let here = get-take_in id e (open_envelope p key e) s (rw own.0 t) in
        open_all-Agrees id (take_in e (open_envelope p key e) s) es own.1 d.1 (here.1 ∙ (rw t at h))
          (here.0 ∙ k)
  ]

-- After an unlock the two maps of the vault agree at every id: in the clear stands exactly the
-- live body that the stored envelope opens to, and nothing for a deleted record, for one that does
-- not open, and for one whose flag says deleted over a live seal after it crossed our tombstone;
-- and but for that last kind the flag of each stored envelope that opens is what its seal says.
-- Envelopes stand under their own ids, each id once, and what opens under a flag has that flag in
-- its body.
pub unlock-InStep :
    (p : Platform) (key : String) (v : Vault)
    → IsHonest p key
    → OwnIds v.envelopes
    → Distinct v.envelopes
    → InStep p key (unlock_with_vault_key p key v)
unfolding unlock_with_vault_key get
unlock-InStep p key v honest own d id =
    open_all-Agrees p key honest id (record { vault = record v { damaged = [] }; opened = [] })
      v.envelopes own d refl refl
