-- ===== src/Vault/Shown.antt =====
-- Which record a stored envelope shows, and when the two maps of the vault agree
-- (src/core/vault.js).
use bencpass.Prelude.{
  String, ◌≡◌, refl, sym, ◌∙◌, ap, Bool, true, false, not, ◌||◌, str_eq, arith, Option, none, some,
  [], ◌∷◌, arith, inl, inr, ◌⊎◌, if◌then◌else◌,
}
use bencpass.Map.{Map, get}
use bencpass.Envelope.{Envelope}
use bencpass.Plain.{Body}
use bencpass.Merge.{bool_eq}
use bencpass.Crypto.{Platform, is_dead, or_open, open_record, open_envelope}
use bencpass.Vault.{Vault}
use bencpass.Vault.Opening.{smuggled, corrected}

-- What the seal says, unless the envelope was slipped over a tombstone.
abbrev pub shown_as : Envelope → Option Body → Option Body
shown_as e none = none
shown_as e (some body) = if is_dead body || smuggled e body then none else some body

abbrev pub shown_at : Platform → String → Option Envelope → Option Body
shown_at p key none = none
shown_at p key (some e) = shown_as e (open_envelope p key e)

-- The flag of an envelope that opens tells the truth, or the envelope was slipped over a tombstone.
abbrev pub HasTrueFlag : Platform → String → Option Envelope → Type 0
HasTrueFlag p key none = Unit
HasTrueFlag p key (some e) =
    (body : Body)
    → open_envelope p key e ≡ some body
    → smuggled e body ≡ false
    → e.deleted ≡ is_dead body

-- An entry of the map of envelopes, and what stands under its id in the clear.
pub record Agrees (p : Platform) (key : String) (e : Option Envelope) (body : Option Body)
    : Type 0 where
  pub is_shown : body ≡ shown_at p key e
  pub has_true_flag : HasTrueFlag p key e

-- The two maps of an unlocked vault agree.
abbrev pub InStep : Platform → String → Vault → Type 0
InStep p key v = (id : String) → Agrees p key (get id v.envelopes) (get id v.plain)

-- What is sealed with a flag has the flag in its body: `sealRecord` reads it off the body, and the
-- flag is bound into the seal.
abbrev pub IsHonest : Platform → String → Type 0
IsHonest p key =
    (e : Envelope) (body : Body) → open_record p key e ≡ some body → is_dead body ≡ e.deleted

-- Each key of a map is there once.
abbrev pub Distinct : Map Envelope → Type 0
Distinct [] = Unit
Distinct ((id, e) ∷ m) = (get id m ≡ none) × Distinct m

-- Envelopes stand under their own ids.
abbrev pub OwnIds : Map Envelope → Type 0
OwnIds [] = Unit
OwnIds ((id, e) ∷ m) = (e.id ≡ id) × OwnIds m

pub bool_eq-eq : (b c : Bool) → bool_eq b c ≡ true → c ≡ b
bool_eq-eq true c h = h
bool_eq-eq false true h = sym h
bool_eq-eq false false h = refl

pub corrected_same : (e : Envelope) (body : Body) → is_dead body ≡ e.deleted → corrected e body ≡ e
corrected_same e body h = ap (λ (d : Bool). record e { deleted = d }) h

pub get-cons_none :
    (id j : String) (e : Envelope) (es : Map Envelope)
    → get id ((j, e) ∷ es) ≡ none
    → (str_eq j id ≡ false) × (get id es ≡ none)
unfolding get
get-cons_none id j e es h = ground (arith, h)

or_open-cases :
    (a b : Option Body) (body : Body) → or_open a b ≡ some body → (a ≡ some body) ⊎ (b ≡ some body)
or_open-cases none b body h = inr h
or_open-cases (some a) b body h = inl h

pub or_open-first : (a b : Option Body) (body : Body) → a ≡ some body → or_open a b ≡ some body
or_open-first a b body h = rw h refl

module _ (p : Platform) (key : String) (honest : IsHonest p key) where
  -- One of the two claims is what was sealed, and `corrected` makes it.
  corrected-opens :
      (e : Envelope) (body : Body)
      → open_envelope p key e ≡ some body
      → open_record p key (corrected e body) ≡ some body
  unfolding open_envelope
  corrected-opens e body q =
      elim (or_open-cases (open_record p key e)
        (open_record p key (record e { deleted = not e.deleted })) body q) [
          | inl h ↦
              ap (λ (d : Bool). open_record p key (record e { deleted = d })) (honest e body h) ∙ h
          | inr h ↦
              ap (λ (d : Bool). open_record p key (record e { deleted = d }))
                (honest (record e { deleted = not e.deleted }) body h)
              ∙ h
        ]

  pub corrected-envelope :
      (e : Envelope) (body : Body)
      → open_envelope p key e ≡ some body
      → open_envelope p key (corrected e body) ≡ some body
  unfolding open_envelope
  corrected-envelope e body q =
      or_open-first (open_record p key (corrected e body))
        (open_record p key (record e { deleted = not (is_dead body) })) body
        (corrected-opens e body q)

  -- So the corrected envelope shows its body, and its flag is true.
  pub corrected-Agrees :
      (e : Envelope) (body : Body)
      → open_envelope p key e ≡ some body
      → Agrees p key (some (corrected e body)) (if is_dead body then none else some body)
  corrected-Agrees e body q = record {
    is_shown = rw (corrected-envelope e body q) (ground arith);
    has_true_flag = λ b h _. ground (arith, h, corrected-envelope e body q);
  }
