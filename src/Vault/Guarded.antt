-- ===== src/Vault/Guarded.antt =====
-- The first loop of `applyEnvelopes`, in an unlocked vault (src/core/vault.js).

use bencpass.Prelude.{
  String, ◌≡◌, refl, ◌∙◌, Bool, true, false, not, ◌&&◌, Option, none, some, [], ◌∷◌, arith, ◌⊎◌,
  inl, inr, Bool-cases, ltb,
}
use bencpass.Map.{Map, get}
use bencpass.Envelope.{Envelope}
use bencpass.Vault.Adopting.{guard, guard_all, is_settled}
use bencpass.Vault.Shown.{Distinct}

-- An envelope that has the revision, the ciphertext and the flag of ours is ours: the nonce too.
abbrev pub AreOurs : Map Envelope → Map Envelope → Type 0
AreOurs current [] = Unit
AreOurs current ((id, e) ∷ next) =
    ((cur : Envelope) → get id current ≡ some cur → is_settled (some cur) e true ≡ true → e ≡ cur)
    × AreOurs current next

guarded :
    (b : Bool) (cur e : Envelope)
    → b ≡ false
    → (guard b (some cur) e ≡ cur) ⊎ (guard b (some cur) e ≡ e)
unfolding guard
guarded b cur e h = elim (Bool-cases (ltb e.rev cur.rev && not e.deleted)) [
  | inl t ↦ inl (rw t refl)
  | inr t ↦ inr (rw (t, h) refl)
]

some_injective : (d c : Envelope) → some d ≡ some c → d ≡ c
some_injective d c h = cc

guard-ours :
    (cur : Option Envelope) (e c : Envelope)
    → cur ≡ some c
    → (is_settled (some c) e true ≡ true → e ≡ c)
    → is_settled (some c) (guard false cur e) true ≡ true
    → guard false cur e ≡ c
guard-ours none e c h k q = ground (arith, h)
guard-ours (some d) e c h k q = elim (guarded false d e refl) [
  | inl t ↦ t ∙ some_injective d c h
  | inr t ↦ t ∙ k (rw t at q)
]

pub guard_all-AreOurs :
    (current next : Map Envelope)
    → AreOurs current next
    → AreOurs current (guard_all false current next)
unfolding guard_all
guard_all-AreOurs current [] h = tt
guard_all-AreOurs current ((id, e) ∷ next) h =
    (λ c q r. guard-ours (get id current) e c q (h.0 c q) r, guard_all-AreOurs current next h.1)

pub guard_all-none :
    (b : Bool) (id : String) (current next : Map Envelope)
    → get id next ≡ none
    → get id (guard_all b current next) ≡ none
unfolding guard_all get
guard_all-none b id current [] h = refl
guard_all-none b id current ((j, e) ∷ next) h = ground (arith, h, guard_all-none b id current next)

pub guard_all-Distinct :
    (b : Bool) (current next : Map Envelope) → Distinct next → Distinct (guard_all b current next)
unfolding guard_all
guard_all-Distinct b current [] h = tt
guard_all-Distinct b current ((id, e) ∷ next) h =
    (guard_all-none b id current next h.0, guard_all-Distinct b current next h.1)
