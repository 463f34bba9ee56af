-- ===== src/Vault/Parked.antt =====
-- How many envelopes are parked, and what becomes of the others (src/core/vault.js).
use bencpass.Prelude.{
  ℕ, zero, suc, ◌+◌, ◌-◌, ◌≤◌, ◌≡◌, refl, ap, ◌∙◌, List, [], ◌∷◌, ◌++◌, arith, length,
  length-append, Bool-cases, inl, inr,
}
use bencpass.Envelope.{Envelope}
use bencpass.Vault.{
  Vault, Parking, park, park_all, park_one, parking, cap, drop, parked_max, mark, has_mark,
}

pub length-drop {ℓ} : {A : Type ℓ} → (n : ℕ) (es : List A) → length (drop n es) ≡ length es - n
unfolding drop
length-drop zero es = omega arith
length-drop (suc n) [] = omega arith
length-drop (suc n) (e ∷ es) = omega (arith, length-drop n es)

length-cap : (v : Vault) → length (cap v).parked ≤ parked_max
unfolding cap
length-cap v = omega (arith, length-drop (length v.parked - parked_max) v.parked)

-- Kept and discarded together.
abbrev pub total : Vault → ℕ
total v = length v.parked + v.parked_dropped

total-cap : (v : Vault) → total (cap v) ≡ total v
unfolding cap
total-cap v = omega (arith, length-drop (length v.parked - parked_max) v.parked)

-- The vault with one more envelope in the queue, before the cap.
abbrev longer : Vault → Envelope → Vault
longer v e = record v { parked = v.parked ++ e ∷ [] }

length-park_one :
    (s : Parking) (e : Envelope)
    → length s.vault.parked ≤ parked_max
    → length (park_one s e).vault.parked ≤ parked_max
unfolding park_one
length-park_one s e h = elim (Bool-cases (has_mark (mark e) s.seen)) [
  | inl b ↦ rw b h
  | inr b ↦ rw b (length-cap (longer s.vault e))
]

total-longer : (v : Vault) (e : Envelope) → total (cap (longer v e)) ≡ total v + 1
total-longer v e = omega (arith, total-cap (longer v e), length-append v.parked (e ∷ []))

total-park_one :
    (s : Parking) (e : Envelope)
    → total (park_one s e).vault + s.added ≡ total s.vault + (park_one s e).added
unfolding park_one
total-park_one s e = elim (Bool-cases (has_mark (mark e) s.seen)) [
  | inl b ↦ rw b refl
  | inr b ↦ rw b (omega (arith, total-longer s.vault e))
]

length-park_all :
    (s : Parking) (es : List Envelope)
    → length s.vault.parked ≤ parked_max
    → length (park_all s es).vault.parked ≤ parked_max
unfolding park_all
length-park_all s [] h = h
length-park_all s (e ∷ es) h = length-park_all (park_one s e) es (length-park_one s e h)

total-park_all :
    (s : Parking) (es : List Envelope)
    → total (park_all s es).vault + s.added ≡ total s.vault + (park_all s es).added
unfolding park_all
total-park_all s [] = refl
total-park_all s (e ∷ es) = omega (arith, total-park_all (park_one s e) es, total-park_one s e)

-- `w` is `v` but for the queue.
abbrev pub OnlyParked : Vault → Vault → Type 0
OnlyParked v w = w ≡ record v { parked = w.parked; parked_dropped = w.parked_dropped }

pub OnlyParked-trans : (u v w : Vault) → OnlyParked u v → OnlyParked v w → OnlyParked u w
OnlyParked-trans u v w h k =
    k ∙ ap (λ (x : Vault). record x { parked = w.parked; parked_dropped = w.parked_dropped }) h

park_one-OnlyParked : (s : Parking) (e : Envelope) → OnlyParked s.vault (park_one s e).vault
unfolding park_one cap
park_one-OnlyParked s e = elim (Bool-cases (has_mark (mark e) s.seen)) [
  | inl b ↦ rw b refl
  | inr b ↦ rw b refl
]

park_all-OnlyParked : (s : Parking) (es : List Envelope) → OnlyParked s.vault (park_all s es).vault
unfolding park_all
park_all-OnlyParked s [] = refl
park_all-OnlyParked s (e ∷ es) =
    OnlyParked-trans s.vault (park_one s e).vault (park_all (park_one s e) es).vault
      (park_one-OnlyParked s e) (park_all-OnlyParked (park_one s e) es)

pub park-OnlyParked : (es : List Envelope) (v : Vault) → OnlyParked v (park es v)
unfolding park
park-OnlyParked es v = park_all-OnlyParked (parking v) es

-- Where at most 256 envelopes wait, at most 256 wait after any number more are parked, and each
-- that was added is among those waiting or in the count of the dropped ones.
pub park_counted :
    (es : List Envelope) (v : Vault)
    → length v.parked ≤ parked_max
    → (length (park es v).parked ≤ parked_max)
      × (length (park es v).parked + (park es v).parked_dropped
          ≡ length v.parked + v.parked_dropped + (park_all (parking v) es).added)
unfolding park
park_counted es v h =
    (length-park_all (parking v) es h, omega (arith, total-park_all (parking v) es))
