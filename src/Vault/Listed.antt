-- ===== src/Vault/Listed.antt =====
-- The entries behind the records that `list` of src/core/vault.js hands out.
use bencpass.Prelude.{
  ℕ, String, true, Bool-cases, ◌≡◌, refl, Option, none, some, [], ◌∷◌, inl, inr, arith, eq_iff,
  str_eq, All,
}
use bencpass.Map.{Map, get, has}
use bencpass.Text.{same}
use bencpass.Text.Laws.{same_refl}
use bencpass.Text.Codes.{codes}
use bencpass.Envelope.{Envelope}
use bencpass.Plain.{num, Body, str}
use bencpass.Plain.Laws.{get-spread-none}
use bencpass.Vault.Importing.{entry_of, all_records, with_id, rev_of}

-- No record has a field `id` of its own, and each has its envelope.
abbrev pub OwnEntries : Map Envelope → Map Body → Type 0
OwnEntries es [] = Unit {0}
OwnEntries es ((k, b) ∷ rest) =
    (get "id" b ≡ none) × ((e : Envelope) × (get k es ≡ some e)) × OwnEntries es rest

-- The entry is one of the map.
abbrev pub Found : Map Body → Option (String × Body) → Type 0
Found m none = ⊥
Found m (some (k, b)) = has k m ≡ true

Found-cons :
    (j : String) (b : Body) (m : Map Body) (o : Option (String × Body))
    → Found m o
    → Found ((j, b) ∷ m) o
unfolding has
Found-cons j b m none h = h
Found-cons j b m (some (k, c)) h = ground (arith, h)

pub entry_of-Found : (k : String) (m : Map Body) → has k m ≡ true → Found m (entry_of (codes k) m)
unfolding entry_of has
entry_of-Found k [] h = cc
entry_of-Found k ((j, b) ∷ m) h = elim (Bool-cases (same (codes j) (codes k))) [
  | inl e ↦ rw e (ground (arith, eq_iff j j))
  | inr e ↦ rw e (elim (Bool-cases (str_eq j k)) [
    | inl t ↦ cc (e, same_refl (codes k), (eq_iff j k).0 t)
    | inr t ↦ Found-cons j b m (entry_of (codes k) m) (entry_of-Found k m (rw t at h))
  ])
]

-- The record stands for an entry of the map.
abbrev pub StandsFor : Map Body → Body → Type 0
StandsFor m r = (k : String) × (get "id" r ≡ some (str (codes k))) × (has k m ≡ true)

with_id-id :
    (k : String) (rev : ℕ) (b : Body)
    → get "id" b ≡ none
    → get "id" (with_id k rev b) ≡ some (str (codes k))
unfolding with_id get
with_id-id k rev b h = get-spread-none "id" (("id", str (codes k)) ∷ ("rev", num rev) ∷ []) b h

pub all_records-StandsFor :
    (es : Map Envelope) (m rest : Map Body)
    → OwnEntries es rest
    → ((k : String) → has k rest ≡ true → has k m ≡ true)
    → All (StandsFor m) (all_records es rest)
unfolding all_records has
all_records-StandsFor es m [] o h = tt
all_records-StandsFor es m ((k, b) ∷ rest) o h = (
  (k, with_id-id k (rev_of (get k es)) b o.0, h k (ground (arith, eq_iff k k))),
  all_records-StandsFor es m rest o.2 (λ j t. h j (ground (arith, t))),
)

-- An entry of the map has its plaintext and its envelope.
pub entry-both :
    (es : Map Envelope) (m : Map Body) (k : String)
    → OwnEntries es m
    → has k m ≡ true
    → ((b : Body) × (get k m ≡ some b)) × ((e : Envelope) × (get k es ≡ some e))
unfolding has get
entry-both es [] k o h = cc
entry-both es ((j, b) ∷ m) k o h = elim (Bool-cases (str_eq j k)) [
  | inl t ↦ rw t ((b, refl), (o.1.0, ground (arith, o.1.1, (eq_iff j k).0 t)))
  | inr t ↦ rw t (entry-both es m k o.2 (rw t at h))
]
