-- ===== src/Plain/Laws.antt =====
-- Laws of the plain objects.
use bencpass.Prelude.{
  String, ◌≡◌, ◌∙◌, refl, Option, none, some, [], ◌∷◌, arith, str_eq, Bool-cases, inl, inr,
  if◌then◌else◌,
}
use bencpass.Map.{get, set}
use bencpass.Map.Laws.{get-set, get-delete}
use bencpass.Plain.{Value, Body, spread, set_opt}

-- A key that the second object lacks is that of the first.
pub get-spread-none : (k : String) (a b : Body) → get k b ≡ none → get k (spread a b) ≡ get k a
unfolding spread get
get-spread-none k a [] h = refl
get-spread-none k a ((j, v) ∷ b) h = elim (Bool-cases (str_eq j k)) [
  | inl e ↦ cc (rw e at h)
  | inr e ↦ get-spread-none k (set j v a) b (rw e at h) ∙ ground (arith, get-set j k v a)
]

pub get-set_opt :
    (k j : String) (v : Option Value) (a : Body)
    → get j (set_opt k v a) ≡ (if str_eq k j then v else get j a)
get-set_opt k j none a = get-delete k j a
get-set_opt k j (some v) a = get-set k j v a

pub ruleset body_laws = (get-set, get-set_opt, get-delete)
