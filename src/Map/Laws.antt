-- ===== src/Map/Laws.antt =====
-- Laws of the map operations.
use bencpass.Prelude.{
  String, ◌≡◌, refl, true, false, none, some, List, [], ◌∷◌, ◌++◌, ◌||◌, arith, eq_iff, str_eq,
  contains, if◌then◌else◌,
}
use bencpass.Map.{Map, get, set, delete, keys, without, unique}

module _ {ℓ} {V : Type ℓ} where
  pub get-set :
      (k j : String) (v : V) (m : Map V)
      → get j (set k v m) ≡ (if str_eq k j then some v else get j m)
  unfolding get set
  get-set k j v [] = refl
  get-set k j v ((i, w) ∷ m) = ground (arith, eq_iff k j, eq_iff i k, eq_iff i j, get-set k j v m)

  pub get-delete :
      (k j : String) (m : Map V) → get j (delete k m) ≡ (if str_eq k j then none else get j m)
  unfolding get delete
  get-delete k j [] = ground arith
  get-delete k j ((i, w) ∷ m) = ground (arith, eq_iff k j, eq_iff i k, eq_iff i j, get-delete k j m)

  pub get-set_self : (k : String) (v : V) (m : Map V) → get k (set k v m) ≡ some v
  get-set_self k v m = ground (arith, get-set k k v m, eq_iff k k)

  -- A key that is found is listed.
  pub contains-keys :
      (k : String) (v : V) (m : Map V) → get k m ≡ some v → contains k (keys m) ≡ true
  unfolding get keys
  contains-keys k v [] h = ground arith
  contains-keys k v ((j, w) ∷ m) h = ground (arith, contains-keys k v m)

  pub get-keys-none : (k : String) (m : Map V) → contains k (keys m) ≡ false → get k m ≡ none
  unfolding get keys
  get-keys-none k [] h = refl
  get-keys-none k ((j, w) ∷ m) h = ground (arith, get-keys-none k m)

pub contains-append :
    (k : String) (xs ys : List String) → contains k (xs ++ ys) ≡ (contains k xs || contains k ys)
contains-append k [] ys = refl
contains-append k (x ∷ xs) ys = ground (arith, contains-append k xs ys)

pub contains-without :
    (k j : String) (ks : List String)
    → contains j (without k ks) ≡ (if str_eq k j then false else contains j ks)
contains-without k j [] = ground arith
contains-without k j (i ∷ ks) =
    ground (arith, contains-without k j ks, eq_iff i k, eq_iff i j, eq_iff k j)

pub contains-unique : (k : String) (ks : List String) → contains k (unique ks) ≡ contains k ks
unfolding unique
contains-unique k [] = refl
contains-unique k (i ∷ ks) = ground (arith, contains-without i k (unique ks), contains-unique k ks)
