-- ===== src/Sync/Routes.antt =====
-- The choice between the addresses of one server (src/core/sync.js): the constructor of SyncClient
-- and `#reach`. Whether an address is reached, and what it answers, is a parameter.
use Prim.Native.Nat.{zero, suc}
use bencpass.Prelude.{
  ℕ, Bool, true, false, Option, none, some, List, [], ◌∷◌, ◌++◌, ◌==◌, take, if◌then◌else◌,
}
use mathlib.Core.List.{reverse}
use bencpass.Text.{Text, same}

abbrev drop_slashes : Text → Text
drop_slashes [] = []
drop_slashes (c ∷ s) = let rest = drop_slashes s in if c == b'/' then rest else c ∷ s

-- `s.replace(/\/+$/, '')`
unfoldable pub strip_slashes : Text → Text
strip_slashes s = reverse (drop_slashes (reverse s))

-- `es.filter(Boolean).map(strip)`
unfoldable pub usable : List Text → List Text
unfolding strip_slashes
usable [] = []
usable ([] ∷ es) = usable es
usable ((c ∷ s) ∷ es) = strip_slashes (c ∷ s) ∷ usable es

-- xs.slice(n)
abbrev pub slice : ℕ → List Text → List Text
slice zero es = es
slice (suc n) [] = []
slice (suc n) (e ∷ es) = slice n es

abbrev one_later : Option ℕ → Option ℕ
one_later none = none
one_later (some i) = some (suc i)

-- `es.indexOf(e)`; none is -1
unfoldable pub index_of : Text → List Text → Option ℕ
unfolding same
index_of e [] = none
index_of e (f ∷ es) = let rest = index_of e es in if same f e then some 0 else one_later rest

abbrev pub or_first : Option ℕ → ℕ
or_first none = 0
or_first (some i) = i

pub record Routes : Type 0 where
  pub endpoints : List Text
  pub preferred : ℕ

abbrev known : Text → List Text → Option Routes
known preferred [] = none
known preferred (e ∷ es) = some (record {
  endpoints = e ∷ es;
  preferred = or_first (index_of (strip_slashes preferred) (e ∷ es));
})

-- The constructor; none is its error, `config`.
unfoldable pub new_client : List Text → Text → Option Routes
unfolding usable index_of
new_client endpoints preferred = known preferred (usable endpoints)

-- The address that answered last comes first.
unfoldable pub order : Routes → List Text
order r = slice r.preferred r.endpoints ++ take r.preferred r.endpoints

abbrev pub is_last : List Text → Bool
is_last [] = true
is_last (e ∷ es) = false

-- A network: an address, and whether the attempt is the last one, which has no time limit.
module _ {S A : Type 0} (fetch : Text → Bool → S → Option A × S) where
  -- The loop of `#reach`
  unfoldable pub try_each : List Text → Routes → S → Option A × Routes × S
  unfolding index_of
  try_each [] r s = (none, r, s)
  try_each (e ∷ es) r s = answered (fetch e (is_last es) s) (try_each es r)
    where
      answered : Option A × S → (S → Option A × Routes × S) → Option A × Routes × S
      answered (none, s') next = next s'
      answered (some a, s') next =
          (some a, record r { preferred = or_first (index_of e r.endpoints) }, s')

  -- `#reach`; none is its error, `unreachable`.
  unfoldable pub reach : Routes → S → Option A × Routes × S
  unfolding try_each order
  reach r s = try_each (order r) r s
