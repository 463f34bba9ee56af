-- ===== src/Merge.antt =====
-- The three-way merge of src/core/merge.js. The proofs are in the modules below.
pub mod Outcome
pub mod Fold
pub mod Reports
pub mod Refined
pub mod Safety
pub mod Settles
mod Tests
use bencpass.Prelude.{
  ℕ, String, Bool, true, false, not, ◌&&◌, ◌||◌, Option, none, some, List, [], ◌∷◌, ◌++◌, ltb, ◌==◌,
  str_eq, if◌then◌else◌, run,
}
use bencpass.Map.{Map, get, set, keys, values, unique}
use bencpass.Envelope.{Envelope}

-- the action names
pub data Action : Type 0 where
  fast_forward keep_local accept_new in_sync conflict rollback : Action

pub data Kind : Type 0 where
  edit delete : Kind

-- `{ id, kind, local, remote, parked }`
pub record Conflict : Type 0 where
  pub id : String
  pub kind : Kind
  pub local : Envelope
  pub remote : Envelope
  pub parked : Envelope

-- `{ id, local, remote }`
pub record RolledBack : Type 0 where
  pub id : String
  pub local : Envelope
  pub remote : Envelope

-- What `merge` returns, and builds up in its loop.
pub record Merged : Type 0 where
  pub envelopes : Map Envelope
  pub synced_rev : Map ℕ
  pub conflicts : List Conflict
  pub rolled_back : List RolledBack
  pub to_push : List Envelope
  pub actions : Map Action

-- `asMap` on an array; a later envelope of one id replaces an earlier one.
pub as_map_from : Map Envelope → List Envelope → Map Envelope
as_map_from m [] = m
as_map_from m (e ∷ es) = as_map_from (set e.id e m) es

-- An argument that is a `Map` or an array.
pub data Entries : Type 0 where
  a_map : Map Envelope → Entries
  an_array : List Envelope → Entries

unfoldable pub as_map : Entries → Map Envelope
unfolding as_map_from set
as_map (a_map m) = m
as_map (an_array es) = as_map_from [] es

-- `a === b` on two booleans
abbrev pub bool_eq : Bool → Bool → Bool
bool_eq true b = b
bool_eq false b = not b

-- `l.ct === r.ct && l.n === r.n && l.deleted === r.deleted`
unfoldable pub same_bytes : Envelope → Envelope → Bool
same_bytes l r = str_eq l.ct r.ct && str_eq l.n r.n && bool_eq l.deleted r.deleted

-- `actions.set(id, a)`
abbrev act : String → Action → Merged → Merged
act id a s = record s { actions = set id a s.actions }

-- only on the server
pub take_new : String → Envelope → Merged → Merged
take_new id r s =
    act id accept_new
      (record s { envelopes = set id r s.envelopes; synced_rev = set id r.rev s.synced_rev })

-- `b !== undefined && b === rev`
unfoldable pub base_is : Option ℕ → ℕ → Bool
base_is none rev = false
base_is (some b) rev = b == rev

-- only here
pub keep_here : String → Envelope → Option ℕ → Merged → Merged
keep_here id l b s =
    if base_is b l.rev
    then act id in_sync (record s { synced_rev = set id l.rev s.synced_rev })
    else act id keep_local (record s { to_push = s.to_push ++ l ∷ [] })

-- no ancestor, both live, the remote ahead
pub adopt_remote : String → Envelope → Envelope → Merged → Merged
adopt_remote id l r s = act id conflict (record s {
  envelopes = set id r s.envelopes;
  synced_rev = set id r.rev s.synced_rev;
  conflicts =
      s.conflicts ++ record { id = id; kind = edit; local = l; remote = r; parked = l } ∷ [];
})

-- a tombstone on either side
pub tombstone_wins : String → Envelope → Envelope → Merged → Merged
tombstone_wins id l r s =
    let tomb = if l.deleted then l else r in
    let survivor = if l.deleted then r else l in
    act id conflict (record s {
      envelopes = set id tomb s.envelopes;
      synced_rev = set id r.rev s.synced_rev;
      conflicts =
          s.conflicts
          ++ record { id = id; kind = delete; local = l; remote = r; parked = survivor } ∷ [];
      to_push = if l.deleted then s.to_push ++ l ∷ [] else s.to_push;
    })

-- two live edits
pub keep_both : String → Envelope → Envelope → Merged → Merged
keep_both id l r s = act id conflict (record s {
  conflicts =
      s.conflicts ++ record { id = id; kind = edit; local = l; remote = r; parked = r } ∷ [];
  to_push = s.to_push ++ l ∷ [];
})

abbrev pub is_unknown : Option ℕ → Bool
is_unknown none = true
is_unknown (some b) = false

-- Both sides moved since the ancestor: the end of the loop's body.
pub diverged : String → Envelope → Envelope → Option ℕ → Merged → Merged
unfolding adopt_remote tombstone_wins keep_both
diverged id l r b s =
    if is_unknown b && not l.deleted && not r.deleted && ltb l.rev r.rev
    then adopt_remote id l r s
    else if l.deleted || r.deleted
    then tombstone_wins id l r s
    else keep_both id l r s

-- The remote is below the ancestor.
pub roll_back : String → Envelope → Envelope → Merged → Merged
roll_back id l r s = act id rollback (record s {
  to_push = s.to_push ++ l ∷ [];
  rolled_back = s.rolled_back ++ record { id = id; local = l; remote = r } ∷ [];
})

-- Only the remote moved.
pub forward : String → Envelope → Merged → Merged
forward id r s =
    act id fast_forward
      (record s { envelopes = set id r s.envelopes; synced_rev = set id r.rev s.synced_rev })

-- The revisions differ.
pub apart : String → Envelope → Envelope → Option ℕ → Merged → Merged
unfolding diverged roll_back forward
apart id l r none s = diverged id l r none s
apart id l r (some b) s =
    if ltb r.rev b
    then roll_back id l r s
    else if (l.rev == b) && ltb l.rev r.rev && (not l.deleted || r.deleted)
    then forward id r s
    else if (r.rev == b) && (not r.deleted || l.deleted)
    then act id keep_local (record s { to_push = s.to_push ++ l ∷ [] })
    else diverged id l r (some b) s

-- On both sides.
pub both : String → Envelope → Envelope → Option ℕ → Merged → Merged
unfolding apart same_bytes
both id l r b s =
    if l.rev == r.rev
    then if same_bytes l r
      then act id in_sync (record s { synced_rev = set id r.rev s.synced_rev })
      else diverged id l r b s
    else apart id l r b s

-- The body of the loop. An id comes from one of the maps, so the last case does not arise.
pub settle : String → Option Envelope → Option Envelope → Option ℕ → Merged → Merged
unfolding take_new keep_here base_is both
settle id none (some r) b s = take_new id r s
settle id (some l) none b s = keep_here id l b s
settle id (some l) (some r) b s = both id l r b s
settle id none none b s = s

-- The state before the loop.
abbrev pub start : Map Envelope → Map ℕ → Merged
start local base = record {
  envelopes = local;
  synced_rev = base;
  conflicts = [];
  rolled_back = [];
  to_push = [];
  actions = [];
}

-- `new Set([...L.keys(), ...R.keys()])`
abbrev pub ids : Map Envelope → Map Envelope → List String
ids local remote = unique (keys local ++ keys remote)

abbrev pub step : Map Envelope → Map Envelope → Map ℕ → Merged → String → Merged
step local remote base s id = settle id (get id local) (get id remote) (get id base) s

unfoldable pub merge : Entries → Entries → Map ℕ → Merged
unfolding settle as_map get keys unique
merge local remote base =
    let l = as_map local in let r = as_map remote in run (step l r base) (start l base) (ids l r)

-- `confirmPushed`
unfoldable pub confirm_pushed : Map ℕ → List Envelope → Map ℕ
confirm_pushed synced [] = synced
confirm_pushed synced (e ∷ es) = confirm_pushed (set e.id e.rev synced) es
