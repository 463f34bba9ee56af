-- ===== src/Vault/Adopting.antt =====
-- `applyEnvelopes` of src/core/vault.js: taking over the envelopes that a merge produced.
use bencpass.Prelude.{
  String, Bool, true, false, not, ◌&&◌, ◌||◌, Option, none, some, [], ◌∷◌, ltb, ◌==◌, str_eq,
  if◌then◌else◌,
}
use bencpass.Map.{Map, get, has, set, delete}
use bencpass.Envelope.{Envelope}
use bencpass.Plain.{Body}
use bencpass.Merge.{Entries, as_map, bool_eq}
use bencpass.Crypto.{Platform, is_dead, open_envelope}
use bencpass.Vault.{Vault, Fault, tampered, key_mismatch, park}
use bencpass.Vault.Opening.{smuggled, corrected}

-- `e.rev !== cur.rev || e.ct !== cur.ct || e.n !== cur.n`
abbrev pub moved : Envelope → Envelope → Bool
moved e cur = not (e.rev == cur.rev) || not (str_eq e.ct cur.ct) || not (str_eq e.n cur.n)

-- The first loop, at one entry: what needs no key.
unfoldable pub guard : Bool → Option Envelope → Envelope → Envelope
guard is_locked none e = e
guard is_locked (some cur) e =
    if ltb e.rev cur.rev && not e.deleted
    then cur
    else if is_locked && cur.deleted && moved e cur
    then record e { over_tombstone = true }
    else e

unfoldable pub guard_all : Bool → Map Envelope → Map Envelope → Map Envelope
unfolding guard get
guard_all is_locked current [] = []
guard_all is_locked current ((id, e) ∷ next) =
    (id, guard is_locked (get id current) e) ∷ guard_all is_locked current next

-- The second loop: the map to be adopted, the plaintext to be committed, the vault, in which only
-- the parked envelopes change, and the error that ended it.
pub record Adoption : Type 0 where
  pub next : Map Envelope
  pub committed : Map Body
  pub vault : Vault
  pub fault : Option Fault

abbrev pub is_changed : Option Envelope → Envelope → Bool
is_changed none e = true
is_changed (some cur) e = moved e cur

-- The same bytes as before, and their record is in the clear.
abbrev pub is_settled : Option Envelope → Envelope → Bool → Bool
is_settled none e here = false
is_settled (some cur) e here =
    cur.rev == e.rev && str_eq cur.ct e.ct && bool_eq cur.deleted e.deleted && here

abbrev pub is_behind : Option Envelope → Envelope → Bool
is_behind none e = false
is_behind (some cur) e = ltb e.rev cur.rev

-- A live record keeps the current envelope and its plaintext if the new one is behind.
settle_live : String → Option Envelope → Envelope → Body → Adoption → Adoption
settle_live id none e body s = record s { committed = set id body s.committed }
settle_live id (some cur) e body s =
    if ltb e.rev cur.rev
    then record s { next = set id cur s.next }
    else record s { committed = set id body s.committed }

settle_body : String → Option Envelope → Envelope → Body → Adoption → Adoption
unfolding settle_live
settle_body id cur e body s =
    if is_dead body
    then record s { committed = delete id s.committed }
    else settle_live id cur e body s

-- The flag and the sealed body disagree.
settle_lie : String → Option Envelope → Envelope → Body → Adoption → Adoption
unfolding settle_body
settle_lie id cur e body s =
    if is_changed cur e
    then record s { fault = some (tampered id) }
    else if smuggled e body
    then record s { vault = park (e ∷ []) s.vault; committed = delete id s.committed }
    else settle_body id cur e body (record s { next = set id (corrected e body) s.next })

unfoldable pub settle_opened :
    String → Option Envelope → Envelope → Option Body → Adoption → Adoption
unfolding settle_lie settle_body
settle_opened id cur e none s = record s { fault = some (key_mismatch id) }
settle_opened id cur e (some body) s =
    if bool_eq e.deleted (is_dead body)
    then settle_body id cur e body s
    else settle_lie id cur e body s

-- Records whose envelope is gone are forgotten.
unfoldable pub keep_listed : Map Envelope → Map Body → Map Body
unfolding has
keep_listed next [] = []
keep_listed next ((id, body) ∷ plain) =
    let rest = keep_listed next plain in if has id next then (id, body) ∷ rest else rest

module _ (p : Platform) (key : String) (current : Map Envelope) where
  -- One entry of the second loop, unless an earlier one has thrown.
  unfoldable pub adopt_one : Option Fault → Adoption → String → Envelope → Adoption
  unfolding settle_opened get has
  adopt_one (some f) s id e = s
  adopt_one none s id e =
      if is_settled (get id current) e (has id s.committed)
      then s
      else settle_opened id (get id current) e (open_envelope p key e) s

  unfoldable pub adopt_all : Adoption → Map Envelope → Adoption
  unfolding adopt_one
  adopt_all s [] = s
  adopt_all s ((id, e) ∷ es) = adopt_all (adopt_one s.fault s id e) es

-- The end of the unlocked branch. An error leaves the maps of the vault as they were.
unfoldable pub commit : Option Fault → Adoption → Vault × Option Fault
unfolding keep_listed
commit (some f) s = (s.vault, some f)
commit none s =
    (record (s.vault) { plain = keep_listed s.next s.committed; envelopes = s.next }, none)

-- Both loops of the unlocked branch.
unfoldable pub adoption : Platform → String → Map Envelope → Vault → Adoption
unfolding adopt_all guard_all
adoption p key es v =
    let next = guard_all false v.envelopes es in
    adopt_all p key v.envelopes
      (record { next = next; committed = v.plain; vault = v; fault = none }) next

unfoldable pub apply_with : Platform → Option String → Map Envelope → Vault → Vault × Option Fault
unfolding adoption guard_all commit
apply_with p none es v = (record v { envelopes = guard_all true v.envelopes es }, none)
apply_with p (some key) es v = let s = adoption p key es v in commit s.fault s

-- `applyEnvelopes`: the vault after it, and the error that it threw
unfoldable pub apply_envelopes : Platform → Entries → Vault → Vault × Option Fault
unfolding apply_with as_map
apply_envelopes p es v = apply_with p v.key (as_map es) v
