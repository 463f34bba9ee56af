-- ===== src/Vault/Importing.antt =====
-- `list` and `importRecords` of src/core/vault.js. An imported record has its password as a text.
use Prim.Native.Nat.{suc}
use bencpass.Prelude.{
  ℕ, ◌+◌, String, Bool, true, false, not, ◌&&◌, ◌||◌, Option, none, some, List, [], ◌∷◌, ◌++◌, ◌⊎◌,
  inl, inr, ltb, length, ◌==◌, if◌then◌else◌,
}
use bencpass.Map.{Map, get, set}
use bencpass.Text.{Text, same}
use bencpass.Text.Codes.{codes}
use bencpass.Envelope.{Envelope}
use bencpass.Plain.{
  Value, Body, str, num, spread, set_opt, strict_eq, or_else, as_text, as_urls, is_truthy, text_is,
}
use bencpass.Model.{login, address, empty_address, apply_patch, count_of, normalise}
use bencpass.Match
use bencpass.Match.{Target, host_of, belongs_only_to, capture_target, filter_by}
use bencpass.Crypto.{Platform}
use bencpass.Vault.{Vault, Fault, vault_locked}
use bencpass.Vault.Records.{write}
use bencpass.Vault.Forking.{Fresh}

-- `isWhen`
abbrev pub when : Option Value → Option ℕ
when (some (num n)) = if ltb 0 n then some n else none
when _ = none

abbrev pub earlier_of : Option ℕ → Option ℕ → Option ℕ
earlier_of a none = none
earlier_of none (some n) = some n
earlier_of (some m) (some n) = if ltb n m then some n else none

abbrev pub later_of : Option ℕ → Option ℕ → Option ℕ
later_of a none = none
later_of none (some n) = some n
later_of (some m) (some n) = if ltb m n then some n else none

abbrev pub set_when : String → Option ℕ → Body → Body
set_when k none b = b
set_when k (some n) b = set k (num n) b

abbrev pub is_nothing : Option ℕ → Bool
is_nothing none = true
is_nothing (some n) = false

-- `adoptDates`; none is null: nothing is to be written.
unfoldable pub adopt_dates : Body → Body → Option Body
unfolding get set
adopt_dates current incoming =
    let created = earlier_of (when (get "created" current)) (when (get "created" incoming)) in
    let changed =
      earlier_of (when (get "passwordChanged" current)) (when (get "passwordChanged" incoming)) in
    let used = later_of (when (get "lastUsed" current)) (when (get "lastUsed" incoming)) in
    if is_nothing created && is_nothing changed && is_nothing used
    then none
    else some (
        set_when "lastUsed" used
          (set_when "passwordChanged" changed (set_when "created" created current)))

-- The code throws where there is no envelope.
abbrev pub rev_of : Option Envelope → ℕ
rev_of none = 0
rev_of (some e) = e.rev

-- `get` of a record that stands in the clear
unfoldable pub with_id : String → ℕ → Body → Body
unfolding spread
with_id id rev plain = spread (("id", str (codes id)) ∷ ("rev", num rev) ∷ []) plain

unfoldable pub all_records : Map Envelope → Map Body → List Body
unfolding with_id get
all_records envelopes [] = []
all_records envelopes ((id, plain) ∷ rest) =
    with_id id (rev_of (get id envelopes)) plain ∷ all_records envelopes rest

-- `list`, of a type, in an unlocked vault
unfoldable pub list_of : Text → Vault → List Body
unfolding all_records filter_by get
list_of type v = filter_by (λ r. text_is (get "type" r) type) (all_records v.envelopes v.plain)

-- The entry whose id has this text
unfoldable pub entry_of : Text → Map Body → Option (String × Body)
unfolding same
entry_of id [] = none
entry_of id ((k, body) ∷ rest) =
    let found = entry_of id rest in if same (codes k) id then some (k, body) else found

-- `v === w`, on what may be missing
abbrev pub same_value : Option Value → Option Value → Bool
same_value none none = true
same_value (some v) (some w) = strict_eq v w
same_value _ _ = false

abbrev pub or_blank : Option Value → Value
or_blank v = or_else v (str [])

unfoldable pub same_fields : Body → Body → Body → Bool
unfolding strict_eq get
same_fields [] r body = true
same_fields ((k, v) ∷ keys) r body =
    strict_eq (or_blank (get k r)) (or_blank (get k body)) && same_fields keys r body

unfoldable pub some_record : (Body → Bool) → List Body → Bool
some_record p [] = false
some_record p (r ∷ rs) = p r || some_record p rs

-- `#sameAddressExists`
unfoldable pub same_address_exists : Body → Vault → Bool
unfolding same_fields some_record list_of
same_address_exists body v = some_record (λ r. same_fields empty_address r body) (list_of address v)

abbrev pub has_no_urls : Body → Bool
has_no_urls r = length (as_urls (get "urls" r)) == 0

-- The login without a site that is already there
unfoldable pub same_login_exists : Body → Vault → Bool
unfolding strict_eq some_record list_of get
same_login_exists body v =
    some_record
      (λ r.
        has_no_urls r
        && strict_eq (or_blank (get "username" r)) (or_blank (get "username" body))
        && same_value (get "password" r) (get "password" body))
      (list_of login v)

pub record ImportTarget : Type 0 where
  pub id : String
  pub current : Body
  pub host : Text

-- The state of the loop, and what is reported
pub record Importing : Type 0 where
  pub vault : Vault
  pub added : List String
  pub merged : List String
  pub unchanged : ℕ
  pub stale : ℕ
  pub redated : ℕ

abbrev is_empty_text : Text → Bool
is_empty_text [] = true
is_empty_text (c ∷ s) = false

abbrev pub unchanged_more : Importing → Importing
unchanged_more s = record s { unchanged = suc s.unchanged }

module _ (p : Platform) (m : Match.Platform) (fresh : ℕ → Fresh) (now : ℕ) (key : String) where
  -- The target of one URL; the code throws where a record has an `id` of its own that names none.
  unfoldable pub target_at : Text → Target → Map Body → Option ImportTarget
  unfolding entry_of get
  target_at host t plain = found t.candidate
    where
      entry : Option (String × Body) → Option ImportTarget
      entry none = none
      entry (some (id, current)) = some (record { id = id; current = current; host = host })

      found : Option Body → Option ImportTarget
      found none = none
      found (some r) = entry (entry_of (as_text (get "id" r)) plain)

  abbrev or_target : Option ImportTarget → Option ImportTarget → Option ImportTarget
  or_target none o = o
  or_target (some t) o = some t

  -- `#importTarget`
  unfoldable pub import_target : List Text → Text → Vault → Option ImportTarget
  unfolding target_at host_of capture_target list_of
  import_target [] username v = none
  import_target (u ∷ us) username v =
      let rest = import_target us username v in
      let host = host_of m u in
      if is_empty_text host
      then rest
      else or_target (target_at host (capture_target m (list_of login v) host username) v.plain)
          rest

  -- A record written again over the one that is there
  unfoldable pub rewrite_over : String → ℕ → Body → Vault → Vault
  unfolding write get
  rewrite_over id n body v = write p (fresh n).nonce key id (rev_of (get id v.envelopes) + 1) body v

  unfoldable pub import_new : ℕ → Body → Importing → Importing
  unfolding write
  import_new n body s = record s {
    vault = write p (fresh n).nonce key (fresh n).id 1 body s.vault;
    added = s.added ++ (fresh n).id ∷ [];
  }

  -- The same password: the dates are taken over.
  unfoldable pub redate : ℕ → ImportTarget → Option Body → Importing → Importing
  unfolding rewrite_over
  redate n t none s = unchanged_more s
  redate n t (some body) s = record s {
    vault = rewrite_over t.id n body s.vault;
    redated = suc s.redated;
  }

  -- Another password, for a record of that site alone: the newer one is kept.
  unfoldable pub take_newer : ℕ → ImportTarget → Body → Importing → Importing
  unfolding rewrite_over apply_patch get
  take_newer n t body s =
      if not (is_truthy (get "password" t.current))
        || ltb (count_of (get "passwordChanged" t.current)) (count_of (get "passwordChanged" body))
      then record s {
        vault =
            rewrite_over t.id n
              (set_opt "passwordChanged" (get "passwordChanged" body) (
                apply_patch t.current (("password", str (as_text (get "password" body))) ∷ []) now))
              s.vault;
        merged = s.merged ++ t.id ∷ [];
      }
      else record s { stale = suc s.stale }

  unfoldable pub import_login : ℕ → Option ImportTarget → Body → Importing → Importing
  unfolding import_new redate take_newer same_login_exists belongs_only_to adopt_dates strict_eq get
  import_login n none body s =
      if has_no_urls body && same_login_exists body s.vault
      then unchanged_more s
      else import_new n body s
  import_login n (some t) body s =
      if same_value (get "password" t.current) (get "password" body)
      then redate n t (adopt_dates t.current body) s
      else if belongs_only_to m t.current t.host
      then take_newer n t body s
      else import_new n body s

  -- The body of the loop, after `normalise`
  unfoldable pub import_body : ℕ → Body → Importing → Importing
  unfolding import_login import_target import_new same_address_exists get
  import_body n body s =
      if text_is (get "type" body) login
      then import_login n
          (import_target (as_urls (get "urls" body)) (as_text (get "username" body)) s.vault) body s
      else if text_is (get "type" body) address && same_address_exists body s.vault
      then unchanged_more s
      else import_new n body s

  unfoldable pub import_all : ℕ → List Body → Importing → Importing
  unfolding import_body normalise
  import_all n [] s = s
  import_all n (r ∷ rs) s = import_all (suc n) rs (import_body n (normalise r now) s)

abbrev pub import_with :
    Platform
    → Match.Platform
    → (ℕ → Fresh)
    → ℕ
    → Option String
    → List Body
    → Vault
    → Fault ⊎ Importing
import_with p m fresh now none records v = inl vault_locked
import_with p m fresh now (some key) records v = inr (
    import_all p m fresh now key 0 records
      (record { vault = v; added = []; merged = []; unchanged = 0; stale = 0; redated = 0 }))

-- `importRecords`
unfoldable pub import_records :
    Platform → Match.Platform → (ℕ → Fresh) → ℕ → List Body → Vault → Fault ⊎ Importing
unfolding import_all
import_records p m fresh now records v = import_with p m fresh now v.key records v
