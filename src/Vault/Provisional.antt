-- ===== src/Vault/Provisional.antt =====
-- src/core/provisional.js: a generated password is kept before it is filled.
use bencpass.Prelude.{
  ℕ, String, Bool, true, false, ◌&&◌, Option, none, some, List, [], ◌∷◌, ◌⊎◌, inl, inr, ltb,
  if◌then◌else◌,
}
use bencpass.Map.{get}
use bencpass.Text.{Text}
use bencpass.Text.Codes.{codes}
use bencpass.Plain.{Value, Body, str, urls, flag, as_text, is_truthy}
use bencpass.Model.{login}
use bencpass.Match
use bencpass.Match.{find, no_match, score_record}
use bencpass.Crypto.{Platform}
use bencpass.Vault.{Vault, Fault, vault_locked}
use bencpass.Vault.Records.{add, update}
use bencpass.Vault.Forking.{Fresh}
use bencpass.Vault.Importing.{list_of, entry_of, has_no_urls}

-- The id and the changed vault, or an error; `missing` is the error of an update of an id that no
-- record has.
pub data Keeping : Type 0 where
  kept : String → Vault → Keeping
  refused : Fault → Keeping
  missing : Text → Keeping

abbrev pub as_kept : String → Fault ⊎ Vault → Keeping
as_kept id (inl f) = refused f
as_kept id (inr w) = kept id w

-- `host || 'Generated password'`
abbrev pub title_of : Text → Text
title_of [] = codes "Generated password"
title_of (c ∷ s) = c ∷ s

-- `url ? [url] : []`
abbrev pub urls_of : Text → List Text
urls_of [] = []
urls_of (c ∷ s) = (c ∷ s) ∷ []

abbrev pub generated_fields : Text → Text → Text → Body
generated_fields host url password =
    ("type", str login)
    ∷ ("title", str (title_of host))
    ∷ ("username", str [])
    ∷ ("password", str password)
    ∷ ("urls", urls (urls_of url))
    ∷ ("provisional", flag true)
    ∷ []

-- The provisional entry that is open for this host, or for no host
unfoldable pub is_open_for : Match.Platform → Text → Body → Bool
unfolding score_record get
is_open_for m [] r = is_truthy (get "provisional" r) && has_no_urls r
is_open_for m (c ∷ s) r = is_truthy (get "provisional" r) && ltb no_match (score_record m r (c ∷ s))

-- `username || record.username || ''`
abbrev pub user_of : Text → Option Value → Value
user_of (c ∷ s) v = str (c ∷ s)
user_of [] none = str []
user_of [] (some v) = if is_truthy (some v) then v else str []

module _ (p : Platform) (fresh : Fresh) (now : ℕ) where
  -- The entry is written over.
  unfoldable pub keep_at : Text → Text → Option (String × Body) → Vault → Keeping
  unfolding update
  keep_at id password none v = missing id
  keep_at id password (some (k, body)) v =
      as_kept k (update p fresh.nonce k (("password", str password) ∷ []) now v)

  unfoldable pub keep_open : Text → Text → Text → Option Body → Vault → Keeping
  unfolding keep_at entry_of add get
  keep_open host url password none v =
      as_kept fresh.id (add p fresh.nonce fresh.id (generated_fields host url password) now v)
  keep_open host url password (some r) v =
      let id = as_text (get "id" r) in keep_at id password (entry_of id v.plain) v

  unfoldable pub keep_with : Match.Platform → Text → Text → Text → Option String → Vault → Keeping
  unfolding keep_open find list_of is_open_for
  keep_with m host url password none v = refused vault_locked
  keep_with m host url password (some key) v =
      keep_open host url password (find (is_open_for m host) (list_of login v)) v

  -- `keepGenerated`; an absent host or URL is the empty text
  unfoldable pub keep_generated : Match.Platform → Text → Text → Text → Vault → Keeping
  unfolding keep_with
  keep_generated m host url password v = keep_with m host url password v.key v

  -- `completeGenerated`, of the record `record` under this id
  unfoldable pub complete_generated : String → Body → Text → Vault → Fault ⊎ Vault
  unfolding update get
  complete_generated id rec username v =
      update p fresh.nonce id
        (("username", user_of username (get "username" rec)) ∷ ("provisional", flag false) ∷ []) now
        v
