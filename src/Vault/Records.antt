-- ===== src/Vault/Records.antt =====
-- Adding, changing and removing records (src/core/vault.js). The platform's random ids and nonces
-- are arguments.
use bencpass.Prelude.{
  ℕ, String, Bool, true, false, Option, none, some, [], ◌∷◌, ◌+◌, inl, inr, ◌⊎◌, ltb, if◌then◌else◌,
}
use bencpass.Map.{get, set, delete}
use bencpass.Envelope.{Envelope}
use bencpass.Plain.{Body, flag, num}
use bencpass.Model.{new_record, apply_patch, mark_used}
use bencpass.Crypto.{Platform, is_dead, seal_record, open_envelope}
use bencpass.Vault.{Vault, Fault, vault_locked, no_such_record, unknown_type, unreadable}

-- The envelope that `body` is sealed into.
abbrev pub sealed : Platform → String → String → String → ℕ → Bool → Body → Envelope
sealed p key nonce id rev dead body = record {
  id = id;
  rev = rev;
  deleted = dead;
  n = nonce;
  ct = seal_record p key nonce id rev body;
  over_tombstone = false;
}

-- `{ deleted: true, at: now }`
abbrev pub tombstone : ℕ → Body
tombstone now = ("deleted", flag true) ∷ ("at", num now) ∷ []

-- `a > b ? a : b`
abbrev pub larger : ℕ → ℕ → ℕ
larger a b = if ltb b a then a else b

module _ (p : Platform) (nonce : String) where
  -- `#write`
  unfoldable pub write : String → String → ℕ → Body → Vault → Vault
  write key id rev body v = record v {
    envelopes = set id (sealed p key nonce id rev false body) v.envelopes;
    plain = set id body v.plain;
  }

  -- `newRecord` throws on an unknown type.
  unfoldable pub write_new : String → String → Option Body → Vault → Fault ⊎ Vault
  unfolding write
  write_new key id none v = inl unknown_type
  write_new key id (some body) v = inr (write key id 1 body v)

  unfoldable pub add_with : Option String → String → Body → ℕ → Vault → Fault ⊎ Vault
  unfolding write_new
  add_with none id fields now v = inl vault_locked
  add_with (some key) id fields now v = write_new key id (new_record fields now) v

  -- `add`, under the id that was drawn
  unfoldable pub add : String → Body → ℕ → Vault → Fault ⊎ Vault
  unfolding add_with
  add id fields now v = add_with v.key id fields now v

  -- A record that is in the clear has an envelope; without one, reading its revision throws.
  unfoldable pub rewrite :
      Option String → String → (Body → Body) → Option Body → Option Envelope → Vault → Fault ⊎ Vault
  unfolding write
  rewrite none id change _ _ v = inl vault_locked
  rewrite (some key) id change none _ v = inl (no_such_record id)
  rewrite (some key) id change (some body) none v = inl (no_such_record id)
  rewrite (some key) id change (some body) (some e) v =
      inr (write key id (e.rev + 1) (change body) v)

  -- `update`
  unfoldable pub update : String → Body → ℕ → Vault → Fault ⊎ Vault
  unfolding rewrite
  update id patch now v =
      rewrite v.key id (λ body. apply_patch body patch now) (get id v.plain) (get id v.envelopes) v

  -- `touchUsed`
  unfoldable pub touch_used : String → ℕ → Vault → Fault ⊎ Vault
  unfolding rewrite
  touch_used id now v =
      rewrite v.key id (λ body. mark_used body now) (get id v.plain) (get id v.envelopes) v

  unfoldable pub bury : Option String → String → ℕ → Option Envelope → Vault → Fault ⊎ Vault
  bury none id now _ v = inl vault_locked
  bury (some key) id now none v = inl (no_such_record id)
  bury (some key) id now (some e) v = inr (record v {
    envelopes = set id (sealed p key nonce id (e.rev + 1) true (tombstone now)) v.envelopes;
    plain = delete id v.plain;
  })

  -- `remove`
  unfoldable pub remove : String → ℕ → Vault → Fault ⊎ Vault
  unfolding bury
  remove id now v = bury v.key id now (get id v.envelopes) v

  -- `plain.get(id) ?? await openEnvelope(key, env)`
  unfoldable pub body_of : String → Envelope → Option Body → Option Body
  body_of key e (some body) = some body
  body_of key e none = open_envelope p key e

  unfoldable pub reseal : String → String → ℕ → Option Body → Vault → Fault ⊎ Vault
  reseal key id rev none v = inl (unreadable id)
  reseal key id rev (some body) v =
      inr (record v {
        envelopes = set id (sealed p key nonce id rev (is_dead body) body) v.envelopes;
      })

  unfoldable pub supersede_with :
      Option String → String → ℕ → Option Body → Option Envelope → Vault → Fault ⊎ Vault
  unfolding body_of reseal
  supersede_with none id above _ _ v = inl vault_locked
  supersede_with (some key) id above _ none v = inl (no_such_record id)
  supersede_with (some key) id above body (some e) v =
      reseal key id (larger e.rev above + 1) (body_of key e body) v

  -- `supersede`; its result is the revision of the new envelope
  unfoldable pub supersede : String → ℕ → Vault → Fault ⊎ Vault
  unfolding supersede_with
  supersede id above v = supersede_with v.key id above (get id v.plain) (get id v.envelopes) v
