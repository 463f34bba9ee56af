-- ===== src/Vault/Written.antt =====
-- The vault after a record was changed, removed or sealed again (src/core/vault.js).
use bencpass.Prelude.{
  ℕ, String, ◌≡◌, ◌<◌, ◌+◌, refl, ◌∙◌, false, not, Option, none, some, arith, eq_iff, ◌⊎◌, inl, inr,
  Bool-cases, str_eq, if◌then◌else◌,
}
use bencpass.Map.{Map, get, set}
use bencpass.Map.Laws.{get-set, get-set_self, get-delete}
use bencpass.Envelope.{Envelope}
use bencpass.Plain.{Body}
use bencpass.Model.{apply_patch}
use bencpass.Crypto.{Platform, is_dead, open_record, open_envelope}
use bencpass.Vault.{Vault, Fault}
use bencpass.Vault.Records.{
  sealed, tombstone, larger, write, rewrite, bury, body_of, reseal, supersede_with, update, remove,
  supersede,
}
use bencpass.Vault.Shown.{Agrees, InStep, or_open-first}

-- What was sealed opens again: what AES-GCM and JSON do to this one body.
abbrev pub ReadsBack : Platform → String → String → String → ℕ → Body → Type 0
ReadsBack p key nonce id rev body =
    open_record p key (sealed p key nonce id rev (is_dead body) body) ≡ some body

-- The vault `w` after the write: the record's envelope at revision `rev`, what it shows in the
-- clear, and agreement everywhere.
pub record IsWritten (p : Platform) (key id : String) (rev : ℕ) (body : Body) (v w : Vault)
    : Type 0 where
  pub in_step : InStep p key w
  pub plaintext : get id w.plain ≡ (if is_dead body then none else some body)
  pub envelope :
      (e : Envelope) × (get id w.envelopes ≡ some e) × (e.rev ≡ rev) × (e.deleted ≡ is_dead body)
  pub others :
      (j : String)
      → str_eq id j ≡ false
      → (get j w.plain ≡ get j v.plain) × (get j w.envelopes ≡ get j v.envelopes)

module _ (p : Platform) (key nonce id : String) (rev : ℕ) (body : Body)
    (reads : ReadsBack p key nonce id rev body) where
  abbrev new : Envelope
  new = sealed p key nonce id rev (is_dead body) body

  new-opens : open_envelope p key new ≡ some body
  unfolding open_envelope
  new-opens =
      or_open-first (open_record p key new)
        (open_record p key (record new { deleted = not (is_dead body) })) body reads

  -- The new envelope, and the live body or none, agree.
  new-Agrees : Agrees p key (some new) (if is_dead body then none else some body)
  new-Agrees = record {
    is_shown = rw new-opens (ground arith);
    has_true_flag = λ b x y. ground (arith, x, new-opens);
  }

  placed-IsWritten :
      (v w : Vault)
      → InStep p key v
      → w.envelopes ≡ set id new v.envelopes
      → ((j : String)
          → get j w.plain
            ≡ (if str_eq id j then (if is_dead body then none else some body) else get j v.plain))
      → IsWritten p key id rev body v w
  placed-IsWritten v w h q r = record {
    in_step = λ j. elim (Bool-cases (str_eq id j)) [
      | inl t ↦ rw (r j, q, get-set id j new v.envelopes, t) new-Agrees
      | inr t ↦ rw (r j, q, get-set id j new v.envelopes, t) (h j)
    ];
    plaintext = r id ∙ ground (arith, eq_iff id id);
    envelope = (new, rw q (get-set_self id new v.envelopes), refl, refl);
    others = λ j t. (r j ∙ rw t refl, rw (q, get-set id j new v.envelopes, t) refl);
  }

-- The operation went through, and its vault has the property.
abbrev pub Gives : (Vault → Type 0) → Fault ⊎ Vault → Type 0
Gives P (inl f) = ⊥
Gives P (inr w) = P w

write-IsWritten :
    (p : Platform) (key nonce id : String) (rev : ℕ) (body : Body) (v : Vault)
    → InStep p key v
    → is_dead body ≡ false
    → ReadsBack p key nonce id rev body
    → IsWritten p key id rev body v (write p nonce key id rev body v)
unfolding write
write-IsWritten p key nonce id rev body v h d r =
    placed-IsWritten p key nonce id rev body r v (write p nonce key id rev body v) h (rw d refl)
      (λ j. rw d (get-set id j body v.plain))

rewrite-IsWritten :
    (p : Platform) (key nonce id : String) (change : Body → Body) (v : Vault) (body : Body)
    (e : Envelope) (k : Option String) (b : Option Body) (c : Option Envelope)
    → k ≡ some key
    → b ≡ some body
    → c ≡ some e
    → InStep p key v
    → is_dead (change body) ≡ false
    → ReadsBack p key nonce id (e.rev + 1) (change body)
    → Gives (IsWritten p key id (e.rev + 1) (change body) v) (rewrite p nonce k id change b c v)
unfolding rewrite
rewrite-IsWritten p key nonce id change v body e k b c x y z h d r =
    rw (x, y, z) (write-IsWritten p key nonce id (e.rev + 1) (change body) v h d r)

-- In an unlocked vault whose maps agree, an update of a record that stands in the clear goes
-- through: its envelope is one revision up and live, the patched record stands in the clear, the
-- maps agree everywhere, and other records are as they were. The patched record is live, and what
-- is sealed for it opens again.
pub update-IsWritten :
    (p : Platform) (key nonce id : String) (patch : Body) (now : ℕ) (v : Vault) (body : Body)
    (e : Envelope)
    → v.key ≡ some key
    → InStep p key v
    → get id v.plain ≡ some body
    → get id v.envelopes ≡ some e
    → is_dead (apply_patch body patch now) ≡ false
    → ReadsBack p key nonce id (e.rev + 1) (apply_patch body patch now)
    → Gives
        (IsWritten p key id (e.rev + 1) (apply_patch body patch now) v)
        (update p nonce id patch now v)
unfolding update
update-IsWritten p key nonce id patch now v body e k h b c d r =
    rewrite-IsWritten p key nonce id (λ x. apply_patch x patch now) v body e v.key (get id v.plain)
      (get id v.envelopes) k b c h d r

bury-IsWritten :
    (p : Platform) (key nonce id : String) (now : ℕ) (v : Vault) (e : Envelope) (k : Option String)
    (c : Option Envelope)
    → k ≡ some key
    → c ≡ some e
    → InStep p key v
    → ReadsBack p key nonce id (e.rev + 1) (tombstone now)
    → Gives (IsWritten p key id (e.rev + 1) (tombstone now) v) (bury p nonce k id now c v)
unfolding bury get
bury-IsWritten p key nonce id now v e k c x z h r =
    rw (x, z)
      (placed-IsWritten p key nonce id (e.rev + 1) (tombstone now) r v _ h refl
        (λ j. get-delete id j v.plain))

-- In an unlocked vault whose maps agree, a removal of a record that has an envelope goes through:
-- its envelope is one revision up and a tombstone, nothing stands in the clear for it, the maps
-- agree everywhere, and other records are as they were. The tombstone that is sealed opens again.
pub remove-IsWritten :
    (p : Platform) (key nonce id : String) (now : ℕ) (v : Vault) (e : Envelope)
    → v.key ≡ some key
    → InStep p key v
    → get id v.envelopes ≡ some e
    → ReadsBack p key nonce id (e.rev + 1) (tombstone now)
    → Gives (IsWritten p key id (e.rev + 1) (tombstone now) v) (remove p nonce id now v)
unfolding remove
remove-IsWritten p key nonce id now v e k h c r =
    bury-IsWritten p key nonce id now v e v.key (get id v.envelopes) k c h r

placed-kept :
    (id j : String) (plain : Map Body) (b : Option Body)
    → get id plain ≡ b
    → get j plain ≡ (if str_eq id j then b else get j plain)
placed-kept id j plain b h = ground (arith, h, eq_iff id j)

supersede_with-IsWritten :
    (p : Platform) (key nonce id : String) (above : ℕ) (v : Vault) (body : Body) (e : Envelope)
    (k : Option String) (b : Option Body) (c : Option Envelope)
    → k ≡ some key
    → c ≡ some e
    → body_of p nonce key e b ≡ some body
    → InStep p key v
    → get id v.plain ≡ (if is_dead body then none else some body)
    → ReadsBack p key nonce id (larger e.rev above + 1) body
    → Gives
        (IsWritten p key id (larger e.rev above + 1) body v)
        (supersede_with p nonce k id above b c v)
unfolding supersede_with reseal
supersede_with-IsWritten p key nonce id above v body e k b c x y z h q r =
    rw (x, y, z)
      (placed-IsWritten p key nonce id (larger e.rev above + 1) body r v _ h refl
        (λ j. placed-kept id j v.plain (if is_dead body then none else some body) q))

larger_above : (a b : ℕ) → (a < larger a b + 1) × (b < larger a b + 1)
larger_above a b = ground arith

-- In an unlocked vault whose maps agree, a record that is sealed again, whose body stands in the
-- clear or is deleted, comes out above both its old revision and the given one, with its body and
-- its plaintext as before, the maps agree everywhere, and other records are as they were. What is
-- sealed opens again.
pub supersede-IsWritten :
    (p : Platform) (key nonce id : String) (above : ℕ) (v : Vault) (body : Body) (e : Envelope)
    → v.key ≡ some key
    → get id v.envelopes ≡ some e
    → body_of p nonce key e (get id v.plain) ≡ some body
    → InStep p key v
    → get id v.plain ≡ (if is_dead body then none else some body)
    → ReadsBack p key nonce id (larger e.rev above + 1) body
    → Gives (IsWritten p key id (larger e.rev above + 1) body v) (supersede p nonce id above v)
      × (e.rev < larger e.rev above + 1)
      × (above < larger e.rev above + 1)
unfolding supersede
supersede-IsWritten p key nonce id above v body e k c b h q r = (
  supersede_with-IsWritten p key nonce id above v body e v.key (get id v.plain) (get id v.envelopes)
      k c b h q r,
  (larger_above e.rev above).0,
  (larger_above e.rev above).1,
)
