-- ===== src/Vault/Tests.antt =====
-- Concrete vaults, under a platform whose ciphertexts open as their text says.
mod Headers
mod Imports
mod Provisionals
use mathlib.Core.Path.{subst}
use bencpass.Prelude.{
  ℕ, String, ◌≡◌, ◌≤◌, ◌<◌, Bool-cases, inl, inr, ◌+◌, ◌⊎◌, refl, Bool, true, false, Option, none,
  some, [], ◌∷◌, ◌++◌, ◌==◌, ◌&&◌, arith, str_eq, length, if◌then◌else◌,
}
use bencpass.Map.{Map, get, set, has, delete, values}
use bencpass.Envelope.{Envelope}
use bencpass.Header.{Header, Kdf, whole}
use bencpass.Text.{Text, same}
use bencpass.Text.Codes.{codes}
use bencpass.Plain.{num, spread, differs, Body, flag, str}
use bencpass.Merge.{Entries, an_array, as_map}
use bencpass.Crypto.{
  Platform, digits, aad_record, seal_record, parsed, is_dead, open_record, open_envelope,
}
use bencpass.Vault.{Vault, tampered, mark, drop, cap, park_one, park_all, park, parking}
use bencpass.Vault.Opening.{take_in, open_all, unlock_with_vault_key}
use bencpass.Vault.Adopting.{
  guard, guard_all, settle_opened, keep_listed, commit, adopt_one, adopt_all, adoption, apply_with,
  apply_envelopes,
}
use bencpass.Vault.Parked.{OnlyParked, park_counted}
use bencpass.Vault.Refusing.{live_forward, refused_unchanged}
use bencpass.Vault.Shown.{InStep, IsHonest}
use bencpass.Vault.Opened.{unlock-InStep}
use bencpass.Model.{apply_patch, stamped}
use bencpass.Vault.Records.{update, remove, supersede, tombstone, supersede_with, reseal, body_of}
use bencpass.Vault.Written.{
  Gives, IsWritten, update-IsWritten, remove-IsWritten, supersede-IsWritten,
}
use bencpass.Vault.Adopted.{apply-InStep}

abbrev flag_code : Bool → ℕ
flag_code deleted = if deleted then b'1' else b'0'

-- The last character of a text, or `d`.
abbrev last : ℕ → Text → ℕ
last d [] = d
last d (x ∷ s) = last x s

last-append : (d : ℕ) (s t : Text) → last d (s ++ t) ≡ last (last d s) t
last-append d [] t = refl
last-append d (x ∷ s) t = last-append x s t

last-aad_record :
    (id : String) (rev : ℕ) (deleted : Bool)
    → last 0 (aad_record id rev deleted) ≡ flag_code deleted
unfolding aad_record
last-aad_record id rev deleted =
    last-append 0 (codes "bencpass:v2:rec:" ++ codes id ++ b':' ∷ digits rev)
      (b':' ∷ flag_code deleted ∷ [])

-- A ciphertext "live" or "dead" opens under the flag that it names.
abbrev open_named : ℕ → String → Option Text
open_named c ct =
    if str_eq ct "live"
    then if c == b'0' then some (codes "live") else none
    else if str_eq ct "dead" && (c == b'1')
    then some (codes "dead")
    else none

abbrev parse_named : Text → Option Body
parse_named t =
    some (if same t (codes "dead") then ("deleted", flag true) ∷ [] else ("title", str t) ∷ [])

abbrev pub named : Platform
named = record {
  encrypt = λ key nonce aad t. "live";
  decrypt = λ key nonce aad ct. open_named (last 0 aad) ct;
  argon2id = λ password salt m i l. password;
  import_key = λ bytes. "key";
  quote = λ s. codes s;
  stringify = λ body. [];
  parse = parse_named;
}

named-deleted :
    (deleted : Bool) (ct : String) (body : Body)
    → parsed named (open_named (flag_code deleted) ct) ≡ some body
    → is_dead body ≡ deleted
unfolding get same
named-deleted true ct body h = ground (arith, h)
named-deleted false ct body h = ground (arith, h)

named-IsHonest : IsHonest named "key"
unfolding open_record
named-IsHonest e body h =
    named-deleted e.deleted e.ct body (rw (last-aad_record e.id e.rev e.deleted) at h)

abbrev env : String → ℕ → Bool → Bool → String → Envelope
env id rev deleted over ct = record {
  id = id;
  rev = rev;
  deleted = deleted;
  n = "n";
  ct = ct;
  over_tombstone = over;
}

-- A record, one that a flipped flag hides, one that was slipped over a tombstone, a deleted one and
-- one that does not open.
abbrev stored : Map Envelope
stored =
    ("a", env "a" 5 false false "live")
    ∷ ("b", env "b" 2 true false "live")
    ∷ ("c", env "c" 7 true true "live")
    ∷ ("d", env "d" 3 true false "dead")
    ∷ ("e", env "e" 1 false false "noise")
    ∷ []

abbrev pub kdf : Kdf
kdf = record {
  name = "argon2id";
  memory_kib = 131072;
  iterations = 3;
  parallelism = 1;
  salt = "c2FsdA==";
}

abbrev header : Header
header = record {
  format = 2;
  created = some 1;
  gen = whole 0;
  changed_at = none;
  kdf = kdf;
  wraps = none;
  proof = none;
}

abbrev pub shut : Vault
shut = record {
  key = none;
  plain = [];
  envelopes = stored;
  synced_rev = [];
  parked = [];
  damaged = [];
  forked_marks = [];
  parked_dropped = 0;
  meta = header;
  pending_meta = none;
  meta_updated = false;
}

abbrev title : Body
title = ("title", str (codes "live")) ∷ []

abbrev pub opened : Vault
opened = record shut {
  key = some "key";
  plain = ("a", title) ∷ ("b", title) ∷ [];
  envelopes = set "b" (env "b" 2 false false "live") stored;
  parked = env "c" 7 true true "live" ∷ [];
  damaged = "e" ∷ [];
}

unlocked : unlock_with_vault_key named "key" shut ≡ opened
unfolding unlock_with_vault_key open_all take_in open_envelope open_record aad_record digits values
    get set park park_all park_one cap drop mark same
unlocked = refl

unlock-InStep_example : InStep named "key" (unlock_with_vault_key named "key" shut)
unfolding get
unlock-InStep_example =
    unlock-InStep named "key" shut named-IsHonest (refl, (refl, (refl, (refl, (refl, tt)))))
      (refl, (refl, (refl, (refl, (refl, tt)))))

opened-InStep : InStep named "key" opened
unfolding get
opened-InStep =
    subst (λ (v : Vault). InStep named "key" v) unlocked
      (unlock-InStep named "key" shut named-IsHonest (refl, (refl, (refl, (refl, (refl, tt)))))
        (refl, (refl, (refl, (refl, (refl, tt))))))

-- The next revision of "a", and "b" deleted.
abbrev newer : Entries
newer = an_array (env "a" 6 false false "live" ∷ env "b" 3 true false "dead" ∷ [])

merged : (apply_envelopes named newer opened).0.plain ≡ ("a", title) ∷ []
unfolding apply_envelopes apply_with adoption adopt_all adopt_one settle_opened keep_listed commit
    guard_all guard open_envelope open_record aad_record digits as_map get set has delete same
merged = refl

apply-InStep_example : InStep named "key" (apply_envelopes named newer opened).0
unfolding apply_envelopes apply_with adoption adopt_all adopt_one settle_opened keep_listed commit
    guard_all guard open_envelope open_record aad_record digits as_map get set has delete same
apply-InStep_example =
    apply-InStep named "key" newer opened named-IsHonest opened-InStep
      ((λ c h t. ground (arith, h, t)), (((λ c h t. ground (arith, h, t)), tt))) (refl, (refl, tt))
      refl refl

abbrev old : Envelope
old = env "a" 3 false false "live"

-- A tombstone's flag over a live seal.
abbrev forged : Envelope
forged = env "a" 6 true false "live"

live_forward_example : (5 ≤ 5) ⊎ (false ≡ true)
unfolding apply_envelopes apply_with adoption adopt_all adopt_one settle_opened keep_listed commit
    guard_all guard open_envelope open_record aad_record digits as_map get set has delete same
live_forward_example =
    live_forward named (an_array (old ∷ [])) opened "a" (env "a" 5 false false "live")
      (env "a" 5 false false "live") refl refl

refused_unchanged_example :
    OnlyParked opened (apply_envelopes named (an_array (forged ∷ [])) opened).0
unfolding apply_envelopes apply_with adoption adopt_all adopt_one settle_opened keep_listed commit
    guard_all guard open_envelope open_record aad_record digits as_map get set has delete same
refused_unchanged_example =
    refused_unchanged named (an_array (forged ∷ [])) opened (tampered "a") refl

-- The ciphertext "old" opens to one body, and what is sealed to another.
abbrev turns : Body → Body → Platform
turns before next = record {
  encrypt = λ key nonce aad t. "new";
  decrypt = λ key nonce aad ct. some (codes ct);
  argon2id = λ password salt m i l. password;
  import_key = λ bytes. "key";
  quote = λ s. codes s;
  stringify = λ body. [];
  parse = λ t. some (if same t (codes "old") then before else next);
}

abbrev stored_old : Envelope
stored_old = env "a" 5 false false "old"

abbrev single : Vault
single = record shut {
  key = some "key";
  plain = ("a", title) ∷ [];
  envelopes = ("a", stored_old) ∷ [];
}

single-InStep : (next : Body) → InStep (turns title next) "key" single
unfolding get open_envelope open_record same
single-InStep next id = elim (Bool-cases (str_eq "a" id)) [
  | inl t ↦ rw t (record { is_shown = refl; has_true_flag = λ b h _. ground (arith, h) })
  | inr t ↦ rw t (record { is_shown = refl; has_true_flag = tt })
]

abbrev patched : Body
patched = ("title", str (codes "live")) ∷ ("notes", str (codes "x")) ∷ ("updated", num 9) ∷ []

update-IsWritten_example :
    Gives
      (IsWritten (turns title patched) "key" "a" 6 patched single)
      (update (turns title patched) "n" "a" (("notes", str (codes "x")) ∷ []) 9 single)
unfolding get set apply_patch stamped spread differs same delete open_record seal_record
update-IsWritten_example =
    update-IsWritten (turns title patched) "key" "n" "a" (("notes", str (codes "x")) ∷ []) 9 single
      title stored_old refl (single-InStep patched) refl refl refl refl

remove-IsWritten_example :
    Gives
      (IsWritten (turns title (tombstone 9)) "key" "a" 6 (tombstone 9) single)
      (remove (turns title (tombstone 9)) "n" "a" 9 single)
unfolding get open_record same seal_record
remove-IsWritten_example =
    remove-IsWritten (turns title (tombstone 9)) "key" "n" "a" 9 single stored_old refl
      (single-InStep (tombstone 9)) refl refl

-- Sealing the smuggled record "c" of `opened` again makes it live.
resurrected :
    supersede named "n" "c" 7 opened
    ≡ inr (record opened {
      envelopes = set "c" (record (env "c" 8 false false "live") { n = "n" }) opened.envelopes;
    })
unfolding supersede supersede_with reseal body_of seal_record open_envelope open_record aad_record
    digits get set same
resurrected = refl
