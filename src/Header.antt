-- ===== src/Header.antt =====
-- The header of a vault: how its key is wrapped (src/core/crypto.js, src/core/vault.js).
use bencpass.Prelude.{
  ℕ, String, Bool, true, false, ◌||◌, Option, none, some, [], ◌∷◌, ◌++◌, str_eq, if◌then◌else◌,
}
use bencpass.Text.{Text, same}
use bencpass.Text.Codes.{codes}
use bencpass.Crypto.{Platform, digits}

-- The parameters of the key derivation and its salt, in Base64.
pub record Kdf : Type 0 where
  pub name : String
  pub memory_kib : ℕ
  pub iterations : ℕ
  pub parallelism : ℕ
  pub salt : String

-- A wrapped vault key. A recovery wrapping has a salt of its own and a date.
pub record Wrap : Type 0 where
  pub wrapper : String
  pub n : String
  pub ct : String
  pub salt : String
  pub created : ℕ

pub record Wraps : Type 0 where
  pub password : Option Wrap
  pub recovery : Option Wrap
  pub biometric : Option Wrap

pub record Proof : Type 0 where
  pub n : String
  pub ct : String

-- A generation: none, a number as the program writes it, or anything else, by its JSON text and by
-- what `Number` makes of it, none for NaN. Negative numbers and fractions are left out.
pub data Gen : Type 0 where
  missing : Gen
  whole : ℕ → Gen
  other : Text → Option ℕ → Gen

pub record Header : Type 0 where
  pub format : ℕ
  pub created : Option ℕ
  pub gen : Gen
  pub changed_at : Option ℕ
  pub kdf : Kdf
  pub wraps : Option Wraps
  pub proof : Option Proof

abbrev pub format : ℕ
format = 2

-- The wrapping of one kind, as `meta.wraps?.password`.
abbrev pub wrap_of : (Wraps → Option Wrap) → Option Wraps → Option Wrap
wrap_of pick none = none
wrap_of pick (some ws) = pick ws

module _ (p : Platform) where
  unfoldable field : String → Text → Text
  field key value = p.quote key ++ b':' ∷ value

  opt_number : Option ℕ → Text
  opt_number none = codes "null"
  opt_number (some n) = digits n

  gen_text : Gen → Text
  gen_text missing = codes "0"
  gen_text (whole n) = digits n
  gen_text (other t n) = t

  kdf_text : Kdf → Text
  unfolding field
  kdf_text k =
      b'{' ∷ field "iterations" (digits k.iterations)
      ++ b',' ∷ field "memoryKiB" (digits k.memory_kib)
      ++ b',' ∷ field "name" (p.quote k.name)
      ++ b',' ∷ field "parallelism" (digits k.parallelism)
      ++ b',' ∷ field "salt" (p.quote k.salt)
      ++ b'}' ∷ []

  -- A wrapping by a password has neither date nor salt.
  wrap_text : Bool → Option Wrap → Text
  unfolding field
  wrap_text dated none = codes "null"
  wrap_text dated (some w) =
      b'{' ∷ (if dated then field "created" (digits w.created) ++ b',' ∷ [] else [])
      ++ field "ct" (p.quote w.ct)
      ++ b',' ∷ field "n" (p.quote w.n)
      ++ (if dated then b',' ∷ field "salt" (p.quote w.salt) else [])
      ++ b',' ∷ field "wrapper" (p.quote w.wrapper)
      ++ b'}' ∷ []

  -- `headerCanonical`: `canonJson` of what is bound, its keys in order. Neither the proof nor the
  -- fingerprint wrapping is among it.
  unfoldable pub header_canonical : Header → Text
  unfolding field opt_number gen_text kdf_text wrap_text
  header_canonical h =
      b'{' ∷ field "changedAt" (opt_number h.changed_at)
      ++ b',' ∷ field "created" (opt_number h.created)
      ++ b',' ∷ field "format" (digits h.format)
      ++ b',' ∷ field "gen" (gen_text h.gen)
      ++ b',' ∷ field "kdf" (kdf_text h.kdf)
      ++ b','
        ∷ field "wraps" (
            b'{' ∷ field "password" (wrap_text false (wrap_of (λ (w : Wraps). w.password) h.wraps))
            ++ b','
              ∷ field "recovery" (wrap_text true (wrap_of (λ (w : Wraps). w.recovery) h.wraps))
            ++ b'}' ∷ [])
      ++ b'}' ∷ []

  -- `deriveMasterKey`; none is its error on another function
  unfoldable pub derive_master_key : Text → String → Kdf → Option Text
  derive_master_key password salt k =
      if str_eq k.name "argon2id"
      then some (p.argon2id password salt k.memory_kib k.iterations k.parallelism)
      else none

  -- `aadWrap`
  abbrev pub aad_wrap : String → Text
  aad_wrap wrapper = codes "bencpass:v2:wrap:" ++ codes wrapper

  abbrev pub aad_header : Text
  aad_header = codes "bencpass:v2:meta"

  -- `wrapVaultKey`, under the nonce that was drawn
  unfoldable pub wrap_vault_key : String → Text → Text → String → Wrap
  wrap_vault_key nonce bytes wrapping wrapper = record {
    wrapper = wrapper;
    n = nonce;
    ct = p.encrypt (p.import_key wrapping) nonce (aad_wrap wrapper) bytes;
    salt = "";
    created = 0;
  }

  -- `unwrapVaultKey`; none is its error
  unfoldable pub unwrap_vault_key : Wrap → Text → Option Text
  unwrap_vault_key w wrapping = p.decrypt (p.import_key wrapping) w.n (aad_wrap w.wrapper) w.ct

  -- `sealHeaderProof`
  unfoldable pub seal_header_proof : String → String → Header → Proof
  unfolding header_canonical
  seal_header_proof nonce key h = record {
    n = nonce;
    ct = p.encrypt key nonce aad_header (header_canonical h);
  }

  proves : Header → Option Text → Bool
  unfolding header_canonical same
  proves h none = false
  proves h (some t) = same t (header_canonical h)

  check_proof : String → Header → Option Proof → Bool
  unfolding proves
  check_proof key h none = false
  check_proof key h (some q) =
      if str_eq q.ct "" || str_eq q.n ""
      then false
      else proves h (p.decrypt key q.n aad_header q.ct)

  -- `verifyHeaderProof`
  unfoldable pub verify_header_proof : String → Header → Bool
  unfolding check_proof
  verify_header_proof key h = check_proof key h h.proof
