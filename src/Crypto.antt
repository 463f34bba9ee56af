-- ===== src/Crypto.antt =====
-- Sealing records (src/core/crypto.js). What the browser's WebCrypto and JSON do is a parameter.
pub mod Digits
mod Tests
use bencpass.Prelude.{
  ℕ, String, Bool, ◌+◌, ◌/◌, ◌%◌, zero, suc, Option, none, some, [], ◌∷◌, ◌++◌, not, ltb,
  if◌then◌else◌,
}
use bencpass.Map.{get}
use bencpass.Envelope.{Envelope}
use bencpass.Text.{Text}
use bencpass.Text.Codes.{codes}
use bencpass.Plain.{Body, is_truthy}

-- AES-GCM with Base64 around it, by key, nonce and additional data; Argon2id by password, salt,
-- memory, iterations and lanes; `importKey`; and `JSON.stringify`, of a text in `quote`, and
-- `JSON.parse`. A failed `decrypt` or `parse` throws.
pub record Platform : Type 0 where
  pub encrypt : String → String → Text → Text → String
  pub decrypt : String → String → Text → String → Option Text
  pub argon2id : Text → String → ℕ → ℕ → ℕ → Text
  pub import_key : Text → String
  pub quote : String → Text
  pub stringify : Body → Text
  pub parse : Text → Option Body

-- `${n}` by repeated division, on fuel: each division by ten brings n down, so n + 1 is enough.
unfoldable pub digits_from : ℕ → ℕ → Text
digits_from zero n = []
digits_from (suc fuel) n =
    let rest = digits_from fuel (n / 10) in
    if ltb n 10 then (48 + n) ∷ [] else rest ++ (48 + n % 10) ∷ []

unfoldable pub digits : ℕ → Text
unfolding digits_from
digits n = digits_from (suc n) n

-- `aadRecord`
unfoldable pub aad_record : String → ℕ → Bool → Text
aad_record id rev deleted =
    codes "bencpass:v2:rec:"
    ++ codes id
    ++ b':' ∷ digits rev
    ++ b':' ∷ (if deleted then b'1' else b'0') ∷ []

-- `Boolean(body.deleted)`
abbrev pub is_dead : Body → Bool
is_dead body = is_truthy (get "deleted" body)

abbrev pub or_open : Option Body → Option Body → Option Body
or_open (some body) second = some body
or_open none second = second

module _ (p : Platform) where
  -- `sealRecord`, under the nonce that was drawn: the ciphertext
  unfoldable pub seal_record : String → String → String → ℕ → Body → String
  seal_record key nonce id rev body =
      p.encrypt key nonce (aad_record id rev (is_dead body)) (p.stringify body)

  abbrev pub parsed : Option Text → Option Body
  parsed none = none
  parsed (some t) = p.parse t

  -- `openRecord`; `none` is its error
  unfoldable pub open_record : String → Envelope → Option Body
  open_record key e = parsed (p.decrypt key e.n (aad_record e.id e.rev e.deleted) e.ct)

  -- `openEnvelope` of src/core/vault.js
  unfoldable pub open_envelope : String → Envelope → Option Body
  open_envelope key e =
      or_open (open_record key e) (open_record key (record e { deleted = not e.deleted }))
