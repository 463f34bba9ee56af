-- ===== src/Crypto/Tests.antt =====
-- Concrete additional data.
use bencpass.Prelude.{◌≡◌, refl, true}
use bencpass.Text.Codes.{codes}
use bencpass.Crypto.{digits, digits_from, aad_record}

bound : aad_record "a" 120 true ≡ codes "bencpass:v2:rec:a:120:1"
unfolding aad_record digits digits_from
bound = refl
