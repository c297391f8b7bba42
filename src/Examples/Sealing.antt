-- ===== src/Examples/Sealing.antt =====
-- Runs of crates/secrets-crypto/src/lib.rs.
use secrets_manager.Prelude.{
  ℕ, ◌≡◌, refl, [], ◌++◌, arith, length, replicate, length-replicate, Bytes, ascii, le_bytes,
  as_u32,
}
use secrets_manager.Crypto.{aad_bytes}
use secrets_manager.Crypto.Aad.{aad_bytes-injective, aad_bytes-collides}

abbrev web : Bytes
web = ascii "web"

abbrev url : Bytes
url = ascii "URL"

aad_bytes-injective_example : (web ≡ web) × (url ≡ url)
aad_bytes-injective_example =
    aad_bytes-injective web web url url (omega arith) (omega arith) (omega arith) (omega arith) refl

unfoldable zeros : ℕ → Bytes
zeros n = replicate n 0

length-zeros : (n : ℕ) → length (zeros n) ≡ n
unfolding zeros
length-zeros n = length-replicate n 0

aad_bytes-collides_example :
    aad_bytes (le_bytes 4 (as_u32 (length url)) ++ zeros 4294967292) url
    ≡ aad_bytes [] (zeros 4294967292 ++ (le_bytes 4 (as_u32 (length url)) ++ url))
aad_bytes-collides_example =
    aad_bytes-collides url (zeros 4294967292) (omega (arith, length-zeros 4294967292))
