-- ===== src/Crypto/Sealing.antt =====
-- Encryption and decryption, `encrypt` and `decrypt` of crates/secrets-crypto/src/lib.rs.
use secrets_manager.Prelude.{ℕ, suc, ◌≡◌, ap, ◌↔◌, true, some, arith, length, Bytes}
use secrets_manager.Exec.{ok, ◌>>=◌}
use secrets_manager.Crates.{Crates, AeadCorrect, AeadAuthentic, ComparesBytes}
use secrets_manager.Crypto.{nonce_len, key_len, MasterKey, random, encrypt, decrypt, ct_eq}

module _ (lib : Crates) where
  -- What a successful encryption has done.
  pub record Sealed (key : MasterKey) (plaintext aad nonce ct : Bytes) (draws : ℕ) : Type 0 where
    pub key_fits : length key.expose ≡ key_len
    pub nonce_fits : length nonce ≡ nonce_len
    pub drawn : lib.fill_bytes nonce_len draws ≡ some nonce
    pub sealed : lib.aead_encrypt key.expose nonce plaintext aad ≡ some ct

  pub encrypt-Sealed :
      (key : MasterKey) (plaintext aad nonce ct : Bytes) (draws draws' : ℕ)
      → encrypt lib key plaintext aad draws ≡ (ok (nonce, ct), draws')
      → Sealed key plaintext aad nonce ct draws × (draws' ≡ suc draws)
  unfolding encrypt random ◌>>=◌
  encrypt-Sealed key plaintext aad nonce ct draws draws' e = ground arith

  pub decrypt-Sealed :
      AeadCorrect lib
      → (key : MasterKey) (plaintext aad nonce ct : Bytes) (draws : ℕ)
      → Sealed key plaintext aad nonce ct draws
      → decrypt lib key nonce ct aad ≡ ok plaintext
  unfolding decrypt
  decrypt-Sealed correct key plaintext aad nonce ct draws s =
      ground (arith, correct.decrypts key.expose nonce plaintext aad s.sealed)

  -- A ciphertext decrypts under its own key and associated data only.
  pub decrypt-Sealed_only :
      AeadAuthentic lib
      → (key key' : MasterKey) (plaintext plaintext' aad aad' nonce nonce' ct : Bytes) (draws : ℕ)
      → Sealed key plaintext aad nonce ct draws
      → decrypt lib key' nonce' ct aad' ≡ ok plaintext'
      → (key ≡ key') × (aad ≡ aad')
  unfolding decrypt
  decrypt-Sealed_only authentic key key' plaintext plaintext' aad aad' nonce nonce' ct draws s e =
      let opened : lib.aead_decrypt key'.expose nonce' ct aad' ≡ some plaintext' = ground arith in
      let made = authentic.made key'.expose nonce' ct aad' opened in
      let (same_key, same_aad) =
        authentic.binds key.expose key'.expose nonce nonce' plaintext plaintext' aad aad' s.sealed
          made in
      (λ i. record { expose = same_key i }, same_aad)

-- The token comparison answers true exactly for equal bytes, whatever their lengths.
pub ct_eq_iff :
    (lib : Crates) (xs ys : Bytes) → ComparesBytes lib → (ct_eq lib xs ys ≡ true) ↔ (xs ≡ ys)
unfolding ct_eq
ct_eq_iff lib xs ys laws = (
  λ h. (laws.compares xs ys (ground arith)).0 (ground arith),
  λ e. ground (arith, laws.compares xs ys (ap length e), ap length e),
)
