-- ===== src/Crypto.antt =====
-- The crypto core, crates/secrets-crypto/src/lib.rs: key derivation, associated data, encryption
-- and decryption, tokens. The state of its functions is the number of random draws made so far.
pub mod Error
pub mod Aad
pub mod Sealing
use secrets_manager.Prelude.{
  ℕ, suc, ◌+◌, ◌*◌, Bool, true, false, not, Option, none, some, List, [], ◌∷◌, ◌++◌, ◌==◌,
  if◌then◌else◌, length, Bytes, as_u32, le_bytes,
}
use secrets_manager.Exec.{
  Outcome, ok, err, panic, ok_or, Exec, pure, fail, lift, refuse_if, ◌>>=◌, ◌>>◌,
}
use secrets_manager.Crates.{Crates}
use Error.{CryptoError}

abbrev pub nonce_len : ℕ
nonce_len = 24

abbrev pub key_len : ℕ
key_len = 32

pub record KdfParams : Type 0 where
  pub m_cost_kib : ℕ
  pub t_cost : ℕ
  pub p_cost : ℕ

-- `KdfParams::STRONG`
abbrev pub strong : KdfParams
strong = record { m_cost_kib = 256 * 1024; t_cost = 4; p_cost = 1 }

pub record MasterKey : Type 0 where
  pub expose : Bytes

unfoldable pub aad_bytes : Bytes → Bytes → Bytes
aad_bytes project key =
    le_bytes 4 (as_u32 (length project)) ++ (project ++ (le_bytes 4 (as_u32 (length key)) ++ key))

module _ (lib : Crates) where
  -- `SysRng.try_fill_bytes(..).expect(..)`
  unfoldable pub random : {E : Type 0} → ℕ → Exec ℕ E Bytes
  random n draws = elim (lib.fill_bytes n draws) [
    | none ↦ (panic, suc draws)
    | some bytes ↦ (ok bytes, suc draws)
  ]

  unfoldable pub derive_key : Bytes → Bytes → KdfParams → Outcome CryptoError MasterKey
  derive_key passphrase salt params =
      if lib.argon2_params params.m_cost_kib params.t_cost params.p_cost
      then elim (lib.argon2_hash params.m_cost_kib params.t_cost params.p_cost passphrase salt) [
        | none ↦ err CryptoError.kdf
        | some out ↦ ok (record { expose = out })
      ]
      else err CryptoError.params

  unfoldable pub encrypt : MasterKey → Bytes → Bytes → Exec ℕ CryptoError (Bytes × Bytes)
  encrypt key plaintext aad = do
    refuse_if (not (length key.expose == key_len)) CryptoError.encrypt
    nonce ← random nonce_len
    refuse_if (not (length nonce == nonce_len)) CryptoError.encrypt
    ciphertext ← lift (ok_or (lib.aead_encrypt key.expose nonce plaintext aad) CryptoError.encrypt)
    pure (nonce, ciphertext)

  unfoldable pub decrypt : MasterKey → Bytes → Bytes → Bytes → Outcome CryptoError Bytes
  decrypt key nonce ciphertext aad =
      if not (length nonce == nonce_len)
      then err CryptoError.nonce_len
      else if not (length key.expose == key_len)
      then err CryptoError.decrypt
      else ok_or (lib.aead_decrypt key.expose nonce ciphertext aad) CryptoError.decrypt

  unfoldable pub generate_salt : {E : Type 0} → Exec ℕ E Bytes
  generate_salt = random 16

  unfoldable pub hash_token : Bytes → Bytes
  hash_token token = lib.sha256 token

  unfoldable pub ct_eq : Bytes → Bytes → Bool
  ct_eq a b = if not (length a == length b) then false else lib.subtle_eq a b

  unfoldable pub generate_token : {E : Type 0} → Exec ℕ E Bytes
  generate_token = do raw ← random 32; pure (lib.base64_encode raw)
