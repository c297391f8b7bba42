-- ===== src/Crypto/Error.antt =====
-- `CryptoError` of crates/secrets-crypto/src/lib.rs.
pub data CryptoError : Type 0 where
  kdf params encrypt decrypt nonce_len : CryptoError
