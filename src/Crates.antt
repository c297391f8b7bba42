-- ===== src/Crates.antt =====
-- What the program takes from third-party crates: their functions are parameters of the model, and
-- what is relied on is stated as laws, which the theorems that need them take as hypotheses.
use secrets_manager.Prelude.{
  any, false, ◌==◌, ℕ, ◌≡◌, ◌↔◌, Bool, true, List, Option, some, length, Bytes,
}

pub record Crates : Type 0 where
  -- chacha20poly1305: `XChaCha20Poly1305::{encrypt, decrypt}` of a key, a nonce, a message or
  -- ciphertext, and associated data. `none` is `Err`.
  pub aead_encrypt : Bytes → Bytes → Bytes → Bytes → Option Bytes
  pub aead_decrypt : Bytes → Bytes → Bytes → Bytes → Option Bytes
  -- argon2: whether `Params::new` accepts (m, t, p), and `hash_password_into` with such params
  pub argon2_params : ℕ → ℕ → ℕ → Bool
  pub argon2_hash : ℕ → ℕ → ℕ → Bytes → Bytes → Option Bytes
  -- sha2: `Sha256::digest`
  pub sha256 : Bytes → Bytes
  -- subtle: `ConstantTimeEq::ct_eq` of slices
  pub subtle_eq : Bytes → Bytes → Bool
  -- base64: the engine URL_SAFE_NO_PAD
  pub base64_encode : Bytes → Bytes
  pub base64_decode : Bytes → Option Bytes
  -- rand: the bytes that the operating system gives for a draw of a length. The draws of a run are
  -- numbered; `none` is a failure of the generator.
  pub fill_bytes : ℕ → ℕ → Option Bytes
  -- time: the clock's readings, numbered, as instants on one scale; `OffsetDateTime + Duration`,
  -- which panics (`none`) out of range; RFC 3339 text, which not every instant has
  pub now_utc : ℕ → ℕ
  pub add_days : ℕ → ℕ → Option ℕ
  pub format_rfc3339 : ℕ → Option Bytes
  pub parse_rfc3339 : Bytes → Option ℕ
  -- std: the directory and the file name of a path
  pub path_parts : Bytes → Bytes × Option Bytes
  -- SQLite: the rowid that an insert takes, given those in use
  pub fresh_rowid : List ℕ → ℕ

module _ (lib : Crates) where
  -- Decryption inverts encryption.
  pub record AeadCorrect : Type 0 where
    pub decrypts :
        (key nonce msg aad : Bytes) {ct : Bytes}
        → lib.aead_encrypt key nonce msg aad ≡ some ct
        → lib.aead_decrypt key nonce ct aad ≡ some msg

  -- The tag authenticates: a ciphertext that decrypts is one that encryption makes from the same
  -- inputs, and no ciphertext is made under two keys, or with two associated data. (The latter
  -- holds of the real cipher except with negligible probability.)
  pub record AeadAuthentic : Type 0 where
    pub made :
        (key nonce ct aad : Bytes) {msg : Bytes}
        → lib.aead_decrypt key nonce ct aad ≡ some msg
        → lib.aead_encrypt key nonce msg aad ≡ some ct
    pub binds :
        (key key' nonce nonce' msg msg' aad aad' : Bytes) {ct : Bytes}
        → lib.aead_encrypt key nonce msg aad ≡ some ct
        → lib.aead_encrypt key' nonce' msg' aad' ≡ some ct
        → (key ≡ key') × (aad ≡ aad')

  -- `fill_bytes` fills the whole buffer.
  pub record FillsBuffer : Type 0 where
    pub fills : (n draw : ℕ) {bs : Bytes} → lib.fill_bytes n draw ≡ some bs → length bs ≡ n

  -- `ct_eq` of slices of one length is equality.
  pub record ComparesBytes : Type 0 where
    pub compares :
        (xs ys : Bytes) → length xs ≡ length ys → (lib.subtle_eq xs ys ≡ true) ↔ (xs ≡ ys)

  -- Base64 text decodes to what was encoded.
  pub record Base64Correct : Type 0 where
    pub decodes : (bytes : Bytes) → lib.base64_decode (lib.base64_encode bytes) ≡ some bytes

  -- A new rowid is one that is not in use.
  pub record FreshRowid : Type 0 where
    pub unused : (ids : List ℕ) → any (λ id. id == lib.fresh_rowid ids) ids ≡ false
