-- ===== src/Crypto/Aad.antt =====
-- The associated data of a record, `aad_bytes` of crates/secrets-crypto/src/lib.rs.
use secrets_manager.Prelude.{
  ◌+◌, ◌^◌, ◌<◌, ◌≡◌, sym, ◌∙◌, [], ◌++◌, append_assoc, arith, length, length-append, Bytes, as_u32,
  le_bytes, length-le_bytes, le_bytes-injective, append-cancel, append-nil,
}
use secrets_manager.Crypto.{aad_bytes}

-- A length prefix of four bytes determines what it prefixes, if the length fits.
pub prefixed-injective :
    (xs ys us vs : Bytes)
    → length xs < 2 ^ 32
    → length ys < 2 ^ 32
    → le_bytes 4 (as_u32 (length xs)) ++ (xs ++ us) ≡ le_bytes 4 (as_u32 (length ys)) ++ (ys ++ vs)
    → (xs ≡ ys) × (us ≡ vs)
prefixed-injective xs ys us vs hx hy e =
    let (prefix, rest) =
      append-cancel (le_bytes 4 (as_u32 (length xs))) (le_bytes 4 (as_u32 (length ys))) (xs ++ us)
        (ys ++ vs) (length-le_bytes 4 _ ∙ sym (length-le_bytes 4 _)) e in
    let same : as_u32 (length xs) ≡ as_u32 (length ys) =
      le_bytes-injective 4 _ _ (omega arith) (omega arith) prefix in
    append-cancel xs ys us vs (omega arith) rest

-- Two records whose names are shorter than 2^32 bytes have the same associated data only if they
-- have the same project and the same key.
pub aad_bytes-injective :
    (project project' key key' : Bytes)
    → length project < 2 ^ 32
    → length project' < 2 ^ 32
    → length key < 2 ^ 32
    → length key' < 2 ^ 32
    → aad_bytes project key ≡ aad_bytes project' key'
    → (project ≡ project') × (key ≡ key')
unfolding aad_bytes
aad_bytes-injective project project' key key' hp hp' hk hk' e =
    let (projects, rest) = prefixed-injective project project' _ _ hp hp' e in
    let (keys, _) = prefixed-injective key key' [] [] hk hk' (simp append-nil rest) in
    (projects, keys)

-- The length prefix keeps only the low 32 bits of a length: a project of exactly 2^32 bytes that
-- begins with the prefix of `key` shares its associated data with the empty project and a longer
-- key, for every `key`.
pub aad_bytes-collides :
    (key rest : Bytes)
    → length rest + 4 ≡ 2 ^ 32
    → aad_bytes (le_bytes 4 (as_u32 (length key)) ++ rest) key
      ≡ aad_bytes [] (rest ++ (le_bytes 4 (as_u32 (length key)) ++ key))
unfolding aad_bytes
aad_bytes-collides key rest h =
    let prefix = le_bytes 4 (as_u32 (length key)) in
    let four = length-le_bytes 4 (as_u32 (length key)) in
    let wraps : as_u32 (length (prefix ++ rest)) ≡ 0 =
      omega (arith, four, length-append prefix rest) in
    let same : as_u32 (length (rest ++ (prefix ++ key))) ≡ as_u32 (length key) =
      omega (arith, four, length-append rest (prefix ++ key), length-append prefix key) in
    rw (wraps, same, append_assoc)
