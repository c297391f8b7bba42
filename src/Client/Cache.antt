-- ===== src/Client/Cache.antt =====
-- The associated data of the offline cache, crates/secrets-client/src/cache.rs.
use secrets_manager.Prelude.{
  ℕ, ◌^◌, ◌<◌, ◌≡◌, refl, arith, ◌++◌, length, Bytes, ascii, as_u32, le_bytes, le_bytes-injective,
  append-cancel,
}
use secrets_manager.Crypto.{MasterKey}
use secrets_manager.Crypto.Aad.{prefixed-injective}

abbrev pub cache_aad_prefix : Bytes
cache_aad_prefix = ascii "secrets-manager-client-cache-v2"

-- `token_hash` is an array of 32 bytes.
pub record CacheStore : Type 0 where
  pub key : MasterKey
  pub server_url : Bytes
  pub token_hash : Bytes

unfoldable pub cache_aad : CacheStore → Bytes → ℕ → Bytes
cache_aad store project created_at_unix =
    cache_aad_prefix
    ++ (le_bytes 4 (as_u32 (length store.server_url))
        ++ (store.server_url
            ++ (store.token_hash
                ++ (le_bytes 4 (as_u32 (length project))
                    ++ (project ++ le_bytes 8 created_at_unix)))))

-- Two cache entries have the same associated data only if they agree on the server, the token's hash
-- (of 32 bytes), the project and the time of writing (a 64-bit number), for a URL and a project
-- shorter than 2^32 bytes.
pub cache_aad-injective :
    (s s' : CacheStore) (project project' : Bytes) (at at' : ℕ)
    → length s.server_url < 2 ^ 32
    → length s'.server_url < 2 ^ 32
    → length s.token_hash ≡ 32
    → length s'.token_hash ≡ 32
    → length project < 2 ^ 32
    → length project' < 2 ^ 32
    → at < 2 ^ 64
    → at' < 2 ^ 64
    → cache_aad s project at ≡ cache_aad s' project' at'
    → (s.server_url ≡ s'.server_url)
      × (s.token_hash ≡ s'.token_hash)
      × (project ≡ project')
      × (at ≡ at')
unfolding cache_aad
cache_aad-injective s s' project project' at at' hu hu' ht ht' hp hp' ha ha' e =
    let (_, rest) = append-cancel cache_aad_prefix cache_aad_prefix _ _ refl e in
    let (urls, rest1) = prefixed-injective s.server_url s'.server_url _ _ hu hu' rest in
    let (hashes, rest2) = append-cancel s.token_hash s'.token_hash _ _ (omega arith) rest1 in
    let (projects, rest3) = prefixed-injective project project' _ _ hp hp' rest2 in
    (urls, hashes, projects, le_bytes-injective 8 at at' (omega arith) (omega arith) rest3)
