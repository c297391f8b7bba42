-- ===== src/Examples/Cache.antt =====
-- Runs of crates/secrets-client/src/cache.rs.
use secrets_manager.Prelude.{
  ℕ, ◌+◌, ◌≤◌, ◌≡◌, refl, Option, some, [], ◌∷◌, ◌++◌, arith, length, replicate, Bytes, ascii,
  BTreeMap, btree_insert, le_bytes, ◌=ᵇ◌,
}
use secrets_manager.Exec.{◌>>=◌}
use secrets_manager.Crypto.{encrypt, decrypt, random}
use secrets_manager.Client.Received.{secret_map_from_plain, valid_secret_key}
use secrets_manager.Client.Cache.{CacheStore, cache_aad, cache_aad-injective}
use secrets_manager.Client.CacheEntries.{
  Envelope, Json, seal_entry, open_entry, seal_entry-open_entry_only,
}
use secrets_manager.Examples.Toy.{toy, drop_prefix, toy-AeadAuthentic, toy-Base64Correct}

abbrev store : CacheStore
store = record {
  key = record { expose = replicate 32 7 };
  server_url = ascii "https://s";
  token_hash = replicate 32 1;
}

abbrev web : Bytes
web = ascii "web"

cache_aad-injective_example :
    (store.server_url ≡ store.server_url)
    × (store.token_hash ≡ store.token_hash)
    × (web ≡ web)
    × (◌≡◌ {A = ℕ} 1000 1000)
cache_aad-injective_example =
    cache_aad-injective store store web web 1000 1000 (omega arith) (omega arith) refl refl
      (omega arith) (omega arith) (omega arith) (omega arith) refl

-- JSON for maps with at most the one secret `A`.
abbrev encoded : BTreeMap Bytes → Option Bytes
encoded [] = some (ascii "{}")
encoded ((key, value) ∷ secrets) = some value

abbrev json : Json
json = record { encode = encoded; decode = λ text. some ((ascii "A", text) ∷ []) }

abbrev secrets : BTreeMap Bytes
secrets = (ascii "A", ascii "x") ∷ []

abbrev nonce : Bytes
nonce = replicate 24 0

abbrev written : Envelope
written = record {
  version = 2;
  created_at_unix = 1000;
  nonce = nonce;
  ciphertext =
      32
      ∷ (replicate 32 7
          ++ (24
              ∷ (nonce
                  ++ (length (cache_aad store web 1000)
                      ∷ (cache_aad store web 1000 ++ ascii "x")))));
}

seal_entry-open_entry_only_example :
    (store ≡ store) × (web ≡ web) × (1000 ≤ 2000 + 120) × (2000 ≤ 1000 + 86400)
unfolding seal_entry open_entry cache_aad le_bytes encrypt decrypt random drop_prefix
    secret_map_from_plain valid_secret_key btree_insert ◌=ᵇ◌ ◌>>=◌
seal_entry-open_entry_only_example =
    seal_entry-open_entry_only toy json store store web web secrets secrets 1000 2000 0 1 written
      written toy-AeadAuthentic toy-Base64Correct (omega arith) (omega arith) refl refl
      (omega arith) (omega arith) (omega arith) (omega arith) refl refl refl
