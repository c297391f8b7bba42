-- ===== src/Client/CacheEntries/RoundTrip.antt =====
-- What a store puts into a cache entry it takes out of it, `store` and `load` of
-- crates/secrets-client/src/cache.rs.
use secrets_manager.Prelude.{
  ℕ, ◌+◌, ◌-◌, ◌≤◌, ◌≡◌, refl, sym, ap, ◌∙◌, not, ◌==◌, ltb, some, arith, if◌then◌else◌, Bytes,
  BTreeMap,
}
use secrets_manager.Exec.{Outcome, ok, err, ok_or, map_error, lift, pure, map_err, >>=-elim}
use secrets_manager.Crates.{Crates, AeadCorrect, Base64Correct}
use secrets_manager.Crypto.{encrypt, decrypt}
use secrets_manager.Crypto.Sealing.{encrypt-Sealed, decrypt-Sealed}
use secrets_manager.Server.State.Endings.{ok_or-eq-ok, map_err-eq-ok, lift-eq-ok}
use secrets_manager.Client.Received.{secret_map_from_plain}
use secrets_manager.Client.Cache.{CacheStore, cache_aad}
use secrets_manager.Client.CacheEntries.{
  Envelope, CacheError, encode_payload, unsupported_version, in_future, expired, received, Json,
  cache_version, cache_ttl, max_future_skew_secs, envelope-inj, seal_entry, open_entry,
}

-- `serde_json` reads back what it wrote.
pub record JsonCorrect (json : Json) : Type 0 where
  pub decodes :
      (m : BTreeMap Bytes) {text : Bytes} → json.encode m ≡ some text → json.decode text ≡ some m

in_time :
    {A : Type 0} (v at now : ℕ) (e1 e2 e3 : CacheError) (r : Outcome CacheError A)
    → v ≡ cache_version
    → at ≤ now + 120
    → now ≤ at + 86400
    → (if not (v == cache_version)
        then err e1
        else if ltb (now + max_future_skew_secs) at
        then err e2
        else if ltb cache_ttl (now - at)
        then err e3
        else r)
      ≡ r
in_time v at now e1 e2 e3 r hv h1 h2 = grind arith

pub seal_entry-version :
    (lib : Crates) (json : Json) (store : CacheStore) (project : Bytes) (secrets : BTreeMap Bytes)
    (at draws draws' : ℕ) (written : Envelope)
    → seal_entry lib json store project secrets at draws ≡ (ok written, draws')
    → written.version ≡ cache_version
unfolding seal_entry pure
seal_entry-version lib json store project secrets at draws draws' written sealed =
    >>=-elim (lift (ok_or (json.encode secrets) encode_payload)) _ draws draws' sealed
      λ plaintext d1 e1 r1.
        >>=-elim (map_err _ (encrypt lib store.key plaintext (cache_aad store project at))) _ d1
          draws' r1 λ pair d2 e2 r2. ap (λ e. e.version) (sym (envelope-inj (ap (λ p. p.0) r2)))

opens_own :
    (lib : Crates) (json : Json) (store : CacheStore) (project plaintext nonce ct : Bytes)
    (secrets : BTreeMap Bytes) (at now : ℕ)
    → Base64Correct lib
    → at ≤ now + 120
    → now ≤ at + 86400
    → decrypt lib store.key nonce ct (cache_aad store project at) ≡ ok plaintext
    → json.decode plaintext ≡ some secrets
    → open_entry lib json store project now (record {
      version = cache_version;
      created_at_unix = at;
      nonce = lib.base64_encode nonce;
      ciphertext = lib.base64_encode ct;
    })
      ≡ map_error received (secret_map_from_plain secrets)
unfolding open_entry
opens_own lib json store project plaintext nonce ct secrets at now text h1 h2 opened decoded =
    in_time cache_version at now unsupported_version in_future expired _ refl h1 h2
    ∙ simp (text.decodes nonce, text.decodes ct, opened, decoded)

-- An entry that is opened by the store that wrote it, in time, gives the secrets that were stored.
pub seal_entry-open_entry :
    (lib : Crates) (json : Json) (store : CacheStore) (project : Bytes) (secrets : BTreeMap Bytes)
    (at now draws draws' : ℕ) (written : Envelope)
    → AeadCorrect lib
    → Base64Correct lib
    → JsonCorrect json
    → at ≤ now + 120
    → now ≤ at + 86400
    → seal_entry lib json store project secrets at draws ≡ (ok written, draws')
    → open_entry lib json store project now written
      ≡ map_error received (secret_map_from_plain secrets)
unfolding seal_entry pure
seal_entry-open_entry lib json store project secrets at now draws draws' written correct text codec
      h1 h2 sealed =
    >>=-elim (lift (ok_or (json.encode secrets) encode_payload)) _ draws draws' sealed
      λ plaintext d1 e1 r1.
        >>=-elim (map_err _ (encrypt lib store.key plaintext (cache_aad store project at))) _ d1
          draws' r1
          λ pair d2 e2 r2.
            let (s, _) =
              encrypt-Sealed lib store.key plaintext (cache_aad store project at) pair.0 pair.1 d1
                d2
                (map_err-eq-ok _ (encrypt lib store.key plaintext (cache_aad store project at)) d1
                  d2 e2) in
            let (encoded, _) =
              lift-eq-ok (ok_or (json.encode secrets) encode_payload) draws d1 e1 in
            ap (open_entry lib json store project now) (sym (envelope-inj (ap (λ p. p.0) r2)))
            ∙ opens_own lib json store project plaintext pair.0 pair.1 secrets at now text h1 h2
                (decrypt-Sealed lib correct store.key plaintext (cache_aad store project at) pair.0
                  pair.1 d1 s)
                (codec.decodes secrets (ok_or-eq-ok (json.encode secrets) encode_payload encoded))
