-- ===== src/Client/CacheEntries.antt =====
-- Cache entries, `store` and `load` of crates/secrets-client/src/cache.rs between the secrets and the
-- envelope that the cache file holds. JSON (serde_json) is a parameter, as are the file's reads and
-- writes around it. Times are seconds since 1970, far from the bound of 64 bits.
pub mod RoundTrip
use secrets_manager.Prelude.{
  ℕ, ◌+◌, ◌-◌, ◌*◌, ◌^◌, ◌<◌, ◌≤◌, ◌≡◌, refl, sym, ap, ◌∙◌, Bool, true, false, not, ◌==◌, ltb,
  Option, some, arith, if◌then◌else◌, length, Bytes, BTreeMap,
}
use secrets_manager.Exec.{
  Outcome, ok, err, panic, ok_or, map_error, then_result, Exec, pure, lift, map_err, ◌>>=◌,
  >>=-elim,
}
use secrets_manager.Crates.{Crates, AeadAuthentic, Base64Correct}
use secrets_manager.Crypto.{encrypt, decrypt}
use secrets_manager.Crypto.Sealing.{encrypt-Sealed, decrypt-Sealed_only}
use secrets_manager.Server.State.Endings.{ok_or-eq-ok, map_error-eq-ok, map_err-eq-ok}
use secrets_manager.Client.Files.{FileError}
use secrets_manager.Client.Received.{ReceiveError, secret_map_from_plain}
use secrets_manager.Client.Cache.{CacheStore, cache_aad, cache_aad-injective}

pub record Envelope : Type 0 where
  pub version : ℕ
  pub created_at_unix : ℕ
  pub nonce : Bytes
  pub ciphertext : Bytes

pub data CacheError : Type 0 where
  encode_payload encrypt_payload unsupported_version in_future expired : CacheError
  invalid_base64 decrypt_payload parse_payload : CacheError
  received : ReceiveError → CacheError
  on_file : FileError → CacheError
  no_cache_directory invalid_key_length clock_before_epoch : CacheError
  encode_envelope parse_envelope : CacheError

-- `serde_json` of a map of texts.
pub record Json : Type 0 where
  pub encode : BTreeMap Bytes → Option Bytes
  pub decode : Bytes → Option (BTreeMap Bytes)

abbrev pub cache_version : ℕ
cache_version = 2

abbrev pub cache_ttl : ℕ
cache_ttl = 24 * 60 * 60

abbrev pub max_future_skew_secs : ℕ
max_future_skew_secs = 120

pub some-inj : {A : Type 0} {x y : A} → some x ≡ some y → x ≡ y
some-inj e = cc e

module _ {E A : Type 0} where
  if-eq-ok :
      (b : Bool) (e : E) (r : Outcome E A) {a : A}
      → (if b then err e else r) ≡ ok a
      → (b ≡ false) × (r ≡ ok a)
  if-eq-ok true e r h = cc h
  if-eq-ok false e r h = (refl, h)

  then_result-eq-ok :
      {B : Type 0} (r : Outcome E A) (f : A → Outcome E B) {b : B}
      → then_result r f ≡ ok b
      → (a : A) × (r ≡ ok a) × (f a ≡ ok b)
  then_result-eq-ok (ok a) f h = (a, refl, h)
  then_result-eq-ok (err e) f h = cc h
  then_result-eq-ok panic f h = cc h

module _ (lib : Crates) (json : Json) (store : CacheStore) where
  -- `store`, up to the envelope.
  unfoldable pub seal_entry : Bytes → BTreeMap Bytes → ℕ → Exec ℕ CacheError Envelope
  seal_entry project secrets now = do
    plaintext ← lift (ok_or (json.encode secrets) encode_payload)
    sealed ←
        map_err (λ _. encrypt_payload)
          (encrypt lib store.key plaintext (cache_aad store project now))
    pure (record {
      version = cache_version;
      created_at_unix = now;
      nonce = lib.base64_encode sealed.0;
      ciphertext = lib.base64_encode sealed.1;
    })

  -- `load`, from the envelope on.
  unfoldable pub open_entry : Bytes → ℕ → Envelope → Outcome CacheError (BTreeMap Bytes)
  open_entry project now e =
      if not (e.version == cache_version)
      then err unsupported_version
      else if ltb (now + max_future_skew_secs) e.created_at_unix
      then err in_future
      else if ltb cache_ttl (now - e.created_at_unix)
      then err expired
      else then_result (ok_or (lib.base64_decode e.nonce) invalid_base64) λ nonce.
        then_result (ok_or (lib.base64_decode e.ciphertext) invalid_base64) λ ciphertext.
          then_result
            (map_error (λ _. decrypt_payload)
              (decrypt lib store.key nonce ciphertext (cache_aad store project e.created_at_unix)))
            λ plaintext.
              then_result (ok_or (json.decode plaintext) parse_payload)
                λ raw. map_error received (secret_map_from_plain raw)

  -- An entry that opens is in time, and its ciphertext decrypts as its project's.
  pub record Opens (project : Bytes) (now : ℕ) (e : Envelope) (ct : Bytes) : Type 0 where
    pub nonce : Bytes
    pub plaintext : Bytes
    pub opened :
        decrypt lib store.key nonce ct (cache_aad store project e.created_at_unix) ≡ ok plaintext
    pub not_early : e.created_at_unix ≤ now + 120
    pub not_late : now ≤ e.created_at_unix + 86400

  pub open_entry-Opens :
      (project ct : Bytes) (now : ℕ) (e : Envelope) (m : BTreeMap Bytes)
      → lib.base64_decode e.ciphertext ≡ some ct
      → open_entry project now e ≡ ok m
      → Opens project now e ct
  unfolding open_entry
  open_entry-Opens project ct now e m decoded h =
      let (_, h1) = if-eq-ok (not (e.version == cache_version)) unsupported_version _ h in
      let (early, h2) =
        if-eq-ok (ltb (now + max_future_skew_secs) e.created_at_unix) in_future _ h1 in
      let (late, h3) = if-eq-ok (ltb cache_ttl (now - e.created_at_unix)) expired _ h2 in
      let (nonce, _, h4) =
        then_result-eq-ok (ok_or (lib.base64_decode e.nonce) invalid_base64) _ h3 in
      let (ct', d, h5) =
        then_result-eq-ok (ok_or (lib.base64_decode e.ciphertext) invalid_base64) _ h4 in
      let (plaintext, o, _) =
        then_result-eq-ok
          (map_error (λ _. decrypt_payload)
            (decrypt lib store.key nonce ct' (cache_aad store project e.created_at_unix)))
          _ h5 in
      let same : ct' ≡ ct = some-inj (sym (ok_or-eq-ok _ invalid_base64 d) ∙ decoded) in
      record {
        nonce = nonce;
        plaintext = plaintext;
        opened =
            (λ i.
              decrypt lib store.key nonce (sym same i) (cache_aad store project e.created_at_unix))
            ∙ map_error-eq-ok _ _ o;
        not_early = ground arith;
        not_late = ground arith;
      }

pub envelope-inj : {x y : Envelope} → ◌≡◌ {A = Outcome CacheError Envelope} (ok x) (ok y) → x ≡ y
envelope-inj e = cc e

-- An entry whose ciphertext comes from an entry that was written, whatever else in it was replaced, is
-- opened only for the server, the token and the project it was written for, under the same key, and
-- at most a day after it was written (and not two minutes before), for names shorter than 2^32 bytes,
-- token hashes of 32 bytes and times below 2^64.
pub seal_entry-open_entry_only :
    (lib : Crates) (json : Json) (writer reader : CacheStore) (project project' : Bytes)
    (secrets m : BTreeMap Bytes) (at now draws draws' : ℕ) (written replaced : Envelope)
    → AeadAuthentic lib
    → Base64Correct lib
    → length writer.server_url < 2 ^ 32
    → length reader.server_url < 2 ^ 32
    → length writer.token_hash ≡ 32
    → length reader.token_hash ≡ 32
    → length project < 2 ^ 32
    → length project' < 2 ^ 32
    → at < 2 ^ 64
    → replaced.created_at_unix < 2 ^ 64
    → seal_entry lib json writer project secrets at draws ≡ (ok written, draws')
    → replaced.ciphertext ≡ written.ciphertext
    → open_entry lib json reader project' now replaced ≡ ok m
    → (writer ≡ reader) × (project ≡ project') × (at ≤ now + 120) × (now ≤ at + 86400)
unfolding seal_entry pure
seal_entry-open_entry_only lib json writer reader project project' secrets m at now draws draws'
      written replaced authentic text hu hu' ht ht' hp hp' ha ha' sealed kept opened =
    >>=-elim (lift (ok_or (json.encode secrets) encode_payload)) _ draws draws' sealed
      λ plaintext d1 e1 r1.
        >>=-elim (map_err _ (encrypt lib writer.key plaintext (cache_aad writer project at))) _ d1
          draws' r1
          λ pair d2 e2 r2.
            let (s, _) =
              encrypt-Sealed lib writer.key plaintext (cache_aad writer project at) pair.0 pair.1 d1
                d2 (map_err-eq-ok _ _ d1 d2 e2) in
            let same : lib.base64_encode pair.1 ≡ written.ciphertext =
              ap (λ e. e.ciphertext) (envelope-inj (ap (λ p. p.0) r2)) in
            let decoded : lib.base64_decode replaced.ciphertext ≡ some pair.1 =
              ap lib.base64_decode (kept ∙ sym same) ∙ text.decodes pair.1 in
            let o =
              open_entry-Opens lib json reader project' pair.1 now replaced m decoded opened in
            let (keys, aads) =
              decrypt-Sealed_only lib authentic writer.key reader.key plaintext o.plaintext
                (cache_aad writer project at) (cache_aad reader project' replaced.created_at_unix)
                pair.0 o.nonce pair.1 d1 s o.opened in
            let (urls, hashes, projects, times) =
              cache_aad-injective writer reader project project' at replaced.created_at_unix hu hu'
                ht ht' hp hp' ha ha' aads in
            (
              λ i. record { key = keys i; server_url = urls i; token_hash = hashes i },
              projects,
              omega (arith, times, o.not_early),
              omega (arith, times, o.not_late),
            )
