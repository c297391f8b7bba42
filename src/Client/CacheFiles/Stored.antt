-- ===== src/Client/CacheFiles/Stored.antt =====
-- What `store` of crates/secrets-client/src/cache.rs has written, `load` reads.
use secrets_manager.Prelude.{
  ℕ, ◌+◌, ◌≤◌, ◌≡◌, refl, sym, subst, ap, ◌∙◌, not, some, [], ◌==◌, arith, if◌then◌else◌, Bytes,
  BTreeMap,
}
use secrets_manager.Exec.{ok, ok_or, map_error, Exec, pure, lift, refuse_if, >>=-elim, >>=-of_ok}
use secrets_manager.Crates.{Crates, AeadCorrect, Base64Correct}
use secrets_manager.Server.State.Endings.{ok_or-eq-ok, map_err-eq-ok, lift->>=-elim}
use secrets_manager.Client.Received.{secret_map_from_plain}
use secrets_manager.Client.Cache.{CacheStore}
use secrets_manager.Client.CacheEntries.{
  Envelope, on_file, encode_payload, encode_envelope, parse_envelope, clock_before_epoch,
  unsupported_version, received, Json, cache_version, seal_entry,
}
use secrets_manager.Client.CacheEntries.RoundTrip.{
  JsonCorrect, seal_entry-version, seal_entry-open_entry,
}
use secrets_manager.Client.Files.{
  CachePath, Disk, file, accessing, disk_access, read_file, write_private_file,
}
use secrets_manager.Client.Files.Others.{private_file}
use secrets_manager.Client.Files.Atomic.{
  same_path_refl, temp_path-other, Replaced, write_private_file-Replaced,
}
use secrets_manager.Client.CacheFiles.{
  ClientHost, EnvelopeJson, files, on_disk_draws, cache_path, cache_store, cache_load,
}
use secrets_manager.Client.CacheFiles.Key.{files-ok}

-- `serde_json` reads back the envelopes that it wrote.
pub record EnvelopeJsonCorrect (json : EnvelopeJson) : Type 0 where
  pub decodes :
      (e : Envelope) {text : Bytes} → json.encode e ≡ some text → json.decode text ≡ some e

read_file-private :
    (p : CachePath) (contents : Bytes) (d : Disk)
    → d.faults ≡ []
    → file p d.files ≡ some (private_file contents)
    → read_file p d ≡ (ok contents, d)
unfolding read_file accessing disk_access
read_file-private p contents d quiet there = ground arith

on_disk_draws-eq-ok :
    {E A : Type 0} (m : Exec ℕ E A) (d d' : Disk) {a : A}
    → on_disk_draws m d ≡ (ok a, d')
    → m d.draws ≡ (ok a, d'.draws)
unfolding on_disk_draws
on_disk_draws-eq-ok m d d' e = λ i. ((e i).0, (e i).1.draws)

current_version :
    (v : ℕ) (d : Disk)
    → v ≡ cache_version
    → refuse_if (not (v == cache_version)) unsupported_version d ≡ (ok tt, d)
unfolding refuse_if pure
current_version v d e = rw e refl

module _ (lib : Crates) (json : Json) (envelopes : EnvelopeJson) (dir : Bytes) (store : CacheStore)
    (project : Bytes) where
  -- The project's file holds an entry of the secrets, made at a time.
  pub record CacheFile (secrets : BTreeMap Bytes) (at : ℕ) (d : Disk) : Type 0 where
    pub contents : Bytes
    pub envelope : Envelope
    pub draws : ℕ
    pub draws' : ℕ
    pub there : file (cache_path lib dir store project) d.files ≡ some (private_file contents)
    pub encoded : envelopes.encode envelope ≡ some contents
    pub version : envelope.version ≡ cache_version
    pub sealed : seal_entry lib json store project secrets at draws ≡ (ok envelope, draws')

  pub CacheFile-same_files :
      (secrets : BTreeMap Bytes) (at : ℕ) (d d' : Disk)
      → d'.files ≡ d.files
      → CacheFile secrets at d
      → CacheFile secrets at d'
  CacheFile-same_files secrets at d d' same c = record {
    contents = c.contents;
    envelope = c.envelope;
    draws = c.draws;
    draws' = c.draws';
    there = ap (file (cache_path lib dir store project)) same ∙ c.there;
    encoded = c.encoded;
    version = c.version;
    sealed = c.sealed;
  }

  write-there :
      (contents : Bytes) (d d' : Disk)
      → write_private_file lib (cache_path lib dir store project) contents d ≡ (ok tt, d')
      → file (cache_path lib dir store project) d'.files ≡ some (private_file contents)
  write-there contents d d' e =
      let p = cache_path lib dir store project in
      let replaced =
        subst (Replaced lib p contents d) e (write_private_file-Replaced lib p contents d) in
      replaced p (temp_path-other lib p)
      ∙ ap (λ b. if b then some (private_file contents) else file p d.files) (same_path_refl p)

  pub cache_store-CacheFile :
      (host : ClientHost) (secrets : BTreeMap Bytes) (at : ℕ) (d d' : Disk)
      → host.now_unix ≡ some at
      → cache_store lib json envelopes host dir store project secrets d ≡ (ok tt, d')
      → CacheFile secrets at d'
  unfolding cache_store
  cache_store-CacheFile host secrets at d d' clock e =
      lift->>=-elim (ok_or (json.encode secrets) encode_payload) _ d d' e λ plain _ r1.
        lift->>=-elim (ok_or host.now_unix clock_before_epoch) _ d d' r1 λ now read r2.
          >>=-elim (on_disk_draws (seal_entry lib json store project secrets now)) _ d d' r2
            λ envelope d1 e1 r3.
              lift->>=-elim (ok_or (envelopes.encode envelope) encode_envelope) _ d1 d' r3
                λ contents enc r4.
                  let now_at : some now ≡ some at =
                    sym (ok_or-eq-ok host.now_unix clock_before_epoch read) ∙ clock in
                  let drawn =
                    on_disk_draws-eq-ok (seal_entry lib json store project secrets now) d d1 e1 in
                  record {
                    contents = contents;
                    envelope = envelope;
                    draws = d.draws;
                    draws' = d1.draws;
                    there = write-there contents d1 d' (
                        map_err-eq-ok on_file
                          (write_private_file lib (cache_path lib dir store project) contents) d1 d'
                          r4);
                    encoded = ok_or-eq-ok (envelopes.encode envelope) encode_envelope enc;
                    version =
                        seal_entry-version lib json store project secrets now d.draws d1.draws
                          envelope drawn;
                    sealed =
                        subst
                          (λ t.
                            seal_entry lib json store project secrets t d.draws
                            ≡ (ok envelope, d1.draws))
                          (cc now_at) drawn;
                  }

  pub cache_load-CacheFile :
      (host : ClientHost) (secrets m : BTreeMap Bytes) (at now : ℕ) (d : Disk)
      → AeadCorrect lib
      → Base64Correct lib
      → JsonCorrect json
      → EnvelopeJsonCorrect envelopes
      → CacheFile secrets at d
      → secret_map_from_plain secrets ≡ ok m
      → d.faults ≡ []
      → host.now_unix ≡ some now
      → at ≤ now + 120
      → now ≤ at + 86400
      → cache_load lib json envelopes host dir store project d ≡ (ok m, d)
  unfolding cache_load lift
  cache_load-CacheFile host secrets m at now d correct text codec codec' c accepted quiet clock h1
        h2 =
      let opened =
        seal_entry-open_entry lib json store project secrets at now c.draws c.draws' c.envelope
          correct text codec h1 h2 c.sealed
        ∙ ap (map_error received) accepted in
      >>=-of_ok (files (read_file (cache_path lib dir store project))) _ d d (
        files-ok (read_file (cache_path lib dir store project)) d d
          (read_file-private (cache_path lib dir store project) c.contents d quiet c.there))
      ∙ (>>=-of_ok (lift (ok_or (envelopes.decode c.contents) parse_envelope)) _ d d
            (ap (λ o. (ok_or o parse_envelope, d)) (codec'.decodes c.envelope c.encoded))
          ∙ (>>=-of_ok (refuse_if (not (c.envelope.version == cache_version)) unsupported_version) _
                d d (current_version c.envelope.version d c.version)
              ∙ (>>=-of_ok (lift (ok_or host.now_unix clock_before_epoch)) _ d d
                    (ap (λ o. (ok_or o clock_before_epoch, d)) clock)
                  ∙ ap (λ r. (r, d)) opened)))
