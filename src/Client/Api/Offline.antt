-- ===== src/Client/Api/Offline.antt =====
-- `get_secrets` of crates/secrets-client/src/api.rs, with the server and then without it.
use secrets_manager.Prelude.{ℕ, ◌+◌, ◌≤◌, ◌≡◌, refl, ap, ◌∙◌, some, List, [], ◌∷◌, Bytes, BTreeMap}
use secrets_manager.Exec.{Outcome, ok, err, panic, Exec, lift, map_err, ◌>>=◌, >>=-elim, >>=-of_ok}
use secrets_manager.Exec
use secrets_manager.Crates.{Crates, AeadCorrect, Base64Correct}
use secrets_manager.Client.Cache.{CacheStore}
use secrets_manager.Client.CacheEntries.{CacheError, Json}
use secrets_manager.Client.CacheEntries.RoundTrip.{JsonCorrect}
use secrets_manager.Client.Files.{Disk}
use secrets_manager.Client.CacheFiles.{ClientHost, EnvelopeJson, cache_store, cache_load}
use secrets_manager.Client.CacheFiles.Stored.{
  EnvelopeJsonCorrect, CacheFile-same_files, cache_store-CacheFile, cache_load-CacheFile,
}
use secrets_manager.Client.Api.{
  transport, offline_cache_unavailable, Request, Reply, no_response, WireJson, ClientWorld, Api,
  map_error, received_json, on_disk, call, secrets_of, fetch_secrets, got, get_secrets,
}
use secrets_manager.Client.Api.Source.{fetch_request, JsonOrdered, Answered, fetch_secrets-Answered}

fetch_secrets-unreachable :
    (lib : Crates) (network : List Request → Request → Reply) (wire : WireJson) (json : Json)
    (envelopes : EnvelopeJson) (host : ClientHost) (api : Api) (project : Bytes) (w : ClientWorld)
    → network w.sent (fetch_request api project) ≡ no_response
    → fetch_secrets lib network wire json envelopes host api project w
      ≡ (err transport, record w { sent = fetch_request api project ∷ w.sent })
unfolding fetch_secrets call lift received_json map_error ◌>>=◌
fetch_secrets-unreachable lib network wire json envelopes host api project w silent =
    ap
      (λ r. (
        secrets_of (received_json json.decode r),
        record w { sent = fetch_request api project ∷ w.sent },
      ))
      silent

-- What a request of a client with a cache makes of the two ways in which fetching can end.
module _ (lib : Crates) (network : List Request → Request → Reply) (wire : WireJson) (json : Json)
    (envelopes : EnvelopeJson) (host : ClientHost) (api : Api) (project dir : Bytes)
    (store : CacheStore) where
  get_secrets-online :
      (secrets : BTreeMap Bytes) (d : Disk) (w w1 : ClientWorld)
      → api.cache ≡ some (dir, store)
      → fetch_secrets lib network wire json envelopes host api project w ≡ (ok secrets, w1)
      → cache_store lib json envelopes host dir store project secrets w1.disk ≡ (ok tt, d)
      → get_secrets lib network wire json envelopes host api project w
        ≡ (ok secrets, record w1 { disk = d })
  unfolding get_secrets on_disk
  get_secrets-online secrets d w w1 has f stored =
      ap (λ p. got lib network wire json envelopes host api project p.0 p.1) f
      ∙ (rw has refl ∙ ap (λ p. (ok secrets, record w1 { disk = p.1 })) stored)

  pub get_secrets-unreachable :
      (r : Outcome CacheError (BTreeMap Bytes)) (w : ClientWorld)
      → api.cache ≡ some (dir, store)
      → network w.sent (fetch_request api project) ≡ no_response
      → cache_load lib json envelopes host dir store project w.disk ≡ (r, w.disk)
      → get_secrets lib network wire json envelopes host api project w ≡ (
        secrets_manager.Exec.map_error offline_cache_unavailable r,
        record w { sent = fetch_request api project ∷ w.sent },
      )
  unfolding get_secrets on_disk
  get_secrets-unreachable r w has silent loaded =
      let w1 = record w { sent = fetch_request api project ∷ w.sent } in
      ap (λ p. got lib network wire json envelopes host api project p.0 p.1)
        (fetch_secrets-unreachable lib network wire json envelopes host api project w silent)
      ∙ (rw has refl
          ∙ ap
              (λ p. (
                secrets_manager.Exec.map_error offline_cache_unavailable p.0,
                record w1 { disk = p.1 },
              ))
              loaded)

-- Secrets that a client with a cache fetched and stored are those of the server's answer; it returns
-- them, and returns them again when, up to a day later, the server gives no response: on the same
-- files, where no access fails, the cipher and base64 undo themselves, and JSON is read back as it was
-- written, into maps with ordered keys.
pub get_secrets-get_secrets :
    (lib : Crates) (network later : List Request → Request → Reply) (wire : WireJson) (json : Json)
    (envelopes : EnvelopeJson) (host host' : ClientHost) (api : Api) (project dir : Bytes)
    (store : CacheStore) (secrets : BTreeMap Bytes) (at now : ℕ) (d : Disk) (w w1 w2 : ClientWorld)
    → AeadCorrect lib
    → Base64Correct lib
    → JsonCorrect json
    → JsonOrdered json
    → EnvelopeJsonCorrect envelopes
    → api.cache ≡ some (dir, store)
    → host.now_unix ≡ some at
    → fetch_secrets lib network wire json envelopes host api project w ≡ (ok secrets, w1)
    → cache_store lib json envelopes host dir store project secrets w1.disk ≡ (ok tt, d)
    → host'.now_unix ≡ some now
    → at ≤ now + 120
    → now ≤ at + 86400
    → w2.disk.files ≡ d.files
    → w2.disk.faults ≡ []
    → later w2.sent (fetch_request api project) ≡ no_response
    → Answered network json api project secrets w
      × (get_secrets lib network wire json envelopes host api project w
          ≡ (ok secrets, record w1 { disk = d }))
      × (get_secrets lib later wire json envelopes host' api project w2
          ≡ (ok secrets, record w2 { sent = fetch_request api project ∷ w2.sent }))
get_secrets-get_secrets lib network later wire json envelopes host host' api project dir store
      secrets at now d w w1 w2 correct text codec ordered codec' has clock f stored clock' h1 h2
      same quiet silent =
    let c =
      cache_store-CacheFile lib json envelopes dir store project host secrets at w1.disk d clock
        stored in
    let c' =
      CacheFile-same_files lib json envelopes dir store project secrets at d w2.disk same c in
    let a =
      fetch_secrets-Answered lib network wire json envelopes host api project secrets w w1 ordered
        f in
    (
      a,
      get_secrets-online lib network wire json envelopes host api project dir store secrets d w w1
          has f stored,
      get_secrets-unreachable lib later wire json envelopes host' api project dir store (ok secrets)
          w2 has silent
          (cache_load-CacheFile lib json envelopes dir store project host' secrets secrets at now
            w2.disk correct text codec codec' c' a.accepted quiet clock' h1 h2),
    )
