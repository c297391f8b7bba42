-- ===== src/Client/Api/Source.antt =====
-- Where the secrets come from that `get_secrets` of crates/secrets-client/src/api.rs returns.
use secrets_manager.Prelude.{
  ◌^◌, ◌≤◌, ◌≡◌, refl, sym, ap, ltb, length, arith, ◌∙◌, true, none, some, List, ◌∷◌, ◌⊎◌, inl, inr,
  Option-cases, Bool-cases, Bytes, BTreeMap,
}
use secrets_manager.Exec.{Outcome, ok, err, panic, Exec, lift, map_err, ◌>>=◌, >>=-elim, >>=-of_ok}
use secrets_manager.Exec
use secrets_manager.Crates.{Crates}
use secrets_manager.Server.State.Endings.{map_error-eq-ok}
use secrets_manager.Client.Received.{secret_map_from_plain}
use secrets_manager.Client.Received.Order.{IsOrdered, secret_map_from_plain-same}
use secrets_manager.Client.Cache.{CacheStore}
use secrets_manager.Client.CacheEntries.{Json}
use secrets_manager.Client.Files.{Disk}
use secrets_manager.Client.CacheFiles.{ClientHost, EnvelopeJson, cache_load}
use secrets_manager.Client.Api.{
  Error, is_transport, unexpected_response, offline_cache_unavailable, Request, get, Reply,
  answered, status_code, no_response, max_response_bytes, read_body, read_json, WireJson,
  ClientWorld, Api, map_error, received_json, on_disk, auth_header, call, secrets_of, secrets_url,
  fetch_secrets, offline, got, get_secrets,
}

abbrev pub fetch_request : Api → Bytes → Request
fetch_request api project = record {
  method = get;
  url = secrets_url api project;
  authorization = auth_header api;
  body = none;
}

-- The maps that `serde_json` gives are `BTreeMap`s.
pub record JsonOrdered (json : Json) : Type 0 where
  pub ordered : (text : Bytes) (m : BTreeMap Bytes) → json.decode text ≡ some m → IsOrdered m

-- The server answered with the secrets.
pub record Answered (network : List Request → Request → Reply) (json : Json) (api : Api)
    (project : Bytes) (m : BTreeMap Bytes) (w : ClientWorld) : Type 0 where
  pub body : Bytes
  pub reply : network w.sent (fetch_request api project) ≡ answered (some body)
  pub short : length body ≤ 2 ^ 20
  pub decoded : json.decode body ≡ some m
  pub accepted : secret_map_from_plain m ≡ ok m

-- What is made of the reply to a request for secrets.
abbrev secrets_in : Json → Reply → Outcome Error (BTreeMap Bytes)
secrets_in json reply = secrets_of (received_json json.decode reply)

record InBody (json : Json) (body : Bytes) (m : BTreeMap Bytes) : Type 0 where
  short : length body ≤ 2 ^ 20
  raw : BTreeMap Bytes
  decoded : json.decode body ≡ some raw
  accepted : secret_map_from_plain raw ≡ ok m

secrets_in-body :
    (json : Json) (body : Bytes) (m : BTreeMap Bytes)
    → secrets_in json (answered (some body)) ≡ ok m
    → InBody json body m
unfolding received_json read_json read_body
secrets_in-body json body m e = elim (Bool-cases (ltb max_response_bytes (length body))) [
  | inl long ↦ cc (rw long at e)
  | inr short ↦ elim (Option-cases (json.decode body)) [
    | inl bad ↦ cc (rw (short, bad) at e)
    | inr (raw, decoded) ↦ record {
      short = ground arith;
      raw = raw;
      decoded = decoded;
      accepted =
          map_error-eq-ok (λ _. unexpected_response) (secret_map_from_plain raw)
            (rw (short, decoded) at e);
    }
  ]
]

module _ (network : List Request → Request → Reply) (json : Json) (api : Api)
    (project : Bytes) where
  secrets_in-Answered :
      (reply : Reply) (m : BTreeMap Bytes) (w : ClientWorld)
      → JsonOrdered json
      → network w.sent (fetch_request api project) ≡ reply
      → secrets_in json reply ≡ ok m
      → Answered network json api project m w
  unfolding received_json read_json read_body
  secrets_in-Answered (answered (some body)) m w codec sent e =
      let b = secrets_in-body json body m e in
      let same =
        secret_map_from_plain-same b.raw m (codec.ordered body b.raw b.decoded) b.accepted in
      record {
        body = body;
        reply = sent;
        short = b.short;
        decoded = b.decoded ∙ ap some same;
        accepted = ap secret_map_from_plain (sym same) ∙ b.accepted;
      }
  secrets_in-Answered (answered none) m w codec sent e = cc e
  secrets_in-Answered (status_code code) m w codec sent e = cc e
  secrets_in-Answered no_response m w codec sent e = cc e

-- No response alone counts as a failure of the transport.
secrets_in-transport :
    (json : Json) (reply : Reply) (x : Error)
    → secrets_in json reply ≡ err x
    → is_transport x ≡ true
    → reply ≡ no_response
unfolding received_json read_json read_body map_error
secrets_in-transport json (answered none) x e t = ground arith
secrets_in-transport json (answered (some body)) x e t = ground arith
secrets_in-transport json (status_code code) x e t = ground arith
secrets_in-transport json no_response x e t = refl

module _ (lib : Crates) (network : List Request → Request → Reply) (wire : WireJson) (json : Json)
    (envelopes : EnvelopeJson) (host : ClientHost) (api : Api) (project : Bytes) where
  -- The cache had them, after the server gave no response.
  pub record FromCache (m : BTreeMap Bytes) (w : ClientWorld) : Type 0 where
    pub dir : Bytes
    pub store : CacheStore
    pub disk : Disk
    pub unreachable : network w.sent (fetch_request api project) ≡ no_response
    pub has_cache : api.cache ≡ some (dir, store)
    pub loaded : cache_load lib json envelopes host dir store project w.disk ≡ (ok m, disk)

  offline-FromCache :
      (m : BTreeMap Bytes) (w w1 w' : ClientWorld)
      → network w.sent (fetch_request api project) ≡ no_response
      → w1.disk ≡ w.disk
      → offline lib network wire json envelopes host api project w1 ≡ (ok m, w')
      → FromCache m w
  unfolding on_disk
  offline-FromCache m w w1 w' f same e = elim (Option-cases api.cache) [
    | inl absent ↦ cc (ap (λ p. p.0) (rw absent at e))
    | inr ((dir, store), has) ↦
        let (r, d') = cache_load lib json envelopes host dir store project w1.disk in
        let e' : (
          secrets_manager.Exec.map_error offline_cache_unavailable r,
          record w1 { disk = d' },
        )
            ≡ (ok m, w') =
          rw has at e in
        let loaded = map_error-eq-ok offline_cache_unavailable r (ap (λ p. p.0) e') in
        record {
          dir = dir;
          store = store;
          disk = d';
          unreachable = f;
          has_cache = has;
          loaded =
              ap (cache_load lib json envelopes host dir store project) (sym same)
              ∙ (λ i. (loaded i, d'));
        }
  ]

  cached-same :
      (secrets m : BTreeMap Bytes) (w w' : ClientWorld)
      → got lib network wire json envelopes host api project (ok secrets) w ≡ (ok m, w')
      → secrets ≡ m
  cached-same secrets m w w' e = elim (Option-cases api.cache) [
    | inl absent ↦ let same : ok secrets ≡ ok m = ap (λ p. p.0) (rw absent at e) in cc same
    | inr ((dir, store), has) ↦
        let same : ok secrets ≡ ok m = ap (λ p. p.0) (rw has at e) in cc same
  ]

  got-source :
      (r : Outcome Error (BTreeMap Bytes)) (m : BTreeMap Bytes) (w w1 w' : ClientWorld)
      → JsonOrdered json
      → secrets_in json (network w.sent (fetch_request api project)) ≡ r
      → w1.disk ≡ w.disk
      → got lib network wire json envelopes host api project r w1 ≡ (ok m, w')
      → Answered network json api project m w ⊎ FromCache m w
  got-source (ok secrets) m w w1 w' codec f disk e = inl (
      secrets_in-Answered network json api project _ m w codec refl
        (f ∙ ap ok (cached-same secrets m w1 w' e)))
  got-source (err x) m w w1 w' codec f disk e = elim (Bool-cases (is_transport x)) [
    | inl t ↦ inr (offline-FromCache m w w1 w' (secrets_in-transport json _ x f t) disk (rw t at e))
    | inr other ↦ cc (ap (λ p. p.0) (rw other at e))
  ]
  got-source panic m w w1 w' codec f disk e = cc (ap (λ p. p.0) e)

-- Where JSON is read into maps with ordered keys, the secrets that `get_secrets` returns are just
-- those in the body of the server's answer, which is no longer than a mebibyte; or, only where there
-- was no response, those that the cache opens. An answer with a status of 400 or above never leads to
-- the cache.
pub get_secrets-source :
    (lib : Crates) (network : List Request → Request → Reply) (wire : WireJson) (json : Json)
    (envelopes : EnvelopeJson) (host : ClientHost) (api : Api) (project : Bytes)
    (m : BTreeMap Bytes) (w w' : ClientWorld)
    → JsonOrdered json
    → get_secrets lib network wire json envelopes host api project w ≡ (ok m, w')
    → Answered network json api project m w
      ⊎ FromCache lib network wire json envelopes host api project m w
unfolding get_secrets fetch_secrets call ◌>>=◌
get_secrets-source lib network wire json envelopes host api project m w w' codec e =
    got-source lib network wire json envelopes host api project _ m w
      (record w { sent = fetch_request api project ∷ w.sent }) w' codec refl refl e

pub fetch_secrets-Answered :
    (lib : Crates) (network : List Request → Request → Reply) (wire : WireJson) (json : Json)
    (envelopes : EnvelopeJson) (host : ClientHost) (api : Api) (project : Bytes)
    (m : BTreeMap Bytes) (w w1 : ClientWorld)
    → JsonOrdered json
    → fetch_secrets lib network wire json envelopes host api project w ≡ (ok m, w1)
    → Answered network json api project m w
unfolding fetch_secrets call ◌>>=◌
fetch_secrets-Answered lib network wire json envelopes host api project m w w1 codec e =
    secrets_in-Answered network json api project _ m w codec refl (ap (λ p. p.0) e)
