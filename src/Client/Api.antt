-- ===== src/Client/Api.antt =====
-- The client's requests, crates/secrets-client/src/api.rs and error.rs. The HTTP client (ureq) is a
-- parameter: how a request is answered, given those sent before it. JSON is a parameter too.
pub mod Source
pub mod Offline
pub mod Updates
use mathlib.Core.Option
use secrets_manager.Prelude.{
  ℕ, suc, ◌^◌, Bool, true, false, not, Option, none, some, List, [], ◌∷◌, ◌++◌, ◌==◌, ltb,
  if◌then◌else◌, length, Bytes, ascii, BTreeMap,
}
use secrets_manager.Exec.{
  Outcome, ok, err, panic, ok_or, then_result, to_option, Exec, pure, lift, ◌>>=◌,
}
use secrets_manager.Exec
use secrets_manager.Crates.{Crates}
use secrets_manager.Server.Repo.{TokenInfo}
use secrets_manager.Server.Handlers.Admin.{CreatedToken}
use secrets_manager.Client.Received.{ReceiveError, secret_map_from_plain}
use secrets_manager.Client.Cache.{CacheStore}
use secrets_manager.Client.CacheEntries.{CacheError, Json}
use secrets_manager.Client.Files.{Disk}
use secrets_manager.Client.CacheFiles.{
  ClientHost, ClientConfig, EnvelopeJson, cache_open, cache_store, cache_load, cache_remove,
}

pub data Error : Type 0 where
  unexpected_response unauthorized forbidden not_found transport : Error
  http : ℕ → Error
  offline_cache_unavailable : CacheError → Error

abbrev pub is_transport : Error → Bool
is_transport transport = true
is_transport unexpected_response = false
is_transport unauthorized = false
is_transport forbidden = false
is_transport not_found = false
is_transport (http code) = false
is_transport (offline_cache_unavailable e) = false

pub data Method : Type 0 where
  get put post delete : Method

pub record Request : Type 0 where
  pub method : Method
  pub url : Bytes
  pub authorization : Bytes
  pub body : Option Bytes

-- A response with its body (`none` if it breaks off), a status of 400 or above, or no response.
pub data Reply : Type 0 where
  answered : Option Bytes → Reply
  status_code : ℕ → Reply
  no_response : Reply

-- `serde_json` of the other bodies.
pub record WireJson : Type 0 where
  pub set_body : Bytes → Option Bytes
  pub create_body : Bytes → Option Bytes → Option ℕ → Bool → Option Bytes
  pub created : Bytes → Option CreatedToken
  pub tokens : Bytes → Option (List TokenInfo)
  pub revoked : Bytes → Option ℕ

-- The requests sent (the last one first), and the disk.
pub record ClientWorld : Type 0 where
  pub sent : List Request
  pub disk : Disk

pub record Api : Type 0 where
  pub base : Bytes
  pub token : Bytes
  pub cache : Option (Bytes × CacheStore)

abbrev pub max_response_bytes : ℕ
max_response_bytes = 2 ^ 20

unfoldable pub map_error : Reply → Error
map_error (status_code code) =
    if code == 401
    then unauthorized
    else if code == 403
    then forbidden
    else if code == 404
    then not_found
    else http code
map_error (answered body) = transport
map_error no_response = transport

-- The body, read up to the limit.
unfoldable pub read_body : Option Bytes → Outcome Error Bytes
read_body none = err unexpected_response
read_body (some body) =
    if ltb max_response_bytes (length body) then err unexpected_response else ok body

unfoldable pub read_json : {A : Type 0} → (Bytes → Option A) → Option Bytes → Outcome Error A
unfolding read_body
read_json decode body =
    then_result (read_body body) λ bytes. ok_or (decode bytes) unexpected_response

-- What is made of a reply.
unfoldable pub received_json : {A : Type 0} → (Bytes → Option A) → Reply → Outcome Error A
unfolding read_json map_error
received_json decode (answered body) = read_json decode body
received_json decode (status_code code) = err (map_error (status_code code))
received_json decode no_response = err (map_error no_response)

unfoldable pub on_disk : {E A : Type 0} → Exec Disk E A → Exec ClientWorld E A
on_disk m w = let (r, disk) = m w.disk in (r, record w { disk = disk })

unfoldable pub auth_header : Api → Bytes
auth_header api = ascii "Bearer " ++ api.token

unfoldable pub call :
    (List Request → Request → Reply) → {E : Type 0} → Request → Exec ClientWorld E Reply
call network request w = (ok (network w.sent request), record w { sent = request ∷ w.sent })

module _ (network : List Request → Request → Reply) (wire : WireJson) where
  unfoldable pub create_token :
      Api → Bytes → Option Bytes → Option ℕ → Bool → Exec ClientWorld Error CreatedToken
  unfolding call received_json auth_header ◌>>=◌
  create_token api name project ttl_days no_expiry = do
    body ← lift (ok_or (wire.create_body name project ttl_days no_expiry) unexpected_response)
    reply ← call network (record {
      method = post;
      url = api.base ++ ascii "/v1/tokens";
      authorization = auth_header api;
      body = some body;
    })
    lift (received_json wire.created reply)

  unfoldable pub list_tokens : Api → Exec ClientWorld Error (List TokenInfo)
  unfolding call received_json auth_header ◌>>=◌
  list_tokens api = do
    reply ← call network (record {
      method = get;
      url = api.base ++ ascii "/v1/tokens";
      authorization = auth_header api;
      body = none;
    })
    lift (received_json wire.tokens reply)

  unfoldable pub revoke_token : Api → Bytes → Exec ClientWorld Error ℕ
  unfolding call received_json auth_header ◌>>=◌
  revoke_token api name = do
    reply ← call network (record {
      method = delete;
      url = api.base ++ (ascii "/v1/tokens/" ++ name);
      authorization = auth_header api;
      body = none;
    })
    lift (received_json wire.revoked reply)

abbrev pub secrets_of : Outcome Error (BTreeMap Bytes) → Outcome Error (BTreeMap Bytes)
secrets_of (ok raw) =
    secrets_manager.Exec.map_error (λ _. unexpected_response) (secret_map_from_plain raw)
secrets_of (err e) = err e
secrets_of panic = panic

abbrev pub secrets_url : Api → Bytes → Bytes
secrets_url api project = api.base ++ (ascii "/v1/projects/" ++ (project ++ ascii "/secrets"))

module _ (lib : Crates) (network : List Request → Request → Reply) (wire : WireJson) (json : Json)
    (envelopes : EnvelopeJson) (host : ClientHost) where
  -- An API whose cache is off, or cannot be opened, has none.
  unfoldable pub with_cache : ClientConfig → Bool → Disk → Api × Disk
  unfolding cache_open
  with_cache cfg cache_enabled d =
      let (opened, d') = cache_open lib host cfg d in
      if cache_enabled
      then (record { base = cfg.server_url; token = cfg.token; cache = to_option opened }, d')
      else (record { base = cfg.server_url; token = cfg.token; cache = none }, d)

  unfoldable pub fetch_secrets : Api → Bytes → Exec ClientWorld Error (BTreeMap Bytes)
  unfolding call received_json auth_header ◌>>=◌
  fetch_secrets api project = do
    reply ← call network (record {
      method = get;
      url = secrets_url api project;
      authorization = auth_header api;
      body = none;
    })
    lift (secrets_of (received_json json.decode reply))

  -- A failure to store is a warning.
  abbrev pub cached :
      Api → Bytes → BTreeMap Bytes → ClientWorld → Outcome Error (BTreeMap Bytes) × ClientWorld
  cached api project secrets w = elim api.cache [
    | none ↦ (ok secrets, w)
    | some (dir, store) ↦
        (ok secrets, (on_disk (cache_store lib json envelopes host dir store project secrets) w).1)
  ]

  abbrev pub offline : Api → Bytes → Exec ClientWorld Error (BTreeMap Bytes)
  offline api project w = elim api.cache [
    | none ↦ (err transport, w)
    | some (dir, store) ↦
        let (r, w') = on_disk (cache_load lib json envelopes host dir store project) w in
        (secrets_manager.Exec.map_error offline_cache_unavailable r, w')
  ]

  abbrev pub got :
      Api
      → Bytes
      → Outcome Error (BTreeMap Bytes)
      → ClientWorld
      → Outcome Error (BTreeMap Bytes) × ClientWorld
  got api project (ok secrets) w = cached api project secrets w
  got api project (err e) w = if is_transport e then offline api project w else (err e, w)
  got api project panic w = (panic, w)

  unfoldable pub get_secrets : Api → Bytes → Exec ClientWorld Error (BTreeMap Bytes)
  unfolding fetch_secrets on_disk
  get_secrets api project w = let (r, w') = fetch_secrets api project w in got api project r w'

  abbrev pub forgotten : Api → Bytes → Reply → ClientWorld → Outcome Error (Unit {0}) × ClientWorld
  forgotten api project (answered body) w = elim api.cache [
    | none ↦ (ok tt, w)
    | some (dir, store) ↦
        (ok tt, record w { disk = cache_remove lib json envelopes host dir store project w.disk })
  ]
  forgotten api project (status_code code) w = (err (map_error (status_code code)), w)
  forgotten api project no_response w = (err (map_error no_response), w)

  unfoldable pub set_secret : Api → Bytes → Bytes → Bytes → Exec ClientWorld Error (Unit {0})
  unfolding call auth_header map_error cache_remove ◌>>=◌
  set_secret api project key value = do
    body ← lift (ok_or (wire.set_body value) unexpected_response)
    reply ← call network (record {
      method = put;
      url = secrets_url api project ++ (ascii "/" ++ key);
      authorization = auth_header api;
      body = some body;
    })
    forgotten api project reply
