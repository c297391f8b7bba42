-- ===== src/Examples/Offline.antt =====
-- Runs of crates/secrets-client/src/cache.rs and api.rs: the cache key, and a client whose server
-- stops answering.
use secrets_manager.Prelude.{
  ◌≡◌, refl, subst, true, false, Option, none, some, ◌⊎◌, List, [], ◌∷◌, if◌then◌else◌, ◌==◌, ◌&&◌,
  Bytes, ascii, ◌=ᵇ◌, =ᵇ_iff, BTreeMap, btree_insert, replicate, le_bytes, arith,
}
use secrets_manager.Exec.{ok, err, ◌>>=◌}
use secrets_manager.Crypto.{MasterKey, encrypt, random}
use secrets_manager.Client.Received.{secret_map_from_plain, valid_secret_key}
use secrets_manager.Client.Received.Order.{IsOrdered}
use secrets_manager.Client.Cache.{CacheStore, cache_aad}
use secrets_manager.Client.CacheEntries.{Envelope, Json, seal_entry, on_file}
use secrets_manager.Client.CacheEntries.RoundTrip.{JsonCorrect}
use secrets_manager.Client.Files.{
  Disk, file, without, with_file, disk_access, accessing, path_exists, disk_random, read_failed,
  random_temp_sibling, create_dir_all, private_open_for_write, write_all, overwritten, write_temp,
  rename, write_private_file, remove_file,
}
use secrets_manager.Client.Files.Atomic.{Replaced, write_private_file-Replaced}
use secrets_manager.Client.CacheFiles.{
  ClientHost, EnvelopeJson, on_disk_draws, cache_key_path, create_cache_key,
  load_or_create_cache_key, cache_path, cache_store, cache_remove,
}
use secrets_manager.Client.CacheFiles.Key.{load_or_create_cache_key-same_key}
use secrets_manager.Client.CacheFiles.Stored.{EnvelopeJsonCorrect}
use secrets_manager.Client.Api.{
  Request, Reply, answered, no_response, WireJson, ClientWorld, Api, call, auth_header,
  received_json, on_disk, fetch_secrets, get_secrets, set_secret, offline_cache_unavailable,
}
use secrets_manager.Client.Api.Source.{
  fetch_request, JsonOrdered, Answered, FromCache, get_secrets-source,
}
use secrets_manager.Client.Api.Offline.{get_secrets-get_secrets}
use secrets_manager.Client.Api.Updates.{set_secret-get_secrets}
use secrets_manager.Examples.Toy.{toy, toy-AeadCorrect, toy-FillsBuffer, toy-Base64Correct}

abbrev empty_disk : Disk
empty_disk = record {
  files = [];
  faults = [];
  torn = 0;
  draws = 0;
  dir_mode = none;
  new_dir_mode = 493;
}

-- The fourth access, the write, fails.
abbrev failing_disk : Disk
failing_disk = record empty_disk { faults = false ∷ false ∷ true ∷ []; torn = 1 }

write_private_file-Replaced_example :
    Replaced toy
      (cache_key_path (ascii "c"))
      (ascii "xy")
      failing_disk
      (write_private_file toy (cache_key_path (ascii "c")) (ascii "xy") failing_disk)
write_private_file-Replaced_example =
    write_private_file-Replaced toy (cache_key_path (ascii "c")) (ascii "xy") failing_disk

abbrev key : MasterKey
key = record { expose = replicate 32 0 }

abbrev keyed_disk : Disk
keyed_disk = (load_or_create_cache_key toy (ascii "c") empty_disk).1

load_or_create_cache_key-same_key_example :
    load_or_create_cache_key toy (ascii "c") keyed_disk ≡ (ok key, keyed_disk)
unfolding load_or_create_cache_key path_exists create_cache_key disk_random disk_access
    write_private_file random_temp_sibling create_dir_all write_temp private_open_for_write
    write_all overwritten rename accessing file without with_file ◌=ᵇ◌ ◌>>=◌
load_or_create_cache_key-same_key_example =
    load_or_create_cache_key-same_key toy (ascii "c") key empty_disk keyed_disk keyed_disk
      toy-FillsBuffer refl refl refl

-- JSON for maps of the one secret `A`, and for the envelopes of one time and nonce.
abbrev encode_secrets : BTreeMap Bytes → Option Bytes
encode_secrets [] = none
encode_secrets ((k, v) ∷ []) = if k =ᵇ ascii "A" then some v else none
encode_secrets (x ∷ y ∷ m) = none

abbrev json : Json
json = record { encode = encode_secrets; decode = λ text. some ((ascii "A", text) ∷ []) }

decodes_secrets :
    (m : BTreeMap Bytes) {text : Bytes}
    → encode_secrets m ≡ some text
    → some ((ascii "A", text) ∷ []) ≡ some m
decodes_secrets [] e = cc e
decodes_secrets ((k, v) ∷ []) e = ground (arith, =ᵇ_iff k (ascii "A"))
decodes_secrets (x ∷ y ∷ m) e = cc e

some-injective : {x y : BTreeMap Bytes} → some x ≡ some y → x ≡ y
some-injective e = cc e

json-JsonCorrect : JsonCorrect json
json-JsonCorrect = record { decodes = decodes_secrets }

abbrev nonce : Bytes
nonce = replicate 24 2

abbrev envelopes : EnvelopeJson
envelopes = record {
  encode = λ e.
      if e.version == 2 && (e.created_at_unix == 1000 && e.nonce =ᵇ nonce)
      then some e.ciphertext
      else none;
  decode = λ text.
      some (record { version = 2; created_at_unix = 1000; nonce = nonce; ciphertext = text });
}

decodes_envelope :
    (e : Envelope) (text : Bytes)
    → envelopes.encode e ≡ some text
    → (2 ≡ e.version) × (1000 ≡ e.created_at_unix) × (nonce ≡ e.nonce) × (text ≡ e.ciphertext)
decodes_envelope e text h = ground (arith, =ᵇ_iff e.nonce nonce)

envelopes-EnvelopeJsonCorrect : EnvelopeJsonCorrect envelopes
envelopes-EnvelopeJsonCorrect = record {
  decodes = λ e {text} h.
      let (v, c, n, t) = decodes_envelope e text h in
      λ i. some (record { version = v i; created_at_unix = c i; nonce = n i; ciphertext = t i });
}

abbrev host : ClientHost
host = record { cache_dir_var = some (ascii "c"); user_cache_dir = none; now_unix = some 1000 }

abbrev store : CacheStore
store = record { key = key; server_url = ascii "https://s"; token_hash = replicate 32 7 }

abbrev api : Api
api = record { base = ascii "https://s"; token = ascii "t"; cache = some (ascii "c", store) }

abbrev wire : WireJson
wire = record {
  set_body = λ value. some value;
  create_body = λ name project ttl_days no_expiry. none;
  created = λ text. none;
  tokens = λ text. none;
  revoked = λ text. none;
}

-- A server that answers, and one that does not.
abbrev up : List Request → Request → Reply
up sent request = answered (some (ascii "x"))

abbrev down : List Request → Request → Reply
down sent request = no_response

abbrev secrets : BTreeMap Bytes
secrets = (ascii "A", ascii "x") ∷ []

abbrev before : ClientWorld
before = record { sent = []; disk = keyed_disk }

abbrev fetched : ClientWorld
fetched = record { sent = fetch_request api (ascii "web") ∷ []; disk = keyed_disk }

abbrev stored_disk : Disk
stored_disk =
    (cache_store toy json envelopes host (ascii "c") store (ascii "web") secrets keyed_disk).1

abbrev later : ClientWorld
later = record { sent = []; disk = stored_disk }

abbrev later_host : ClientHost
later_host = record host { now_unix = some 2000 }

json-JsonOrdered : JsonOrdered json
json-JsonOrdered = record { ordered = λ text m e. subst IsOrdered (some-injective e) (tt, tt) }

get_secrets-get_secrets_example :
    Answered up json api (ascii "web") secrets before
    × (get_secrets toy up wire json envelopes host api (ascii "web") before
        ≡ (ok secrets, record fetched { disk = stored_disk }))
    × (get_secrets toy down wire json envelopes later_host api (ascii "web") later
        ≡ (ok secrets, record later { sent = fetch_request api (ascii "web") ∷ [] }))
unfolding load_or_create_cache_key path_exists create_cache_key disk_random disk_access
    write_private_file random_temp_sibling create_dir_all write_temp private_open_for_write
    write_all overwritten rename accessing file without with_file fetch_secrets call received_json
    auth_header cache_store seal_entry on_disk_draws encrypt random cache_aad le_bytes cache_path
    secret_map_from_plain valid_secret_key btree_insert ◌=ᵇ◌ ◌>>=◌
get_secrets-get_secrets_example =
    get_secrets-get_secrets toy up down wire json envelopes host later_host api (ascii "web")
      (ascii "c") store secrets 1000 2000 stored_disk before fetched later toy-AeadCorrect
      toy-Base64Correct json-JsonCorrect json-JsonOrdered envelopes-EnvelopeJsonCorrect refl refl
      refl refl refl (omega arith) (omega arith) refl refl refl

get_secrets-source_example :
    Answered up json api (ascii "web") secrets before
    ⊎ FromCache toy up wire json envelopes host api (ascii "web") secrets before
unfolding load_or_create_cache_key path_exists create_cache_key disk_random disk_access
    write_private_file random_temp_sibling create_dir_all write_temp private_open_for_write
    write_all overwritten rename accessing file without with_file fetch_secrets call received_json
    auth_header cache_store seal_entry on_disk_draws encrypt random cache_aad le_bytes cache_path
    secret_map_from_plain valid_secret_key btree_insert get_secrets on_disk ◌=ᵇ◌ ◌>>=◌
get_secrets-source_example =
    get_secrets-source toy up wire json envelopes host api (ascii "web") secrets before
      (record fetched { disk = stored_disk }) json-JsonOrdered refl

abbrev updated : ClientWorld
updated =
    (set_secret toy up wire json envelopes host api (ascii "web") (ascii "A") (ascii "y") later).1

set_secret-get_secrets_example :
    get_secrets toy down wire json envelopes host api (ascii "web") updated ≡ (
      err (offline_cache_unavailable (on_file read_failed)),
      record updated { sent = fetch_request api (ascii "web") ∷ updated.sent },
    )
unfolding load_or_create_cache_key path_exists create_cache_key disk_random disk_access
    write_private_file random_temp_sibling create_dir_all write_temp private_open_for_write
    write_all overwritten rename accessing file without with_file call auth_header cache_store
    seal_entry on_disk_draws encrypt random cache_aad le_bytes cache_path cache_remove remove_file
    set_secret on_disk ◌=ᵇ◌ ◌>>=◌
set_secret-get_secrets_example =
    set_secret-get_secrets toy up down wire json envelopes host api (ascii "web") (ascii "A")
      (ascii "y") (ascii "c") store later updated updated refl refl refl refl refl
