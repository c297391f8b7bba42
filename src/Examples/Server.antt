-- ===== src/Examples/Server.antt =====
-- Runs of the handlers of crates/secrets-server/src/handlers.rs.
use mathlib.Core.Option
use secrets_manager.Prelude.{
  ℕ, ◌≡◌, refl, true, false, none, some, [], ◌∷◌, ◌++◌, if◌then◌else◌, replicate, count_if, Bytes,
  ascii, ◌=ᵇ◌, bytes_leb, is_utf8, from_utf8, btree_get, btree_insert, le_bytes,
}
use secrets_manager.Exec.{ok, err, ◌>>=◌}
use secrets_manager.Crypto.{
  MasterKey, aad_bytes, random, encrypt, decrypt, hash_token, generate_token, ct_eq,
}
use secrets_manager.Server.State.{World, access, query, execute, now_utc, now_rfc3339, on_draws}
use secrets_manager.Server.Repo.{
  AuthedToken, find, insert_by, order_by, project_id, update_secret, inserted, upserted,
  upsert_secret, list_secret_rows, delete_secret, insert_token, revoke_rows, revoke_token,
  is_active_named, is_current, scan_tokens, authenticate,
}
use secrets_manager.Server.Error.{forbidden}
use secrets_manager.Server.Names.{valid_project, valid_key}
use secrets_manager.Server.Auth.{
  with_db, ensure_scope, ensure_admin, strip_prefix, extract_bearer, from_request_parts,
}
use secrets_manager.Server.Auth.Revocation.{revoke_token-from_request_parts}
use secrets_manager.Server.Auth.Issuance.{create_token-from_request_parts}
use secrets_manager.Server.Auth.Scopes.{scoped-forbidden, scoped-confined}
use secrets_manager.Server.Handlers.Secrets.{
  invalid_key, require_project, decrypt_row, decrypt_rows, get_secrets, store_secret, put_secret,
  delete_secret_handler,
}
use secrets_manager.Server.Handlers.Admin.{
  CreateTokenBody, CreatedToken, expiry, create_token, list_tokens_handler, revoke_token_handler,
}
use secrets_manager.Server.Handlers.RoundTrip.{put_secret-get_secrets, delete_secret-get_secrets}
use secrets_manager.Server.Vault.{put, replay, vault, put_handled, begins}
use secrets_manager.Server.Vault.Replay.{get_secrets-replay}
use secrets_manager.Examples.Toy.{toy, drop_prefix, toy-AeadCorrect, toy-ComparesBytes}

abbrev key : MasterKey
key = record { expose = replicate 32 7 }

abbrev admin : AuthedToken
admin = record { name = ascii "admin"; scope = none }

abbrev deployer : AuthedToken
deployer = record { name = ascii "deployer"; scope = some (ascii "web") }

abbrev web : Bytes
web = ascii "web"

abbrev url : Bytes
url = ascii "URL"

-- A project `web`, without secrets.
abbrev start : World
start = record {
  tables = record {
    meta = [];
    projects = record { id = 1; name = web; created_at = [] } ∷ [];
    secrets = [];
    tokens = [];
  };
  faults = [];
  draws = 0;
  ticks = 0;
  poisoned = false;
  log = [];
}

abbrev stored : World
stored = (put_secret toy key deployer web url (ok (ascii "x")) start).1

put_secret-get_secrets_example :
    btree_get url ((url, ascii "x") ∷ [])
    ≡ (if url =ᵇ url then some (ascii "x") else btree_get {V = Bytes} url [])
unfolding get_secrets put_secret store_secret require_project project_id find valid_project
    valid_key with_db ensure_scope list_secret_rows order_by insert_by decrypt_rows decrypt_row
    btree_insert upsert_secret upserted inserted update_secret on_draws encrypt decrypt random
    aad_bytes le_bytes drop_prefix query execute access now_rfc3339 now_utc from_utf8 is_utf8 ◌=ᵇ◌
    bytes_leb ◌>>=◌
put_secret-get_secrets_example =
    put_secret-get_secrets toy key web url (ascii "x") admin deployer admin []
      ((url, ascii "x") ∷ []) url 1 start start stored stored toy-AeadCorrect refl tt refl refl refl
      url

get_secrets-replay_example :
    btree_get url ((url, ascii "x") ∷ [])
    ≡ replay (put web url (ascii "x") ∷ []) (vault toy key start.tables) web url
unfolding get_secrets put_secret store_secret require_project project_id find valid_project
    valid_key with_db ensure_scope list_secret_rows order_by insert_by decrypt_rows decrypt_row
    btree_insert upsert_secret upserted inserted update_secret on_draws encrypt decrypt random
    aad_bytes le_bytes drop_prefix query execute access now_rfc3339 now_utc from_utf8 is_utf8 ◌=ᵇ◌
    bytes_leb ◌>>=◌
get_secrets-replay_example =
    get_secrets-replay toy key admin web ((url, ascii "x") ∷ []) start stored stored
      (put web url (ascii "x") ∷ []) url toy-AeadCorrect (refl, tt) tt
      (put_handled deployer web url (ascii "x") url 1 (begins start) refl refl) refl

delete_secret-get_secrets_example :
    (◌≡◌ {A = ℕ} 204 204)
    × ((j : Bytes)
        → btree_get {V = Bytes} j []
          ≡ (if url =ᵇ j then none else btree_get j ((url, ascii "x") ∷ [])))
unfolding get_secrets delete_secret_handler put_secret store_secret require_project project_id find
    valid_project valid_key with_db ensure_scope list_secret_rows order_by insert_by decrypt_rows
    decrypt_row btree_insert upsert_secret upserted inserted update_secret delete_secret on_draws
    encrypt decrypt random aad_bytes le_bytes drop_prefix query execute access now_rfc3339 now_utc
    from_utf8 is_utf8 ◌=ᵇ◌ bytes_leb ◌>>=◌
delete_secret-get_secrets_example =
    delete_secret-get_secrets toy key web url admin deployer admin ((url, ascii "x") ∷ []) [] 204
      stored stored (delete_secret_handler deployer web url stored).1
      (delete_secret_handler deployer web url stored).1 (refl, tt) refl refl refl

abbrev request : CreateTokenBody
request = record { name = ascii "ci"; project = some web; ttl_days = some 7; no_expiry = false }

abbrev created : CreatedToken
created = record {
  name = ascii "ci";
  scope = some web;
  expires_at = some (7 ∷ []);
  token = replicate 32 0;
}

abbrev issued : World
issued = (create_token toy admin (ok request) start).1

create_token-from_request_parts_example :
    (from_request_parts toy (some (ascii "Bearer " ++ replicate 32 0)) issued).0
    ≡ ok (record { name = ascii "ci"; scope = some web })
unfolding create_token expiry generate_token insert_token valid_project ensure_admin with_db
    on_draws random query execute access now_rfc3339 now_utc is_current ◌>>=◌
create_token-from_request_parts_example =
    create_token-from_request_parts toy admin (ok request) created start issued toy-ComparesBytes
      refl (λ e. cc e) refl refl refl

-- A second token, `ops`, that is not revoked.
abbrev ops_request : CreateTokenBody
ops_request = record { name = ascii "ops"; project = none; ttl_days = none; no_expiry = true }

abbrev both : World
both = (create_token toy admin (ok ops_request) issued).1

revoke_token-from_request_parts_example :
    (◌≡◌ {A = ℕ} 1 (count_if (is_active_named (ascii "ci")) both.tables.tokens))
    × (¬ (ascii "ops" ≡ ascii "ci"))
unfolding create_token expiry generate_token insert_token valid_project ensure_admin with_db
    on_draws random query execute access now_rfc3339 now_utc is_current revoke_token_handler
    revoke_token revoke_rows from_request_parts authenticate scan_tokens hash_token ct_eq
    extract_bearer strip_prefix ◌=ᵇ◌ ◌>>=◌ Option.bind
revoke_token-from_request_parts_example =
    revoke_token-from_request_parts toy admin (ascii "ci") 1
      (some (ascii "Bearer " ++ replicate 32 1)) (record { name = ascii "ops"; scope = none }) both
      (revoke_token_handler admin (ascii "ci") both).1
      (from_request_parts toy (some (ascii "Bearer " ++ replicate 32 1))
        (revoke_token_handler admin (ascii "ci") both).1).1
      refl refl

scoped-forbidden_example :
    (create_token toy deployer (ok request) start ≡ (err forbidden, start))
    × (list_tokens_handler deployer start ≡ (err forbidden, start))
    × (revoke_token_handler deployer (ascii "ci") start ≡ (err forbidden, start))
scoped-forbidden_example = scoped-forbidden toy deployer web (ascii "ci") (ok request) start refl

scoped-confined_example :
    (get_secrets toy key deployer (ascii "db") start ≡ (err forbidden, start))
    × (put_secret toy key deployer (ascii "db") url (ok (ascii "x")) start ≡ (err forbidden, start))
    × (delete_secret_handler deployer (ascii "db") url start
        ≡ (if valid_key url then err forbidden else err invalid_key, start))
unfolding valid_project
scoped-confined_example =
    scoped-confined toy key deployer web (ascii "db") url (ascii "x") start refl (λ e. cc e) refl
