-- ===== src/Examples/Requests.antt =====
-- Runs of the middleware of crates/secrets-server/src/audit.rs, and a history of requests.
use mathlib.Core.Option
use secrets_manager.Prelude.{
  ℕ, ◌≤◌, ◌≡◌, refl, true, false, leb, ltb, none, some, [], ◌∷◌, ◌++◌, if◌then◌else◌, length,
  replicate, Bytes, ascii, ◌=ᵇ◌, is_utf8, is_char_boundary,
}
use secrets_manager.Exec.{ok, panic, Exec, ◌>>=◌}
use secrets_manager.Crates.{Crates}
use secrets_manager.Crypto.{MasterKey, hash_token, ct_eq}
use secrets_manager.Server.State.{World, query, access, now_utc}
use secrets_manager.Server.Repo.{AuthedToken, authenticate, scan_tokens, is_current}
use secrets_manager.Server.Error.{AppError}
use secrets_manager.Server.Names.{valid_project}
use secrets_manager.Server.Auth.{
  resolve_token_name, extract_bearer, from_request_parts, strip_prefix, with_db,
}
use secrets_manager.Server.Audit.{Request, truncate_for_log, boundary_to, audit_middleware, respond}
use secrets_manager.Server.Audit.Truncation.{truncate_for_log-bounded}
use secrets_manager.Server.Audit.Entries.{Logs, new_entry, of_project, audit_middleware-entry}
use secrets_manager.Server.Audit.Requests.{create_token-panic}
use secrets_manager.Server.Handlers.Secrets.{put_secret}
use secrets_manager.Server.Handlers.Admin.{create_token, create_project_handler}
use secrets_manager.Server.Handlers.Constraints.{Unique}
use secrets_manager.Server.History.{begins, goes_on, project_created, secret_put, History-Unique}
use secrets_manager.Examples.Toy.{toy}

abbrev long_segment : Bytes
long_segment = replicate 63 b'a' ++ (0xC3 ∷ 0xA9 ∷ ascii "b")

truncate_for_log-bounded_example :
    (length (truncate_for_log long_segment) ≤ 64)
    × ((rest : Bytes) × (long_segment ≡ truncate_for_log long_segment ++ rest))
    × (leb (length long_segment) 64 ≡ true → truncate_for_log long_segment ≡ long_segment)
    × (is_utf8 long_segment ≡ true → is_utf8 (truncate_for_log long_segment) ≡ true)
truncate_for_log-bounded_example = truncate_for_log-bounded long_segment

-- The character that crosses the bound is left out.
long_segment_test : truncate_for_log long_segment ≡ replicate 63 b'a'
unfolding truncate_for_log boundary_to is_char_boundary
long_segment_test = refl

abbrev blank : World
blank = record {
  tables = record { meta = []; projects = []; secrets = []; tokens = [] };
  faults = [];
  draws = 0;
  ticks = 5;
  poisoned = false;
  log = [];
}

abbrev get_secret_names : Request
get_secret_names = record {
  header = none;
  method = ascii "GET";
  matched = some (ascii "/v1/projects/{name}/secrets");
  path = ascii "/v1/projects/web/secrets";
}

abbrev answer_401 : Exec World AppError ℕ
answer_401 w = (ok 401, w)

audit_middleware-entry_example :
    Logs
      (ok 401)
      blank
      (new_entry toy get_secret_names none
        (some (truncate_for_log (ascii "web")))
        (ascii "/v1/projects/{name}/secrets")
        (5 ∷ []))
      (audit_middleware toy get_secret_names answer_401 blank)
unfolding resolve_token_name extract_bearer
audit_middleware-entry_example =
    audit_middleware-entry toy get_secret_names answer_401 none
      (some (truncate_for_log (ascii "web"))) (ascii "/v1/projects/{name}/secrets") (5 ∷ [])
      (ok 401) blank blank blank
      (of_project (ascii "/secrets") (ascii "web") (ascii "/secrets") refl refl refl refl) refl refl
      refl

-- A clock that ends after 1000 days.
abbrev ending : Crates
ending = record toy { add_days = λ now days. if ltb 1000 (days) then none else some days }

abbrev post_token : Request
post_token = record {
  header = some (ascii "Bearer t");
  method = ascii "POST";
  matched = some (ascii "/v1/tokens");
  path = ascii "/v1/tokens";
}

-- The token `t` of the administrator is stored.
abbrev managed : World
managed = record blank {
  tables = record blank.tables {
    tokens =
        record {
          id = 1;
          name = ascii "admin";
          token_hash = ascii "t";
          project_scope = none;
          created_at = [];
          revoked = 0;
          expires_at = none;
        }
        ∷ [];
  };
}

create_token-panic_example :
    audit_middleware ending {E = AppError} post_token
      (respond
        (λ _. 201)
        (from_request_parts ending post_token.header >>= λ token. create_token ending token (
          ok (record {
            name = ascii "ci";
            project = none;
            ttl_days = some 4294967295;
            no_expiry = false;
          }))))
      managed
    ≡ (panic, record managed { ticks = 8 })
unfolding resolve_token_name from_request_parts extract_bearer strip_prefix with_db authenticate
    scan_tokens is_current hash_token ct_eq query access now_utc valid_project ◌=ᵇ◌ ◌>>=◌
    Option.bind
create_token-panic_example =
    create_token-panic ending post_token (ascii "admin") (ascii "ci") none (some (ascii "admin"))
      4294967295 managed (record managed { ticks = 6 }) (record managed { ticks = 7 }) refl refl
      refl refl refl refl

abbrev key : MasterKey
key = record { expose = replicate 32 7 }

abbrev admin : AuthedToken
admin = record { name = ascii "admin"; scope = none }

abbrev with_project : World
with_project = (create_project_handler toy admin (ok (ascii "web")) blank).1

abbrev with_secret : World
with_secret = (put_secret toy key admin (ascii "web") (ascii "URL") (ok (ascii "x")) with_project).1

History-Unique_example : Unique with_secret.tables
unfolding is_utf8
History-Unique_example =
    History-Unique toy key blank with_secret
      (goes_on (goes_on (begins blank) (project_created admin (ok (ascii "web")) blank))
        (secret_put admin (ascii "web") (ascii "URL") (ok (ascii "x")) refl with_project))
      (record { projects = tt; secrets = tt })
