-- ===== src/Server/Handlers/Admin.antt =====
-- The handlers for projects and tokens of crates/secrets-server/src/handlers.rs.
use secrets_manager.Prelude.{
  ℕ, Bool, true, false, not, ◌&&◌, Option, none, some, List, ◌==◌, keep, Bytes, ascii, ◌=ᵇ◌,
}
use secrets_manager.Exec.{ok_or, map_error, Exec, pure, lift, refuse_if, ◌>>=◌, ◌>>◌}
use secrets_manager.Crates.{Crates}
use secrets_manager.Crypto.{generate_token, hash_token}
use secrets_manager.Server.State.{World, now_utc, on_draws, expected}
use secrets_manager.Server.Repo.{
  AuthedToken, Project, TokenInfo, project_id, create_project, list_projects, insert_token,
  list_tokens, revoke_token,
}
use secrets_manager.Server.Error.{AppError, bad_request, conflict, internal}
use secrets_manager.Server.Auth.{ensure_scope, ensure_admin, with_db}
use secrets_manager.Server.Names.{valid_project}
use secrets_manager.Server.Handlers.Secrets.{
  Body, map_json_rejection, db_lock, invalid_project, sql,
}

abbrev is_some : {A : Type 0} → Option A → Bool
is_some none = false
is_some (some a) = true

-- A scoped token only sees its own project.
abbrev pub visible : AuthedToken → Project → Bool
visible token p = elim token.scope [ none ↦ true | some s ↦ s =ᵇ p.name ]

unfoldable pub list_projects_handler : AuthedToken → Exec World AppError (List Project)
list_projects_handler token =
    with_db db_lock do projects ← sql list_projects; pure (keep (visible token) projects)

pub record CreateTokenBody : Type 0 where
  pub name : Bytes
  pub project : Option Bytes
  pub ttl_days : Option ℕ
  pub no_expiry : Bool

-- The JSON object of a 201 response.
pub record CreatedToken : Type 0 where
  pub name : Bytes
  pub scope : Option Bytes
  pub expires_at : Option Bytes
  pub token : Bytes

abbrev pub valid_scope : Option Bytes → Bool
valid_scope none = true
valid_scope (some project) = valid_project project

abbrev pub days_of : Option ℕ → ℕ
days_of none = 90
days_of (some days) = days

module _ (lib : Crates) where
  -- Returns the name that a 201 response shows.
  unfoldable pub create_project_handler : AuthedToken → Body Bytes → Exec World AppError Bytes
  create_project_handler token body = do
    name ← lift (map_error map_json_rejection body)
    refuse_if (not (valid_project name)) invalid_project
    ensure_scope token name
    with_db db_lock do
      found ← sql (project_id name)
      refuse_if (is_some found) (conflict (ascii "project already exists"))
      sql (create_project lib name)
      pure name

  -- The value of `expires_at`; the sum of an instant and days panics when it is out of range.
  unfoldable pub expiry : Bool → Option ℕ → Exec World AppError (Option Bytes)
  expiry true ttl_days = pure none
  expiry false ttl_days = do
    refuse_if (days_of ttl_days == 0) (bad_request (ascii "ttl_days must be at least 1"))
    now ← now_utc lib
    until ← lift (expected lib (lib.add_days now (days_of ttl_days)))
    text ← lift (ok_or (lib.format_rfc3339 until) (internal (ascii "format token expiry")))
    pure (some text)

  unfoldable pub create_token :
      AuthedToken → Body CreateTokenBody → Exec World AppError CreatedToken
  unfolding expiry
  create_token token body = do
    ensure_admin token
    body ← lift (map_error map_json_rejection body)
    refuse_if (not (valid_project body.name)) (bad_request (ascii "invalid token name"))
    refuse_if (not (valid_scope body.project)) (bad_request (ascii "invalid project scope name"))
    refuse_if (body.no_expiry && is_some body.ttl_days)
        (bad_request (ascii "ttl_days cannot be used with no_expiry"))
    expires_at ← expiry body.no_expiry body.ttl_days
    new_token ← on_draws (generate_token lib)
    with_db db_lock
        (sql (insert_token lib body.name (hash_token lib new_token) body.project expires_at))
    pure (record {
      name = body.name;
      scope = body.project;
      expires_at = expires_at;
      token = new_token;
    })

unfoldable pub list_tokens_handler : AuthedToken → Exec World AppError (List TokenInfo)
list_tokens_handler token = do ensure_admin token; with_db db_lock (sql list_tokens)

unfoldable pub revoke_token_handler : AuthedToken → Bytes → Exec World AppError ℕ
revoke_token_handler token name = do
  ensure_admin token
  refuse_if (not (valid_project name)) (bad_request (ascii "invalid token name"))
  with_db db_lock (sql (revoke_token name))
