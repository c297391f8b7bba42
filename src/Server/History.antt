-- ===== src/Server/History.antt =====
-- What a running server does to its state, as steps: the extractor of
-- crates/secrets-server/src/auth.rs and the handlers of handlers.rs, each of which holds the database
-- for the time it uses it, in any order. What the middleware of audit.rs does beside them, reading a
-- token's name and appending to the log, is no step.
use secrets_manager.Prelude.{◌≡◌, true, Bool, Option, List, Bytes, is_utf8}
use secrets_manager.Exec.{ok, err, panic}
use secrets_manager.Crates.{Crates}
use secrets_manager.Crypto.{MasterKey}
use secrets_manager.Server.State.{World, Tables}
use secrets_manager.Server.State.Moves.{Moves, Preorder}
use secrets_manager.Server.Repo.{AuthedToken}
use secrets_manager.Server.Auth.{from_request_parts}
use secrets_manager.Server.Handlers.Secrets.{Body, get_secrets, put_secret, delete_secret_handler}
use secrets_manager.Server.Handlers.Admin.{
  CreateTokenBody, create_project_handler, list_projects_handler, create_token, list_tokens_handler,
  revoke_token_handler,
}
use secrets_manager.Server.Handlers.Walks.{
  Statements, get_secrets-Moves, delete_secret_handler-Moves, list_projects_handler-Moves,
  list_tokens_handler-Moves, revoke_token_handler-Moves, create_project_handler-Moves,
  create_token-Moves, from_request_parts-Moves,
}
use secrets_manager.Server.Handlers.Constraints.{Unique, Keeps-Preorder, Keeps-Statements}
use secrets_manager.Server.Handlers.Uniqueness.{put_secret-Keeps}

-- The value in a JSON body is a string.
abbrev pub IsText : Body Bytes → Type 0
IsText (ok value) = is_utf8 value ≡ true
IsText (err status) = Unit
IsText panic = Unit

module _ (lib : Crates) (state_key : MasterKey) where
  -- Whoever the bearer of a token is, and whatever it sends; `disturbed` is the rest of the world,
  -- which decides which accesses will fail.
  pub data Step : World → World → Type 0 where
    authenticated : (header : Option Bytes) (w : World) → Step w (from_request_parts lib header w).1
    projects_listed : (token : AuthedToken) (w : World) → Step w (list_projects_handler token w).1
    project_created :
        (token : AuthedToken) (body : Body Bytes) (w : World)
        → Step w (create_project_handler lib token body w).1
    secrets_read :
        (token : AuthedToken) (name : Bytes) (w : World)
        → Step w (get_secrets lib state_key token name w).1
    secret_put :
        (token : AuthedToken) (name key : Bytes) (body : Body Bytes)
        → IsText body
        → (w : World) → Step w (put_secret lib state_key token name key body w).1
    secret_deleted :
        (token : AuthedToken) (name key : Bytes) (w : World)
        → Step w (delete_secret_handler token name key w).1
    token_created :
        (token : AuthedToken) (body : Body CreateTokenBody) (w : World)
        → Step w (create_token lib token body w).1
    tokens_listed : (token : AuthedToken) (w : World) → Step w (list_tokens_handler token w).1
    token_revoked :
        (token : AuthedToken) (name : Bytes) (w : World)
        → Step w (revoke_token_handler token name w).1
    disturbed : (faults : List Bool) (w : World) → Step w (record w { faults = faults })

  -- A history of steps.
  pub data History : World → World → Type 0 where
    begins : (w : World) → History w w
    goes_on : {w w' w'' : World} → History w w' → Step w' w'' → History w w''

-- A step moves the tables along every preorder that the statements follow, if its puts do.
pub Step-Moves :
    (lib : Crates) (state_key : MasterKey) {T : Tables → Tables → Type 0}
    → Preorder T
    → Statements lib T
    → ((token : AuthedToken) (name key : Bytes) (body : Body Bytes)
        → IsText body
        → Moves T (put_secret lib state_key token name key body))
    → (w w' : World) → Step lib state_key w w'
    → T w.tables w'.tables
Step-Moves lib state_key o s put w w' (authenticated header _) =
    (from_request_parts-Moves o lib header).at w
Step-Moves lib state_key o s put w w' (projects_listed token _) =
    (list_projects_handler-Moves o token).at w
Step-Moves lib state_key o s put w w' (project_created token body _) =
    (create_project_handler-Moves o s token body).at w
Step-Moves lib state_key o s put w w' (secrets_read token name _) =
    (get_secrets-Moves o lib state_key token name).at w
Step-Moves lib state_key o s put w w' (secret_put token name key body text _) =
    (put token name key body text).at w
Step-Moves lib state_key o s put w w' (secret_deleted token name key _) =
    (delete_secret_handler-Moves o s token name key).at w
Step-Moves lib state_key o s put w w' (token_created token body _) =
    (create_token-Moves o s token body).at w
Step-Moves lib state_key o s put w w' (tokens_listed token _) =
    (list_tokens_handler-Moves o token).at w
Step-Moves lib state_key o s put w w' (token_revoked token name _) =
    (revoke_token_handler-Moves o s token name).at w
Step-Moves lib state_key o s put w w' (disturbed faults _) = o.same w.tables

-- Through any history of requests, whether they succeed, fail or panic, projects keep distinct names
-- and the secrets distinct pairs of project and key.
pub History-Unique :
    (lib : Crates) (state_key : MasterKey) (w w' : World)
    → History lib state_key w w'
    → Unique w.tables
    → Unique w'.tables
History-Unique lib state_key w w' (begins _) u = u
History-Unique lib state_key w w' (goes_on {w' = v} h step) u =
    Step-Moves lib state_key Keeps-Preorder (Keeps-Statements lib)
      (λ token name key body _. put_secret-Keeps lib state_key token name key body) v w' step
      (History-Unique lib state_key w v h u)
