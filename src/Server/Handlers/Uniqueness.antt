-- ===== src/Server/Handlers/Uniqueness.antt =====
-- The UNIQUE constraints of crates/secrets-server/src/db.rs over `put_secret` of
-- crates/secrets-server/src/handlers.rs, however it ends.
use secrets_manager.Prelude.{Bytes}
use secrets_manager.Crates.{Crates}
use secrets_manager.Crypto.{MasterKey}
use secrets_manager.Server.State.Moves.{Moves}
use secrets_manager.Server.Repo.{AuthedToken, project_id}
use secrets_manager.Server.Handlers.Secrets.{Body, require_project, store_secret, put_secret}
use secrets_manager.Server.Handlers.Walks.{walk_rules, put_secret-Moves}
use secrets_manager.Server.Handlers.Constraints.{Keeps, Keeps-Preorder, upsert_secret-Keeps}

store_secret-Keeps :
    (lib : Crates) (state_key : MasterKey) (name key value : Bytes)
    → Moves Keeps (store_secret lib state_key name key value)
unfolding store_secret require_project project_id
store_secret-Keeps lib state_key name key value =
    search (walk_rules, Keeps-Preorder, upsert_secret-Keeps) depth 16

pub put_secret-Keeps :
    (lib : Crates) (state_key : MasterKey) (token : AuthedToken) (name key : Bytes)
    (body : Body Bytes)
    → Moves Keeps (put_secret lib state_key token name key body)
put_secret-Keeps lib state_key token name key body =
    put_secret-Moves Keeps-Preorder lib state_key token name key body
      λ value sent. store_secret-Keeps lib state_key name key value
