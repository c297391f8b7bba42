-- ===== src/Server/Handlers/Walks.antt =====
-- How requests move the tables, along any preorder that the statements of
-- crates/secrets-server/src/repo.rs follow: the checks of auth.rs and the handlers of handlers.rs,
-- however they end.
use secrets_manager.Prelude.{
  ℕ, ◌≡◌, refl, sym, subst, Bool, true, false, not, Option, none, some, List, [], ◌∷◌,
  if◌then◌else◌, Bytes, BTreeMap, btree_insert,
}
use secrets_manager.Exec.{Outcome, ok, err, panic, Exec, refuse_if, ◌>>=◌, ◌>>◌}
use secrets_manager.Server.Names.{valid_project, valid_key}
use secrets_manager.Crates.{Crates}
use secrets_manager.Crypto.{MasterKey}
use secrets_manager.Server.State.{Tables, World}
use secrets_manager.Server.State.Moves.{
  Preorder, Moves, moves_rules, Moves-lift, Moves-pure, Moves-bind, Moves-refuse_if,
}
use secrets_manager.Server.Repo.{
  AuthedToken, SecretRow, create_project, delete_secret, insert_token, revoke_token,
  list_secret_rows, project_id, list_projects, list_tokens, authenticate,
}
use secrets_manager.Server.Error.{AppError}
use secrets_manager.Server.Auth.{with_db, released, ensure_scope, ensure_admin, from_request_parts}
use secrets_manager.Server.Handlers.Secrets.{
  Body, invalid_project, invalid_key, db_lock, require_project, decrypt_rows, get_secrets,
  store_secret, put_secret, delete_secret_handler,
}
use secrets_manager.Server.Handlers.Admin.{
  CreateTokenBody, expiry, create_project_handler, list_projects_handler, create_token,
  list_tokens_handler, revoke_token_handler,
}

-- The writes that do not depend on what a secret's ciphertext is.
pub record Statements (lib : Crates) (T : Tables → Tables → Type 0) : Type 0 where
  pub create_project : (name : Bytes) → Moves T (create_project lib name)
  pub delete_secret : (pid : ℕ) (key : Bytes) → Moves T (delete_secret pid key)
  pub insert_token :
      (name hash : Bytes) (scope expires_at : Option Bytes)
      → Moves T (insert_token lib name hash scope expires_at)
  pub revoke_token : (name : Bytes) → Moves T (revoke_token name)

module _ {E A : Type 0} where
  pub tables-released : (r : Outcome E A × World) → (released r).1.tables ≡ r.1.tables
  tables-released (ok a, w) = refl
  tables-released (err e, w) = refl
  tables-released (panic, w) = refl

module _ {T : Tables → Tables → Type 0} {E A : Type 0} where
  Moves-locked :
      (o : Preorder T) (b : Bool) (e : E) (r : Outcome E A × World) (w : World)
      → T w.tables r.1.tables
      → T w.tables (if b then (err e, w) else released r).1.tables
  Moves-locked o true e r w h = o.same w.tables
  Moves-locked o false e r w h = subst (T w.tables) (sym (tables-released r)) h

  pub with_db-Moves :
      (o : Preorder T) (e : E) (body : Exec World E A) → Moves T body → Moves T (with_db e body)
  unfolding with_db
  with_db-Moves o e body k = record { at = λ w. Moves-locked o w.poisoned e (body w) w (k.at w) }

module _ {T : Tables → Tables → Type 0} (o : Preorder T) where
  Moves-optional :
      {A : Type 0} (x : Option A) (m : Exec World AppError (Unit {0}))
      (f : A → Exec World AppError (Unit {0}))
      → Moves T m
      → ((a : A) → Moves T (f a))
      → Moves T (elim x [ none ↦ m | some a ↦ f a ])
  Moves-optional none m f km kf = km
  Moves-optional (some a) m f km kf = kf a

  pub ensure_scope-Moves :
      (token : AuthedToken) (project : Bytes) → Moves T (ensure_scope token project)
  unfolding ensure_scope
  ensure_scope-Moves token project =
      Moves-optional token.scope _ _ (search (moves_rules, o)) λ s. search (moves_rules, o)

  pub ensure_admin-Moves : (token : AuthedToken) → Moves T (ensure_admin token)
  unfolding ensure_admin
  ensure_admin-Moves token =
      Moves-optional token.scope _ _ (search (moves_rules, o)) λ s. search (moves_rules, o)

pub ruleset walk_rules = (moves_rules, with_db-Moves, ensure_scope-Moves, ensure_admin-Moves)

module _ {lib : Crates} {T : Tables → Tables → Type 0} (o : Preorder T) (s : Statements lib T) where
  pub delete_secret_handler-Moves :
      (token : AuthedToken) (name key : Bytes) → Moves T (delete_secret_handler token name key)
  unfolding delete_secret_handler require_project project_id
  delete_secret_handler-Moves token name key = search (walk_rules, o, s.delete_secret) depth 16

  pub revoke_token_handler-Moves :
      (token : AuthedToken) (name : Bytes) → Moves T (revoke_token_handler token name)
  unfolding revoke_token_handler
  revoke_token_handler-Moves token name = search (walk_rules, o, s.revoke_token) depth 16

  pub create_project_handler-Moves :
      (token : AuthedToken) (body : Body Bytes) → Moves T (create_project_handler lib token body)
  unfolding create_project_handler project_id
  create_project_handler-Moves token body = search (walk_rules, o, s.create_project) depth 16

  expiry-Moves : (no_expiry : Bool) (ttl_days : Option ℕ) → Moves T (expiry lib no_expiry ttl_days)
  unfolding expiry
  expiry-Moves true ttl_days = search (walk_rules, o) depth 16
  expiry-Moves false ttl_days = search (walk_rules, o) depth 16

  pub create_token-Moves :
      (token : AuthedToken) (body : Body CreateTokenBody) → Moves T (create_token lib token body)
  unfolding create_token
  create_token-Moves token body = search (walk_rules, o, expiry-Moves, s.insert_token) depth 16

-- What only reads.
module _ {T : Tables → Tables → Type 0} (o : Preorder T) (lib : Crates) where
  decrypt_rows-Moves :
      (state_key : MasterKey) (name : Bytes) (rows : List SecretRow) (out : BTreeMap Bytes)
      → Moves T (decrypt_rows lib state_key name rows out)
  unfolding decrypt_rows
  decrypt_rows-Moves state_key name [] out = Moves-pure o out
  decrypt_rows-Moves state_key name (row ∷ rows) out =
      Moves-bind o _ _ (Moves-lift o _)
        λ value. decrypt_rows-Moves state_key name rows (btree_insert row.key value out)

  pub get_secrets-Moves :
      (state_key : MasterKey) (token : AuthedToken) (name : Bytes)
      → Moves T (get_secrets lib state_key token name)
  unfolding get_secrets require_project project_id list_secret_rows
  get_secrets-Moves state_key token name = search (walk_rules, o, decrypt_rows-Moves) depth 14

  put_value-Moves :
      (state_key : MasterKey) (token : AuthedToken) (name key value : Bytes)
      → Moves T (store_secret lib state_key name key value)
      → Moves T do
        refuse_if (not (valid_project name)) invalid_project
        ensure_scope token name
        refuse_if (not (valid_key key)) invalid_key
        with_db db_lock (store_secret lib state_key name key value)
  put_value-Moves state_key token name key value stores =
      Moves-bind o _ _ (Moves-refuse_if o _ _) λ _.
        Moves-bind o _ _ (ensure_scope-Moves o token name)
          λ _. Moves-bind o _ _ (Moves-refuse_if o _ _) λ _. with_db-Moves o db_lock _ stores

  -- A put moves the tables as the storing of its value does.
  pub put_secret-Moves :
      (state_key : MasterKey) (token : AuthedToken) (name key : Bytes) (body : Body Bytes)
      → ((value : Bytes) → body ≡ ok value → Moves T (store_secret lib state_key name key value))
      → Moves T (put_secret lib state_key token name key body)
  unfolding put_secret ◌>>=◌
  put_secret-Moves state_key token name key (ok value) stores = record {
    at = λ w. (put_value-Moves state_key token name key value (stores value refl)).at w;
  }
  put_secret-Moves state_key token name key (err status) stores = record {
    at = λ w. o.same w.tables;
  }
  put_secret-Moves state_key token name key panic stores = record { at = λ w. o.same w.tables }

  pub from_request_parts-Moves : (header : Option Bytes) → Moves T (from_request_parts lib header)
  unfolding from_request_parts authenticate
  from_request_parts-Moves header = search (walk_rules, o) depth 16

module _ {T : Tables → Tables → Type 0} (o : Preorder T) where
  pub list_projects_handler-Moves : (token : AuthedToken) → Moves T (list_projects_handler token)
  unfolding list_projects_handler list_projects
  list_projects_handler-Moves token = search (walk_rules, o) depth 16

  pub list_tokens_handler-Moves : (token : AuthedToken) → Moves T (list_tokens_handler token)
  unfolding list_tokens_handler list_tokens
  list_tokens_handler-Moves token = search (walk_rules, o) depth 16
