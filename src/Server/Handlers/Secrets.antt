-- ===== src/Server/Handlers/Secrets.antt =====
-- `get_secrets`, `put_secret` and `delete_secret` of crates/secrets-server/src/handlers.rs.
use secrets_manager.Prelude.{
  ℕ, not, List, [], ◌∷◌, ◌==◌, if◌then◌else◌, Bytes, ascii, BTreeMap, btree_insert, from_utf8,
}
use secrets_manager.Exec.{
  Outcome, ok, err, panic, ok_or, map_error, Exec, pure, fail, lift, map_err, refuse_if, ◌>>=◌,
  ◌>>◌,
}
use secrets_manager.Crates.{Crates}
use secrets_manager.Crypto.{MasterKey, aad_bytes, encrypt, decrypt}
use secrets_manager.Server.State.{World, Sql, on_draws}
use secrets_manager.Server.Repo.{
  AuthedToken, SecretRow, project_id, list_secret_rows, upsert_secret, delete_secret,
}
use secrets_manager.Server.Error.{
  AppError, not_found, payload_too_large, bad_request, internal, from_sql,
}
use secrets_manager.Server.Auth.{ensure_scope, with_db}
use secrets_manager.Server.Names.{valid_project, valid_key}

-- A JSON body, or the status of axum's rejection of it.
abbrev pub Body : Type 0 → Type 0
Body A = Outcome ℕ A

unfoldable pub map_json_rejection : ℕ → AppError
map_json_rejection status =
    if status == 413 then payload_too_large else bad_request (ascii "invalid JSON body")

abbrev pub db_lock : AppError
db_lock = internal (ascii "db lock")

abbrev pub invalid_project : AppError
invalid_project = bad_request (ascii "invalid project name")

abbrev pub invalid_key : AppError
invalid_key = bad_request (ascii "invalid key name")

-- `?` on a result of rusqlite
abbrev pub sql : {A : Type 0} → Sql A → Exec World AppError A
sql m = map_err from_sql m

-- `repo::project_id(&conn, &name)?.ok_or(AppError::NotFound)?`
unfoldable pub require_project : Bytes → Exec World AppError ℕ
require_project name = do found ← sql (project_id name); lift (ok_or found not_found)

module _ (lib : Crates) (state_key : MasterKey) where
  unfoldable pub decrypt_row : Bytes → SecretRow → Outcome AppError Bytes
  decrypt_row name row =
      elim (decrypt lib state_key row.nonce row.ciphertext (aad_bytes name row.key)) [
        | ok plaintext ↦ ok_or (from_utf8 plaintext) (internal (ascii "non-utf8 secret"))
        | err e ↦ err (internal (ascii "decrypt"))
        | panic ↦ panic
      ]

  -- The loop of `get_secrets`.
  unfoldable pub decrypt_rows :
      Bytes → List SecretRow → BTreeMap Bytes → Exec World AppError (BTreeMap Bytes)
  decrypt_rows name [] out = pure out
  decrypt_rows name (row ∷ rows) out = do
    value ← lift (decrypt_row name row)
    decrypt_rows name rows (btree_insert row.key value out)

  unfoldable pub get_secrets : AuthedToken → Bytes → Exec World AppError (BTreeMap Bytes)
  get_secrets token name = do
    refuse_if (not (valid_project name)) invalid_project
    ensure_scope token name
    with_db db_lock
        do pid ← require_project name; rows ← sql (list_secret_rows pid); decrypt_rows name rows []

  -- What `put_secret` does while it holds the database.
  unfoldable pub store_secret : Bytes → Bytes → Bytes → Exec World AppError (Bytes × ℕ)
  store_secret name key value = do
    pid ← require_project name
    sealed ←
        map_err (λ _. internal (ascii "encrypt"))
          (on_draws (encrypt lib state_key value (aad_bytes name key)))
    version ← sql (upsert_secret lib pid key sealed.0 sealed.1)
    pure (key, version)

  -- Returns the key and its version.
  unfoldable pub put_secret :
      AuthedToken → Bytes → Bytes → Body Bytes → Exec World AppError (Bytes × ℕ)
  put_secret token name key body = do
    value ← lift (map_error map_json_rejection body)
    refuse_if (not (valid_project name)) invalid_project
    ensure_scope token name
    refuse_if (not (valid_key key)) invalid_key
    with_db db_lock (store_secret name key value)

-- 204 (no content), or 404 if there was no such secret.
unfoldable pub delete_secret_handler : AuthedToken → Bytes → Bytes → Exec World AppError ℕ
delete_secret_handler token name key = do
  refuse_if (not (valid_project name)) invalid_project
  refuse_if (not (valid_key key)) invalid_key
  ensure_scope token name
  with_db db_lock do
    pid ← require_project name
    removed ← sql (delete_secret pid key)
    if removed then pure 204 else fail not_found
