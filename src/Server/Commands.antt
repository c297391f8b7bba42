-- ===== src/Server/Commands.antt =====
-- The commands of the server's program, crates/secrets-server/src/commands.rs. They run on a machine:
-- the database and all that goes with it, the lock files that are held, the master key of the server
-- that is running, and what is typed at prompts. Printing is left out; what is printed is returned.
use secrets_manager.Prelude.{
  ℕ, Bool, true, false, not, ◌&&◌, Option, none, some, List, ◌==◌, leb, if◌then◌else◌, length, all,
  Bytes, ascii, ◌=ᵇ◌,
}
use secrets_manager.Exec.{
  Outcome, ok, err, panic, ok_or, map_error, Exec, pure, fail, lift, refuse_if, ◌>>=◌, ◌>>◌,
}
use secrets_manager.Crates.{Crates}
use secrets_manager.Crypto.{MasterKey, generate_token, hash_token}
use secrets_manager.Server.State.{World, access, mark, now_utc, expected, on_draws}
use secrets_manager.Server.Repo.{TokenInfo, insert_token, revoke_token, list_tokens}
use secrets_manager.Server.CryptoState.{StateError, init_or_verify, rekey}
use secrets_manager.Server.Handlers.Admin.{CreatedToken}
use secrets_manager.Server.Names.{project_byte}
use secrets_manager.Server.Config.{
  Host, Typed, ConfigError, text_var, is_empty, from_env, prompt_password, acquire_passphrase,
  new_variable_empty, same_as_current, passphrase_empty, confirmation_differs, new_unavailable,
}
use secrets_manager.Server.Lock.{FilePath, lock_path, try_exclusive, give_back}

pub record Machine : Type 0 where
  pub world : World
  pub held : List FilePath
  pub serving : Option MasterKey
  pub typed : Typed

pub data CommandError : Type 0 where
  config : ConfigError → CommandError
  state : StateError → CommandError
  database open_failed lock_failed locked audit_failed bind_failed format_failed : CommandError
  invalid_name invalid_scope invalid_ttl : CommandError

unfoldable pub valid_name : Bytes → Bool
valid_name name = not (is_empty name) && leb (length name) 64 && all project_byte name

-- `Command` and `TokenCmd`, as they come from the command line.
pub data Command : Type 0 where
  serve_command : Command
  create_command : Bytes → Option Bytes → ℕ → Bool → Command
  revoke_command : Bytes → Command
  list_command : Command
  rekey_command_line : Command

-- What runs on the database, and what runs on the prompts.
unfoldable pub on_world :
    {E A : Type 0} → (E → CommandError) → Exec World E A → Exec Machine CommandError A
on_world f body m = let (r, w) = body m.world in (map_error f r, record m { world = w })

unfoldable pub on_typed : {A : Type 0} → Exec Typed ConfigError A → Exec Machine CommandError A
on_typed body m = let (r, typed) = body m.typed in (map_error config r, record m { typed = typed })

-- `db::open`: the file, the pragmas, the schema, and the look at its columns, each of which may fail.
-- The tables of the state are those of a migrated database; the migration is in Server.Schema.
unfoldable pub open_db : Exec Machine CommandError (Unit {0})
unfolding on_world mark
open_db =
    on_world (λ e. e) do mark open_failed; mark open_failed; mark open_failed; mark open_failed

abbrev pub opened : FilePath → Bool → Machine → Outcome CommandError (Unit {0}) × Machine
opened path true m = (err lock_failed, m)
opened path false m = elim (try_exclusive path m.held) [
  | none ↦ (err locked, m)
  | some held ↦ (ok tt, record m { held = held })
]

module _ (lib : Crates) where
  -- `lock::acquire`
  unfoldable pub acquire : Bytes → Exec Machine CommandError (Unit {0})
  unfolding lock_path try_exclusive
  acquire db_path m =
      let (fault, w) = access m.world in
      opened (lock_path lib db_path) fault (record m { world = w })

  -- The lock is dropped with the process, or at the end of the function that took it.
  unfoldable pub release : Bytes → Machine → Machine
  unfolding lock_path give_back
  release db_path m = record m { held = give_back (lock_path lib db_path) m.held }

  -- What a server does between taking the lock and serving.
  unfoldable pub start : Host → Exec Machine CommandError MasterKey
  start host = do
    passphrase ← on_typed (acquire_passphrase host)
    open_db
    key ← on_world state (init_or_verify lib passphrase)
    on_world (λ e. e) (mark audit_failed)
    on_world (λ e. e) (mark bind_failed)
    pure key

  abbrev pub started :
      Bytes → Outcome CommandError MasterKey × Machine → Outcome CommandError (Unit {0}) × Machine
  started db_path (ok key, m) =
      (ok tt, record m { serving = some key; world = record m.world { poisoned = false } })
  started db_path (err e, m) = (err e, release db_path m)
  started db_path (panic, m) = (panic, release db_path m)

  -- `serve`, until the server listens.
  unfoldable pub serve : Host → Exec Machine CommandError (Unit {0})
  unfolding release
  serve host = do
    cfg ← lift (map_error config (from_env host))
    acquire cfg.db_path
    λ m. started cfg.db_path (start host m)

  -- The end of a server: a signal, a crash.
  unfoldable pub stop : Bytes → Machine → Machine
  unfolding release
  stop db_path m = release db_path (record m { serving = none })

  unfoldable pub token_expiry : Option ℕ → Exec World CommandError (Option Bytes)
  token_expiry none = pure none
  token_expiry (some days) = do
    now ← now_utc lib
    until ← lift (expected lib (lib.add_days now days))
    text ← lift (ok_or (lib.format_rfc3339 until) format_failed)
    pure (some text)

  abbrev valid_scope_name : Option Bytes → Bool
  valid_scope_name none = true
  valid_scope_name (some p) = valid_name p

  abbrev is_zero : Option ℕ → Bool
  is_zero none = false
  is_zero (some days) = days == 0

  unfoldable pub token_create :
      Host → Bytes → Option Bytes → Option ℕ → Exec Machine CommandError CreatedToken
  unfolding token_expiry valid_name
  token_create host name project ttl_days = do
    refuse_if (not (valid_name name)) invalid_name
    refuse_if (not (valid_scope_name project)) invalid_scope
    refuse_if (is_zero ttl_days) invalid_ttl
    expires_at ← on_world (λ e. e) (token_expiry ttl_days)
    cfg ← lift (map_error config (from_env host))
    open_db
    token ← on_world (λ e. e) (on_draws (generate_token lib))
    on_world (λ _. database) (insert_token lib name (hash_token lib token) project expires_at)
    pure (record { name = name; scope = project; expires_at = expires_at; token = token })

  -- The number that is printed.
  unfoldable pub token_revoke : Host → Bytes → Exec Machine CommandError ℕ
  token_revoke host name = do
    cfg ← lift (map_error config (from_env host))
    open_db
    on_world (λ _. database) (revoke_token name)

  unfoldable pub token_list : Host → Exec Machine CommandError (List TokenInfo)
  token_list host = do
    cfg ← lift (map_error config (from_env host))
    open_db
    on_world (λ _. database) list_tokens

  unfoldable pub acquire_new_passphrase : Host → Bytes → Exec Typed ConfigError Bytes
  acquire_new_passphrase host current = elim (text_var host (ascii "SECRETS_NEW_PASSPHRASE")) [
    | some p ↦ do
      refuse_if (is_empty p) new_variable_empty
      refuse_if (p =ᵇ current) same_as_current
      pure p
    | none ↦
        if host.is_terminal
        then (do
          first ← prompt_password
          refuse_if (is_empty first) passphrase_empty
          second ← prompt_password
          refuse_if (not (first =ᵇ second)) confirmation_differs
          refuse_if (first =ᵇ current) same_as_current
          pure first)
        else fail new_unavailable
  ]

  -- The part of `rekey` under the lock; the number of secrets is printed.
  unfoldable pub rekey_locked : Host → Exec Machine CommandError ℕ
  unfolding acquire_new_passphrase
  rekey_locked host = do
    current ← on_typed (acquire_passphrase host)
    new_passphrase ← on_typed (acquire_new_passphrase host current)
    open_db
    on_world state (rekey lib current new_passphrase)

  unfoldable pub rekey_command : Host → Exec Machine CommandError ℕ
  unfolding rekey_locked release
  rekey_command host = do
    cfg ← lift (map_error config (from_env host))
    acquire cfg.db_path
    λ m. let (r, m') = rekey_locked host m in (r, release cfg.db_path m')

  abbrev done :
      {A : Type 0} → Outcome CommandError A × Machine → Outcome CommandError (Unit {0}) × Machine
  done (ok a, m) = (ok tt, m)
  done (err e, m) = (err e, m)
  done (panic, m) = (panic, m)

  -- Whether a command succeeds; what it prints is left out.
  unfoldable pub run : Host → Command → Exec Machine CommandError (Unit {0})
  unfolding serve token_create token_revoke token_list rekey_command
  run host serve_command m = serve host m
  run host (create_command name project ttl_days no_expiry) m =
      done (token_create host name project (if no_expiry then none else some ttl_days) m)
  run host (revoke_command name) m = done (token_revoke host name m)
  run host list_command m = done (token_list host m)
  run host rekey_command_line m = done (rekey_command host m)
