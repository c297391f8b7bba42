-- ===== src/Server/System.antt =====
-- The server's program over time: the commands of crates/secrets-server/src/commands.rs, the requests
-- of the server that runs, and the ends of servers, in any order, on one database.
pub mod Runs
pub mod Keys
pub mod Events
pub mod Tokens
pub mod Lifetimes
pub mod Exclusion
use secrets_manager.Prelude.{ℕ, ◌≡◌, Bool, true, Option, none, some, List, [], ◌⊎◌, any, Bytes}
use secrets_manager.Exec.{ok}
use secrets_manager.Crates.{Crates}
use secrets_manager.Crypto.{MasterKey}
use secrets_manager.Server.State.{World, Tables}
use secrets_manager.Server.Repo.{meta_value}
use secrets_manager.Server.CryptoState.{k_salt}
use secrets_manager.Server.Config.{Host, Typed, Config, from_env}
use secrets_manager.Server.Lock.{FilePath, same_file, lock_path}
use secrets_manager.Server.Commands.{
  Machine, serve, stop, token_create, token_revoke, token_list, rekey_command,
}
use secrets_manager.Server.History.{Step}
use secrets_manager.Server.Soundness.{Sound}

-- A database that no server has started on.
pub record Fresh (t : Tables) : Type 0 where
  pub unsalted : meta_value k_salt t.meta ≡ none
  pub no_projects : t.projects ≡ []
  pub no_secrets : t.secrets ≡ []

abbrev pub Whole : Crates → Tables → Type 0
Whole lib t = Fresh t ⊎ ((key : MasterKey) × Sound lib key t)

-- The environment of a process names the database.
abbrev pub ForDatabase : Bytes → Host → Type 0
ForDatabase db_path host = (cfg : Config) → from_env host ≡ ok cfg → cfg.db_path ≡ db_path

module _ (lib : Crates) (db_path : Bytes) where
  -- `surroundings` is what is not the program's: which accesses will fail, what will be typed.
  pub data Event : Machine → Machine → Type 0 where
    served : (host : Host) → ForDatabase db_path host → (m : Machine) → Event m (serve lib host m).1
    rekeyed :
        (host : Host)
        → ForDatabase db_path host
        → (m : Machine) → Event m (rekey_command lib host m).1
    token_made :
        (host : Host) (name : Bytes) (project : Option Bytes) (ttl_days : Option ℕ) (m : Machine)
        → Event m (token_create lib host name project ttl_days m).1
    token_killed :
        (host : Host) (name : Bytes) (m : Machine) → Event m (token_revoke lib host name m).1
    tokens_shown : (host : Host) (m : Machine) → Event m (token_list lib host m).1
    requested :
        (key : MasterKey) (m : Machine) (w : World)
        → m.serving ≡ some key
        → Step lib key m.world w
        → Event m (record m { world = w })
    stopped : (key : MasterKey) (m : Machine) → m.serving ≡ some key → Event m (stop lib db_path m)
    surroundings :
        (faults : List Bool) (typed : Typed) (m : Machine)
        → Event m (record m { world = record m.world { faults = faults }; typed = typed })

  pub data Lifetime : Machine → Machine → Type 0 where
    begins : (m : Machine) → Lifetime m m
    goes_on : {m m' m'' : Machine} → Lifetime m m' → Event m' m'' → Lifetime m m''

  abbrev pub Standing : Option MasterKey → List FilePath → Tables → Type 0
  Standing none held t = Whole lib t
  Standing (some key) held t =
      Sound lib key t × (any (same_file (lock_path lib db_path)) held ≡ true)

  -- A server that runs has the key of the tables and holds the lock.
  abbrev pub Consistent : Machine → Type 0
  Consistent m = Standing m.serving m.held m.world.tables
