-- ===== src/Server/System/Exclusion.antt =====
-- What the lock of crates/secrets-server/src/lock.rs keeps apart: `serve` and `rekey` of commands.rs.
use secrets_manager.Prelude.{◌≡◌, refl, sym, subst, Bool, true, false, some, any, Bytes}
use secrets_manager.Exec.{Outcome, ok, err, panic, is_ok, map_error, Exec, lift, continue, ◌>>=◌}
use secrets_manager.Crates.{Crates}
use secrets_manager.Crypto.{MasterKey}
use secrets_manager.Server.State.{World, access}
use secrets_manager.Server.State.Moves.{tables-access}
use secrets_manager.Server.Config.{Host, Config, ConfigError, from_env}
use secrets_manager.Server.Lock.{FilePath, same_file, lock_path, try_exclusive}
use secrets_manager.Server.Commands.{
  Machine, CommandError, config, locked, opened, acquire, serve, rekey_command,
}
use secrets_manager.Server.System.{ForDatabase, Standing, Consistent}

-- A command that was refused: no table, lock or server changed.
pub record Refused {A : Type 0} (m : Machine) (r : Outcome CommandError A × Machine) : Type 0 where
  pub failed : is_ok r.0 ≡ false
  pub tables : r.1.world.tables ≡ m.world.tables
  pub held : r.1.held ≡ m.held
  pub serving : r.1.serving ≡ m.serving

module _ {A : Type 0} where
  opened-Refused :
      (path : FilePath) (fault : Bool) (m : Machine) (w : World) (k : Exec Machine CommandError A)
      → any (same_file path) m.held ≡ true
      → w.tables ≡ m.world.tables
      → (let (r, m') = opened path fault (record m { world = w }) in
          Refused m (continue r (λ _. k) m'))
  unfolding try_exclusive
  opened-Refused path true m w k taken same = record {
    failed = refl;
    tables = same;
    held = refl;
    serving = refl;
  }
  opened-Refused path false m w k taken same =
      let e : opened path false (record m { world = w }) ≡ (err locked, record m { world = w }) =
        rw (taken, opened, try_exclusive) refl in
      subst (λ p. Refused m (continue p.0 (λ _. k) p.1)) (sym e)
        (record { failed = refl; tables = same; held = refl; serving = refl })

  locked-Refused :
      (lib : Crates) (db_path : Bytes) (m : Machine) (k : Exec Machine CommandError A)
      → any (same_file (lock_path lib db_path)) m.held ≡ true
      → Refused m ((acquire lib db_path >>= λ _. k) m)
  unfolding acquire ◌>>=◌
  locked-Refused lib db_path m k taken =
      let (fault, w) = access m.world in
      opened-Refused (lock_path lib db_path) fault m w k taken (tables-access m.world)

  configured-Refused :
      (db_path : Bytes) (r : Outcome ConfigError Config) (m : Machine)
      (k : Config → Exec Machine CommandError A)
      → ((cfg : Config) → r ≡ ok cfg → cfg.db_path ≡ db_path)
      → ((cfg : Config) → cfg.db_path ≡ db_path → Refused m (k cfg m))
      → Refused m ((lift (map_error config r) >>= k) m)
  unfolding ◌>>=◌
  configured-Refused db_path (ok cfg) m k own next = next cfg (own cfg refl)
  configured-Refused db_path (err e) m k own next = record {
    failed = refl;
    tables = refl;
    held = refl;
    serving = refl;
  }
  configured-Refused db_path panic m k own next = record {
    failed = refl;
    tables = refl;
    held = refl;
    serving = refl;
  }

running-holds_lock :
    (lib : Crates) (db_path : Bytes) (key : MasterKey) (m : Machine)
    → Consistent lib db_path m
    → m.serving ≡ some key
    → any (same_file (lock_path lib db_path)) m.held ≡ true
running-holds_lock lib db_path key m s running =
    (subst (λ o. Standing lib db_path o m.held m.world.tables) running s).1

-- While a server runs on a database, a second server and a rekey are refused, whatever their
-- environment: they end with an error, and leave the tables, the locks and the server that runs as
-- they are.
pub serve-rekey_command-Refused :
    (lib : Crates) (db_path : Bytes) (host : Host) (key : MasterKey) (m : Machine)
    → ForDatabase db_path host
    → Consistent lib db_path m
    → m.serving ≡ some key
    → Refused m (serve lib host m) × Refused m (rekey_command lib host m)
unfolding serve rekey_command
serve-rekey_command-Refused lib db_path host key m own s running =
    let taken = running-holds_lock lib db_path key m s running in
    (
      configured-Refused db_path (from_env host) m _ own λ cfg same.
          locked-Refused lib cfg.db_path m _
            (subst (λ d. any (same_file (lock_path lib d)) m.held ≡ true) (sym same) taken),
      configured-Refused db_path (from_env host) m _ own λ cfg same.
          locked-Refused lib cfg.db_path m _
            (subst (λ d. any (same_file (lock_path lib d)) m.held ≡ true) (sym same) taken),
    )
