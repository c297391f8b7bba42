-- ===== src/Server/System/Events.antt =====
-- Every event keeps the machine consistent: the commands of crates/secrets-server/src/commands.rs
-- and the requests in between.
use secrets_manager.Prelude.{
  ◌≡◌, refl, sym, subst, subst₂, ap, ◌∙◌, Bool, true, false, Option, none, some, List, ◌∷◌, inl,
  inr, Bool-cases, any, arith, Bytes, =ᵇ_iff,
}
use secrets_manager.Exec.{Outcome, ok, err, panic, map_error, Exec, lift, continue, ◌>>=◌, ◌>>◌}
use secrets_manager.Crates.{Crates, AeadCorrect, AeadAuthentic}
use secrets_manager.Crypto.{MasterKey}
use secrets_manager.Server.State.{Tables, World, access, mark}
use secrets_manager.Server.State.Moves.{Preorder, Moves, tables-access, Moves-bind, Moves-mark}
use secrets_manager.Server.State.Triples.{Keeping-Preorder, Triple-Moves}
use secrets_manager.Server.CryptoState.{init_or_verify, rekey}
use secrets_manager.Server.Config.{Host, Config, ConfigError, from_env, acquire_passphrase}
use secrets_manager.Server.Lock.{FilePath, same_file, lock_path, try_exclusive}
use secrets_manager.Server.Commands.{
  Machine, CommandError, on_world, on_typed, open_db, opened, acquire, release, start, started,
  serve, acquire_new_passphrase, rekey_locked, rekey_command, config, state, audit_failed,
  bind_failed, open_failed, locked,
}
use secrets_manager.Server.Soundness.{Sound}
use secrets_manager.Server.System.{Whole, ForDatabase, Standing, Consistent}
use secrets_manager.Server.System.Runs.{
  On, EndsOn, Runs, Runs-bind, Runs-pure, Runs-on_world, Runs-on_typed,
}
use secrets_manager.Server.System.Keys.{init_or_verify-Sound, rekey-Whole}

same_file_refl : (p : FilePath) → same_file p p ≡ true
same_file_refl p = ground (arith, (=ᵇ_iff p.0 p.0).1 refl, (=ᵇ_iff p.1 p.1).1 refl)

-- What `open_db` does.
abbrev pub opening : Exec World CommandError (Unit {0})
opening = mark open_failed >> (mark open_failed >> (mark open_failed >> mark open_failed))

pub opening-Moves : {T : Tables → Tables → Type 0} → Preorder T → Moves T opening
opening-Moves o = Moves-bind o _ _ (Moves-mark o open_failed) λ _.
    Moves-bind o _ _ (Moves-mark o open_failed)
      λ _. Moves-bind o _ _ (Moves-mark o open_failed) λ _. Moves-mark o open_failed

module _ (lib : Crates) (held : List FilePath) where
  abbrev HoldsLock :
      {A : Type 0}
      → (Tables → Type 0)
      → Exec Machine CommandError A
      → (A → Tables → Type 0)
      → Type 0
  HoldsLock P m Q = Runs (Whole lib) held none P m Q

  open_db-Runs : HoldsLock (Whole lib) open_db (λ _. Whole lib)
  unfolding open_db
  open_db-Runs =
      Runs-on_world (Whole lib) held none (λ e. e) opening
        (Triple-Moves (Whole lib) opening (opening-Moves (Keeping-Preorder (Whole lib))) (λ t s. s))

  start-Runs :
      (host : Host) → AeadAuthentic lib → HoldsLock (Whole lib) (start lib host) (Sound lib)
  unfolding start
  start-Runs host authentic =
      Runs-bind (Whole lib) held none (on_typed (acquire_passphrase host)) _
        (Runs-on_typed (Whole lib) held none (acquire_passphrase host) (λ t s. s))
        λ passphrase. Runs-bind (Whole lib) held none open_db _ open_db-Runs λ _.
          Runs-bind (Whole lib) held none (on_world state (init_or_verify lib passphrase)) _
            (Runs-on_world (Whole lib) held none state (init_or_verify lib passphrase)
              (init_or_verify-Sound lib passphrase authentic))
            λ key.
              Runs-bind (Whole lib) held none (on_world (λ e. e) (mark audit_failed)) _
                (Runs-on_world (Whole lib) held none (λ e. e) (mark audit_failed)
                  (Triple-Moves (Whole lib) (mark audit_failed)
                    (Moves-mark (Keeping-Preorder (Sound lib key)) audit_failed)
                    (λ t s. inr (key, s))))
                λ _.
                  Runs-bind (Whole lib) held none (on_world (λ e. e) (mark bind_failed)) _
                    (Runs-on_world (Whole lib) held none (λ e. e) (mark bind_failed)
                      (Triple-Moves (Whole lib) (mark bind_failed)
                        (Moves-mark (Keeping-Preorder (Sound lib key)) bind_failed)
                        (λ t s. inr (key, s))))
                    λ _. Runs-pure (Whole lib) held none key

  rekey_locked-Runs :
      (host : Host)
      → AeadCorrect lib
      → AeadAuthentic lib
      → HoldsLock (Whole lib) (rekey_locked lib host) (λ _. Whole lib)
  unfolding rekey_locked
  rekey_locked-Runs host correct authentic =
      Runs-bind (Whole lib) held none (on_typed (acquire_passphrase host)) _
        (Runs-on_typed (Whole lib) held none (acquire_passphrase host) (λ t s. s))
        λ current.
          Runs-bind (Whole lib) held none (on_typed (acquire_new_passphrase lib host current)) _
            (Runs-on_typed (Whole lib) held none (acquire_new_passphrase lib host current)
              (λ t s. s))
            λ new_passphrase. Runs-bind (Whole lib) held none open_db _ open_db-Runs λ _.
              Runs-on_world (Whole lib) held none state (rekey lib current new_passphrase) (
                Triple-Moves (Whole lib) (rekey lib current new_passphrase)
                  (rekey-Whole lib current new_passphrase correct authentic) (λ t s. s))

module _ (lib : Crates) (db_path : Bytes) where
  pub Standing-Whole :
      (serving : Option MasterKey) (held : List FilePath) (t : Tables)
      → Standing lib db_path serving held t
      → Whole lib t
  Standing-Whole none held t s = s
  Standing-Whole (some key) held t s = inr (key, s.0)

  -- Where the lock is free, no server runs.
  free_lock :
      (serving : Option MasterKey) (held : List FilePath) (t : Tables)
      → any (same_file (lock_path lib db_path)) held ≡ false
      → Standing lib db_path serving held t
      → serving ≡ none
  free_lock none held t free s = refl
  free_lock (some key) held t free s = cc (s.1, free)

  ended_serving :
      (m : Machine) (h : List FilePath) (t : Tables)
      → m.world.tables ≡ t
      → m.serving ≡ none
      → Whole lib t
      → Standing lib db_path m.serving h m.world.tables
  ended_serving m h t same off s = subst₂ (λ o u. Standing lib db_path o h u) (sym off) (sym same) s

  -- How a command goes on from the lock.
  opened-Consistent :
      {A : Type 0} (fault : Bool) (m : Machine) (k : Exec Machine CommandError A)
      → Consistent lib db_path m
      → ((held : List FilePath)
          → any (same_file (lock_path lib db_path)) held ≡ true
          → (m' : Machine) → On (Whole lib) held none (Whole lib) m'
          → Consistent lib db_path (k m').1)
      → (let (r, m') = opened (lock_path lib db_path) fault m in
          Consistent lib db_path (continue r (λ _. k) m').1)
  unfolding try_exclusive
  opened-Consistent true m k s next = s
  opened-Consistent false m k s next =
      elim (Bool-cases (any (same_file (lock_path lib db_path)) m.held)) [
        | inl taken ↦
            let e : opened (lock_path lib db_path) false m ≡ (err locked, m) =
              rw (taken, opened) refl in
            subst (λ p. Consistent lib db_path (continue p.0 (λ _. k) p.1).1) (sym e) s
        | inr free ↦
            let off = free_lock m.serving m.held m.world.tables free s in
            let held = lock_path lib db_path ∷ m.held in
            let e : opened (lock_path lib db_path) false m ≡ (ok tt, record m { held = held }) =
              rw (free, opened) refl in
            subst (λ p. Consistent lib db_path (continue p.0 (λ _. k) p.1).1) (sym e)
              (next held (ground (arith, same_file_refl (lock_path lib db_path)))
                (record m { held = held })
                (Standing-Whole m.serving m.held m.world.tables s, refl, off))
      ]

  access-Consistent :
      (m : Machine)
      → Consistent lib db_path m
      → Consistent lib db_path (record m { world = (access m.world).1 })
  access-Consistent m s =
      subst (Standing lib db_path m.serving m.held) (sym (tables-access m.world)) s

  pub locked_command :
      {A : Type 0} (m : Machine) (k : Exec Machine CommandError A)
      → Consistent lib db_path m
      → ((held : List FilePath)
          → any (same_file (lock_path lib db_path)) held ≡ true
          → (m' : Machine) → On (Whole lib) held none (Whole lib) m'
          → Consistent lib db_path (k m').1)
      → Consistent lib db_path ((acquire lib db_path >>= λ _. k) m).1
  unfolding acquire ◌>>=◌
  locked_command m k s next =
      let (fault, w) = access m.world in
      opened-Consistent fault (record m { world = w }) k (access-Consistent m s) next

  -- The configuration comes first.
  pub configured_command :
      {A : Type 0} (r : Outcome ConfigError Config) (m : Machine)
      (k : Config → Exec Machine CommandError A)
      → ((cfg : Config) → r ≡ ok cfg → cfg.db_path ≡ db_path)
      → Consistent lib db_path m
      → ((cfg : Config) → cfg.db_path ≡ db_path → Consistent lib db_path (k cfg m).1)
      → Consistent lib db_path ((lift (map_error config r) >>= k) m).1
  unfolding ◌>>=◌
  configured_command (ok cfg) m k own s next = next cfg (own cfg refl)
  configured_command (err e) m k own s next = s
  configured_command panic m k own s next = s

  started-Consistent :
      (held : List FilePath) (r : Outcome CommandError MasterKey × Machine)
      → any (same_file (lock_path lib db_path)) held ≡ true
      → EndsOn (Whole lib) held none (Sound lib) r
      → Consistent lib db_path (started lib db_path r).1
  unfolding release
  started-Consistent held (ok key, m) locks e =
      (e.0, ap (any (same_file (lock_path lib db_path))) e.1 ∙ locks)
  started-Consistent held (err x, m) locks e = ended_serving m _ m.world.tables refl e.2 e.0
  started-Consistent held (panic, m) locks e = ended_serving m _ m.world.tables refl e.2 e.0

  pub serve-Consistent :
      (host : Host) (m : Machine)
      → AeadAuthentic lib
      → ForDatabase db_path host
      → Consistent lib db_path m
      → Consistent lib db_path (serve lib host m).1
  unfolding serve
  serve-Consistent host m authentic own s = configured_command (from_env host) m _ own s λ cfg same.
      subst
        (λ d.
          Consistent lib db_path
            ((acquire lib d >>= λ _ m'. started lib d (start lib host m')) m).1)
        (sym same)
        (locked_command m (λ m'. started lib db_path (start lib host m')) s
          λ held locks m' on.
            started-Consistent held (start lib host m') locks
              ((start-Runs lib held host authentic).at m' on))

  released-Consistent :
      {A : Type 0} (held : List FilePath) (r : Outcome CommandError A × Machine)
      → EndsOn (Whole lib) held none (λ _. Whole lib) r
      → Consistent lib db_path (release lib db_path r.1)
  unfolding release
  released-Consistent held (ok a, m) e = ended_serving m _ m.world.tables refl e.2 e.0
  released-Consistent held (err x, m) e = ended_serving m _ m.world.tables refl e.2 e.0
  released-Consistent held (panic, m) e = ended_serving m _ m.world.tables refl e.2 e.0

  pub rekey_command-Consistent :
      (host : Host) (m : Machine)
      → AeadCorrect lib
      → AeadAuthentic lib
      → ForDatabase db_path host
      → Consistent lib db_path m
      → Consistent lib db_path (rekey_command lib host m).1
  unfolding rekey_command
  rekey_command-Consistent host m correct authentic own s =
      configured_command (from_env host) m _ own s λ cfg same.
        subst
          (λ d.
            Consistent lib db_path
              ((acquire lib d >>= λ _ m'.
                  let (r, m'') = rekey_locked lib host m' in (r, release lib d m''))
                m).1)
          (sym same)
          (locked_command m
            (λ m'. let (r, m'') = rekey_locked lib host m' in (r, release lib db_path m'')) s
            λ held locks m' on.
              released-Consistent held (rekey_locked lib host m')
                ((rekey_locked-Runs lib held host correct authentic).at m' on))
