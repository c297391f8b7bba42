-- ===== src/Server/System/Lifetimes.antt =====
-- What holds at any time of the server's program: the commands of
-- crates/secrets-server/src/commands.rs and the requests in between.
use secrets_manager.Prelude.{◌≡◌, subst, sym, Option, some, Bytes}
use secrets_manager.Crates.{Crates, AeadCorrect, AeadAuthentic, FreshRowid}
use secrets_manager.Crypto.{MasterKey}
use secrets_manager.Server.State.{World}
use secrets_manager.Server.Commands.{Machine, release, stop}
use secrets_manager.Server.History.{Step}
use secrets_manager.Server.Soundness.Requests.{Step-Sound}
use secrets_manager.Server.System.{
  Standing, Consistent, Event, served, rekeyed, token_made, token_killed, tokens_shown, requested,
  stopped, surroundings, Lifetime, begins, goes_on,
}
use secrets_manager.Server.System.Events.{
  Standing-Whole, serve-Consistent, rekey_command-Consistent,
}
use secrets_manager.Server.System.Tokens.{
  token_create-Consistent, token_revoke-Consistent, token_list-Consistent,
}

module _ (lib : Crates) (db_path : Bytes) where
  standing_request :
      (serving : Option MasterKey) (key : MasterKey) (m : Machine) (w : World)
      → AeadCorrect lib
      → FreshRowid lib
      → m.serving ≡ some key
      → Step lib key m.world w
      → Consistent lib db_path m
      → Consistent lib db_path (record m { world = w })
  standing_request serving key m w correct fresh running step s =
      let (sound, locks) = subst (λ o. Standing lib db_path o m.held m.world.tables) running s in
      subst (λ o. Standing lib db_path o m.held w.tables) (sym running)
        (Step-Sound lib key correct fresh m.world w step sound, locks)

  stop-Consistent :
      (m : Machine) → Consistent lib db_path m → Consistent lib db_path (stop lib db_path m)
  unfolding stop release
  stop-Consistent m s = Standing-Whole lib db_path m.serving m.held m.world.tables s

  Event-Consistent :
      (m m' : Machine)
      → AeadCorrect lib
      → AeadAuthentic lib
      → FreshRowid lib
      → Event lib db_path m m'
      → Consistent lib db_path m
      → Consistent lib db_path m'
  Event-Consistent m m' correct authentic fresh (served host own _) s =
      serve-Consistent lib db_path host m authentic own s
  Event-Consistent m m' correct authentic fresh (rekeyed host own _) s =
      rekey_command-Consistent lib db_path host m correct authentic own s
  Event-Consistent m m' correct authentic fresh (token_made host name project ttl_days _) s =
      token_create-Consistent lib db_path host name project ttl_days m fresh s
  Event-Consistent m m' correct authentic fresh (token_killed host name _) s =
      token_revoke-Consistent lib db_path host name m fresh s
  Event-Consistent m m' correct authentic fresh (tokens_shown host _) s =
      token_list-Consistent lib db_path host m s
  Event-Consistent m m' correct authentic fresh (requested key _ w running step) s =
      standing_request m.serving key m w correct fresh running step s
  Event-Consistent m m' correct authentic fresh (stopped key _ running) s = stop-Consistent m s
  Event-Consistent m m' correct authentic fresh (surroundings faults typed _) s = s

-- A lifetime of the program on one database, with servers that start and end, rekeys, token commands
-- and requests in any order, whatever fails: as long as a server runs, it holds the lock, its key is
-- that of the verifier, and every secret opens under its key, as the record that it is, to a text;
-- and while none runs, some key does that, or no server has started on the database yet.
pub Lifetime-Consistent :
    (lib : Crates) (db_path : Bytes) (m m' : Machine)
    → AeadCorrect lib
    → AeadAuthentic lib
    → FreshRowid lib
    → Lifetime lib db_path m m'
    → Consistent lib db_path m
    → Consistent lib db_path m'
Lifetime-Consistent lib db_path m m' correct authentic fresh (begins _) s = s
Lifetime-Consistent lib db_path m m' correct authentic fresh (goes_on {m' = n} life event) s =
    Event-Consistent lib db_path n m' correct authentic fresh event
      (Lifetime-Consistent lib db_path m n correct authentic fresh life s)
