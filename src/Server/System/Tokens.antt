-- ===== src/Server/System/Tokens.antt =====
-- The token commands of crates/secrets-server/src/commands.rs keep the machine consistent, whether a
-- server runs or not.
use secrets_manager.Prelude.{ℕ, Bool, true, false, Option, none, some, List, inl, inr, Bytes}
use secrets_manager.Exec.{Outcome, ok, err, panic, Exec, pure, lift, refuse_if, continue, ◌>>=◌}
use secrets_manager.Crates.{Crates, FreshRowid}
use secrets_manager.Crypto.{MasterKey}
use secrets_manager.Server.State.{Tables, World}
use secrets_manager.Server.State.Moves.{
  Preorder, Moves, moves_rules, Moves-bind, Moves-execute, now_rfc3339-Moves,
}
use secrets_manager.Server.State.Triples.{Keeping-Preorder}
use secrets_manager.Server.Repo.{insert_token, revoke_token, list_tokens}
use secrets_manager.Server.Auth.Issuance.{insertion}
use secrets_manager.Server.Auth.Revocation.{revocation}
use secrets_manager.Server.Config.{Host}
use secrets_manager.Server.Lock.{FilePath}
use secrets_manager.Server.Commands.{
  Machine, CommandError, on_world, open_db, token_expiry, token_create, token_revoke, token_list,
}
use secrets_manager.Server.Soundness.{Sound, StaysSound}
use secrets_manager.Server.Soundness.Statements.{Sound-Statements}
use secrets_manager.Server.System.{Fresh, Standing, Consistent}
use secrets_manager.Server.System.Events.{opening-Moves}

abbrev StaysFresh : Tables → Tables → Type 0
StaysFresh t u = Fresh t → Fresh u

insert_token-Fresh :
    (lib : Crates) (name hash : Bytes) (scope expires_at : Option Bytes)
    → Moves StaysFresh (insert_token lib name hash scope expires_at)
unfolding insert_token
insert_token-Fresh lib name hash scope expires_at =
    Moves-bind (Keeping-Preorder Fresh) _ _ (now_rfc3339-Moves (Keeping-Preorder Fresh) lib) λ now.
      Moves-execute (Keeping-Preorder Fresh) (insertion lib name hash scope expires_at now) λ t f.
        record { unsalted = f.unsalted; no_projects = f.no_projects; no_secrets = f.no_secrets }

revoke_token-Fresh : (name : Bytes) → Moves StaysFresh (revoke_token name)
unfolding revoke_token
revoke_token-Fresh name =
    Moves-execute (Keeping-Preorder Fresh) (revocation name) λ t f. record {
      unsalted = f.unsalted;
      no_projects = f.no_projects;
      no_secrets = f.no_secrets;
    }

module _ (lib : Crates) (db_path : Bytes) where
  abbrev StaysStanding : Option MasterKey → List FilePath → Tables → Tables → Type 0
  StaysStanding serving held t u =
      Standing lib db_path serving held t → Standing lib db_path serving held u

  standing_after :
      (serving : Option MasterKey) (held : List FilePath) (t u : Tables)
      → StaysFresh t u
      → ((key : MasterKey) → StaysSound lib key t u)
      → StaysStanding serving held t u
  standing_after none held t u f s (inl fresh) = inl (f fresh)
  standing_after none held t u f s (inr (key, sound)) = inr (key, s key sound)
  standing_after (some key) held t u f s (sound, locked) = (s key sound, locked)

  -- An action on the machine that keeps it consistent and does not touch the server or the locks.
  record Stays {E A : Type 0} (body : Exec Machine E A) : Type 0 where
    at : (m : Machine) → Consistent lib db_path m → Consistent lib db_path (body m).1

  module _ {E A B : Type 0} where
    continue-Stays :
        (r : Outcome E A × Machine) (f : A → Exec Machine E B)
        → ((a : A) → Stays (f a))
        → Consistent lib db_path r.1
        → Consistent lib db_path (continue r.0 f r.1).1
    continue-Stays (ok a, m) f k s = (k a).at m s
    continue-Stays (err e, m) f k s = s
    continue-Stays (panic, m) f k s = s

    Stays-bind :
        (body : Exec Machine E A) (f : A → Exec Machine E B)
        → Stays body
        → ((a : A) → Stays (f a))
        → Stays (body >>= f)
    unfolding ◌>>=◌
    Stays-bind body f kb kf = record { at = λ m s. continue-Stays (body m) f kf (kb.at m s) }

  module _ {E A : Type 0} where
    Stays-lift : (r : Outcome E A) → Stays (lift r)
    unfolding lift
    Stays-lift r = record { at = λ m s. s }

    Stays-pure : (a : A) → Stays (pure {E = E} a)
    unfolding pure
    Stays-pure a = record { at = λ m s. s }

    Stays-on_world :
        (f : E → CommandError) (body : Exec World E A)
        → Moves StaysFresh body
        → ((key : MasterKey) → Moves (StaysSound lib key) body)
        → Stays (on_world f body)
    unfolding on_world
    Stays-on_world f body kf ks = record {
      at = λ m.
          standing_after m.serving m.held m.world.tables (body m.world).1.tables (kf.at m.world)
            (λ key. (ks key).at m.world);
    }

  Stays-refuse_if : {E : Type 0} (b : Bool) (e : E) → Stays (refuse_if b e)
  unfolding refuse_if
  Stays-refuse_if true e = record { at = λ m s. s }
  Stays-refuse_if false e = record { at = λ m s. s }

  open_db-Stays : Stays open_db
  unfolding open_db
  open_db-Stays =
      Stays-on_world (λ e. e) _ (opening-Moves (Keeping-Preorder Fresh))
        (λ key. opening-Moves (Keeping-Preorder (Sound lib key)))

  token_expiry-Moves :
      {T : Tables → Tables → Type 0}
      → Preorder T
      → (ttl_days : Option ℕ) → Moves T (token_expiry lib ttl_days)
  unfolding token_expiry
  token_expiry-Moves o none = search (moves_rules, o) depth 12
  token_expiry-Moves o (some days) = search (moves_rules, o) depth 12

  ruleset stays_rules = (
    Stays-bind, Stays-lift, Stays-pure, Stays-on_world, Stays-refuse_if, open_db-Stays,
    token_expiry-Moves, moves_rules, Keeping-Preorder,
  )

  pub token_create-Consistent :
      (host : Host) (name : Bytes) (project : Option Bytes) (ttl_days : Option ℕ) (m : Machine)
      → FreshRowid lib
      → Consistent lib db_path m
      → Consistent lib db_path (token_create lib host name project ttl_days m).1
  unfolding token_create
  token_create-Consistent host name project ttl_days m fresh =
      let s = Sound-Statements lib in
      let inserts : (key : MasterKey) (name hash : Bytes) (scope expires_at : Option Bytes)
          → Moves (StaysSound lib key) (insert_token lib name hash scope expires_at) =
        λ key. (s key fresh).insert_token in
      let whole : Stays (token_create lib host name project ttl_days) =
        search (stays_rules, insert_token-Fresh, inserts) depth 24 in
      whole.at m

  pub token_revoke-Consistent :
      (host : Host) (name : Bytes) (m : Machine)
      → FreshRowid lib
      → Consistent lib db_path m
      → Consistent lib db_path (token_revoke lib host name m).1
  unfolding token_revoke
  token_revoke-Consistent host name m fresh =
      let revokes : (key : MasterKey) (name : Bytes)
          → Moves (StaysSound lib key) (revoke_token name) =
        λ key. (Sound-Statements lib key fresh).revoke_token in
      let whole : Stays (token_revoke lib host name) =
        search (stays_rules, revoke_token-Fresh, revokes) depth 24 in
      whole.at m

  pub token_list-Consistent :
      (host : Host) (m : Machine)
      → Consistent lib db_path m
      → Consistent lib db_path (token_list lib host m).1
  unfolding token_list list_tokens
  token_list-Consistent host m =
      let whole : Stays (token_list lib host) = search stays_rules depth 24 in whole.at m
