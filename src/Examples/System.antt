-- ===== src/Examples/System.antt =====
-- Runs of the server's program: crates/secrets-server/src/config.rs and commands.rs, and the reads of
-- a sound database.
use mathlib.Core.Option
use secrets_manager.Prelude.{
  ends_in, ◌≡◌, refl, sym, ap, true, false, Option, none, some, inl, [], ◌∷◌, ◌++◌, if◌then◌else◌,
  Bytes, ascii, ◌=ᵇ◌, BTreeMap, is_utf8, from_utf8, le_bytes,
}
use secrets_manager.Exec.{Outcome, ok, ◌>>=◌}
use secrets_manager.Crypto.{derive_key, random, encrypt, decrypt, aad_bytes, generate_salt}
use secrets_manager.Server.State.{on_draws, transaction, mark, execute, access}
use secrets_manager.Server.Repo.{find, set_meta, with_meta, meta_value}
use secrets_manager.Server.CryptoState.{initialize, initialize_with_params, set_key_meta}
use secrets_manager.Server.CryptoState.Passphrase.{initialize-KeyMeta}
use secrets_manager.Server.Config.{
  Host, Config, is_empty, strip_single_trailing_newline, from_env, text_var, acquire_passphrase,
}
use secrets_manager.Server.Config.Passphrase.{
  strip_single_trailing_newline-line, acquire_passphrase-non_empty,
}
use secrets_manager.Server.Commands.{Machine, serve, rekey_command, token_create}
use secrets_manager.Server.Names.{valid_project}
use secrets_manager.Server.Handlers.Secrets.{get_secrets}
use secrets_manager.Server.Soundness.{Sound}
use secrets_manager.Server.Soundness.Available.{get_secrets-available}
use secrets_manager.Server.System.{
  ForDatabase, Consistent, begins, goes_on, served, rekeyed, token_made,
}
use secrets_manager.Server.System.Lifetimes.{Lifetime-Consistent}
use secrets_manager.Server.System.Exclusion.{Refused, serve-rekey_command-Refused}
use secrets_manager.Examples.Toy.{
  toy, drop_prefix, toy-AeadCorrect, toy-AeadAuthentic, toy-FreshRowid,
}
use secrets_manager.Examples.Rekey.{key, keyless, filled}

strip_single_trailing_newline-line_example :
    (strip_single_trailing_newline (ascii "pw" ++ b'\r' ∷ b'\n' ∷ []) ≡ ascii "pw")
    × (strip_single_trailing_newline (ascii "pw" ++ b'\n' ∷ []) ≡ ascii "pw")
    × (strip_single_trailing_newline (ascii "pw") ≡ ascii "pw")
unfolding ends_in
strip_single_trailing_newline-line_example =
    strip_single_trailing_newline-line (ascii "pw") (ascii "pw") (ascii "pw") refl refl

abbrev variables : Bytes → Option Bytes
variables name = if name =ᵇ ascii "SECRETS_PASSPHRASE" then some (ascii "pw") else none

abbrev host : Host
host = record {
  var = variables;
  file = λ path. none;
  is_terminal = false;
  valid_addr = λ text. true;
}

acquire_passphrase-non_empty_example : is_empty (ascii "pw") ≡ false
unfolding acquire_passphrase Option.bind from_utf8 is_utf8 ◌=ᵇ◌
acquire_passphrase-non_empty_example = acquire_passphrase-non_empty host [] [] (ascii "pw") refl

abbrev found : Config
found = record {
  db_path = ascii "secrets.db";
  audit_path = ascii "audit.jsonl";
  bind_addr = ascii "127.0.0.1:8787";
}

ok-injective : {E A : Type 0} {x y : A} → ◌≡◌ {A = Outcome E A} (ok x) (ok y) → x ≡ y
ok-injective e = cc e

configured : ForDatabase (ascii "secrets.db") host
unfolding from_env text_var Option.bind ◌=ᵇ◌
configured cfg e = ap (λ c. c.db_path) (sym (ok-injective {x = found} e))

-- A machine on a database that no server has started on.
abbrev off : Machine
off = record {
  world = record {
    tables = record { meta = []; projects = []; secrets = []; tokens = [] };
    faults = [];
    draws = 0;
    ticks = 0;
    poisoned = false;
    log = [];
  };
  held = [];
  serving = none;
  typed = [];
}

abbrev on : Machine
on = (serve toy host off).1

abbrev tokened : Machine
tokened = (token_create toy host (ascii "ci") none none on).1

Lifetime-Consistent_example : Consistent toy (ascii "secrets.db") (rekey_command toy host tokened).1
unfolding meta_value
Lifetime-Consistent_example =
    Lifetime-Consistent toy (ascii "secrets.db") off (rekey_command toy host tokened).1
      toy-AeadCorrect toy-AeadAuthentic toy-FreshRowid
      (goes_on
        (goes_on (goes_on (begins off) (served host configured off))
          (token_made host (ascii "ci") none none on))
        (rekeyed host configured tokened))
      (inl (record { unsalted = refl; no_projects = refl; no_secrets = refl }))

sound : Sound toy key filled.tables
unfolding initialize initialize_with_params derive_key set_key_meta set_meta with_meta transaction
    mark generate_salt encrypt decrypt drop_prefix random on_draws execute access aad_bytes le_bytes
    find is_utf8 ◌=ᵇ◌ ◌>>=◌
sound = record {
  passphrase = ascii "pw";
  verifier = initialize-KeyMeta toy (ascii "pw") key keyless filled refl;
  unique = record { projects = (refl, tt); secrets = (refl, tt) };
  project_ids = (refl, tt);
  secret_ids = (refl, tt);
  readable = (
    record {
      project = record { id = 1; name = ascii "web"; created_at = [] };
      plaintext = ascii "x";
      owner = refl;
      opened = refl;
      text = refl;
    },
    tt,
  );
}

get_secrets-available_example :
    (m : BTreeMap Bytes) × (get_secrets toy key
        (record { name = ascii "ci"; scope = none })
        (ascii "web")
        filled
      ≡ (ok m, filled))
unfolding initialize initialize_with_params set_key_meta set_meta transaction mark on_draws execute
    access find valid_project ◌=ᵇ◌ ◌>>=◌ generate_salt encrypt random derive_key
get_secrets-available_example =
    get_secrets-available toy key (record { name = ascii "ci"; scope = none }) (ascii "web")
      (record { id = 1; name = ascii "web"; created_at = [] }) filled sound refl refl refl
      (inl refl) refl

-- The machine with a server that runs on those tables.
abbrev running : Machine
running = record off {
  world = filled;
  held = ([], ascii "secrets.db.lock") ∷ [];
  serving = some key;
}

serve-rekey_command-Refused_example :
    Refused running (serve toy host running) × Refused running (rekey_command toy host running)
unfolding secrets_manager.Server.Lock.lock_path ◌=ᵇ◌
serve-rekey_command-Refused_example =
    serve-rekey_command-Refused toy (ascii "secrets.db") host key running configured (sound, refl)
      refl
