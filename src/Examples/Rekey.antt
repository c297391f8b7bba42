-- ===== src/Examples/Rekey.antt =====
-- Runs of crates/secrets-server/src/crypto_state.rs.
use secrets_manager.Prelude.{
  ◌≡◌, refl, true, false, [], ◌∷◌, ◌++◌, replicate, ascii, ◌=ᵇ◌, le_bytes, from_le_bytes,
}
use secrets_manager.Exec.{ok, ◌>>=◌}
use secrets_manager.Crypto.{
  MasterKey, aad_bytes, random, derive_key, encrypt, decrypt, generate_salt,
}
use secrets_manager.Server.State.{World, access, query, execute, mark, transaction, on_draws}
use secrets_manager.Server.Repo.{find, meta_value, with_meta, get_meta, set_meta}
use secrets_manager.Server.CryptoState.{
  validate_kdf_params, verifier_aad, le_to_u32, get_required, required_u32, set_key_meta, join_row,
  join_projects, insert_by_id, order_by_id, replace_ciphertext, update_ciphertext, verify,
  initialize_with_params, initialize, init_or_verify, rekey_row, rekey_rows, reencrypt_all,
  current_key, rekey_with_params, rekey,
}
use secrets_manager.Server.CryptoState.Rollback.{init_or_verify-rollback, rekey-rollback}
use secrets_manager.Server.CryptoState.Passphrase.{
  restart_same_key, restart_own_key, initialize-KeyMeta,
}
use secrets_manager.Server.CryptoState.Rekey.{AllReencrypted, rekey-AllReencrypted}
use secrets_manager.Examples.Toy.{toy, drop_prefix, toy-AeadCorrect, toy-AeadAuthentic}

abbrev blank : World
blank = record {
  tables = record { meta = []; projects = []; secrets = []; tokens = [] };
  faults = [];
  draws = 0;
  ticks = 0;
  poisoned = false;
  log = [];
}

abbrev pub key : MasterKey
key = record { expose = ascii "pw" ++ replicate 30 0 }

abbrev started : World
started = (initialize toy (ascii "pw") blank).1

restart_same_key_example : init_or_verify toy (ascii "pw") started ≡ (ok key, started)
unfolding initialize initialize_with_params derive_key set_key_meta set_meta with_meta transaction
    mark generate_salt encrypt random on_draws execute access ◌=ᵇ◌ ◌>>=◌
restart_same_key_example =
    restart_same_key toy (ascii "pw") key blank started started toy-AeadCorrect refl refl refl

restart_own_key_example : (key ≡ key) × (started.tables ≡ started.tables)
unfolding initialize initialize_with_params init_or_verify verify get_meta meta_value get_required
    required_u32 le_to_u32 validate_kdf_params derive_key set_key_meta set_meta with_meta
    transaction mark generate_salt encrypt decrypt drop_prefix random on_draws query execute access
    from_le_bytes le_bytes verifier_aad aad_bytes ◌=ᵇ◌ ◌>>=◌
restart_own_key_example =
    restart_own_key toy (ascii "pw") (ascii "pw") key key blank started started started
      toy-AeadAuthentic refl refl refl

-- A world with a project and a secret of it under the key, before and after the key's metadata.
abbrev pub keyless : World
keyless = record blank {
  tables = record blank.tables {
    projects = record { id = 1; name = ascii "web"; created_at = [] } ∷ [];
    secrets =
        record {
          id = 1;
          project_id = 1;
          key = ascii "URL";
          nonce = replicate 24 9;
          ciphertext =
              32
              ∷ (key.expose
                  ++ (24
                      ∷ (replicate 24 9
                          ++ (14 ∷ (aad_bytes (ascii "web") (ascii "URL") ++ ascii "x")))));
          version = 1;
          updated_at = [];
        }
        ∷ [];
  };
}

abbrev pub filled : World
filled = (initialize toy (ascii "pw") keyless).1

abbrev rekeyed : World
rekeyed = (rekey toy (ascii "pw") (ascii "new") filled).1

rekey-AllReencrypted_example :
    (new_key : MasterKey) × AllReencrypted toy key new_key
      (ascii "new")
      1
      filled.tables
      rekeyed.tables
unfolding initialize initialize_with_params verify get_meta meta_value get_required required_u32
    le_to_u32 validate_kdf_params derive_key set_key_meta set_meta with_meta transaction mark
    generate_salt encrypt decrypt drop_prefix random on_draws query execute access from_le_bytes
    le_bytes verifier_aad aad_bytes rekey rekey_with_params current_key reencrypt_all rekey_rows
    rekey_row update_ciphertext replace_ciphertext order_by_id insert_by_id join_projects join_row
    find ◌=ᵇ◌ ◌>>=◌
rekey-AllReencrypted_example =
    rekey-AllReencrypted toy (ascii "pw") (ascii "pw") (ascii "new") key 1 filled rekeyed
      toy-AeadCorrect toy-AeadAuthentic
      (initialize-KeyMeta toy (ascii "pw") key keyless filled refl) (refl, tt) refl

-- The same world, in which the eighth access from here fails.
abbrev failing : World
failing = record filled { faults = replicate 7 false ++ true ∷ [] }

rekey-rollback_example : (rekey toy (ascii "pw") (ascii "new") failing).1.tables ≡ failing.tables
unfolding initialize initialize_with_params verify get_meta meta_value get_required required_u32
    le_to_u32 validate_kdf_params derive_key set_key_meta set_meta with_meta transaction mark
    generate_salt encrypt decrypt drop_prefix random on_draws query execute access from_le_bytes
    le_bytes verifier_aad aad_bytes rekey rekey_with_params current_key reencrypt_all rekey_rows
    rekey_row update_ciphertext replace_ciphertext order_by_id insert_by_id join_projects join_row
    find ◌=ᵇ◌ ◌>>=◌
rekey-rollback_example = rekey-rollback toy (ascii "pw") (ascii "new") failing refl

abbrev interrupted : World
interrupted = record blank { faults = replicate 4 false ++ true ∷ [] }

init_or_verify-rollback_example :
    (init_or_verify toy (ascii "pw") interrupted).1.tables ≡ interrupted.tables
unfolding initialize initialize_with_params init_or_verify get_meta meta_value derive_key
    set_key_meta set_meta with_meta transaction mark generate_salt encrypt random on_draws query
    execute access ◌=ᵇ◌ ◌>>=◌
init_or_verify-rollback_example = init_or_verify-rollback toy (ascii "pw") interrupted refl
