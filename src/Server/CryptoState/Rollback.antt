-- ===== src/Server/CryptoState/Rollback.antt =====
-- Initialisation and rekeying change the database whole or not at all.
use secrets_manager.Prelude.{◌≡◌, false, Option, none, some, Bytes}
use secrets_manager.Exec.{is_ok}
use secrets_manager.Crates.{Crates}
use secrets_manager.Crypto.{KdfParams, strong}
use secrets_manager.Server.State.{World}
use secrets_manager.Server.State.Moves.{
  Moves, moves_rules, Same, Same-Preorder, Atomic, Atomic-transaction, Atomic-reads, Atomic-bind,
  Atomic-bind-pure,
}
use secrets_manager.Server.Repo.{get_meta}
use secrets_manager.Server.CryptoState.{
  get_required, required_u32, verify, initialize_with_params, initialize, init_or_verify,
  current_key, rekey_with_params, rekey, sql, k_salt,
}

ruleset read_rules = (moves_rules, Same-Preorder)

get_meta-reads : (key : Bytes) → Moves Same (get_meta key)
unfolding get_meta
get_meta-reads key = search read_rules

get_required-reads : (key : Bytes) → Moves Same (get_required key)
unfolding get_required
get_required-reads key = search (read_rules, get_meta-reads)

required_u32-reads : (key : Bytes) → Moves Same (required_u32 key)
unfolding required_u32
required_u32-reads key = search (read_rules, get_required-reads)

ruleset meta_rules = (read_rules, get_meta-reads, get_required-reads, required_u32-reads)

module _ (lib : Crates) where
  pub verify-reads : (passphrase salt : Bytes) → Moves Same (verify lib passphrase salt)
  unfolding verify
  verify-reads passphrase salt = search meta_rules depth 20

  current_key-reads :
      (passphrase : Bytes) (salt : Option Bytes) → Moves Same (current_key lib passphrase salt)
  unfolding current_key
  current_key-reads passphrase none = search read_rules
  current_key-reads passphrase (some salt) = verify-reads passphrase salt

  initialize-Atomic :
      (passphrase : Bytes) (params : KdfParams)
      → Atomic (initialize_with_params lib passphrase params)
  unfolding initialize_with_params
  initialize-Atomic passphrase params =
      search (read_rules, Atomic-bind, Atomic-transaction, Atomic-bind-pure) depth 12

  rekey-Atomic :
      (current new : Bytes) (params : KdfParams) → Atomic (rekey_with_params lib current new params)
  unfolding rekey_with_params
  rekey-Atomic current new params =
      search (meta_rules, current_key-reads, Atomic-bind, Atomic-transaction) depth 12

  choose-Atomic :
      (passphrase : Bytes) (stored : Option Bytes)
      → Atomic (elim stored [
        | some salt ↦ verify lib passphrase salt
        | none ↦ initialize lib passphrase
      ])
  unfolding initialize
  choose-Atomic passphrase none = initialize-Atomic passphrase strong
  choose-Atomic passphrase (some salt) = Atomic-reads _ (verify-reads passphrase salt)

-- A start of the server that does not end well (a wrong passphrase, missing or invalid metadata, a
-- failing access, a panic of the random generator) leaves every table as it was.
pub init_or_verify-rollback :
    (lib : Crates) (passphrase : Bytes) (w : World)
    → is_ok (init_or_verify lib passphrase w).0 ≡ false
    → (init_or_verify lib passphrase w).1.tables ≡ w.tables
unfolding init_or_verify
init_or_verify-rollback lib passphrase =
    let whole : Atomic (init_or_verify lib passphrase) =
      Atomic-bind (sql (get_meta k_salt)) _ (search (read_rules, get_meta-reads))
        (choose-Atomic lib passphrase) in
    whole.at

-- A rekey that does not end well, at whatever row it stops and for whatever reason, leaves every
-- table as it was.
pub rekey-rollback :
    (lib : Crates) (current new : Bytes) (w : World)
    → is_ok (rekey lib current new w).0 ≡ false
    → (rekey lib current new w).1.tables ≡ w.tables
unfolding rekey
rekey-rollback lib current new = (rekey-Atomic lib current new strong).at
