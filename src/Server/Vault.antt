-- ===== src/Server/Vault.antt =====
-- What the secrets of crates/secrets-server/src/handlers.rs are to those who ask for them: a map from
-- project and key to value, without rows, ids, nonces or ciphertexts.
pub mod Replay
use mathlib.Core.Option
use secrets_manager.Prelude.{
  ℕ, ◌≡◌, Bool, true, ◌&&◌, Option, none, some, List, [], ◌∷◌, if◌then◌else◌, Bytes, ◌=ᵇ◌, BTreeMap,
  is_utf8,
}
use secrets_manager.Exec.{ok}
use secrets_manager.Crates.{Crates}
use secrets_manager.Crypto.{MasterKey}
use secrets_manager.Server.State.{World, Tables}
use secrets_manager.Server.Repo.{AuthedToken, find, named}
use secrets_manager.Server.Handlers.Secrets.{get_secrets, put_secret, delete_secret_handler}
use secrets_manager.Server.Handlers.Reading.{stored_value}

abbrev pub Vault : Type 0
Vault = Bytes → Bytes → Option Bytes

pub data Change : Type 0 where
  put : Bytes → Bytes → Bytes → Change
  delete : Bytes → Bytes → Change

unfoldable pub change : Change → Vault → Vault
change (put name key value) v n k = if name =ᵇ n && key =ᵇ k then some value else v n k
change (delete name key) v n k = if name =ᵇ n && key =ᵇ k then none else v n k

-- The changes, the last one first.
unfoldable pub replay : List Change → Vault → Vault
unfolding change
replay [] v = v
replay (c ∷ changes) v = change c (replay changes v)

module _ (lib : Crates) (state_key : MasterKey) where
  abbrev pub in_project : Tables → Bytes → Bytes → Option ℕ → Option Bytes
  in_project t name k none = none
  in_project t name k (some pid) = stored_value lib state_key name pid k t.secrets

  -- The map that the tables stand for.
  unfoldable pub vault : Tables → Vault
  unfolding find
  vault t name k = in_project t name k (Option.map (λ p. p.id) (find (named name) t.projects))

  -- Requests of any tokens that end well, with the changes that they make.
  pub data Handled : World → World → List Change → Type 0 where
    begins : (w : World) → Handled w w []
    put_handled :
        {w w' w'' : World} {changes : List Change} (token : AuthedToken) (name key value k : Bytes)
        (version : ℕ)
        → Handled w w' changes
        → is_utf8 value ≡ true
        → put_secret lib state_key token name key (ok value) w' ≡ (ok (k, version), w'')
        → Handled w w'' (put name key value ∷ changes)
    delete_handled :
        {w w' w'' : World} {changes : List Change} (token : AuthedToken) (name key : Bytes)
        (status : ℕ)
        → Handled w w' changes
        → delete_secret_handler token name key w' ≡ (ok status, w'')
        → Handled w w'' (delete name key ∷ changes)
    get_handled :
        {w w' w'' : World} {changes : List Change} (token : AuthedToken) (name : Bytes)
        (m : BTreeMap Bytes)
        → Handled w w' changes
        → get_secrets lib state_key token name w' ≡ (ok m, w'')
        → Handled w w'' changes
