-- ===== src/Server/Auth/Scopes.antt =====
-- What a scoped token cannot do: the checks `ensure_scope` and `ensure_admin` of
-- crates/secrets-server/src/auth.rs in the handlers.
use secrets_manager.Prelude.{
  ◌≡◌, refl, true, false, some, arith, if◌then◌else◌, Bytes, ◌=ᵇ◌, =ᵇ_iff, Bool-cases, inl, inr,
}
use secrets_manager.Exec.{ok, err, ◌>>=◌}
use secrets_manager.Crates.{Crates}
use secrets_manager.Crypto.{MasterKey}
use secrets_manager.Server.State.{World}
use secrets_manager.Server.Repo.{AuthedToken}
use secrets_manager.Server.Error.{forbidden}
use secrets_manager.Server.Auth.{ensure_scope, ensure_admin}
use secrets_manager.Server.Names.{valid_project, valid_key}
use secrets_manager.Server.Handlers.Secrets.{
  Body, invalid_key, get_secrets, put_secret, delete_secret_handler,
}
use secrets_manager.Server.Handlers.Admin.{
  CreateTokenBody, create_token, list_tokens_handler, revoke_token_handler,
}

-- A token with a scope that asks to create, list or revoke tokens is refused (403) and nothing
-- changes, whatever it sends: no row, no draw, no clock reading, no lock.
pub scoped-forbidden :
    (lib : Crates) (token : AuthedToken) (s name : Bytes) (body : Body CreateTokenBody) (w : World)
    → token.scope ≡ some s
    → (create_token lib token body w ≡ (err forbidden, w))
      × (list_tokens_handler token w ≡ (err forbidden, w))
      × (revoke_token_handler token name w ≡ (err forbidden, w))
unfolding create_token list_tokens_handler revoke_token_handler ensure_admin ◌>>=◌
scoped-forbidden lib token s name body w scoped = (rw scoped refl, rw scoped refl, rw scoped refl)

-- A token with a scope that reads, puts or deletes a secret of another project (whose name is valid)
-- is refused and nothing changes, whether or not that project exists: 403, or 400 for a delete of an
-- invalid key.
pub scoped-confined :
    (lib : Crates) (state_key : MasterKey) (token : AuthedToken) (s name key value : Bytes)
    (w : World)
    → token.scope ≡ some s
    → ¬ (s ≡ name)
    → valid_project name ≡ true
    → (get_secrets lib state_key token name w ≡ (err forbidden, w))
      × (put_secret lib state_key token name key (ok value) w ≡ (err forbidden, w))
      × (delete_secret_handler token name key w
          ≡ (if valid_key key then err forbidden else err invalid_key, w))
unfolding get_secrets put_secret delete_secret_handler ensure_scope ◌>>=◌
scoped-confined lib state_key token s name key value w scoped other valid =
    let no : (s =ᵇ name) ≡ false = ground (arith, =ᵇ_iff s name) in
    (
      rw (valid, scoped, no) refl,
      rw (valid, scoped, no) refl,
      elim (Bool-cases (valid_key key)) [
        | inl named ↦ rw (valid, named, scoped, no) refl
        | inr unnamed ↦ rw (valid, unnamed) refl
      ],
    )
