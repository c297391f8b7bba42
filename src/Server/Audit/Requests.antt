-- ===== src/Server/Audit/Requests.antt =====
-- Whole requests under the middleware of crates/secrets-server/src/audit.rs.
use secrets_manager.Prelude.{ℕ, suc, ◌≡◌, refl, ◌∙◌, true, false, Option, none, some, ◌==◌, Bytes}
use secrets_manager.Exec.{ok, panic, Exec, ◌>>=◌, >>=-of_ok}
use secrets_manager.Crates.{Crates}
use secrets_manager.Server.State.{World, now_utc}
use secrets_manager.Server.Error.{AppError}
use secrets_manager.Server.Auth.{ensure_admin, resolve_token_name, from_request_parts}
use secrets_manager.Server.Names.{valid_project}
use secrets_manager.Server.Audit.{Request, audit_middleware, respond, response}
use secrets_manager.Server.Handlers.Admin.{valid_scope, expiry, create_token}

audit_middleware-panic :
    (lib : Crates) (request : Request) (next : Exec World AppError ℕ) (name : Option Bytes)
    (w w1 w2 : World)
    → resolve_token_name lib {E = AppError} request.header w ≡ (ok name, w1)
    → next w1 ≡ (panic, w2)
    → audit_middleware lib request next w ≡ (panic, w2)
unfolding audit_middleware ◌>>=◌
audit_middleware-panic lib request next name w w1 w2 resolved handled = rw (resolved, handled) refl

respond-panic :
    {A : Type 0} (status : A → ℕ) (handler : Exec World AppError A) (w w' : World)
    → handler w ≡ (panic, w')
    → respond {E = AppError} status handler w ≡ (panic, w')
unfolding respond
respond-panic status handler w w' e = λ i. (response status (e i).0, (e i).1)

create_token-out_of_range :
    (lib : Crates) (admin name : Bytes) (project : Option Bytes) (days : ℕ) (w : World)
    → valid_project name ≡ true
    → valid_scope project ≡ true
    → (days == 0) ≡ false
    → lib.add_days (lib.now_utc w.ticks) days ≡ none
    → create_token lib
        (record { name = admin; scope = none })
        (ok (record { name = name; project = project; ttl_days = some days; no_expiry = false }))
        w
      ≡ (panic, record w { ticks = suc w.ticks })
unfolding create_token expiry ensure_admin now_utc ◌>>=◌
create_token-out_of_range lib admin name project days w named scoped some_days out =
    simp (named, scoped, some_days, out)

-- A request that authenticates as an administrator and asks for a token whose lifetime ends after the
-- last instant of the clock (its body being valid) makes the addition panic: it gets no answer, no
-- token is stored and the log has no entry for it.
pub create_token-panic :
    (lib : Crates) (request : Request) (admin name : Bytes) (project found : Option Bytes)
    (days : ℕ) (w w1 w2 : World)
    → resolve_token_name lib {E = AppError} request.header w ≡ (ok found, w1)
    → from_request_parts lib request.header w1 ≡ (ok (record { name = admin; scope = none }), w2)
    → valid_project name ≡ true
    → valid_scope project ≡ true
    → (days == 0) ≡ false
    → lib.add_days (lib.now_utc w2.ticks) days ≡ none
    → audit_middleware lib {E = AppError} request
        (respond
          (λ _. 201)
          (from_request_parts lib request.header >>= λ token. create_token lib token (
            ok (record {
              name = name;
              project = project;
              ttl_days = some days;
              no_expiry = false;
            }))))
        w
      ≡ (panic, record w2 { ticks = suc w2.ticks })
create_token-panic lib request admin name project found days w w1 w2 resolved known named scoped
      some_days out =
    audit_middleware-panic lib request _ found w w1 _ resolved (
      respond-panic _ _ w1 _ (
        >>=-of_ok (from_request_parts lib request.header) _ w1 w2 known
        ∙ create_token-out_of_range lib admin name project days w2 named scoped some_days out))
