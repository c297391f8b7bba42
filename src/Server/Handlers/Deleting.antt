-- ===== src/Server/Handlers/Deleting.antt =====
-- What `delete_secret` of crates/secrets-server/src/handlers.rs has done when it ends well.
use mathlib.Core.Option
use secrets_manager.Prelude.{
  ℕ, ◌≡◌, refl, sym, subst, ap, ◌∙◌, Bool, true, false, not, ◌&&◌, Option, none, some, List, ◌==◌,
  ltb, count_if, if◌then◌else◌, any, keep, Distinct, Bytes, ◌=ᵇ◌,
}
use secrets_manager.Exec.{ok, pure, fail, >>=-elim}
use secrets_manager.Server.State.{Tables, World, StoredSecret}
use secrets_manager.Server.State.Endings.{map_err-eq-ok, refuse_if->>=-eq-ok}
use secrets_manager.Server.Repo.{AuthedToken, find, named, at_key, delete_secret}
use secrets_manager.Server.Tables.Meta.{execute-eq-ok}
use secrets_manager.Server.Tables.Secrets.{same_key}
use secrets_manager.Server.Tables.Writes.{held, held-delete, Distinct-keep, count_if-pos}
use secrets_manager.Server.Error.{not_found}
use secrets_manager.Server.Handlers.Secrets.{sql, db_lock, require_project, delete_secret_handler}
use secrets_manager.Server.Handlers.Steps.{
  InScope, ensure_scope-elim, with_db-eq-ok, require_project-eq-ok,
}
use secrets_manager.Server.Handlers.Writing.{with_secrets}

-- What a successful DELETE has done to the tables: the key was there.
pub record Deletes (name key : Bytes) (token : AuthedToken) (w w' : World) : Type 0 where
  pub pid : ℕ
  pub project : Option.map (λ p. p.id) (find (named name) w.tables.projects) ≡ some pid
  pub allowed : InScope token name
  pub was_there : any (at_key pid key) w.tables.secrets ≡ true
  pub secrets :
      (q : ℕ) (j : Bytes)
      → held q j w'.tables.secrets
        ≡ (if pid == q && key =ᵇ j then none else held q j w.tables.secrets)
  pub distinct : Distinct same_key w.tables.secrets → Distinct same_key w'.tables.secrets
  pub others : w'.tables ≡ with_secrets w'.tables.secrets w.tables

abbrev kept : ℕ → Bytes → List StoredSecret → List StoredSecret
kept pid key rows = keep (λ r. not (at_key pid key r)) rows

abbrev pub deletion : ℕ → Bytes → Tables → Option (Bool × Tables)
deletion pid key t =
    some (ltb 0 (count_if (at_key pid key) t.secrets), with_secrets (kept pid key t.secrets) t)

deletion-inj :
    (pid : ℕ) (key : Bytes) (t : Tables) {removed : Bool} {u : Tables}
    → deletion pid key t ≡ some (removed, u)
    → (ltb 0 (count_if (at_key pid key) t.secrets) ≡ removed)
      × (u ≡ with_secrets (kept pid key t.secrets) t)
deletion-inj pid key t e = (cc e, cc e)

if-eq-ok :
    (b : Bool) (w w' : World) {status : ℕ}
    → (if b then pure 204 else fail not_found) w ≡ (ok status, w')
    → (b ≡ true) × (status ≡ 204) × (w ≡ w')
unfolding pure fail
if-eq-ok true w w' h = (refl, cc (ap (λ p. p.0) h), ap (λ p. p.1) h)
if-eq-ok false w w' h = cc (ap (λ p. p.0) h)

pub delete_secret-Deletes :
    (name key : Bytes) (token : AuthedToken) (status : ℕ) (w w' : World)
    → delete_secret_handler token name key w ≡ (ok status, w')
    → (status ≡ 204) × Deletes name key token w w'
unfolding delete_secret_handler delete_secret
delete_secret-Deletes name key token status w w' e =
    let (_, e1) = refuse_if->>=-eq-ok _ _ _ w w' e in
    let (_, e2) = refuse_if->>=-eq-ok _ _ _ w w' e1 in
    ensure_scope-elim token name _ w w' e2 λ allowed e3.
      let (_, e4) = with_db-eq-ok db_lock _ w w' e3 in
      >>=-elim (require_project name) _ w w' e4 λ pid w1 e5 r5.
        >>=-elim (sql (delete_secret pid key)) _ w1 w' r5 λ removed w2 e6 r6.
          let (found, stay1) = require_project-eq-ok name w w1 e5 in
          let ran : deletion pid key w1.tables ≡ some (removed, w2.tables) =
            execute-eq-ok (deletion pid key) w1 w2
              (map_err-eq-ok _ (delete_secret pid key) w1 w2 e6) in
          let (hit, answered, stay2) = if-eq-ok removed w2 w' r6 in
          let (counted, left) = deletion-inj pid key w1.tables ran in
          let after : w'.tables ≡ with_secrets (kept pid key w.tables.secrets) w.tables =
            ap (λ x. x.tables) (sym stay2)
            ∙ (left ∙ ap (λ t. with_secrets (kept pid key t.secrets) t) stay1) in
          (
            answered,
            record {
              pid = pid;
              project = found;
              allowed = allowed;
              was_there =
                  ap (λ t. any (at_key pid key) t.secrets) (sym stay1)
                  ∙ (sym (count_if-pos (at_key pid key) w1.tables.secrets) ∙ (counted ∙ hit));
              secrets = λ q j.
                  ap (λ t. held q j t.secrets) after ∙ held-delete pid q key j w.tables.secrets;
              distinct = λ d.
                  subst (λ t. Distinct same_key t.secrets) (sym after)
                    (Distinct-keep same_key (λ r. not (at_key pid key r)) w.tables.secrets d);
              others = after ∙ ap (λ t. with_secrets t.secrets w.tables) (sym after);
            },
          )
