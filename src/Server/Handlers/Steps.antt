-- ===== src/Server/Handlers/Steps.antt =====
-- What the common steps of the handlers have established when a request ends well.
use mathlib.Core.Option
use secrets_manager.Prelude.{
  ℕ, ◌≡◌, refl, sym, ap, ◌∙◌, Bool, true, false, none, some, ◌⊎◌, inl, inr, if◌then◌else◌,
  Bool-cases, Option-cases, Bytes, ◌=ᵇ◌, =ᵇ_iff,
}
use secrets_manager.Exec.{Outcome, ok, err, panic, Exec, ◌>>=◌, >>=-elim}
use secrets_manager.Server.State.{World}
use secrets_manager.Server.State.Endings.{map_err-eq-ok, lift-eq-ok, ok_or-eq-ok}
use secrets_manager.Server.Repo.{AuthedToken, project_id, find, named}
use secrets_manager.Server.Tables.Meta.{query-eq-ok}
use secrets_manager.Server.Error.{AppError, not_found}
use secrets_manager.Server.Auth.{ensure_scope, with_db, released}
use secrets_manager.Server.Handlers.Secrets.{require_project, sql}

-- A token may touch a project: it has no scope, or the project is its scope.
abbrev pub InScope : AuthedToken → Bytes → Type 0
InScope token project = (token.scope ≡ none) ⊎ (token.scope ≡ some project)

module _ {A : Type 0} where
  pub ensure_scope-elim :
      (token : AuthedToken) (name : Bytes) (f : Unit {0} → Exec World AppError A) (w w' : World)
      {a : A} {C : Type 0}
      → (ensure_scope token name >>= f) w ≡ (ok a, w')
      → (InScope token name → f tt w ≡ (ok a, w') → C)
      → C
  unfolding ensure_scope ◌>>=◌
  ensure_scope-elim token name f w w' e k = elim (Option-cases token.scope) [
    | inl unscoped ↦ k (inl unscoped) (rw unscoped at e)
    | inr (s, scoped) ↦ elim (Bool-cases (s =ᵇ name)) [
      | inl own ↦ k (inr (scoped ∙ ap some ((=ᵇ_iff s name).0 own))) (rw (scoped, own) at e)
      | inr other ↦ cc (ap (λ p. p.0) (rw (scoped, other) at e))
    ]
  ]

module _ {E A : Type 0} where
  released-eq-ok :
      (r : Outcome E A × World) (w' : World) {a : A} → released r ≡ (ok a, w') → r ≡ (ok a, w')
  released-eq-ok (ok a, w) w' h = h
  released-eq-ok (err e, w) w' h = cc (ap (λ p. p.0) h)
  released-eq-ok (panic, w) w' h = cc (ap (λ p. p.0) h)

  locked-eq-ok :
      (b : Bool) (e : E) (r : Outcome E A × World) (w w' : World) {a : A}
      → (if b then (err e, w) else released r) ≡ (ok a, w')
      → (b ≡ false) × (r ≡ (ok a, w'))
  locked-eq-ok true e r w w' h = cc (ap (λ p. p.0) h)
  locked-eq-ok false e r w w' h = (refl, released-eq-ok r w' h)

  -- The mutex was not poisoned, and the work under it ended well.
  pub with_db-eq-ok :
      (e : E) (body : Exec World E A) (w w' : World) {a : A}
      → with_db e body w ≡ (ok a, w')
      → (w.poisoned ≡ false) × (body w ≡ (ok a, w'))
  unfolding with_db
  with_db-eq-ok e body w w' h = locked-eq-ok w.poisoned e (body w) w w' h

-- The project was there, under the id that the step returns.
pub require_project-eq-ok :
    (name : Bytes) (w w' : World) {pid : ℕ}
    → require_project name w ≡ (ok pid, w')
    → (Option.map (λ p. p.id) (find (named name) w.tables.projects) ≡ some pid)
      × (w'.tables ≡ w.tables)
unfolding require_project project_id
require_project-eq-ok name w w' e = >>=-elim (sql (project_id name)) _ w w' e λ found w1 e1 r1.
    let (selected, stay) =
      query-eq-ok (λ t. Option.map (λ p. p.id) (find (named name) t.projects)) w w1
        (map_err-eq-ok _ (project_id name) w w1 e1) in
    let (found_pid, same) = lift-eq-ok _ w1 w' r1 in
    (sym selected ∙ ok_or-eq-ok found not_found found_pid, ap (λ x. x.tables) (sym same) ∙ stay)
