-- ===== src/Server/Handlers/Constraints.antt =====
-- The UNIQUE constraints of crates/secrets-server/src/db.rs over the statements of repo.rs.
use secrets_manager.Prelude.{
  ℕ, ◌≡◌, refl, Bool, false, not, Option, none, some, List, [], ◌∷◌, ◌++◌, map, arith,
  if◌then◌else◌, any, any-append_one, Distinct, Bytes, =ᵇ_iff, Bool-cases, Option-cases, inl, inr,
}
use secrets_manager.Crates.{Crates}
use secrets_manager.Server.State.{ProjectRow, Tables}
use secrets_manager.Server.State.Moves.{
  Preorder, Moves, Written, moves_rules, Moves-bind, Moves-execute, now_rfc3339-Moves,
}
use secrets_manager.Server.Repo.{
  named, at_key, upserted, create_project, upsert_secret, delete_secret, insert_token, revoke_token,
}
use secrets_manager.Server.Handlers.Walks.{Statements}
use secrets_manager.Server.Tables.Secrets.{same_key}
use secrets_manager.Server.Tables.Writes.{Distinct-upserted, Distinct-keep}
use secrets_manager.Server.Auth.Revocation.{revocation}
use secrets_manager.Server.Auth.Issuance.{insertion}
use secrets_manager.Server.Handlers.Writing.{written}
use secrets_manager.Server.Handlers.Deleting.{deletion}

-- UNIQUE(name)
abbrev pub same_name : ProjectRow → ProjectRow → Bool
same_name p q = named p.name q

-- The constraints of `projects` and `secrets`.
pub record Unique (t : Tables) : Type 0 where
  pub projects : Distinct same_name t.projects
  pub secrets : Distinct same_key t.secrets

abbrev pub Keeps : Tables → Tables → Type 0
Keeps t u = Unique t → Unique u

pub Keeps-Preorder : Preorder Keeps
Keeps-Preorder = record { same = λ t u. u; then_to = λ f g u. g (f u) }

pub Distinct-append_project :
    (rows : List ProjectRow) (r : ProjectRow)
    → any (named r.name) rows ≡ false
    → Distinct same_name rows
    → Distinct same_name (rows ++ r ∷ [])
Distinct-append_project [] r h d = (refl, tt)
Distinct-append_project (x ∷ rows) r h d = ground (
  arith,
  any-append_one (same_name x) rows r,
  Distinct-append_project rows r,
  =ᵇ_iff r.name x.name,
  =ᵇ_iff x.name r.name,
)

abbrev pub registration : Crates → Bytes → Bytes → Tables → Option (Unit {0} × Tables)
registration lib name now t =
    if any (named name) t.projects
    then none
    else some (
      tt,
      record t {
        projects =
            t.projects
            ++ record {
              id = lib.fresh_rowid (map (λ p. p.id) t.projects);
              name = name;
              created_at = now;
            }
              ∷ [];
      },
    )

registration-Keeps :
    (lib : Crates) (name now : Bytes) (t : Tables) → Written Keeps t (registration lib name now t)
registration-Keeps lib name now t = elim (Bool-cases (any (named name) t.projects)) [
  | inl taken ↦ rw taken tt
  | inr free ↦ rw free λ u. record {
    projects = Distinct-append_project t.projects _ free u.projects;
    secrets = u.secrets;
  }
]

create_project-Keeps : (lib : Crates) (name : Bytes) → Moves Keeps (create_project lib name)
unfolding create_project
create_project-Keeps lib name =
    Moves-bind Keeps-Preorder _ _ (now_rfc3339-Moves Keeps-Preorder lib) λ now.
      Moves-execute Keeps-Preorder (registration lib name now) (registration-Keeps lib name now)

written-Keeps :
    (lib : Crates) (pid : ℕ) (key nonce ct now : Bytes) (t : Tables)
    → Written Keeps t (written lib pid key nonce ct now t)
written-Keeps lib pid key nonce ct now t =
    elim (Option-cases (upserted lib pid key nonce ct now t.projects t.secrets)) [
      | inl failed ↦ rw failed tt
      | inr (rows, up) ↦ rw up λ u. record {
        projects = u.projects;
        secrets = Distinct-upserted lib pid key nonce ct now t.projects t.secrets rows up u.secrets;
      }
    ]

pub upsert_secret-Keeps :
    (lib : Crates) (pid : ℕ) (key nonce ct : Bytes)
    → Moves Keeps (upsert_secret lib pid key nonce ct)
unfolding upsert_secret
upsert_secret-Keeps lib pid key nonce ct =
    Moves-bind Keeps-Preorder _ _ (now_rfc3339-Moves Keeps-Preorder lib) λ now.
      Moves-bind Keeps-Preorder _ _
        (Moves-execute Keeps-Preorder (written lib pid key nonce ct now)
          (written-Keeps lib pid key nonce ct now))
        λ _. search (moves_rules, Keeps-Preorder) depth 12

delete_secret-Keeps : (pid : ℕ) (key : Bytes) → Moves Keeps (delete_secret pid key)
unfolding delete_secret
delete_secret-Keeps pid key = Moves-execute Keeps-Preorder (deletion pid key) λ t u. record {
  projects = u.projects;
  secrets = Distinct-keep same_key (λ r. not (at_key pid key r)) t.secrets u.secrets;
}

insert_token-Keeps :
    (lib : Crates) (name hash : Bytes) (scope expires_at : Option Bytes)
    → Moves Keeps (insert_token lib name hash scope expires_at)
unfolding insert_token
insert_token-Keeps lib name hash scope expires_at =
    Moves-bind Keeps-Preorder _ _ (now_rfc3339-Moves Keeps-Preorder lib) λ now.
      Moves-execute Keeps-Preorder (insertion lib name hash scope expires_at now)
        λ t u. record { projects = u.projects; secrets = u.secrets }

revoke_token-Keeps : (name : Bytes) → Moves Keeps (revoke_token name)
unfolding revoke_token
revoke_token-Keeps name =
    Moves-execute Keeps-Preorder (revocation name)
      λ t u. record { projects = u.projects; secrets = u.secrets }

pub Keeps-Statements : (lib : Crates) → Statements lib Keeps
Keeps-Statements lib = record {
  create_project = create_project-Keeps lib;
  delete_secret = delete_secret-Keeps;
  insert_token = insert_token-Keeps lib;
  revoke_token = revoke_token-Keeps;
}
