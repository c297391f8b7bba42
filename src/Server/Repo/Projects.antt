-- ===== src/Server/Repo/Projects.antt =====
-- The projects table, crates/secrets-server/src/repo.rs.
use secrets_manager.Prelude.{
  ℕ, Bool, Option, none, some, List, [], ◌∷◌, ◌++◌, map, if◌then◌else◌, any, Bytes, ◌=ᵇ◌,
}
use mathlib.Core.Option
use secrets_manager.Exec.{◌>>=◌}
use secrets_manager.Crates.{Crates}
use secrets_manager.Server.State.{ProjectRow, Sql, query, execute, now_rfc3339}
use secrets_manager.Server.Repo.Select.{order_by, find}

pub record Project : Type 0 where
  pub name : Bytes
  pub created_at : Bytes

abbrev pub named : Bytes → ProjectRow → Bool
named name row = row.name =ᵇ name

abbrev pub project_of_row : ProjectRow → Project
project_of_row row = record { name = row.name; created_at = row.created_at }

module _ (lib : Crates) where
  unfoldable pub create_project : Bytes → Sql (Unit {0})
  unfolding execute now_rfc3339
  create_project name = do
    created_at ← now_rfc3339 lib
    execute λ t.
        if any (named name) t.projects
        then none
        else some (
          tt,
          record t {
            projects =
                t.projects
                ++ record {
                  id = lib.fresh_rowid (map (λ p. p.id) t.projects);
                  name = name;
                  created_at = created_at;
                }
                  ∷ [];
          },
        )

unfoldable pub list_projects : Sql (List Project)
unfolding query order_by
list_projects = query (λ t. map project_of_row (order_by (λ p. p.name) t.projects))

unfoldable pub project_id : Bytes → Sql (Option ℕ)
unfolding query find
project_id name = query (λ t. Option.map (λ p. p.id) (find (named name) t.projects))
