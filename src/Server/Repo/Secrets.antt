-- ===== src/Server/Repo/Secrets.antt =====
-- The secrets table, crates/secrets-server/src/repo.rs.
use secrets_manager.Prelude.{
  ℕ, ◌+◌, Bool, not, ◌&&◌, Option, none, some, List, [], ◌∷◌, ◌++◌, map, ◌==◌, ltb, if◌then◌else◌,
  keep, any, count_if, Bytes, ◌=ᵇ◌,
}
use mathlib.Core.Option
use secrets_manager.Exec.{lift, ok_or, ◌>>=◌, ◌>>◌}
use secrets_manager.Crates.{Crates}
use secrets_manager.Server.State.{
  ProjectRow, StoredSecret, sqlite, Sql, query, execute, now_rfc3339,
}
use secrets_manager.Server.Repo.Select.{order_by, find}

pub record SecretRow : Type 0 where
  pub key : Bytes
  pub nonce : Bytes
  pub ciphertext : Bytes

abbrev pub secret_of_row : StoredSecret → SecretRow
secret_of_row row = record { key = row.key; nonce = row.nonce; ciphertext = row.ciphertext }

abbrev pub of_project : ℕ → StoredSecret → Bool
of_project project_id row = row.project_id == project_id

-- `project_id = ?1 AND key = ?2`
abbrev pub at_key : ℕ → Bytes → StoredSecret → Bool
at_key project_id key row = row.project_id == project_id && row.key =ᵇ key

-- ON CONFLICT(project_id, key) DO UPDATE
unfoldable pub update_secret :
    ℕ → Bytes → Bytes → Bytes → Bytes → List StoredSecret → List StoredSecret
update_secret project_id key nonce ciphertext now [] = []
update_secret project_id key nonce ciphertext now (row ∷ rows) =
    (if at_key project_id key row
      then record row {
        nonce = nonce;
        ciphertext = ciphertext;
        version = row.version + 1;
        updated_at = now;
      }
      else row)
    ∷ update_secret project_id key nonce ciphertext now rows

-- INSERT .. ON CONFLICT DO UPDATE: an insert wants the project to exist (the foreign key).
module _ (lib : Crates) where
  unfoldable pub inserted : ℕ → Bytes → Bytes → Bytes → Bytes → List StoredSecret → StoredSecret
  inserted project_id key nonce ciphertext now rows = record {
    id = lib.fresh_rowid (map (λ r. r.id) rows);
    project_id = project_id;
    key = key;
    nonce = nonce;
    ciphertext = ciphertext;
    version = 1;
    updated_at = now;
  }

  unfoldable pub upserted :
      ℕ
      → Bytes
      → Bytes
      → Bytes
      → Bytes
      → List ProjectRow
      → List StoredSecret
      → Option (List StoredSecret)
  unfolding update_secret inserted
  upserted project_id key nonce ciphertext now projects rows =
      if any (at_key project_id key) rows
      then some (update_secret project_id key nonce ciphertext now rows)
      else if any (λ p. p.id == project_id) projects
      then some (rows ++ inserted project_id key nonce ciphertext now rows ∷ [])
      else none

  unfoldable pub upsert_secret : ℕ → Bytes → Bytes → Bytes → Sql ℕ
  unfolding execute query now_rfc3339 upserted find
  upsert_secret project_id key nonce ciphertext = do
    now ← now_rfc3339 lib
    execute λ t.
        Option.map (λ rows. (tt, record t { secrets = rows }))
          (upserted project_id key nonce ciphertext now t.projects t.secrets)
    found ← query (λ t. find (at_key project_id key) t.secrets)
    lift (ok_or (Option.map (λ row. row.version) found) sqlite)

unfoldable pub list_secret_rows : ℕ → Sql (List SecretRow)
unfolding query order_by
list_secret_rows project_id =
    query (λ t. order_by (λ r. r.key) (map secret_of_row (keep (of_project project_id) t.secrets)))

-- True if a row was removed.
unfoldable pub delete_secret : ℕ → Bytes → Sql Bool
unfolding execute
delete_secret project_id key = execute λ t. some (
  ltb 0 (count_if (at_key project_id key) t.secrets),
  record t { secrets = keep (λ r. not (at_key project_id key r)) t.secrets },
)
