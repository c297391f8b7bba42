-- ===== src/Examples/Schema.antt =====
-- Runs of crates/secrets-server/src/db.rs on a database that is older than the expiry of tokens.
use secrets_manager.Prelude.{any, ◌≡◌, refl, true, some, [], ◌∷◌, ascii, ◌=ᵇ◌, all}
use secrets_manager.Exec.{ok, ◌>>=◌}
use secrets_manager.Server.Schema.{
  Table, Connection, table, attempt, statement, create_if_missing, has_column, with_null,
  with_column, replace_table, add_column, columns_of, column_exists, schema_tables, create_tables,
  add_expires_at, migrate,
}
use secrets_manager.Server.Schema.Statements.{is_there}
use secrets_manager.Server.Schema.Altered.{tokens, is_expiry, migrated}
use secrets_manager.Server.Schema.Migration.{migrate-migrated, migrate-migrate}

-- Tokens with a name alone, of which there is one.
abbrev old_tokens : Table
old_tokens = record {
  columns = record { name = ascii "name"; declared = ascii "TEXT" } ∷ [];
  constraints = [];
  rows = (some (ascii "ci") ∷ []) ∷ [];
}

abbrev old : Connection
old = record { schema = (tokens, old_tokens) ∷ []; faults = [] }

abbrev new : Connection
new = (migrate old).1

migrate-migrated_example :
    (table tokens new.schema ≡ some (migrated tokens old_tokens))
    × (all (is_there new.schema) schema_tables ≡ true)
    × (any is_expiry (columns_of (table tokens new.schema)) ≡ true)
unfolding migrate create_tables column_exists add_expires_at statement attempt create_if_missing
    add_column has_column with_column with_null replace_table table ◌=ᵇ◌ ◌>>=◌
migrate-migrated_example = migrate-migrated tokens old_tokens old new refl refl

migrate-migrate_example : migrate new ≡ (ok tt, new)
unfolding migrate create_tables column_exists add_expires_at statement attempt create_if_missing
    add_column has_column with_column with_null replace_table table ◌=ᵇ◌ ◌>>=◌
migrate-migrate_example = migrate-migrate old new new refl refl refl
