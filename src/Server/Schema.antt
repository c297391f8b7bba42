-- ===== src/Server/Schema.antt =====
-- The schema of the database and its migration, crates/secrets-server/src/db.rs. A statement may
-- fail, as `faults` says; a batch is not a transaction. Names are in lower case.
pub mod Statements
pub mod Altered
pub mod Migration
use mathlib.Core.Option
use secrets_manager.Prelude.{
  Bool, true, false, ◌||◌, not, Option, none, some, List, [], ◌∷◌, ◌++◌, if◌then◌else◌, Bytes,
  ascii, ◌=ᵇ◌,
}
use secrets_manager.Exec.{Outcome, ok, err, panic, Exec, pure, ◌>>=◌, ◌>>◌}

-- `declared` is what a declaration says after the name: the type and the constraints.
pub record Column : Type 0 where
  pub name : Bytes
  pub declared : Bytes

-- A row has one value for each column; `none` is NULL. `constraints` are those of the whole table.
pub record Table : Type 0 where
  pub columns : List Column
  pub constraints : List Bytes
  pub rows : List (List (Option Bytes))

abbrev pub Schema : Type 0
Schema = List (Bytes × Table)

pub record Connection : Type 0 where
  pub schema : Schema
  pub faults : List Bool

pub data SchemaError : Type 0 where
  statement_failed no_such_table duplicate_column : SchemaError

unfoldable pub table : Bytes → Schema → Option Table
table name [] = none
table name ((n, t) ∷ schema) = let rest = table name schema in if n =ᵇ name then some t else rest

abbrev pub there : Option Table → Bool
there none = false
there (some t) = true

unfoldable pub attempt : Connection → Bool × Connection
attempt c = elim c.faults [ [] ↦ (false, c) | fault ∷ rest ↦ (fault, record c { faults = rest }) ]

-- What a statement does to the schema, unless it fails.
unfoldable pub statement :
    (Schema → Outcome SchemaError Schema) → Exec Connection SchemaError (Unit {0})
unfolding attempt
statement change c =
    let (fault, c') = attempt c in
    if fault then (err statement_failed, c') else elim (change c'.schema) [
      | ok schema ↦ (ok tt, record c' { schema = schema })
      | err e ↦ (err e, c')
      | panic ↦ (panic, c')
    ]

-- CREATE TABLE IF NOT EXISTS
unfoldable pub create_if_missing : Bytes → Table → Schema → Schema
unfolding table
create_if_missing name new schema =
    if there (table name schema) then schema else (name, new) ∷ schema

unfoldable pub has_column : Bytes → List Column → Bool
has_column column [] = false
has_column column (c ∷ columns) = let rest = has_column column columns in c.name =ᵇ column || rest

unfoldable pub with_null : List (List (Option Bytes)) → List (List (Option Bytes))
with_null [] = []
with_null (row ∷ rows) = (row ++ none ∷ []) ∷ with_null rows

unfoldable pub with_column : Column → Table → Table
unfolding with_null
with_column column t = record t { columns = t.columns ++ column ∷ []; rows = with_null t.rows }

unfoldable pub replace_table : Bytes → Table → Schema → Schema
replace_table name new [] = []
replace_table name new ((n, t) ∷ schema) =
    let rest = replace_table name new schema in if n =ᵇ name then (n, new) ∷ rest else (n, t) ∷ rest

-- ALTER TABLE .. ADD COLUMN
unfoldable pub add_column : Bytes → Column → Schema → Outcome SchemaError Schema
unfolding table has_column with_column replace_table
add_column name column schema = elim (table name schema) [
  | none ↦ err no_such_table
  | some t ↦
      if has_column column.name t.columns
      then err duplicate_column
      else ok (replace_table name (with_column column t) schema)
]

-- The columns of a table that there is; none of one that there is not.
abbrev pub columns_of : Option Table → List Column
columns_of none = []
columns_of (some t) = t.columns

unfoldable pub column_exists : Bytes → Bytes → Exec Connection SchemaError Bool
unfolding attempt table has_column
column_exists name column c =
    let (fault, c') = attempt c in
    if fault
    then (err statement_failed, c')
    else (ok (has_column column (columns_of (table name c'.schema))), c')

abbrev column : Bytes → Bytes → Column
column name declared = record { name = name; declared = declared }

abbrev meta_table : Table
meta_table = record {
  columns =
      column (ascii "key") (ascii "TEXT PRIMARY KEY")
      ∷ column (ascii "value") (ascii "BLOB NOT NULL")
      ∷ [];
  constraints = [];
  rows = [];
}

abbrev projects_table : Table
projects_table = record {
  columns =
      column (ascii "id") (ascii "INTEGER PRIMARY KEY")
      ∷ column (ascii "name") (ascii "TEXT UNIQUE NOT NULL")
      ∷ column (ascii "created_at") (ascii "TEXT NOT NULL")
      ∷ [];
  constraints = [];
  rows = [];
}

abbrev secrets_table : Table
secrets_table = record {
  columns =
      column (ascii "id") (ascii "INTEGER PRIMARY KEY")
      ∷ column (ascii "project_id")
          (ascii "INTEGER NOT NULL REFERENCES projects(id) ON DELETE CASCADE")
      ∷ column (ascii "key") (ascii "TEXT NOT NULL")
      ∷ column (ascii "nonce") (ascii "BLOB NOT NULL")
      ∷ column (ascii "ciphertext") (ascii "BLOB NOT NULL")
      ∷ column (ascii "version") (ascii "INTEGER NOT NULL DEFAULT 1")
      ∷ column (ascii "updated_at") (ascii "TEXT NOT NULL")
      ∷ [];
  constraints = ascii "UNIQUE(project_id, key)" ∷ [];
  rows = [];
}

abbrev tokens_table : Table
tokens_table = record {
  columns =
      column (ascii "id") (ascii "INTEGER PRIMARY KEY")
      ∷ column (ascii "name") (ascii "TEXT NOT NULL")
      ∷ column (ascii "token_hash") (ascii "BLOB NOT NULL")
      ∷ column (ascii "project_scope") (ascii "TEXT")
      ∷ column (ascii "created_at") (ascii "TEXT NOT NULL")
      ∷ column (ascii "revoked") (ascii "INTEGER NOT NULL DEFAULT 0")
      ∷ column (ascii "expires_at") (ascii "TEXT")
      ∷ [];
  constraints = [];
  rows = [];
}

abbrev pub schema_tables : List (Bytes × Table)
schema_tables =
    (ascii "meta", meta_table)
    ∷ (ascii "projects", projects_table)
    ∷ (ascii "secrets", secrets_table)
    ∷ (ascii "tokens", tokens_table)
    ∷ []

unfoldable pub create_tables : List (Bytes × Table) → Exec Connection SchemaError (Unit {0})
unfolding statement create_if_missing ◌>>=◌
create_tables [] = pure tt
create_tables ((name, new) ∷ tables) = do
  statement (λ schema. ok (create_if_missing name new schema))
  create_tables tables

unfoldable pub add_expires_at : Bool → Exec Connection SchemaError (Unit {0})
unfolding statement add_column ◌>>=◌
add_expires_at true = pure tt
add_expires_at false =
    statement
      (add_column (ascii "tokens") (record { name = ascii "expires_at"; declared = ascii "TEXT" }))

unfoldable pub migrate : Exec Connection SchemaError (Unit {0})
unfolding create_tables column_exists add_expires_at ◌>>=◌
migrate = do
  create_tables schema_tables
  exists ← column_exists (ascii "tokens") (ascii "expires_at")
  add_expires_at exists
