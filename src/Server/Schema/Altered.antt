-- ===== src/Server/Schema/Altered.antt =====
-- The column that `migrate` adds, crates/secrets-server/src/db.rs.
use secrets_manager.Prelude.{
  ◌≡◌, refl, ap, ◌∙◌, Bool, true, ◌&&◌, ◌||◌, ◌++◌, any, map, none, Option, not, Option-cases, some,
  inl, inr, List, [], ◌∷◌, if◌then◌else◌, Bytes, ascii, ◌=ᵇ◌, all, arith,
}
use secrets_manager.Exec.{ok, >>=-of_ok}
use secrets_manager.Server.Schema.{
  Column, with_null, Table, Schema, Connection, table, attempt, has_column, with_column,
  replace_table, add_column, column_exists, columns_of, schema_tables, create_tables,
  add_expires_at, migrate,
}
use secrets_manager.Server.Schema.Statements.{
  is_there, table-replace_table, attempt-idle, create_tables-idle,
}

abbrev pub tokens : Bytes
tokens = ascii "tokens"

abbrev pub expires_at : Bytes
expires_at = ascii "expires_at"

abbrev pub expiry_column : Column
expiry_column = record { name = expires_at; declared = ascii "TEXT" }

abbrev pub is_expiry : Column → Bool
is_expiry c = c.name =ᵇ expires_at

-- A table after the migration: tokens that had no expiry have the column at the end, NULL in each
-- row.
unfoldable pub migrated : Bytes → Table → Table
migrated n t =
    if tokens =ᵇ n && not (any is_expiry t.columns)
    then record {
      columns = t.columns ++ expiry_column ∷ [];
      constraints = t.constraints;
      rows = map (λ row. row ++ none ∷ []) t.rows;
    }
    else t

pub has_column-any : (columns : List Column) → has_column expires_at columns ≡ any is_expiry columns
unfolding has_column
has_column-any [] = refl
has_column-any (c ∷ columns) = ap (λ b. is_expiry c || b) (has_column-any columns)

with_null-map :
    (rows : List (List (Option Bytes))) → with_null rows ≡ map (λ row. row ++ none ∷ []) rows
unfolding with_null
with_null-map [] = refl
with_null-map (row ∷ rows) = ap (λ r. (row ++ none ∷ []) ∷ r) (with_null-map rows)

-- The same in the words of the statements.
unfoldable pub altered : Bytes → Table → Table
altered n t =
    if tokens =ᵇ n && not (has_column expires_at t.columns) then with_column expiry_column t else t

pub altered-migrated : (n : Bytes) (t : Table) → altered n t ≡ migrated n t
unfolding altered migrated with_column
altered-migrated n t = rw (has_column-any t.columns) (
    ap
      (λ rows.
        if tokens =ᵇ n && not (any is_expiry t.columns)
        then record {
          columns = t.columns ++ expiry_column ∷ [];
          constraints = t.constraints;
          rows = rows;
        }
        else t)
      (with_null-map t.rows))

pub column_exists-eq-ok :
    (name column : Bytes) (c c' : Connection) (b : Bool)
    → column_exists name column c ≡ (ok b, c')
    → (has_column column (columns_of (table name c.schema)) ≡ b) × (c'.schema ≡ c.schema)
unfolding column_exists attempt
column_exists-eq-ok name column c c' b e = ground arith

column_exists-idle :
    (name column : Bytes) (c : Connection)
    → c.faults ≡ []
    → has_column column (columns_of (table name c.schema)) ≡ true
    → column_exists name column c ≡ (ok true, c)
unfolding column_exists
column_exists-idle name column c quiet e = rw (attempt-idle c quiet) (rw e refl)

pub migrate-again :
    (c : Connection)
    → all (is_there c.schema) schema_tables ≡ true
    → has_column expires_at (columns_of (table tokens c.schema)) ≡ true
    → c.faults ≡ []
    → migrate c ≡ (ok tt, c)
unfolding migrate
migrate-again c complete expires quiet =
    >>=-of_ok (create_tables schema_tables) _ c c
      (create_tables-idle schema_tables c quiet complete)
    ∙ >>=-of_ok (column_exists tokens expires_at) add_expires_at c c
        (column_exists-idle tokens expires_at c quiet expires)

pub add_column-eq-ok :
    (name : Bytes) (column : Column) (t : Table) (s s' : Schema)
    → table name s ≡ some t
    → add_column name column s ≡ ok s'
    → replace_table name (with_column column t) s ≡ s'
unfolding add_column
add_column-eq-ok name column t s s' found e = ground (arith, found)

pub replace_table-is_there :
    (name : Bytes) (new : Table) (s : Schema) (tables : List (Bytes × Table))
    → all (is_there s) tables ≡ true
    → all (is_there (replace_table name new s)) tables ≡ true
replace_table-is_there name new s [] e = refl
replace_table-is_there name new s ((n, columns) ∷ tables) e =
    let rest = replace_table-is_there name new s tables (ground arith) in
    elim (Option-cases (table n s)) [
      | inl missing ↦ cc (rw missing at e)
      | inr (t, found) ↦ rw (table-replace_table name n new t s found) rest
    ]
