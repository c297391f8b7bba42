-- ===== src/Server/Schema/Migration.antt =====
-- What `migrate` leaves, crates/secrets-server/src/db.rs.
use secrets_manager.Prelude.{
  ◌≡◌, refl, sym, subst, ap, ◌∙◌, Bool, true, false, any, Bool-cases, Option-cases, some, inl, inr,
  [], if◌then◌else◌, Bytes, ◌=ᵇ◌, =ᵇ_iff, all, arith,
}
use secrets_manager.Exec.{ok, pure, >>=-elim}
use secrets_manager.Server.Schema.{
  Table, Schema, Connection, table, there, has_column, with_column, replace_table, add_column,
  column_exists, columns_of, schema_tables, create_tables, add_expires_at, migrate,
}
use secrets_manager.Server.Schema.Statements.{
  Kept, is_there, statement-eq-ok, create_tables-eq-ok, table-replace_table, has_column-last,
}
use secrets_manager.Server.Schema.Altered.{
  tokens, expires_at, expiry_column, is_expiry, migrated, has_column-any, altered, altered-migrated,
  column_exists-eq-ok, migrate-again, add_column-eq-ok, replace_table-is_there,
}

-- What the migration has made of the schema.
record Done (s s' : Schema) : Type 0 where
  complete : all (is_there s') schema_tables ≡ true
  expires : has_column expires_at (columns_of (table tokens s')) ≡ true
  kept : (n : Bytes) (t : Table) → table n s ≡ some t → table n s' ≡ some (altered n t)

altered-as_before :
    (n : Bytes) (t : Table) (s : Schema)
    → has_column expires_at (columns_of (table tokens s)) ≡ true
    → table n s ≡ some t
    → altered n t ≡ t
unfolding altered
altered-as_before n t s e found = elim (Bool-cases (tokens =ᵇ n)) [
  | inl own ↦
      let found' : table tokens s ≡ some t =
        ap (λ m. table m s) ((=ᵇ_iff tokens n).0 own) ∙ found in
      let has : has_column expires_at t.columns ≡ true =
        ap (λ o. has_column expires_at (columns_of o)) (sym found') ∙ e in
      rw own (rw has refl)
  | inr other ↦ rw other refl
]

altered-here :
    (n : Bytes) (t t0 : Table) (s : Schema)
    → table tokens s ≡ some t0
    → has_column expires_at t0.columns ≡ false
    → table n s ≡ some t
    → (if tokens =ᵇ n then with_column expiry_column t0 else t) ≡ altered n t
unfolding altered
altered-here n t t0 s held e found = elim (Bool-cases (tokens =ᵇ n)) [
  | inl own ↦
      let both : some t0 ≡ some t =
        sym held ∙ (ap (λ m. table m s) ((=ᵇ_iff tokens n).0 own) ∙ found) in
      let same : t0 ≡ t = cc both in
      let lacks : has_column expires_at t.columns ≡ false =
        ap (λ x. has_column expires_at x.columns) (sym same) ∙ e in
      rw own (rw lacks (ap (with_column expiry_column) same))
  | inr other ↦ rw other refl
]

with_column-has : (t : Table) → has_column expires_at (with_column expiry_column t).columns ≡ true
unfolding with_column
with_column-has t = has_column-last expiry_column t.columns

all-tokens : (s : Schema) → all (is_there s) schema_tables ≡ true → there (table tokens s) ≡ true
all-tokens s e = ground arith

altered-Done :
    (s s1 s' : Schema)
    → Kept s s1
    → all (is_there s1) schema_tables ≡ true
    → has_column expires_at (columns_of (table tokens s1)) ≡ false
    → add_column tokens expiry_column s1 ≡ ok s'
    → Done s s'
unfolding Kept
altered-Done s s1 s' kept complete lacks altered = elim (Option-cases (table tokens s1)) [
  | inl missing ↦
      let last : there (table tokens s1) ≡ true = all-tokens s1 complete in
      cc (sym last ∙ ap there missing)
  | inr (t0, held) ↦
      let made : replace_table tokens (with_column expiry_column t0) s1 ≡ s' =
        add_column-eq-ok tokens expiry_column t0 s1 s' held altered in
      let lacks0 : has_column expires_at t0.columns ≡ false = rw held at lacks in
      let found : table tokens (replace_table tokens (with_column expiry_column t0) s1)
          ≡ some (with_column expiry_column t0) =
        table-replace_table tokens tokens (with_column expiry_column t0) t0 s1 held
        ∙ rw ((=ᵇ_iff tokens tokens).1 refl) refl in
      subst (Done s) made (record {
        complete =
            replace_table-is_there tokens (with_column expiry_column t0) s1 schema_tables complete;
        expires = ap (λ o. has_column expires_at (columns_of o)) found ∙ with_column-has t0;
        kept = λ n t e.
            table-replace_table tokens n (with_column expiry_column t0) t s1 (kept n t e)
            ∙ ap some (altered-here n t t0 s1 held lacks0 (kept n t e));
      })
]

as_before-Done :
    (s s1 : Schema)
    → Kept s s1
    → all (is_there s1) schema_tables ≡ true
    → has_column expires_at (columns_of (table tokens s1)) ≡ true
    → Done s s1
unfolding Kept
as_before-Done s s1 kept complete has = record {
  complete = complete;
  expires = has;
  kept = λ n t e. kept n t e ∙ ap some (sym (altered-as_before n t s1 has (kept n t e)));
}

add_expires_at-Done :
    (s : Schema) (b : Bool) (c c' : Connection)
    → Kept s c.schema
    → all (is_there c.schema) schema_tables ≡ true
    → has_column expires_at (columns_of (table tokens c.schema)) ≡ b
    → add_expires_at b c ≡ (ok tt, c')
    → Done s c'.schema
unfolding add_expires_at pure
add_expires_at-Done s true c c' kept complete has e =
    subst (Done s) (ap (λ p. p.1.schema) e) (as_before-Done s c.schema kept complete has)
add_expires_at-Done s false c c' kept complete lacks e =
    altered-Done s c.schema c'.schema kept complete lacks
      (statement-eq-ok (add_column tokens expiry_column) c c' e)

migrate-Done : (c c' : Connection) → migrate c ≡ (ok tt, c') → Done c.schema c'.schema
unfolding migrate
migrate-Done c c' e = >>=-elim (create_tables schema_tables) _ c c' e λ _ c1 made e1.
    >>=-elim (column_exists tokens expires_at) _ c1 c' e1 λ b c2 asked e2.
      let (kept, complete) = create_tables-eq-ok schema_tables c c1 made in
      let (has, same) = column_exists-eq-ok tokens expires_at c1 c2 b asked in
      add_expires_at-Done c.schema b c2 c' (subst (Kept c.schema) (sym same) kept)
        (ap (λ s. all (is_there s) schema_tables) same ∙ complete)
        (ap (λ s. has_column expires_at (columns_of (table tokens s))) same ∙ has) e2

-- A migration that ends well loses nothing: a table that there was has its columns, its constraints
-- and its rows with all their values, where tokens without an expiry get that column at the end, NULL
-- in each row; and the four tables of the schema are there, tokens with an expiry.
pub migrate-migrated :
    (n : Bytes) (t : Table) (c c' : Connection)
    → migrate c ≡ (ok tt, c')
    → table n c.schema ≡ some t
    → (table n c'.schema ≡ some (migrated n t))
      × (all (is_there c'.schema) schema_tables ≡ true)
      × (any is_expiry (columns_of (table tokens c'.schema)) ≡ true)
migrate-migrated n t c c' e found =
    let d = migrate-Done c c' e in
    (
      d.kept n t found ∙ ap some (altered-migrated n t),
      d.complete,
      sym (has_column-any (columns_of (table tokens c'.schema))) ∙ d.expires,
    )

-- A migration of a database that has been migrated changes nothing and ends well, where no statement
-- fails: a server may start again on the database that it left.
pub migrate-migrate :
    (c c' c'' : Connection)
    → migrate c ≡ (ok tt, c')
    → c''.schema ≡ c'.schema
    → c''.faults ≡ []
    → migrate c'' ≡ (ok tt, c'')
migrate-migrate c c' c'' e same quiet =
    let d = migrate-Done c c' e in
    migrate-again c'' (ap (λ s. all (is_there s) schema_tables) same ∙ d.complete)
      (ap (λ s. has_column expires_at (columns_of (table tokens s))) same ∙ d.expires) quiet
