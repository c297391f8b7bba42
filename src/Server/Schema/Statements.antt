-- ===== src/Server/Schema/Statements.antt =====
-- The statements of crates/secrets-server/src/db.rs: what each leaves of the tables.
use secrets_manager.Prelude.{
  ◌≡◌, refl, sym, subst, ap, ◌∙◌, Bool, true, false, Bool-cases, Option-cases, some, inl, inr, List,
  [], ◌∷◌, ◌++◌, if◌then◌else◌, Bytes, ◌=ᵇ◌, =ᵇ_iff, all, arith,
}
use secrets_manager.Exec.{Outcome, ok, >>=-elim, >>=-of_ok}
use secrets_manager.Server.Schema.{
  Column, Table, Schema, Connection, SchemaError, table, there, attempt, statement,
  create_if_missing, has_column, replace_table, create_tables,
}

-- The tables that there were are as they were.
unfoldable pub Kept : Schema → Schema → Type 0
Kept s s' = (n : Bytes) (t : Table) → table n s ≡ some t → table n s' ≡ some t

abbrev pub is_there : Schema → Bytes × Table → Bool
is_there s e = there (table e.0 s)

pub create_if_missing-Kept :
    (name : Bytes) (columns : Table) (s : Schema) → Kept s (create_if_missing name columns s)
unfolding create_if_missing Kept table
create_if_missing-Kept name columns s n t e = elim (Bool-cases (there (table name s))) [
  | inl here ↦ rw here e
  | inr missing ↦ elim (Bool-cases (name =ᵇ n)) [
    | inl same ↦
        let e' : there (table name s) ≡ true =
          ap (λ x. there (table x s)) ((=ᵇ_iff name n).0 same) ∙ ap there e in
        cc (sym missing ∙ e')
    | inr other ↦ rw missing (rw other e)
  ]
]

pub create_if_missing-there :
    (name : Bytes) (columns : Table) (s : Schema)
    → there (table name (create_if_missing name columns s)) ≡ true
unfolding create_if_missing table
create_if_missing-there name columns s = elim (Bool-cases (there (table name s))) [
  | inl here ↦ rw here here
  | inr missing ↦ rw missing (rw ((=ᵇ_iff name name).1 refl) refl)
]

pub Kept-there :
    (s s' : Schema) (n : Bytes) → Kept s s' → there (table n s) ≡ true → there (table n s') ≡ true
unfolding Kept
Kept-there s s' n kept e = elim (Option-cases (table n s)) [
  | inl none_there ↦ cc (sym e ∙ ap there none_there)
  | inr (t, found) ↦ ap there (kept n t found)
]

pub statement-eq-ok :
    (change : Schema → Outcome SchemaError Schema) (c c' : Connection)
    → statement change c ≡ (ok tt, c')
    → change c.schema ≡ ok c'.schema
unfolding statement attempt
statement-eq-ok change c c' e = ground arith

pub create_tables-eq-ok :
    (tables : List (Bytes × Table)) (c c' : Connection)
    → create_tables tables c ≡ (ok tt, c')
    → Kept c.schema c'.schema × (all (is_there c'.schema) tables ≡ true)
unfolding create_tables Kept
create_tables-eq-ok [] c c' e = ((λ n t f. (ap (λ p. table n p.1.schema) (sym e)) ∙ f), refl)
create_tables-eq-ok ((name, columns) ∷ tables) c c' e =
    >>=-elim (statement (λ s. ok (create_if_missing name columns s))) _ c c' e λ _ c1 first rest.
      let made : create_if_missing name columns c.schema ≡ c1.schema =
        cc (statement-eq-ok (λ s. ok (create_if_missing name columns s)) c c1 first) in
      let before : Kept c.schema c1.schema =
        subst (Kept c.schema) made (create_if_missing-Kept name columns c.schema) in
      let here : there (table name c1.schema) ≡ true =
        subst (λ s. there (table name s) ≡ true) made
          (create_if_missing-there name columns c.schema) in
      let (kept, others) = create_tables-eq-ok tables c1 c' rest in
      (λ n t f. kept n t (before n t f), rw (Kept-there c1.schema c'.schema name kept here) others)

-- Adding a column changes one table.
pub table-replace_table :
    (name n : Bytes) (new t : Table) (s : Schema)
    → table n s ≡ some t
    → table n (replace_table name new s) ≡ some (if name =ᵇ n then new else t)
unfolding table replace_table
table-replace_table name n new t [] e = cc e
table-replace_table name n new t ((m, x) ∷ s) e =
    let rest = table-replace_table name n new t s in
    elim (Bool-cases (m =ᵇ name)) [
      | inl own ↦
          let same : (m =ᵇ n) ≡ (name =ᵇ n) = ap (λ z. z =ᵇ n) ((=ᵇ_iff m name).0 own) in
          elim (Bool-cases (m =ᵇ n)) [
            | inl here ↦ rw own (rw here (rw (sym same ∙ here) refl))
            | inr apart ↦ rw own (rw apart (rest (rw apart at e)))
          ]
      | inr other ↦ elim (Bool-cases (m =ᵇ n)) [
        | inl here ↦ elim (Bool-cases (name =ᵇ n)) [
          | inl both ↦
              cc
                (sym other ∙ (=ᵇ_iff m name).1 ((=ᵇ_iff m n).0 here ∙ sym ((=ᵇ_iff name n).0 both)))
          | inr away ↦ rw other (rw here (rw away (rw here at e)))
        ]
        | inr apart ↦ rw other (rw apart (rest (rw apart at e)))
      ]
    ]

pub has_column-last :
    (c : Column) (columns : List Column) → has_column c.name (columns ++ c ∷ []) ≡ true
unfolding has_column
has_column-last c [] = rw ((=ᵇ_iff c.name c.name).1 refl) refl
has_column-last c (d ∷ columns) =
    rw (has_column-last c columns)
      (elim (Bool-cases (d.name =ᵇ c.name)) [ inl h ↦ rw h refl | inr h ↦ rw h refl ])

pub attempt-idle : (c : Connection) → c.faults ≡ [] → attempt c ≡ (false, c)
unfolding attempt
attempt-idle c quiet = rw quiet refl

statement-idle :
    (change : Schema → Outcome SchemaError Schema) (c : Connection)
    → c.faults ≡ []
    → change c.schema ≡ ok c.schema
    → statement change c ≡ (ok tt, c)
unfolding statement
statement-idle change c quiet same =
    rw (attempt-idle c quiet)
      (rw same (ap (λ a. (ok tt, record c { faults = a.1.faults })) (attempt-idle c quiet)))

create_if_missing-idle :
    (name : Bytes) (columns : Table) (s : Schema)
    → there (table name s) ≡ true
    → create_if_missing name columns s ≡ s
unfolding create_if_missing
create_if_missing-idle name columns s here = rw here refl

-- A step that needs nothing done does nothing.
pub create_tables-idle :
    (tables : List (Bytes × Table)) (c : Connection)
    → c.faults ≡ []
    → all (is_there c.schema) tables ≡ true
    → create_tables tables c ≡ (ok tt, c)
unfolding create_tables
create_tables-idle [] c quiet present = refl
create_tables-idle ((name, columns) ∷ tables) c quiet present =
    let here : there (table name c.schema) ≡ true = ground arith in
    >>=-of_ok (statement (λ s. ok (create_if_missing name columns s))) _ c c (
      statement-idle (λ s. ok (create_if_missing name columns s)) c quiet
        (ap ok (create_if_missing-idle name columns c.schema here)))
    ∙ create_tables-idle tables c quiet (ground arith)
