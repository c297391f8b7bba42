-- ===== src/Server/Handlers/Reading.antt =====
-- What `get_secrets` returns.
use mathlib.Core.Option
use secrets_manager.Prelude.{
  ℕ, ◌≡◌, refl, sym, subst, ap, ◌∙◌, true, false, Option, none, some, List, [], ◌∷◌, arith, any,
  Distinct, Bytes, ◌=ᵇ◌, =ᵇ_iff, BTreeMap, btree_get, btree_insert, btree_get-insert,
}
use secrets_manager.Exec.{ok, to_option, >>=-elim}
use secrets_manager.Crates.{Crates}
use secrets_manager.Crypto.{MasterKey}
use secrets_manager.Server.State.{World, StoredSecret}
use secrets_manager.Server.State.Endings.{
  map_err-eq-ok, lift->>=-elim, refuse_if->>=-eq-ok, pure-eq-ok,
}
use secrets_manager.Server.Repo.{
  AuthedToken, SecretRow, secret_of_row, at_key, list_secret_rows, find, named,
}
use secrets_manager.Server.Tables.Meta.{query-eq-ok}
use secrets_manager.Server.Tables.Secrets.{
  same_key, row_at, same_row_key, listed, find-listed, Distinct-listed,
}
use secrets_manager.Server.Tables.Writes.{held}
use secrets_manager.Server.Handlers.Secrets.{
  sql, db_lock, require_project, decrypt_row, decrypt_rows, get_secrets,
}
use secrets_manager.Server.Handlers.Steps.{
  InScope, ensure_scope-elim, with_db-eq-ok, require_project-eq-ok,
}

module _ (lib : Crates) (state_key : MasterKey) (name : Bytes) where
  -- The plaintext of a row, if it decrypts to text.
  abbrev pub opened : SecretRow → Option Bytes
  opened row = to_option (decrypt_row lib state_key name row)

  -- The value of a key in the project with an id.
  abbrev pub stored_value : ℕ → Bytes → List StoredSecret → Option Bytes
  stored_value pid j rows = Option.bind (held pid j rows) opened

  abbrev reading : Bytes → Option SecretRow → BTreeMap Bytes → Option Bytes
  reading j none out = btree_get j out
  reading j (some row) out = opened row

  find-fresh :
      (row : SecretRow) (rows : List SecretRow) (j : Bytes)
      → any (same_row_key row) rows ≡ false
      → (row.key =ᵇ j) ≡ true
      → find (row_at j) rows ≡ none
  unfolding find
  find-fresh row [] j h e = refl
  find-fresh row (r ∷ rows) j h e =
      ground (arith, find-fresh row rows j, =ᵇ_iff row.key j, =ᵇ_iff r.key j, =ᵇ_iff row.key r.key)

  reading-cons :
      (row : SecretRow) (rows : List SecretRow) (j value : Bytes) (out : BTreeMap Bytes)
      → any (same_row_key row) rows ≡ false
      → decrypt_row lib state_key name row ≡ ok value
      → reading j (find (row_at j) rows) (btree_insert row.key value out)
        ≡ reading j (find (row_at j) (row ∷ rows)) out
  unfolding find
  reading-cons row rows j value out fresh d =
      ground (arith, find-fresh row rows j, btree_get-insert row.key j value out)

  decrypt_rows-eq-ok :
      (rows : List SecretRow) (out m : BTreeMap Bytes) (w w' : World)
      → Distinct same_row_key rows
      → decrypt_rows lib state_key name rows out w ≡ (ok m, w')
      → (w' ≡ w) × ((j : Bytes) → btree_get j m ≡ reading j (find (row_at j) rows) out)
  unfolding decrypt_rows find
  decrypt_rows-eq-ok [] out m w w' d e =
      let (same, stay) = pure-eq-ok out w w' e in (sym stay, λ j. ap (btree_get j) (sym same))
  decrypt_rows-eq-ok (row ∷ rows) out m w w' d e = lift->>=-elim _ _ w w' e λ value dec r1.
      let (stay, ih) = decrypt_rows-eq-ok rows (btree_insert row.key value out) m w w' d.1 r1 in
      (stay, λ j. ih j ∙ reading-cons row rows j value out d.0 dec)

  reading-map :
      (j : Bytes) (found : Option StoredSecret)
      → reading j (Option.map secret_of_row found) []
        ≡ Option.bind (Option.map secret_of_row found) opened
  unfolding btree_get Option.bind
  reading-map j none = refl
  reading-map j (some row) = refl

  reading-listed :
      (pid : ℕ) (j : Bytes) (rows : List StoredSecret)
      → reading j (find (row_at j) (listed pid rows)) [] ≡ stored_value pid j rows
  reading-listed pid j rows =
      ap (λ o. reading j o []) (find-listed pid j rows) ∙ reading-map j (find (at_key pid j) rows)

  -- What a successful GET shows of the tables, which it leaves as they are.
  pub record Shows (token : AuthedToken) (m : BTreeMap Bytes) (w w' : World) : Type 0 where
    pub pid : ℕ
    pub project : Option.map (λ p. p.id) (find (named name) w.tables.projects) ≡ some pid
    pub allowed : InScope token name
    pub values : (j : Bytes) → btree_get j m ≡ stored_value pid j w.tables.secrets
    pub unchanged : w'.tables ≡ w.tables

  pub get_secrets-Shows :
      (token : AuthedToken) (m : BTreeMap Bytes) (w w' : World)
      → Distinct same_key w.tables.secrets
      → get_secrets lib state_key token name w ≡ (ok m, w')
      → Shows token m w w'
  unfolding get_secrets list_secret_rows
  get_secrets-Shows token m w w' d e =
      let (_, e1) = refuse_if->>=-eq-ok _ _ _ w w' e in
      ensure_scope-elim token name _ w w' e1 λ allowed e2.
        let (_, e3) = with_db-eq-ok db_lock _ w w' e2 in
        >>=-elim (require_project name) _ w w' e3 λ pid w1 e4 r4.
          >>=-elim (sql (list_secret_rows pid)) _ w1 w' r4 λ rows w2 e5 r5.
            let (found, stay1) = require_project-eq-ok name w w1 e4 in
            let (selected, stay2) =
              query-eq-ok (λ t. listed pid t.secrets) w1 w2
                (map_err-eq-ok _ (list_secret_rows pid) w1 w2 e5) in
            let same : rows ≡ listed pid w.tables.secrets =
              selected ∙ ap (λ t. listed pid t.secrets) stay1 in
            let (stay3, shown) =
              decrypt_rows-eq-ok rows [] m w2 w'
                (subst (Distinct same_row_key) (sym same) (Distinct-listed pid w.tables.secrets d))
                r5 in
            record {
              pid = pid;
              project = found;
              allowed = allowed;
              values = λ j.
                  shown j
                  ∙ (ap (λ xs. reading j (find (row_at j) xs) []) same
                      ∙ reading-listed pid j w.tables.secrets);
              unchanged = ap (λ x. x.tables) stay3 ∙ (stay2 ∙ stay1);
            }
