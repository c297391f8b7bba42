-- ===== src/Server/Soundness/Available.antt =====
-- Where the tables are sound, `get_secrets` of crates/secrets-server/src/handlers.rs answers.
use mathlib.Core.Option
use secrets_manager.Prelude.{
  ℕ, ◌≡◌, refl, sym, ap, ◌∙◌, true, false, some, List, [], ◌∷◌, map, arith, ◌==◌, ==_iff, inl, inr,
  keep, Bool-cases, All, Distinct, Bytes, BTreeMap, btree_insert, bytes_leb, =ᵇ_iff, is_utf8,
  from_utf8,
}
use secrets_manager.Server.Tables.Meta.{query-ok}
use secrets_manager.Server.Error.{from_sql}
use secrets_manager.Exec.{ok, map_error, map_err, ◌>>=◌, >>=-of_ok}
use secrets_manager.Crates.{Crates}
use secrets_manager.Crypto.{MasterKey, decrypt, aad_bytes}
use secrets_manager.Server.State.{ProjectRow, StoredSecret, World}
use secrets_manager.Server.Repo.{
  AuthedToken, SecretRow, find, named, of_project, secret_of_row, order_by, insert_by, project_id,
  list_secret_rows,
}
use secrets_manager.Server.Tables.Secrets.{listed}
use secrets_manager.Server.Names.{valid_project}
use secrets_manager.Server.Auth.{with_db, ensure_scope}
use secrets_manager.Server.Handlers.Secrets.{
  sql, require_project, decrypt_row, decrypt_rows, get_secrets,
}
use secrets_manager.Server.Handlers.Steps.{InScope}
use secrets_manager.Server.Soundness.{same_project_id, owns, Readable, Sound}
use secrets_manager.Server.Soundness.Puts.{find-named_by_id, find-named_holds}

module _ {A : Type 0} (P : A → Type 0) (f : A → Bytes) where
  All-insert_by : (x : A) (ys : List A) → P x → All P ys → All P (insert_by f x ys)
  unfolding insert_by
  All-insert_by x [] h a = (h, a)
  All-insert_by x (y ∷ ys) h a = elim (Bool-cases (bytes_leb (f x) (f y))) [
    | inl before ↦ rw before (h, a)
    | inr after ↦ rw after (a.0, All-insert_by x ys h a.1)
  ]

  All-order_by : (xs : List A) → All P xs → All P (order_by f xs)
  unfolding order_by
  All-order_by [] a = a
  All-order_by (x ∷ xs) a = All-insert_by x (order_by f xs) a.0 (All-order_by xs a.1)

module _ (lib : Crates) (key : MasterKey) (name : Bytes) where
  abbrev Opens : SecretRow → Type 0
  Opens row = (value : Bytes) × (decrypt_row lib key name row ≡ ok value)

  decrypt_rows-ok :
      (rows : List SecretRow) (out : BTreeMap Bytes) (w : World)
      → All Opens rows
      → (m : BTreeMap Bytes) × (decrypt_rows lib key name rows out w ≡ (ok m, w))
  unfolding decrypt_rows ◌>>=◌
  decrypt_rows-ok [] out w a = (out, refl)
  decrypt_rows-ok (row ∷ rows) out w (opens, rest) =
      let (value, e) = opens in
      let (m, h) = decrypt_rows-ok rows (btree_insert row.key value out) w rest in (m, rw e h)

  decrypt_row-ok :
      (r : SecretRow) (value : Bytes)
      → decrypt lib key r.nonce r.ciphertext (aad_bytes name r.key) ≡ ok value
      → is_utf8 value ≡ true
      → decrypt_row lib key name r ≡ ok value
  unfolding decrypt_row from_utf8
  decrypt_row-ok r value opened text = ground arith

  Opens-row :
      (ps : List ProjectRow) (p : ProjectRow) (r : StoredSecret)
      → find (named name) ps ≡ some p
      → find (owns r) ps ≡ find (λ q. q.id == p.id) ps
      → Distinct same_project_id ps
      → Readable lib key ps r
      → Opens (secret_of_row r)
  Opens-row ps p r found own d x =
      let same : some x.project ≡ some p =
        sym x.owner ∙ (own ∙ find-named_by_id name ps p d found) in
      let project : x.project ≡ p = cc same in
      let called : x.project.name ≡ name =
        ap (λ q. q.name) project ∙ (=ᵇ_iff p.name name).0 (find-named_holds name ps p found) in
      let opened : decrypt lib key r.nonce r.ciphertext (aad_bytes name r.key) ≡ ok x.plaintext =
        ap (λ n. decrypt lib key r.nonce r.ciphertext (aad_bytes n r.key)) (sym called)
        ∙ x.opened in
      (x.plaintext, decrypt_row-ok (secret_of_row r) x.plaintext opened x.text)

  All-project_rows :
      (ps : List ProjectRow) (p : ProjectRow) (rows : List StoredSecret)
      → find (named name) ps ≡ some p
      → Distinct same_project_id ps
      → All (Readable lib key ps) rows
      → All Opens (map secret_of_row (keep (of_project p.id) rows))
  All-project_rows ps p [] found d a = tt
  All-project_rows ps p (r ∷ rows) found d a = elim (Bool-cases (of_project p.id r)) [
    | inl own ↦
        let id : r.project_id ≡ p.id = (==_iff r.project_id p.id).0 own in
        rw (own, All)
          (
            Opens-row ps p r found (ap (λ i. find (λ q. q.id == i) ps) id) d a.0,
            All-project_rows ps p rows found d a.1,
          )
    | inr other ↦ rw (other, All) (All-project_rows ps p rows found d a.1)
  ]

  selected :
      (w : World)
      → w.faults ≡ []
      → project_id name w ≡ (ok (Option.map (λ p. p.id) (find (named name) w.tables.projects)), w)
  unfolding project_id
  selected w quiet = query-ok (λ t. Option.map (λ p. p.id) (find (named name) t.projects)) w quiet

  project_id-ok :
      (p : ProjectRow) (w : World)
      → w.faults ≡ []
      → find (named name) w.tables.projects ≡ some p
      → require_project name w ≡ (ok p.id, w)
  unfolding require_project ◌>>=◌
  project_id-ok p w quiet found = simp (selected w quiet, found)

  list_secret_rows-ok :
      (pid : ℕ) (w : World)
      → w.faults ≡ []
      → sql (list_secret_rows pid) w ≡ (ok (listed pid w.tables.secrets), w)
  unfolding list_secret_rows map_err
  list_secret_rows-ok pid w quiet =
      ap (λ r. (map_error from_sql r.0, r.1)) (query-ok (λ t. listed pid t.secrets) w quiet)

  read_under_lock :
      (p : ProjectRow) (w : World)
      → Sound lib key w.tables
      → w.faults ≡ []
      → find (named name) w.tables.projects ≡ some p
      → (m : BTreeMap Bytes) × ((do
        pid ← require_project name
        rows ← sql (list_secret_rows pid)
        decrypt_rows lib key name rows [])
            w
          ≡ (ok m, w))
  read_under_lock p w s quiet found =
      let opens =
        All-order_by Opens (λ r. r.key) _
          (All-project_rows w.tables.projects p w.tables.secrets found s.project_ids s.readable) in
      let (m, decrypted) = decrypt_rows-ok (listed p.id w.tables.secrets) [] w opens in
      (
        m,
        >>=-of_ok (require_project name) _ w w (project_id-ok p w quiet found)
            ∙ (>>=-of_ok (sql (list_secret_rows p.id)) _ w w (list_secret_rows-ok p.id w quiet)
                ∙ decrypted),
      )

ensure_scope-ok :
    (token : AuthedToken) (name : Bytes) (w : World)
    → InScope token name
    → ensure_scope token name w ≡ (ok tt, w)
unfolding ensure_scope ◌>>=◌
ensure_scope-ok token name w (inl unscoped) = rw (unscoped, ensure_scope) refl
ensure_scope-ok token name w (inr scoped) =
    rw (scoped, ensure_scope) (rw ((=ᵇ_iff name name).1 refl) refl)

-- Where the tables are sound, the lock is not poisoned and no access fails, whoever has a token in
-- scope is given the secrets of a project that exists: no secret fails to open or to be a text, and
-- nothing changes.
pub get_secrets-available :
    (lib : Crates) (key : MasterKey) (token : AuthedToken) (name : Bytes) (p : ProjectRow)
    (w : World)
    → Sound lib key w.tables
    → w.faults ≡ []
    → w.poisoned ≡ false
    → valid_project name ≡ true
    → InScope token name
    → find (named name) w.tables.projects ≡ some p
    → (m : BTreeMap Bytes) × (get_secrets lib key token name w ≡ (ok m, w))
unfolding get_secrets with_db ◌>>=◌
get_secrets-available lib key token name p w s quiet whole valid allowed found =
    let (m, read) = read_under_lock lib key name p w s quiet found in
    (m, simp (valid, ensure_scope-ok token name w allowed, whole, read))
