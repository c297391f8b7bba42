-- ===== src/Server/Tables/Secrets.antt =====
-- Looking secrets up by project and key, through the statements of
-- crates/secrets-server/src/repo.rs.
use mathlib.Core.Option
use secrets_manager.Prelude.{
  ℕ, ◌≡◌, refl, sym, ◌∙◌, ap, Bool, false, ◌||◌, List, [], ◌∷◌, map, arith, ==_iff, keep, any,
  Distinct, Bool-cases, inl, inr, Bytes, ◌=ᵇ◌, =ᵇ_iff, bytes_leb, bytes_leb_refl,
}
use secrets_manager.Server.State.{StoredSecret}
use secrets_manager.Server.Repo.{
  SecretRow, secret_of_row, of_project, at_key, insert_by, order_by, find,
}

-- UNIQUE(project_id, key)
abbrev pub same_key : StoredSecret → StoredSecret → Bool
same_key r s = at_key r.project_id r.key s

abbrev pub row_at : Bytes → SecretRow → Bool
row_at key row = row.key =ᵇ key

abbrev pub same_row_key : SecretRow → SecretRow → Bool
same_row_key r s = r.key =ᵇ s.key

-- ORDER BY key does not change which row is found first.
find-insert_by :
    (j : Bytes) (x : SecretRow) (ys : List SecretRow)
    → find (row_at j) (insert_by (λ r. r.key) x ys) ≡ find (row_at j) (x ∷ ys)
unfolding find insert_by
find-insert_by j x [] = refl
find-insert_by j x (y ∷ ys) =
    ground (arith, find-insert_by j x ys, =ᵇ_iff x.key j, =ᵇ_iff y.key j, bytes_leb_refl j)

find-order_by :
    (j : Bytes) (xs : List SecretRow)
    → find (row_at j) (order_by (λ r. r.key) xs) ≡ find (row_at j) xs
unfolding find order_by
find-order_by j [] = refl
find-order_by j (x ∷ xs) =
    ground (arith, find-insert_by j x (order_by (λ r. r.key) xs), find-order_by j xs)

find-project_rows :
    (pid : ℕ) (j : Bytes) (rows : List StoredSecret)
    → find (row_at j) (map secret_of_row (keep (of_project pid) rows))
      ≡ Option.map secret_of_row (find (at_key pid j) rows)
unfolding find
find-project_rows pid j [] = refl
find-project_rows pid j (r ∷ rows) = ground (arith, find-project_rows pid j rows)

abbrev pub listed : ℕ → List StoredSecret → List SecretRow
listed pid rows = order_by (λ r. r.key) (map secret_of_row (keep (of_project pid) rows))

-- What `list_secret_rows` gives under a key is the row with that project and key.
pub find-listed :
    (pid : ℕ) (j : Bytes) (rows : List StoredSecret)
    → find (row_at j) (listed pid rows) ≡ Option.map secret_of_row (find (at_key pid j) rows)
find-listed pid j rows =
    find-order_by j (map secret_of_row (keep (of_project pid) rows)) ∙ find-project_rows pid j rows

any-insert_by :
    (p : SecretRow → Bool) (x : SecretRow) (ys : List SecretRow)
    → any p (insert_by (λ r. r.key) x ys) ≡ (p x || any p ys)
unfolding insert_by
any-insert_by p x [] = refl
any-insert_by p x (y ∷ ys) = ground (arith, any-insert_by p x ys)

any-order_by :
    (p : SecretRow → Bool) (xs : List SecretRow) → any p (order_by (λ r. r.key) xs) ≡ any p xs
unfolding order_by
any-order_by p [] = refl
any-order_by p (x ∷ xs) =
    ground (arith, any-insert_by p x (order_by (λ r. r.key) xs), any-order_by p xs)

Distinct-insert_by :
    (x : SecretRow) (ys : List SecretRow)
    → any (same_row_key x) ys ≡ false
    → Distinct same_row_key ys
    → Distinct same_row_key (insert_by (λ r. r.key) x ys)
unfolding insert_by
Distinct-insert_by x [] h d = (refl, tt)
Distinct-insert_by x (y ∷ ys) h d = elim (Bool-cases (bytes_leb x.key y.key)) [
  | inl before ↦ rw before (h, d)
  | inr after ↦ rw after (
    ground (arith, any-insert_by (same_row_key y) x ys, =ᵇ_iff x.key y.key, =ᵇ_iff y.key x.key),
    Distinct-insert_by x ys (ground arith) d.1,
  )
]

Distinct-order_by :
    (xs : List SecretRow)
    → Distinct same_row_key xs
    → Distinct same_row_key (order_by (λ r. r.key) xs)
unfolding order_by
Distinct-order_by [] d = tt
Distinct-order_by (x ∷ xs) d =
    Distinct-insert_by x (order_by (λ r. r.key) xs) (any-order_by (same_row_key x) xs ∙ d.0)
      (Distinct-order_by xs d.1)

any-project_rows :
    (pid : ℕ) (k : Bytes) (rows : List StoredSecret)
    → any (at_key pid k) rows ≡ false
    → any (λ s. k =ᵇ s.key) (map secret_of_row (keep (of_project pid) rows)) ≡ false
any-project_rows pid k [] h = refl
any-project_rows pid k (r ∷ rows) h =
    ground (arith, any-project_rows pid k rows, =ᵇ_iff k r.key, =ᵇ_iff r.key k)

Distinct-project_rows :
    (pid : ℕ) (rows : List StoredSecret)
    → Distinct same_key rows
    → Distinct same_row_key (map secret_of_row (keep (of_project pid) rows))
Distinct-project_rows pid [] d = tt
Distinct-project_rows pid (r ∷ rows) d = elim (Bool-cases (of_project pid r)) [
  | inl own ↦
      let id : r.project_id ≡ pid = (==_iff r.project_id pid).0 own in
      rw (own, Distinct)
        (
          any-project_rows pid r.key rows (ap (λ i. any (at_key i r.key) rows) (sym id) ∙ d.0),
          Distinct-project_rows pid rows d.1,
        )
  | inr other ↦ rw (other, Distinct) (Distinct-project_rows pid rows d.1)
]

pub Distinct-listed :
    (pid : ℕ) (rows : List StoredSecret)
    → Distinct same_key rows
    → Distinct same_row_key (listed pid rows)
Distinct-listed pid rows d =
    Distinct-order_by (map secret_of_row (keep (of_project pid) rows))
      (Distinct-project_rows pid rows d)
