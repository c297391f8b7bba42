-- ===== src/Server/CryptoState/Rows.antt =====
-- The rows that a rekey goes through: the join, its order, and looking a row up by its id.
use secrets_manager.Prelude.{
  ℕ, ◌≡◌, refl, ◌∙◌, Bool, false, ◌||◌, none, List, [], ◌∷◌, arith, ◌==◌, leb, any, All, Distinct,
  Bool-cases, inl, inr,
}
use secrets_manager.Server.State.{StoredSecret, ProjectRow}
use secrets_manager.Server.Repo.{find}
use secrets_manager.Server.CryptoState.{
  RekeyRow, join_row, join_projects, insert_by_id, order_by_id,
}

abbrev pub has_id : ℕ → RekeyRow → Bool
has_id id x = id == x.id

abbrev pub same_row_id : RekeyRow → RekeyRow → Bool
same_row_id x y = x.id == y.id

abbrev pub same_id : StoredSecret → StoredSecret → Bool
same_id r s = r.id == s.id

find-insert_by_id :
    (id : ℕ) (x : RekeyRow) (ys : List RekeyRow)
    → find (has_id id) (insert_by_id x ys) ≡ find (has_id id) (x ∷ ys)
unfolding find insert_by_id
find-insert_by_id id x [] = refl
find-insert_by_id id x (y ∷ ys) = ground (arith, find-insert_by_id id x ys)

pub find-order_by_id :
    (id : ℕ) (xs : List RekeyRow) → find (has_id id) (order_by_id xs) ≡ find (has_id id) xs
unfolding find order_by_id
find-order_by_id id [] = refl
find-order_by_id id (x ∷ xs) =
    ground (arith, find-insert_by_id id x (order_by_id xs), find-order_by_id id xs)

any-insert_by_id :
    (p : RekeyRow → Bool) (x : RekeyRow) (ys : List RekeyRow)
    → any p (insert_by_id x ys) ≡ (p x || any p ys)
unfolding insert_by_id
any-insert_by_id p x [] = refl
any-insert_by_id p x (y ∷ ys) = ground (arith, any-insert_by_id p x ys)

Distinct-insert_by_id :
    (x : RekeyRow) (ys : List RekeyRow)
    → any (same_row_id x) ys ≡ false
    → Distinct same_row_id ys
    → Distinct same_row_id (insert_by_id x ys)
unfolding insert_by_id
Distinct-insert_by_id x [] h d = (refl, tt)
Distinct-insert_by_id x (y ∷ ys) h d = elim (Bool-cases (leb x.id y.id)) [
  | inl before ↦ rw before (h, d)
  | inr after ↦ rw after (
    ground (arith, any-insert_by_id (same_row_id y) x ys),
    Distinct-insert_by_id x ys (ground arith) d.1,
  )
]

any-order_by_id : (p : RekeyRow → Bool) (xs : List RekeyRow) → any p (order_by_id xs) ≡ any p xs
unfolding order_by_id
any-order_by_id p [] = refl
any-order_by_id p (x ∷ xs) =
    ground (arith, any-insert_by_id p x (order_by_id xs), any-order_by_id p xs)

pub Distinct-order_by_id :
    (xs : List RekeyRow) → Distinct same_row_id xs → Distinct same_row_id (order_by_id xs)
unfolding order_by_id
Distinct-order_by_id [] d = tt
Distinct-order_by_id (x ∷ xs) d =
    Distinct-insert_by_id x (order_by_id xs) (any-order_by_id (same_row_id x) xs ∙ d.0)
      (Distinct-order_by_id xs d.1)

-- An id that no secret has is not in the join.
any-join_projects :
    (id : ℕ) (ps : List ProjectRow) (rows : List StoredSecret)
    → any (λ s. id == s.id) rows ≡ false
    → any (has_id id) (join_projects ps rows) ≡ false
unfolding join_projects join_row
any-join_projects id ps [] h = refl
any-join_projects id ps (r ∷ rows) h = ground (arith, any-join_projects id ps rows)

pub Distinct-join_projects :
    (ps : List ProjectRow) (rows : List StoredSecret)
    → Distinct same_id rows
    → Distinct same_row_id (join_projects ps rows)
unfolding join_projects join_row
Distinct-join_projects ps [] d = tt
Distinct-join_projects ps (r ∷ rows) d =
    ground (arith, any-join_projects r.id ps rows, Distinct-join_projects ps rows d.1)

pub find-none_of_any :
    (id : ℕ) (xs : List RekeyRow) → any (has_id id) xs ≡ false → find (has_id id) xs ≡ none
unfolding find
find-none_of_any id [] h = refl
find-none_of_any id (x ∷ xs) h = ground (arith, find-none_of_any id xs)

module _ (ps : List ProjectRow) where
  -- In a list of secrets with distinct ids, the join has under each id the row of its secret.
  abbrev pub Joins : List RekeyRow → StoredSecret → Type 0
  Joins xs r = find (has_id r.id) xs ≡ join_row ps r

  Joins-rest :
      (s : StoredSecret) (rows all : List StoredSecret)
      → any (same_id s) all ≡ false
      → All (Joins (join_projects ps rows)) all
      → All (Joins (join_projects ps (s ∷ rows))) all
  unfolding join_projects join_row find
  Joins-rest s rows [] h a = tt
  Joins-rest s rows (r ∷ all) h a = (ground arith, Joins-rest s rows all (ground arith) a.1)

  Joins-first :
      (s : StoredSecret) (rows : List StoredSecret)
      → any (same_id s) rows ≡ false
      → Joins (join_projects ps (s ∷ rows)) s
  unfolding join_projects join_row find
  Joins-first s rows h =
      ground
        (arith, any-join_projects s.id ps rows h, find-none_of_any s.id (join_projects ps rows))

  pub join_projects-Joins :
      (rows : List StoredSecret) → Distinct same_id rows → All (Joins (join_projects ps rows)) rows
  join_projects-Joins [] d = tt
  join_projects-Joins (s ∷ rows) d =
      (Joins-first s rows d.0, Joins-rest s rows rows d.0 (join_projects-Joins rows d.1))
