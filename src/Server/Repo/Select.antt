-- ===== src/Server/Repo/Select.antt =====
-- What the SELECT statements of crates/secrets-server/src/repo.rs share: ORDER BY and LIMIT 1.
use secrets_manager.Prelude.{
  Bool, Option, none, some, List, [], ◌∷◌, if◌then◌else◌, Bytes, bytes_leb,
}

-- ORDER BY a text column: insertion sort.
module _ {ℓ} {A : Type ℓ} (column : A → Bytes) where
  unfoldable pub insert_by : A → List A → List A
  insert_by x [] = x ∷ []
  insert_by x (y ∷ ys) =
      let rest = insert_by x ys in if bytes_leb (column x) (column y) then x ∷ y ∷ ys else y ∷ rest

  unfoldable pub order_by : List A → List A
  unfolding insert_by
  order_by [] = []
  order_by (x ∷ xs) = insert_by x (order_by xs)

-- The first element that passes a test.
unfoldable pub find {ℓ} : {A : Type ℓ} → (A → Bool) → List A → Option A
find p [] = none
find p (x ∷ xs) = let rest = find p xs in if p x then some x else rest
