-- ===== src/Prelude/BTree.antt =====
-- `BTreeMap<String, V>` of the standard library: an association list in the order of its keys.
use mathlib.Core.Path.{◌≡◌, refl}
use mathlib.Core.Option.{Option, none, some}
use mathlib.Core.List.{List, [], ◌∷◌}
use native.Mathlib.Omega.{arith}
use secrets_manager.Prelude.Tests.{if◌then◌else◌}
use secrets_manager.Prelude.ByteStrings.{Bytes, ◌=ᵇ◌, =ᵇ_iff, bytes_leb}

abbrev pub BTreeMap {ℓ} : Type ℓ → Type ℓ
BTreeMap V = List (Bytes × V)

module _ {ℓ} {V : Type ℓ} where
  unfoldable pub btree_get : Bytes → BTreeMap V → Option V
  btree_get k [] = none
  btree_get k ((j, v) ∷ m) = let rest = btree_get k m in if j =ᵇ k then some v else rest

  unfoldable pub btree_insert : Bytes → V → BTreeMap V → BTreeMap V
  btree_insert k v [] = (k, v) ∷ []
  btree_insert k v ((j, w) ∷ m) =
      let rest = btree_insert k v m in
      if j =ᵇ k then (k, v) ∷ m else if bytes_leb k j then (k, v) ∷ (j, w) ∷ m else (j, w) ∷ rest

  pub btree_get-insert :
      (k j : Bytes) (v : V) (m : BTreeMap V)
      → btree_get j (btree_insert k v m) ≡ (if k =ᵇ j then some v else btree_get j m)
  unfolding btree_get btree_insert
  btree_get-insert k j v [] = refl
  btree_get-insert k j v ((i, w) ∷ m) =
      ground (arith, =ᵇ_iff k j, =ᵇ_iff i k, =ᵇ_iff i j, btree_get-insert k j v m)
