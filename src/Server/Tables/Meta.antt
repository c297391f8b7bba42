-- ===== src/Server/Tables/Meta.antt =====
-- The meta table after writes, and statements that ended well.
use secrets_manager.Prelude.{
  ◌≡◌, refl, Option, some, List, [], ◌∷◌, arith, if◌then◌else◌, Bytes, ◌=ᵇ◌, =ᵇ_iff,
}
use secrets_manager.Exec.{ok}
use secrets_manager.Server.State.{Tables, World, access, query, execute}
use secrets_manager.Server.Repo.{meta_value, with_meta, set_meta}

pub meta_value-with_meta :
    (k j v : Bytes) (m : List (Bytes × Bytes))
    → meta_value j (with_meta k v m) ≡ (if k =ᵇ j then some v else meta_value j m)
unfolding meta_value with_meta
meta_value-with_meta k j v [] = refl
meta_value-with_meta k j v ((i, u) ∷ m) =
    ground (arith, =ᵇ_iff i k, =ᵇ_iff i j, =ᵇ_iff k j, meta_value-with_meta k j v m)

-- A statement that ended well has run on the tables as they were.
pub execute-eq-ok :
    {A : Type 0} (write : Tables → Option (A × Tables)) (w w' : World) {a : A}
    → execute write w ≡ (ok a, w')
    → write w.tables ≡ some (a, w'.tables)
unfolding execute access
execute-eq-ok write w w' e = ground arith

pub query-eq-ok :
    {A : Type 0} (select : Tables → A) (w w' : World) {a : A}
    → query select w ≡ (ok a, w')
    → (a ≡ select w.tables) × (w'.tables ≡ w.tables)
unfolding query access
query-eq-ok select w w' e = ground arith

-- Where no access fails, a query gives what it selects and changes nothing.
pub query-ok :
    {A : Type 0} (select : Tables → A) (w : World)
    → w.faults ≡ []
    → query select w ≡ (ok (select w.tables), w)
unfolding query access
query-ok select w h = ground arith

pub set_meta-eq-ok :
    (k v : Bytes) (w w' : World)
    → set_meta k v w ≡ (ok tt, w')
    → w'.tables ≡ record w.tables { meta = with_meta k v w.tables.meta }
unfolding set_meta
set_meta-eq-ok k v w w' e = ground (
  arith,
  execute-eq-ok {A = Unit {0}} (λ t. some (tt, record t { meta = with_meta k v t.meta })) w w' e,
)
