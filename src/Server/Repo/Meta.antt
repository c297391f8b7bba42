-- ===== src/Server/Repo/Meta.antt =====
-- The meta table: `get_meta` and `set_meta` of crates/secrets-server/src/repo.rs.
use secrets_manager.Prelude.{Option, none, some, List, [], ◌∷◌, if◌then◌else◌, Bytes, ◌=ᵇ◌}
use secrets_manager.Server.State.{Sql, query, execute}

unfoldable pub meta_value : Bytes → List (Bytes × Bytes) → Option Bytes
meta_value key [] = none
meta_value key ((k, value) ∷ rows) =
    let rest = meta_value key rows in if k =ᵇ key then some value else rest

unfoldable pub with_meta : Bytes → Bytes → List (Bytes × Bytes) → List (Bytes × Bytes)
with_meta key value [] = (key, value) ∷ []
with_meta key value ((k, v) ∷ rows) =
    let rest = with_meta key value rows in if k =ᵇ key then (k, value) ∷ rows else (k, v) ∷ rest

unfoldable pub get_meta : Bytes → Sql (Option Bytes)
unfolding query
get_meta key = query (λ t. meta_value key t.meta)

unfoldable pub set_meta : Bytes → Bytes → Sql (Unit {0})
unfolding execute
set_meta key value = execute (λ t. some (tt, record t { meta = with_meta key value t.meta }))
