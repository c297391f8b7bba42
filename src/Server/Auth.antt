-- ===== src/Server/Auth.antt =====
-- Bearer tokens and scopes, crates/secrets-server/src/auth.rs. A header is what
-- `headers.get(AUTHORIZATION)?.to_str().ok()?` gives: the text, if there is one.
pub mod Scan
pub mod Revocation
pub mod Scopes
pub mod Issuance
use secrets_manager.Prelude.{
  ℕ, Bool, true, false, not, Option, none, some, List, [], ◌∷◌, ◌==◌, if◌then◌else◌, Bytes, ascii,
  ◌=ᵇ◌,
}
use mathlib.Core.Option
use secrets_manager.Exec.{
  Outcome, ok, err, panic, ok_or, to_option, Exec, pure, fail, lift, map_err, ◌>>=◌, ◌>>◌,
}
use secrets_manager.Crates.{Crates}
use secrets_manager.Crypto.{hash_token}
use secrets_manager.Server.State.{World, Sql}
use secrets_manager.Server.Repo.{AuthedToken, authenticate}
use secrets_manager.Server.Error.{AppError, unauthorized, forbidden, internal}

-- `str::strip_prefix`
unfoldable pub strip_prefix : Bytes → Bytes → Option Bytes
strip_prefix [] text = some text
strip_prefix (p ∷ ps) [] = none
strip_prefix (p ∷ ps) (c ∷ text) = let rest = strip_prefix ps text in if p == c then rest else none

abbrev non_empty : Bytes → Option Bytes
non_empty [] = none
non_empty (c ∷ token) = some (c ∷ token)

unfoldable pub extract_bearer : Option Bytes → Option Bytes
unfolding strip_prefix
extract_bearer none = none
extract_bearer (some value) = Option.bind (strip_prefix (ascii "Bearer ") value) non_empty

-- A panic while the guard is alive poisons the mutex.
abbrev pub released : {E A : Type 0} → Outcome E A × World → Outcome E A × World
released (ok a, w) = (ok a, w)
released (err e, w) = (err e, w)
released (panic, w) = (panic, record w { poisoned = true })

-- `let conn = state.db.lock().map_err(..)?;` and what runs while `conn` is alive.
unfoldable pub with_db : {E A : Type 0} → E → Exec World E A → Exec World E A
with_db e body w = if w.poisoned then (err e, w) else released (body w)

abbrev pub found_name : Outcome (Unit {0}) (Option AuthedToken) → Option Bytes
found_name r = Option.map (λ t. t.name) (Option.bind (to_option r) (λ t. t))

abbrev pub authed : Option AuthedToken → Outcome AppError AuthedToken
authed found = ok_or found unauthorized

module _ (lib : Crates) where
  -- The token's name for the audit log; errors count as no token.
  unfoldable pub resolve_token_name : {E : Type 0} → Option Bytes → Exec World E (Option Bytes)
  unfolding extract_bearer with_db hash_token
  resolve_token_name header w = elim (extract_bearer header) [
    | none ↦ (ok none, w)
    | some token ↦
        let (r, w') = with_db tt (map_err (λ _. tt) (authenticate lib (hash_token lib token))) w in
        (ok (found_name r), w')
  ]

  -- The extractor that runs before the handler.
  unfoldable pub from_request_parts : Option Bytes → Exec World AppError AuthedToken
  unfolding extract_bearer with_db hash_token
  from_request_parts header = do
    token ← lift (ok_or (extract_bearer header) unauthorized)
    with_db (internal (ascii "db lock poisoned")) do
      found ← map_err (λ _. internal (ascii "database")) (authenticate lib (hash_token lib token))
      lift (authed found)

-- A scoped token may only touch its own project.
unfoldable pub ensure_scope : AuthedToken → Bytes → Exec World AppError (Unit {0})
ensure_scope token project = elim token.scope [
  | none ↦ pure tt
  | some s ↦ if not (s =ᵇ project) then fail forbidden else pure tt
]

unfoldable pub ensure_admin : AuthedToken → Exec World AppError (Unit {0})
ensure_admin token = elim token.scope [ none ↦ pure tt | some s ↦ fail forbidden ]
