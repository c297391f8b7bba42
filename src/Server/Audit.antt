-- ===== src/Server/Audit.antt =====
-- The audit log, crates/secrets-server/src/audit.rs. A request is what the middleware reads of it;
-- the rest of its handling is an action that gives the status of the response, or panics.
pub mod Truncation
pub mod Entries
pub mod Requests
use secrets_manager.Prelude.{
  ℕ, zero, suc, Bool, true, false, Option, none, some, List, [], ◌∷◌, ◌++◌, ◌==◌, leb,
  if◌then◌else◌, length, take, Bytes, ascii, is_char_boundary,
}
use mathlib.Core.Option
use secrets_manager.Exec.{Outcome, ok, err, panic, Exec, ◌>>=◌}
use secrets_manager.Crates.{Crates}
use secrets_manager.Server.State.{World, Entry, access, now_rfc3339}
use secrets_manager.Server.Error.{AppError, into_response}
use secrets_manager.Server.Auth.{strip_prefix, resolve_token_name}

-- The loop: the last character boundary that is not after `end`.
unfoldable pub boundary_to : Bytes → ℕ → ℕ
boundary_to segment zero = zero
boundary_to segment (suc n) =
    let before = boundary_to segment n in if is_char_boundary segment (suc n) then suc n else before

unfoldable pub truncate_for_log : Bytes → Bytes
unfolding boundary_to
truncate_for_log segment =
    take (boundary_to segment (if leb (length segment) 64 then length segment else 64)) segment

-- `split('/').nth(n)`: the part of a path up to its next slash, after `n` of them.
unfoldable pub nth_segment : ℕ → Bytes → Option Bytes
nth_segment zero [] = some []
nth_segment (suc n) [] = none
nth_segment zero (c ∷ path) =
    let rest = nth_segment zero path in if c == b'/' then some [] else Option.map (λ s. c ∷ s) rest
nth_segment (suc n) (c ∷ path) =
    let next = nth_segment n path in
    let same = nth_segment (suc n) path in if c == b'/' then next else same

pub record Request : Type 0 where
  pub header : Option Bytes
  pub method : Bytes
  pub matched : Option Bytes
  pub path : Bytes

abbrev starts_with : Bytes → Bytes → Bool
starts_with text prefix = elim (strip_prefix prefix text) [ none ↦ false | some rest ↦ true ]

-- The project that the log shows.
unfoldable pub logged_project : Request → Option Bytes
unfolding nth_segment truncate_for_log strip_prefix
logged_project request = elim request.matched [
  | none ↦ none
  | some template ↦
      if starts_with template (ascii "/v1/projects/{name}")
      then Option.map truncate_for_log (nth_segment 3 request.path)
      else none
]

abbrev pub logged_path : Option Bytes → Bytes
logged_path none = ascii "(unmatched)"
logged_path (some template) = template

-- A line is appended; a failure to write it goes to stderr.
unfoldable pub append_entry : {E : Type 0} → Entry → Exec World E (Unit {0})
append_entry entry w =
    let (fault, w') = access w in
    if fault then (ok tt, w') else (ok tt, record w' { log = w'.log ++ entry ∷ [] })

module _ (lib : Crates) where
  unfoldable pub record_request :
      {E : Type 0} → Bytes → Bytes → Option Bytes → Option Bytes → ℕ → Exec World E (Unit {0})
  unfolding append_entry now_rfc3339
  record_request method path project token status = do
    ts ← now_rfc3339 lib
    append_entry (record {
      ts = ts;
      token = token;
      method = method;
      path = path;
      project = project;
      status = status;
    })

  unfoldable pub audit_middleware : {E : Type 0} → Request → Exec World E ℕ → Exec World E ℕ
  unfolding record_request resolve_token_name ◌>>=◌
  audit_middleware request next = resolve_token_name lib request.header >>= λ token.
      next >>= λ status.
      record_request request.method (logged_path request.matched) (logged_project request) token
        status
      >>= λ _. λ w. (ok status, w)

-- `IntoResponse` of a handler's result: the status.
abbrev pub response : {E A : Type 0} → (A → ℕ) → Outcome AppError A → Outcome E ℕ
response status (ok a) = ok (status a)
response status (err e) = ok (into_response e).0
response status panic = panic

unfoldable pub respond : {E A : Type 0} → (A → ℕ) → Exec World AppError A → Exec World E ℕ
unfolding into_response
respond status handler w = let (r, w') = handler w in (response status r, w')
