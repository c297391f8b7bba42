-- ===== src/Server/Auth/Revocation.antt =====
-- Revoking tokens, `revoke_token` of crates/secrets-server/src/handlers.rs, and the requests after it.
use secrets_manager.Prelude.{
  ℕ, ◌≡◌, sym, subst, ap, ◌∙◌, true, false, Option, none, some, List, [], ◌∷◌, arith, count_if, All,
  Bytes, =ᵇ_iff, Bool-cases, inl, inr,
}
use secrets_manager.Exec.{ok, pure, fail, >>=-elim}
use secrets_manager.Crates.{Crates}
use secrets_manager.Server.State.{Tables, World, TokenRow}
use secrets_manager.Server.State.Endings.{map_err-eq-ok, refuse_if->>=-eq-ok}
use secrets_manager.Server.Repo.{AuthedToken, is_active_named, revoke_rows, revoke_token}
use secrets_manager.Server.Tables.Meta.{execute-eq-ok}
use secrets_manager.Server.Auth.{from_request_parts, ensure_admin}
use secrets_manager.Server.Auth.Scan.{admits, from_request_parts-eq-ok}
use secrets_manager.Server.Handlers.Secrets.{db_lock}
use secrets_manager.Server.Handlers.Steps.{with_db-eq-ok}
use secrets_manager.Server.Handlers.Admin.{revoke_token_handler}

-- No row with the name is active.
abbrev pub Off : Bytes → TokenRow → Type 0
Off name row = is_active_named name row ≡ false

revoke_rows-Off : (name : Bytes) (rows : List TokenRow) → All (Off name) (revoke_rows name rows)
unfolding revoke_rows
revoke_rows-Off name [] = tt
revoke_rows-Off name (row ∷ rows) = elim (Bool-cases (is_active_named name row)) [
  | inl on ↦ rw on (ground arith, revoke_rows-Off name rows)
  | inr off ↦ rw off (off, revoke_rows-Off name rows)
]

abbrev pub revocation : Bytes → Tables → Option (ℕ × Tables)
revocation name t =
    some (count_if (is_active_named name) t.tokens, record t { tokens = revoke_rows name t.tokens })

revocation-inj :
    (name : Bytes) (t : Tables) {n : ℕ} {u : Tables}
    → revocation name t ≡ some (n, u)
    → (count_if (is_active_named name) t.tokens ≡ n)
      × (u ≡ record t { tokens = revoke_rows name t.tokens })
revocation-inj name t e = (cc e, cc e)

active-not_Off :
    (lib : Crates) (name hash : Bytes) (now : ℕ) (row : TokenRow)
    → Off name row
    → admits lib hash now row ≡ true
    → ¬ (row.name ≡ name)
active-not_Off lib name hash now row off hit same = ground (arith, =ᵇ_iff row.name name)

-- The administrator's check lets a token without scope pass.
pub ensure_admin-eq-ok :
    (admin : AuthedToken) (w w' : World) {u : Unit {0}}
    → ensure_admin admin w ≡ (ok u, w')
    → (admin.scope ≡ none) × (w ≡ w')
unfolding ensure_admin pure fail
ensure_admin-eq-ok admin w w' e = ground arith

pub revoke_token_handler-eq-ok :
    (admin : AuthedToken) (name : Bytes) (n : ℕ) (w w' : World)
    → revoke_token_handler admin name w ≡ (ok n, w')
    → (n ≡ count_if (is_active_named name) w.tables.tokens)
      × (w'.tables ≡ record w.tables { tokens = revoke_rows name w.tables.tokens })
unfolding revoke_token_handler revoke_token
revoke_token_handler-eq-ok admin name n w w' e =
    >>=-elim (ensure_admin admin) _ w w' e λ _ w1 e1 r1.
      let (_, e2) = refuse_if->>=-eq-ok _ _ _ w1 w' r1 in
      let (_, e3) = with_db-eq-ok db_lock _ w1 w' e2 in
      let ran : revocation name w1.tables ≡ some (n, w'.tables) =
        execute-eq-ok (revocation name) w1 w' (map_err-eq-ok _ (revoke_token name) w1 w' e3) in
      let (_, stay) = ensure_admin-eq-ok admin w w1 e1 in
      let same : w1.tables ≡ w.tables = ap (λ x. x.tables) (sym stay) in
      let (counted, left) = revocation-inj name w1.tables ran in
      (
        sym counted ∙ ap (λ t. count_if (is_active_named name) t.tokens) same,
        left ∙ ap {B = Tables} (λ t. record t { tokens = revoke_rows name t.tokens }) same,
      )

-- Once a token name has been revoked, by a request that an administrator's token made and that
-- answered with the number of active tokens of that name, no request authenticates as that name,
-- whatever header it has.
pub revoke_token-from_request_parts :
    (lib : Crates) (admin : AuthedToken) (name : Bytes) (n : ℕ) (header : Option Bytes)
    (token : AuthedToken) (w w' w'' : World)
    → revoke_token_handler admin name w ≡ (ok n, w')
    → from_request_parts lib header w' ≡ (ok token, w'')
    → (n ≡ count_if (is_active_named name) w.tables.tokens) × (¬ (token.name ≡ name))
revoke_token-from_request_parts lib admin name n header token w w' w'' e f =
    let (counted, left) = revoke_token_handler-eq-ok admin name n w w' e in
    let off : All (Off name) w'.tables.tokens =
      subst (λ t. All (Off name) t.tokens) (sym left) (revoke_rows-Off name w.tables.tokens) in
    let (secret, row, _, is_off, hit, same) =
      from_request_parts-eq-ok lib (Off name) header w' w'' off f in
    (
      counted,
      λ named. active-not_Off lib name _ _ row is_off hit (sym (ap (λ t. t.name) same) ∙ named),
    )
