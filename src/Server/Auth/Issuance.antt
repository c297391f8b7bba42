-- ===== src/Server/Auth/Issuance.antt =====
-- Issuing tokens, `create_token` of crates/secrets-server/src/handlers.rs, and using them.
use mathlib.Core.Option
use secrets_manager.Prelude.{
  ℕ, ◌≡◌, refl, sym, ap, ◌∙◌, true, false, Option, none, some, List, [], ◌∷◌, ◌++◌, map, arith,
  keep, Bytes, ascii,
}
use secrets_manager.Exec.{ok, ◌>>=◌, >>=-elim}
use secrets_manager.Crates.{Crates, ComparesBytes}
use secrets_manager.Crypto.{hash_token, generate_token}
use secrets_manager.Crypto.Sealing.{ct_eq_iff}
use secrets_manager.Server.State.{
  Tables, World, TokenRow, SqlError, now_rfc3339, query, access, now_utc, on_draws,
}
use secrets_manager.Server.State.Endings.{
  map_err-eq-ok, refuse_if->>=-eq-ok, lift->>=-elim, pure-eq-ok,
}
use secrets_manager.Server.State.Moves.{Same-Preorder, now_rfc3339-Moves}
use secrets_manager.Server.Repo.{
  AuthedToken, is_active, is_current, scan_tokens, authenticate, insert_token,
}
use secrets_manager.Server.Tables.Meta.{execute-eq-ok}
use secrets_manager.Server.Auth.{
  from_request_parts, extract_bearer, strip_prefix, ensure_admin, with_db,
}
use secrets_manager.Server.Auth.Scan.{admits, scan_tokens-append}
use secrets_manager.Server.Handlers.Secrets.{Body, sql, db_lock}
use secrets_manager.Server.Handlers.Steps.{with_db-eq-ok}
use secrets_manager.Server.Handlers.Admin.{CreateTokenBody, CreatedToken, expiry, create_token}

module _ (lib : Crates) where
  abbrev token_row : Bytes → Bytes → Option Bytes → Option Bytes → Bytes → List TokenRow → TokenRow
  token_row name hash scope expires_at now rows = record {
    id = lib.fresh_rowid (map (λ r. r.id) rows);
    name = name;
    token_hash = hash;
    project_scope = scope;
    created_at = now;
    revoked = 0;
    expires_at = expires_at;
  }

  abbrev pub insertion :
      Bytes → Bytes → Option Bytes → Option Bytes → Bytes → Tables → Option (Unit {0} × Tables)
  insertion name hash scope expires_at now t =
      some (
        tt,
        record t { tokens = t.tokens ++ token_row name hash scope expires_at now t.tokens ∷ [] },
      )

  inserted-inj :
      (name hash : Bytes) (scope expires_at : Option Bytes) (now : Bytes) (t : Tables)
      {u : Unit {0}} {v : Tables}
      → insertion name hash scope expires_at now t ≡ some (u, v)
      → v ≡ record t { tokens = t.tokens ++ token_row name hash scope expires_at now t.tokens ∷ [] }
  inserted-inj name hash scope expires_at now t e = cc e

  insert_token-eq-ok :
      (name hash : Bytes) (scope expires_at : Option Bytes) (w w' : World) {u : Unit {0}}
      → insert_token lib name hash scope expires_at w ≡ (ok u, w')
      → (now : Bytes) × (w'.tables.tokens
          ≡ w.tables.tokens ++ token_row name hash scope expires_at now w.tables.tokens ∷ [])
  unfolding insert_token
  insert_token-eq-ok name hash scope expires_at w w' e =
      >>=-elim (now_rfc3339 lib) _ w w' e λ now w1 e1 r1.
        let ran : insertion name hash scope expires_at now w1.tables ≡ some (tt, w'.tables) =
          execute-eq-ok (insertion name hash scope expires_at now) w1 w' r1 in
        let stay : w1.tables ≡ w.tables =
          ap (λ p. p.1.tables) (sym e1)
          ∙ (now_rfc3339-Moves Same-Preorder {E = SqlError} lib).at w in
        (
          now,
          ap (λ t. t.tokens) (inserted-inj name hash scope expires_at now w1.tables ran)
              ∙ ap (λ t. t.tokens ++ token_row name hash scope expires_at now t.tokens ∷ []) stay,
        )

  create_token-eq-ok :
      (admin : AuthedToken) (body : Body CreateTokenBody) (created : CreatedToken) (w w' : World)
      → create_token lib admin body w ≡ (ok created, w')
      → (now : Bytes) × (rows : List TokenRow) × (w'.tables.tokens
          ≡ rows
            ++ token_row created.name
                (hash_token lib created.token)
                created.scope
                created.expires_at
                now
                rows
              ∷ [])
  unfolding create_token
  create_token-eq-ok admin body created w w' e =
      >>=-elim (ensure_admin admin) _ w w' e λ _ w1 e1 r1. lift->>=-elim _ _ w1 w' r1 λ b same r2.
        let (_, r3) = refuse_if->>=-eq-ok _ _ _ w1 w' r2 in
        let (_, r4) = refuse_if->>=-eq-ok _ _ _ w1 w' r3 in
        let (_, r5) = refuse_if->>=-eq-ok _ _ _ w1 w' r4 in
        >>=-elim (expiry lib b.no_expiry b.ttl_days) _ w1 w' r5 λ expires_at w2 e2 r6.
          >>=-elim (on_draws (generate_token lib)) _ w2 w' r6 λ new_token w3 e3 r7.
            >>=-elim
              (with_db db_lock
                (sql (insert_token lib b.name (hash_token lib new_token) b.project expires_at)))
              _ w3 w' r7
              λ _ w4 e4 r8.
                let (_, e5) = with_db-eq-ok db_lock _ w3 w4 e4 in
                let (now, eq) =
                  insert_token-eq-ok b.name (hash_token lib new_token) b.project expires_at w3 w4 (
                    map_err-eq-ok _
                      (insert_token lib b.name (hash_token lib new_token) b.project expires_at) w3
                      w4 e5) in
                let (shown, stay) = pure-eq-ok _ w4 w' r8 in
                (
                  now,
                  w3.tables.tokens,
                  ap (λ x. x.tables.tokens) (sym stay)
                      ∙ (eq
                          ∙ ap
                              (λ c.
                                w3.tables.tokens
                                ++ token_row c.name (hash_token lib c.token) c.scope c.expires_at
                                    now w3.tables.tokens
                                  ∷ [])
                              shown),
                )

  token_row-admits :
      (name token now : Bytes) (scope expires_at : Option Bytes) (at : ℕ) (rows : List TokenRow)
      → ComparesBytes lib
      → is_current lib at expires_at ≡ true
      → admits lib
          (hash_token lib token)
          at
          (token_row name (hash_token lib token) scope expires_at now rows)
        ≡ true
  token_row-admits name token now scope expires_at at rows laws current =
      rw (current, (ct_eq_iff lib (hash_token lib token) (hash_token lib token) laws).1 refl) refl

extract_bearer-non_empty :
    (token : Bytes) → ¬ (token ≡ []) → extract_bearer (some (ascii "Bearer " ++ token)) ≡ some token
unfolding extract_bearer strip_prefix Option.bind
extract_bearer-non_empty [] h = elim (h refl) [ ]
extract_bearer-non_empty (c ∷ token) h = refl

from_request_parts-ok :
    (lib : Crates) (header : Option Bytes) (secret : Bytes) (token : AuthedToken) (w : World)
    → extract_bearer header ≡ some secret
    → w.faults ≡ []
    → w.poisoned ≡ false
    → scan_tokens lib
        (hash_token lib secret)
        (lib.now_utc w.ticks)
        (keep is_active w.tables.tokens)
        none
      ≡ some token
    → (from_request_parts lib header w).0 ≡ ok token
unfolding from_request_parts authenticate with_db query access now_utc ◌>>=◌
from_request_parts-ok lib header secret token w given fine free found = ground arith

-- A token that was just created lets its bearer in, under the name and with the scope it was created
-- with, as long as it has not expired (or has no expiry), it is not the empty text, and neither the
-- mutex nor the database fails; tokens created earlier do not get in the way.
pub create_token-from_request_parts :
    (lib : Crates) (admin : AuthedToken) (body : Body CreateTokenBody) (created : CreatedToken)
    (w w' : World)
    → ComparesBytes lib
    → create_token lib admin body w ≡ (ok created, w')
    → ¬ (created.token ≡ [])
    → is_current lib (lib.now_utc w'.ticks) created.expires_at ≡ true
    → w'.faults ≡ []
    → w'.poisoned ≡ false
    → (from_request_parts lib (some (ascii "Bearer " ++ created.token)) w').0
      ≡ ok (record { name = created.name; scope = created.scope })
create_token-from_request_parts lib admin body created w w' laws e given current fine free =
    let (now, rows, eq) = create_token-eq-ok lib admin body created w w' e in
    let header = extract_bearer-non_empty created.token given in
    let found : scan_tokens lib (hash_token lib created.token) (lib.now_utc w'.ticks)
          (keep is_active w'.tables.tokens) none
        ≡ some (record { name = created.name; scope = created.scope }) =
      rw eq (
        scan_tokens-append lib (hash_token lib created.token) (lib.now_utc w'.ticks) rows _ none (
          token_row-admits lib created.name created.token now created.scope created.expires_at
            (lib.now_utc w'.ticks) rows laws current)) in
    from_request_parts-ok lib _ created.token _ w' header fine free found
