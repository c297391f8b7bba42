-- ===== src/Server/Auth/Scan.antt =====
-- Which token `authenticate` of crates/secrets-server/src/repo.rs finds.
use secrets_manager.Prelude.{
  ℕ, ◌≡◌, sym, ap, ◌∙◌, Bool, true, ◌&&◌, Option, none, some, List, [], ◌∷◌, ◌++◌, arith,
  if◌then◌else◌, keep, All, Bytes, ascii, Bool-cases, ◌⊎◌, inl, inr,
}
use secrets_manager.Exec.{ok, Exec, lift, map_err, ◌>>=◌, >>=-elim}
use secrets_manager.Crates.{Crates}
use secrets_manager.Crypto.{hash_token}
use secrets_manager.Server.State.{Tables, World, TokenRow, access, query, now_utc}
use secrets_manager.Server.State.Endings.{
  pure-eq-ok, ok_or-eq-ok, lift-eq-ok, map_err-eq-ok, lift->>=-elim,
}
use secrets_manager.Server.Repo.{
  AuthedToken, is_active, matches, identity_of_row, scan_tokens, authenticate,
}
use secrets_manager.Server.Error.{AppError, unauthorized, internal}
use secrets_manager.Server.Tables.Meta.{query-eq-ok}
use secrets_manager.Server.Auth.{extract_bearer, from_request_parts, authed}
use secrets_manager.Server.Handlers.Steps.{with_db-eq-ok}

query-ticks :
    {A : Type 0} (select : Tables → A) (w w' : World) {a : A}
    → query select w ≡ (ok a, w')
    → w'.ticks ≡ w.ticks
unfolding query access
query-ticks select w w' e = ground arith

module _ (lib : Crates) where
  -- A row that lets the token with a hash in at an instant.
  abbrev pub admits : Bytes → ℕ → TokenRow → Bool
  admits hash now row = is_active row && matches lib hash now row

  abbrev found_after : Bytes → ℕ → TokenRow → Option AuthedToken → Option AuthedToken
  found_after hash now row found = if admits hash now row then some (identity_of_row row) else found

  scan_tokens-cons :
      (hash : Bytes) (now : ℕ) (row : TokenRow) (rows : List TokenRow) (found : Option AuthedToken)
      → scan_tokens lib hash now (keep is_active (row ∷ rows)) found
        ≡ scan_tokens lib hash now (keep is_active rows) (found_after hash now row found)
  unfolding scan_tokens
  scan_tokens-cons hash now row rows found = ground arith

  -- A scan finds what it had, or the identity of a row that admits.
  pub scan_tokens-eq-some :
      (P : TokenRow → Type 0) (hash : Bytes) (now : ℕ) (rows : List TokenRow)
      (found : Option AuthedToken) {token : AuthedToken}
      → All P rows
      → scan_tokens lib hash now (keep is_active rows) found ≡ some token
      → (found ≡ some token)
        ⊎ ((row : TokenRow) × P row × (admits hash now row ≡ true) × (token ≡ identity_of_row row))
  unfolding scan_tokens
  scan_tokens-eq-some P hash now [] found h e = inl e
  scan_tokens-eq-some P hash now (row ∷ rows) found h e =
      elim (scan_tokens-eq-some P hash now rows (found_after hash now row found) h.1
        (sym (scan_tokens-cons hash now row rows found) ∙ e)) [
          | inr later ↦ inr later
          | inl here ↦ elim (Bool-cases (admits hash now row)) [
            | inl hit ↦ inr (row, h.0, hit, cc (rw hit at here))
            | inr miss ↦ inl (rw miss at here)
          ]
        ]

  -- The last row wins.
  pub scan_tokens-append :
      (hash : Bytes) (now : ℕ) (rows : List TokenRow) (row : TokenRow) (found : Option AuthedToken)
      → admits hash now row ≡ true
      → scan_tokens lib hash now (keep is_active (rows ++ row ∷ [])) found
        ≡ some (identity_of_row row)
  unfolding scan_tokens
  scan_tokens-append hash now [] row found h = ground arith
  scan_tokens-append hash now (r ∷ rows) row found h =
      scan_tokens-cons hash now r (rows ++ row ∷ []) found
      ∙ scan_tokens-append hash now rows row (found_after hash now r found) h

  now_utc-eq-ok :
      {E : Type 0} (w w' : World) {now : ℕ}
      → now_utc lib {E = E} w ≡ (ok now, w')
      → (lib.now_utc w.ticks ≡ now) × (w'.tables ≡ w.tables)
  unfolding now_utc
  now_utc-eq-ok w w' e = (cc (ap (λ p. p.0) e), sym (ap (λ p. p.1.tables) e))

  abbrev lookup : Bytes → Exec World AppError AuthedToken
  lookup secret = do
    found ← map_err (λ _. internal (ascii "database")) (authenticate lib (hash_token lib secret))
    lift (authed found)

  -- Who a request with a token turns out to be: the bearer of an active row that has the token's
  -- hash and has not expired.
  pub from_request_parts-eq-ok :
      (P : TokenRow → Type 0) (header : Option Bytes) (w w' : World) {token : AuthedToken}
      → All P w.tables.tokens
      → from_request_parts lib header w ≡ (ok token, w')
      → (secret : Bytes) × (row : TokenRow) × (extract_bearer header ≡ some secret)
        × P row
        × (admits (hash_token lib secret) (lib.now_utc w.ticks) row ≡ true)
        × (token ≡ identity_of_row row)
  unfolding from_request_parts authenticate
  from_request_parts-eq-ok P header w w' {token = token} h e =
      lift->>=-elim _ _ w w' e λ secret given e1.
        let (_, e2) = with_db-eq-ok (internal (ascii "db lock poisoned")) (lookup secret) w w' e1 in
        >>=-elim (map_err _ (authenticate lib (hash_token lib secret))) _ w w' e2 λ found w1 e3 r3.
          >>=-elim (query (λ t. keep is_active t.tokens)) _ w w1 (map_err-eq-ok _ _ w w1 e3)
            λ rows w2 e4 r4. >>=-elim (now_utc lib) _ w2 w1 r4 λ now w3 e5 r5.
              let (selected, _) = query-eq-ok (λ t. keep is_active t.tokens) w w2 e4 in
              let (read_at, _) = now_utc-eq-ok w2 w3 e5 in
              let hash = hash_token lib secret in
              let scanned : scan_tokens lib hash (lib.now_utc w.ticks)
                    (keep is_active w.tables.tokens) none
                  ≡ some token =
                (λ i.
                  scan_tokens lib hash
                    ((sym (ap lib.now_utc (query-ticks (λ t. keep is_active t.tokens) w w2 e4))
                        ∙ read_at)
                      i)
                    (sym selected i) none)
                ∙ ((pure-eq-ok _ w3 w1 r5).0
                    ∙ ok_or-eq-ok found unauthorized (lift-eq-ok (authed found) w1 w' r3).0) in
              elim (scan_tokens-eq-some P hash (lib.now_utc w.ticks) w.tables.tokens none h
                scanned) [
                  | inl start ↦ cc start
                  | inr (row, p, hit, same) ↦ (
                    secret,
                    row,
                    ok_or-eq-ok (extract_bearer header) unauthorized given,
                    p,
                    hit,
                    same,
                  )
                ]
