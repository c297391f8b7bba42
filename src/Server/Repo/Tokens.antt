-- ===== src/Server/Repo/Tokens.antt =====
-- The tokens table and authentication, crates/secrets-server/src/repo.rs.
use secrets_manager.Prelude.{
  ℕ, Bool, true, false, not, ◌&&◌, Option, none, some, List, [], ◌∷◌, ◌++◌, map, ◌==◌, ltb,
  if◌then◌else◌, keep, count_if, Bytes, ◌=ᵇ◌,
}
use secrets_manager.Exec.{pure, ◌>>=◌}
use secrets_manager.Crates.{Crates}
use secrets_manager.Crypto.{ct_eq}
use secrets_manager.Server.State.{TokenRow, Sql, query, execute, now_utc, now_rfc3339}
use secrets_manager.Server.Repo.Select.{order_by}

pub record TokenInfo : Type 0 where
  pub name : Bytes
  pub scope : Option Bytes
  pub created_at : Bytes
  pub revoked : Bool
  pub expires_at : Option Bytes

pub record AuthedToken : Type 0 where
  pub name : Bytes
  pub scope : Option Bytes

abbrev pub info_of_row : TokenRow → TokenInfo
info_of_row row = record {
  name = row.name;
  scope = row.project_scope;
  created_at = row.created_at;
  revoked = not (row.revoked == 0);
  expires_at = row.expires_at;
}

abbrev pub is_active : TokenRow → Bool
is_active row = row.revoked == 0

-- `name = ?1 AND revoked = 0`
abbrev pub is_active_named : Bytes → TokenRow → Bool
is_active_named name row = row.name =ᵇ name && is_active row

unfoldable pub revoke_rows : Bytes → List TokenRow → List TokenRow
revoke_rows name [] = []
revoke_rows name (row ∷ rows) =
    (if is_active_named name row then record row { revoked = 1 } else row) ∷ revoke_rows name rows

module _ (lib : Crates) where
  unfoldable pub insert_token : Bytes → Bytes → Option Bytes → Option Bytes → Sql (Unit {0})
  unfolding execute now_rfc3339
  insert_token name token_hash scope expires_at = do
    created_at ← now_rfc3339 lib
    execute λ t. some (
      tt,
      record t {
        tokens =
            t.tokens
            ++ record {
              id = lib.fresh_rowid (map (λ r. r.id) t.tokens);
              name = name;
              token_hash = token_hash;
              project_scope = scope;
              created_at = created_at;
              revoked = 0;
              expires_at = expires_at;
            }
              ∷ [];
      },
    )

unfoldable pub list_tokens : Sql (List TokenInfo)
unfolding query order_by
list_tokens = query (λ t. map info_of_row (order_by (λ r. r.created_at) t.tokens))

-- The number of rows that the UPDATE changes.
unfoldable pub revoke_token : Bytes → Sql ℕ
unfolding execute revoke_rows
revoke_token name = execute λ t.
    some (count_if (is_active_named name) t.tokens, record t { tokens = revoke_rows name t.tokens })

abbrev pub identity_of_row : TokenRow → AuthedToken
identity_of_row row = record { name = row.name; scope = row.project_scope }

module _ (lib : Crates) where
  -- The expiry check of the loop: text that is no timestamp counts as expired.
  unfoldable pub is_current : ℕ → Option Bytes → Bool
  is_current now none = true
  is_current now (some exp) = elim (lib.parse_rfc3339 exp) [ none ↦ false | some t ↦ ltb now t ]

  abbrev pub matches : Bytes → ℕ → TokenRow → Bool
  matches presented_hash now row =
      is_current now row.expires_at && ct_eq lib row.token_hash presented_hash

  -- The loop over the active tokens; the last match wins.
  unfoldable pub scan_tokens : Bytes → ℕ → List TokenRow → Option AuthedToken → Option AuthedToken
  scan_tokens presented_hash now [] found = found
  scan_tokens presented_hash now (row ∷ rows) found =
      scan_tokens presented_hash now rows
        (if matches presented_hash now row then some (identity_of_row row) else found)

  unfoldable pub authenticate : Bytes → Sql (Option AuthedToken)
  unfolding query now_utc scan_tokens
  authenticate presented_hash = do
    rows ← query (λ t. keep is_active t.tokens)
    now ← now_utc lib
    pure (scan_tokens presented_hash now rows none)
