-- ===== src/Server/Handlers/Writing.antt =====
-- What `put_secret` of crates/secrets-server/src/handlers.rs has done when it ends well.
use mathlib.Core.Option
use secrets_manager.Prelude.{
  ℕ, ◌≡◌, sym, ap, ◌∙◌, ◌&&◌, Option, some, List, ◌==◌, if◌then◌else◌, Distinct, Option-cases, inl,
  inr, Bytes, ◌=ᵇ◌,
}
use secrets_manager.Exec.{ok, map_err, >>=-elim}
use secrets_manager.Crates.{Crates}
use secrets_manager.Crypto.{MasterKey, aad_bytes, encrypt}
use secrets_manager.Crypto.Sealing.{Sealed, encrypt-Sealed}
use secrets_manager.Server.State.{
  Tables, World, StoredSecret, SqlError, sqlite, on_draws, query, execute, now_rfc3339,
}
use secrets_manager.Server.State.Endings.{
  map_err-eq-ok, lift-eq-ok, ok_or-eq-ok, lift->>=-elim, refuse_if->>=-eq-ok, pure-eq-ok,
  on_draws-eq-ok,
}
use secrets_manager.Server.State.Moves.{Same-Preorder, now_rfc3339-Moves}
use secrets_manager.Server.Repo.{AuthedToken, find, named, at_key, upserted, upsert_secret}
use secrets_manager.Server.Tables.Meta.{execute-eq-ok, query-eq-ok}
use secrets_manager.Server.Tables.Secrets.{same_key}
use secrets_manager.Server.Tables.Writes.{held, sealed_row, held-upserted, Distinct-upserted}
use secrets_manager.Server.Handlers.Secrets.{
  sql, db_lock, require_project, store_secret, put_secret,
}
use secrets_manager.Server.Handlers.Steps.{
  InScope, ensure_scope-elim, with_db-eq-ok, require_project-eq-ok,
}

-- The tables after the secrets became `rows`.
abbrev pub with_secrets : List StoredSecret → Tables → Tables
with_secrets rows t = record t { secrets = rows }

module _ (lib : Crates) where
  abbrev pub written : ℕ → Bytes → Bytes → Bytes → Bytes → Tables → Option (Unit {0} × Tables)
  written pid key nonce ct now t =
      Option.map (λ rows. (tt, record t { secrets = rows }))
        (upserted lib pid key nonce ct now t.projects t.secrets)

  written-eq-some :
      (pid : ℕ) (key nonce ct now : Bytes) (t t' : Tables) {u : Unit {0}}
      → written pid key nonce ct now t ≡ some (u, t')
      → (rows : List StoredSecret) × (upserted lib pid key nonce ct now t.projects t.secrets
          ≡ some rows)
        × (t' ≡ with_secrets rows t)
  written-eq-some pid key nonce ct now t t' e =
      elim (Option-cases (upserted lib pid key nonce ct now t.projects t.secrets)) [
        | inl failed ↦ cc (rw failed at e)
        | inr (rows, up) ↦ (rows, up, cc (rw up at e))
      ]

  upsert_secret-eq-ok :
      (pid : ℕ) (key nonce ct : Bytes) (w w' : World) {v : ℕ}
      → upsert_secret lib pid key nonce ct w ≡ (ok v, w')
      → (now : Bytes) × (rows : List StoredSecret) × (upserted lib pid key nonce ct now
            w.tables.projects w.tables.secrets
          ≡ some rows)
        × (w'.tables ≡ with_secrets rows w.tables)
        × (Option.map (λ row. row.version) (find (at_key pid key) rows) ≡ some v)
  unfolding upsert_secret
  upsert_secret-eq-ok pid key nonce ct w w' e = >>=-elim (now_rfc3339 lib) _ w w' e λ now w1 e1 r1.
      >>=-elim (execute (written pid key nonce ct now)) _ w1 w' r1 λ _ w2 e2 r2.
        >>=-elim (query (λ t. find (at_key pid key) t.secrets)) _ w2 w' r2 λ found w3 e3 r3.
          let (rows, up, eq) =
            written-eq-some pid key nonce ct now w1.tables w2.tables
              (execute-eq-ok (written pid key nonce ct now) w1 w2 e2) in
          let stay1 : w1.tables ≡ w.tables =
            ap (λ p. p.1.tables) (sym e1)
            ∙ (now_rfc3339-Moves Same-Preorder {E = SqlError} lib).at w in
          let (selected, stay3) = query-eq-ok (λ t. find (at_key pid key) t.secrets) w2 w3 e3 in
          let (version, stay4) = lift-eq-ok _ w3 w' r3 in
          let same : find (at_key pid key) rows ≡ found =
            ap (λ t. find (at_key pid key) t.secrets) (sym eq) ∙ sym selected in
          (
            now,
            rows,
            ap (λ t. upserted lib pid key nonce ct now t.projects t.secrets) (sym stay1) ∙ up,
            ap (λ x. x.tables) (sym stay4) ∙ (stay3 ∙ (eq ∙ ap (with_secrets rows) stay1)),
            ap (Option.map (λ row. row.version)) same ∙ ok_or-eq-ok _ sqlite version,
          )

module _ (lib : Crates) (state_key : MasterKey) (name key value : Bytes) where
  -- What a successful PUT has done to the tables.
  pub record Puts (token : AuthedToken) (version : ℕ) (w w' : World) : Type 0 where
    pub pid : ℕ
    pub nonce : Bytes
    pub ct : Bytes
    pub draws : ℕ
    pub project : Option.map (λ p. p.id) (find (named name) w.tables.projects) ≡ some pid
    pub allowed : InScope token name
    pub sealed : Sealed lib state_key value (aad_bytes name key) nonce ct draws
    pub secrets :
        (q : ℕ) (j : Bytes)
        → held q j w'.tables.secrets ≡ (
            if pid == q && key =ᵇ j
            then some (sealed_row key nonce ct)
            else held q j w.tables.secrets)
    pub distinct : Distinct same_key w.tables.secrets → Distinct same_key w'.tables.secrets
    pub others : w'.tables ≡ with_secrets w'.tables.secrets w.tables
    pub current :
        Option.map (λ row. row.version) (find (at_key pid key) w'.tables.secrets) ≡ some version

  store_secret-Puts :
      (token : AuthedToken) (key' : Bytes) (version : ℕ) (w w' : World)
      → InScope token name
      → store_secret lib state_key name key value w ≡ (ok (key', version), w')
      → Puts token version w w'
  unfolding store_secret
  store_secret-Puts token key' version w w' allowed e =
      >>=-elim (require_project name) _ w w' e λ pid w1 e1 r1.
        >>=-elim (map_err _ (on_draws (encrypt lib state_key value (aad_bytes name key)))) _ w1 w'
          r1
          λ sealed w2 e2 r2.
            >>=-elim (sql (upsert_secret lib pid key sealed.0 sealed.1)) _ w2 w' r2 λ v w3 e3 r3.
              let (found, stay1) = require_project-eq-ok name w w1 e1 in
              let (ran, stay2) = on_draws-eq-ok _ w1 w2 (map_err-eq-ok _ _ w1 w2 e2) in
              let (s, _) =
                encrypt-Sealed lib state_key value (aad_bytes name key) sealed.0 sealed.1 w1.draws
                  w2.draws ran in
              let (now, rows, up, eq, current) =
                upsert_secret-eq-ok lib pid key sealed.0 sealed.1 w2 w3
                  (map_err-eq-ok _ _ w2 w3 e3) in
              let (pair, stay3) = pure-eq-ok (key, v) w3 w' r3 in
              let before : w2.tables ≡ w.tables = stay2 ∙ stay1 in
              let after : w'.tables ≡ with_secrets rows w.tables =
                ap (λ x. x.tables) (sym stay3) ∙ (eq ∙ ap (with_secrets rows) before) in
              let now_rows : rows ≡ w'.tables.secrets = ap (λ t. t.secrets) (sym after) in
              let up' : upserted lib pid key sealed.0 sealed.1 now w.tables.projects
                    w.tables.secrets
                  ≡ some w'.tables.secrets =
                ap (λ t. upserted lib pid key sealed.0 sealed.1 now t.projects t.secrets)
                  (sym before)
                ∙ (up ∙ ap some now_rows) in
              record {
                pid = pid;
                nonce = sealed.0;
                ct = sealed.1;
                draws = w1.draws;
                project = found;
                allowed = allowed;
                sealed = s;
                secrets = λ q j.
                    held-upserted lib pid key sealed.0 sealed.1 now w.tables.projects q j
                      w.tables.secrets w'.tables.secrets up';
                distinct =
                    Distinct-upserted lib pid key sealed.0 sealed.1 now w.tables.projects
                      w.tables.secrets w'.tables.secrets up';
                others = after ∙ ap (λ rs. with_secrets rs w.tables) now_rows;
                current =
                    ap (λ rs. Option.map (λ row. row.version) (find (at_key pid key) rs))
                      (sym now_rows)
                    ∙ (current ∙ ap (λ p. some p.1) pair);
              }

  pub put_secret-Puts :
      (token : AuthedToken) (key' : Bytes) (version : ℕ) (w w' : World)
      → put_secret lib state_key token name key (ok value) w ≡ (ok (key', version), w')
      → Puts token version w w'
  unfolding put_secret
  put_secret-Puts token key' version w w' e = lift->>=-elim _ _ w w' e λ body same_body e0.
      let (_, e1) = refuse_if->>=-eq-ok _ _ _ w w' e0 in
      ensure_scope-elim token name _ w w' e1 λ allowed e2.
        let (_, e3) = refuse_if->>=-eq-ok _ _ _ w w' e2 in
        let (_, e4) = with_db-eq-ok db_lock _ w w' e3 in
        let same : body ≡ value = cc same_body in
        store_secret-Puts token key' version w w' allowed
          ((λ i. store_secret lib state_key name key (sym same i) w) ∙ e4)
