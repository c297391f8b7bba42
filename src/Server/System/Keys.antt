-- ===== src/Server/System/Keys.antt =====
-- What a start and a rekey make of a database that no server has started on, or that is sound:
-- `init_or_verify` and `rekey` of crates/secrets-server/src/crypto_state.rs.
use secrets_manager.Prelude.{
  ℕ, ◌≡◌, refl, sym, subst, subst₂, ap, ◌∙◌, Option, none, some, [], inl, inr, Distinct, All, Bytes,
}
use secrets_manager.Exec.{Outcome, ok, err, panic, is_ok, fail, >>=-elim}
use secrets_manager.Crates.{Crates, AeadCorrect, AeadAuthentic}
use secrets_manager.Crypto.{MasterKey}
use secrets_manager.Server.State.{Tables, World}
use secrets_manager.Server.State.Endings.{map_err-eq-ok, refuse_if->>=-eq-ok}
use secrets_manager.Server.State.Moves.{Preorder, Moves, moves_rules, Moves-execute}
use secrets_manager.Server.State.Triples.{Triple, Ends}
use secrets_manager.Server.Repo.{with_meta, get_meta, set_meta}
use secrets_manager.Server.CryptoState.{
  StateError, k_salt, sql, set_key_meta, initialize_with_params, initialize, init_or_verify,
  current_key, rekey_with_params, rekey,
}
use secrets_manager.Server.CryptoState.Verifier.{get_meta-eq-ok}
use secrets_manager.Server.CryptoState.Passphrase.{initialize-KeyMeta, init_or_verify-own_key}
use secrets_manager.Server.CryptoState.Rollback.{init_or_verify-rollback, rekey-rollback}
use secrets_manager.Server.Soundness.{same_project_id, Readable, Sound}
use secrets_manager.Server.Handlers.Constraints.{same_name}
use secrets_manager.Server.Tables.Secrets.{same_key}
use secrets_manager.Server.CryptoState.Rows.{same_id}
use secrets_manager.Server.Soundness.Rekeys.{rekey-SoundSome}
use secrets_manager.Server.System.{Fresh, Whole}

-- The metadata aside, the tables stay as they are.
abbrev SameRows : Tables → Tables → Type 0
SameRows t u = (u.projects ≡ t.projects) × (u.secrets ≡ t.secrets)

SameRows-Preorder : Preorder SameRows
SameRows-Preorder = record { same = λ t. (refl, refl); then_to = λ p q. (q.0 ∙ p.0, q.1 ∙ p.1) }

set_meta-SameRows : (key value : Bytes) → Moves SameRows (set_meta key value)
unfolding set_meta
set_meta-SameRows key value =
    Moves-execute SameRows-Preorder {A = Unit {0}}
      (λ t. some (tt, record t { meta = with_meta key value t.meta })) λ t. (refl, refl)

module _ (lib : Crates) where
  initialize-SameRows : (passphrase : Bytes) → Moves SameRows (initialize lib passphrase)
  unfolding initialize initialize_with_params set_key_meta
  initialize-SameRows passphrase =
      search (moves_rules, SameRows-Preorder, set_meta-SameRows) depth 30

  initialize-Sound :
      (passphrase : Bytes) (key : MasterKey) (w w' : World)
      → Fresh w.tables
      → initialize lib passphrase w ≡ (ok key, w')
      → Sound lib key w'.tables
  initialize-Sound passphrase key w w' f e =
      let same : SameRows w.tables w'.tables =
        subst (λ p. SameRows w.tables p.1.tables) e ((initialize-SameRows passphrase).at w) in
      let projects : [] ≡ w'.tables.projects = sym (same.0 ∙ f.no_projects) in
      let secrets : [] ≡ w'.tables.secrets = sym (same.1 ∙ f.no_secrets) in
      record {
        passphrase = passphrase;
        verifier = initialize-KeyMeta lib passphrase key w w' e;
        unique = record {
          projects = subst (Distinct same_name) projects tt;
          secrets = subst (Distinct same_key) secrets tt;
        };
        project_ids = subst (Distinct same_project_id) projects tt;
        secret_ids = subst (Distinct same_id) secrets tt;
        readable = subst (All (Readable lib key w'.tables.projects)) secrets tt;
      }

  init_or_verify-Fresh :
      (passphrase : Bytes) (key : MasterKey) (w w' : World)
      → Fresh w.tables
      → init_or_verify lib passphrase w ≡ (ok key, w')
      → Sound lib key w'.tables
  unfolding init_or_verify
  init_or_verify-Fresh passphrase key w w' f e =
      >>=-elim (sql (get_meta k_salt)) _ w w' e λ stored w1 e1 r1.
        let (found, stay) =
          get_meta-eq-ok k_salt w w1 (map_err-eq-ok _ (get_meta k_salt) w w1 e1) in
        let ran : initialize lib passphrase w1 ≡ (ok key, w') = rw (sym found ∙ f.unsalted) at r1 in
        initialize-Sound passphrase key w1 w' (subst Fresh (sym stay) f) ran

  init_or_verify-Whole :
      (passphrase : Bytes) (key : MasterKey) (w w' : World)
      → AeadAuthentic lib
      → Whole lib w.tables
      → init_or_verify lib passphrase w ≡ (ok key, w')
      → Sound lib key w'.tables
  init_or_verify-Whole passphrase key w w' authentic (inl f) e =
      init_or_verify-Fresh passphrase key w w' f e
  init_or_verify-Whole passphrase key w w' authentic (inr (old_key, s)) e =
      let (same, stay) =
        init_or_verify-own_key lib s.passphrase passphrase old_key key w w' authentic s.verifier
          e in
      subst₂ (Sound lib) same (sym stay) s

  started-Ends :
      (passphrase : Bytes) (w : World) (r : Outcome StateError MasterKey × World)
      → AeadAuthentic lib
      → Whole lib w.tables
      → init_or_verify lib passphrase w ≡ r
      → Ends (Whole lib) (Sound lib) r
  started-Ends passphrase w (ok key, w') authentic s e =
      init_or_verify-Whole passphrase key w w' authentic s e
  started-Ends passphrase w (err x, w') authentic s e =
      subst (Whole lib)
        (sym (init_or_verify-rollback lib passphrase w (ap (λ p. is_ok p.0) e))
          ∙ ap (λ p. p.1.tables) e)
        s
  started-Ends passphrase w (panic, w') authentic s e =
      subst (Whole lib)
        (sym (init_or_verify-rollback lib passphrase w (ap (λ p. is_ok p.0) e))
          ∙ ap (λ p. p.1.tables) e)
        s

  -- A start that ends well leaves tables that are sound under the key that it returns.
  pub init_or_verify-Sound :
      (passphrase : Bytes)
      → AeadAuthentic lib
      → Triple (Whole lib) (Whole lib) (init_or_verify lib passphrase) (Sound lib)
  init_or_verify-Sound passphrase authentic = record {
    at = λ w s. started-Ends passphrase w (init_or_verify lib passphrase w) authentic s refl;
  }

  unsalted_refuses :
      (current : Bytes) (stored : Option Bytes) (w w' : World) {key : MasterKey}
      → stored ≡ none
      → current_key lib current stored w ≡ (ok key, w')
      → ⊥
  unfolding current_key fail
  unsalted_refuses current none w w' u e = cc (ap (λ p. p.0) e)
  unsalted_refuses current (some salt) w w' u e = cc u

  rekey-unsalted :
      (current new : Bytes) (n : ℕ) (w w' : World)
      → Fresh w.tables
      → rekey lib current new w ≡ (ok n, w')
      → ⊥
  unfolding rekey rekey_with_params
  rekey-unsalted current new n w w' f e =
      let (_, e') = refuse_if->>=-eq-ok _ _ _ w w' e in
      >>=-elim (sql (get_meta k_salt)) _ w w' e' λ stored w1 e1 r1.
        >>=-elim (current_key lib current stored) _ w1 w' r1 λ key w2 e2 r2.
          let (found, stay) =
            get_meta-eq-ok k_salt w w1 (map_err-eq-ok _ (get_meta k_salt) w w1 e1) in
          unsalted_refuses current stored w1 w2 (sym found ∙ f.unsalted) e2

  Fresh-rekey :
      (current new : Bytes) (w : World) (r : Outcome StateError ℕ × World)
      → Fresh w.tables
      → rekey lib current new w ≡ r
      → Fresh r.1.tables
  Fresh-rekey current new w (ok n, w') f e = elim (rekey-unsalted current new n w w' f e) [ ]
  Fresh-rekey current new w (err x, w') f e =
      subst Fresh
        (sym (rekey-rollback lib current new w (ap (λ p. is_ok p.0) e)) ∙ ap (λ p. p.1.tables) e) f
  Fresh-rekey current new w (panic, w') f e =
      subst Fresh
        (sym (rekey-rollback lib current new w (ap (λ p. is_ok p.0) e)) ∙ ap (λ p. p.1.tables) e) f

  Whole-rekey :
      (current new : Bytes) (w : World)
      → AeadCorrect lib
      → AeadAuthentic lib
      → Whole lib w.tables
      → Whole lib (rekey lib current new w).1.tables
  Whole-rekey current new w correct authentic (inl f) =
      inl (Fresh-rekey current new w (rekey lib current new w) f refl)
  Whole-rekey current new w correct authentic (inr (key, s)) =
      inr (rekey-SoundSome lib current new key w correct authentic s)

  pub rekey-Whole :
      (current new : Bytes)
      → AeadCorrect lib
      → AeadAuthentic lib
      → Moves (λ t u. Whole lib t → Whole lib u) (rekey lib current new)
  rekey-Whole current new correct authentic = record {
    at = λ w s. Whole-rekey current new w correct authentic s;
  }
