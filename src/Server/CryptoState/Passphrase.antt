-- ===== src/Server/CryptoState/Passphrase.antt =====
-- Which passphrases the server accepts, `init_or_verify`.
use secrets_manager.Prelude.{ℕ, ◌≡◌, sym, ap, subst, subst₂, ◌∙◌, some, [], Bytes}
use secrets_manager.Exec.{ok, map_err, ◌>>=◌, >>=-elim}
use secrets_manager.Crates.{Crates, AeadCorrect, AeadAuthentic}
use secrets_manager.Crypto.{strong, MasterKey, derive_key, decrypt, encrypt, generate_salt}
use secrets_manager.Crypto.Sealing.{Sealed, encrypt-Sealed, decrypt-Sealed, decrypt-Sealed_only}
use secrets_manager.Server.State.{World, on_draws, transaction}
use secrets_manager.Server.State.Endings.{
  lift->>=-elim, map_err-eq-ok, map_error-eq-ok, on_draws-eq-ok, transaction-elim, pure-eq-ok,
}
use secrets_manager.Server.Repo.{meta_value, get_meta}
use secrets_manager.Server.CryptoState.{
  database, crypto, sql, sentinel, verifier_aad, k_salt, k_m, k_t, k_p, k_vnonce, k_vct,
  get_required, required_u32, set_key_meta, verify, initialize_with_params, initialize,
  init_or_verify,
}
use secrets_manager.Server.CryptoState.Verifier.{
  KeyMeta, key_meta-KeyMeta, set_key_meta-eq-ok, get_meta-ok, get_required-ok, required_u32-ok,
  get_meta-eq-ok, get_required-eq-ok, required_u32-eq-ok,
}

module _ (lib : Crates) where
  verify-of_KeyMeta :
      (passphrase : Bytes) (key : MasterKey) (w : World)
      → AeadCorrect lib
      → w.faults ≡ []
      → (k : KeyMeta lib passphrase key w.tables) → verify lib passphrase k.salt w ≡ (ok key, w)
  unfolding verify ◌>>=◌ derive_key
  verify-of_KeyMeta passphrase key w correct h k = simp (
    required_u32-ok k_m k.params.m_cost_kib w h k.m_fits k.m_stored,
    required_u32-ok k_t k.params.t_cost w h k.t_fits k.t_stored,
    required_u32-ok k_p k.params.p_cost w h k.p_fits k.p_stored,
    k.valid,
    k.derived,
    get_required-ok k_vnonce k.nonce w h k.nonce_stored,
    get_required-ok k_vct k.ct w h k.ct_stored,
    decrypt-Sealed lib correct key sentinel verifier_aad k.nonce k.ct k.draws k.sealed,
  )

  pub init_or_verify-of_KeyMeta :
      (passphrase : Bytes) (key : MasterKey) (w : World)
      → AeadCorrect lib
      → w.faults ≡ []
      → KeyMeta lib passphrase key w.tables
      → init_or_verify lib passphrase w ≡ (ok key, w)
  unfolding init_or_verify ◌>>=◌
  init_or_verify-of_KeyMeta passphrase key w correct h k =
      simp (get_meta-ok k_salt w h, k.salt_stored, verify-of_KeyMeta passphrase key w correct h k)

  -- What a fresh or reset key leaves behind.
  pub initialize-KeyMeta :
      (passphrase : Bytes) (key : MasterKey) (w w' : World)
      → initialize lib passphrase w ≡ (ok key, w')
      → KeyMeta lib passphrase key w'.tables
  unfolding initialize initialize_with_params
  initialize-KeyMeta passphrase key w w' e =
      >>=-elim (on_draws (generate_salt lib)) _ w w' e λ salt w1 _ r1.
        lift->>=-elim _ _ w1 w' r1 λ key' d r2.
          >>=-elim (map_err crypto (on_draws (encrypt lib key' sentinel verifier_aad))) _ w1 w' r2
            λ sealed w2 e2 r3.
              >>=-elim (transaction database (set_key_meta salt strong sealed.0 sealed.1)) _ w2 w'
                r3
                λ _ w3 e3 r4. transaction-elim database _ w2 w3 e3 λ u v _ wrote ended.
                  let (drawn, stay) =
                    on_draws-eq-ok (encrypt lib key' sentinel verifier_aad) w1 w2
                      (map_err-eq-ok crypto _ w1 w2 e2) in
                  let (s, _) =
                    encrypt-Sealed lib key' sentinel verifier_aad sealed.0 sealed.1 w1.draws
                      w2.draws drawn in
                  let (same, done) = pure-eq-ok key' w3 w' r4 in
                  let derived = map_error-eq-ok crypto (derive_key lib passphrase salt strong) d in
                  subst₂ (KeyMeta lib passphrase) same
                    (sym (set_key_meta-eq-ok salt strong sealed.0 sealed.1 u v wrote)
                      ∙ (sym ended ∙ ap (λ x. x.tables) done))
                    (key_meta-KeyMeta lib passphrase salt sealed.0 sealed.1 key' w1.draws u.tables
                      derived s)

  -- Verification reads the tables only, and accepts only under the verifier's key.
  pub verify-own_key :
      (passphrase salt : Bytes) (key key' : MasterKey) (nonce ct : Bytes) (draws : ℕ) (w w' : World)
      → AeadAuthentic lib
      → meta_value k_vct w.tables.meta ≡ some ct
      → Sealed lib key sentinel verifier_aad nonce ct draws
      → verify lib passphrase salt w ≡ (ok key', w')
      → (key ≡ key') × (w'.tables ≡ w.tables)
  unfolding verify
  verify-own_key passphrase salt key key' nonce ct draws w w' authentic stored sealed e =
      >>=-elim (required_u32 k_m) _ w w' e λ m w1 e1 r1.
        >>=-elim (required_u32 k_t) _ w1 w' r1 λ t w2 e2 r2.
          >>=-elim (required_u32 k_p) _ w2 w' r2 λ p w3 e3 r3. lift->>=-elim _ _ w3 w' r3 λ _ _ r4.
            lift->>=-elim _ _ w3 w' r4 λ derived _ r5.
              >>=-elim (get_required k_vnonce) _ w3 w' r5 λ nonce' w4 e4 r6.
                >>=-elim (get_required k_vct) _ w4 w' r6 λ ct' w5 e5 r7.
                  lift->>=-elim _ _ w5 w' r7 λ opened d r8.
                    let (same, done) = pure-eq-ok derived w5 w' r8 in
                    let to3 : w3.tables ≡ w.tables =
                      required_u32-eq-ok k_p w2 w3 e3
                      ∙ (required_u32-eq-ok k_t w1 w2 e2 ∙ required_u32-eq-ok k_m w w1 e1) in
                    let (_, to4) = get_required-eq-ok k_vnonce w3 w4 e4 in
                    let (found, to5) = get_required-eq-ok k_vct w4 w5 e5 in
                    let same_ct : some ct' ≡ some ct =
                      sym found ∙ (ap (λ x. meta_value k_vct x.meta) (to4 ∙ to3) ∙ stored) in
                    let this_ct : ct' ≡ ct = cc same_ct in
                    let opens : decrypt lib derived nonce' ct verifier_aad ≡ ok opened =
                      ap (λ c. decrypt lib derived nonce' c verifier_aad) (sym this_ct)
                      ∙ map_error-eq-ok _ _ d in
                    let (same_key, _) =
                      decrypt-Sealed_only lib authentic key derived sentinel opened verifier_aad
                        verifier_aad nonce nonce' ct draws sealed opens in
                    (same_key ∙ same, ap (λ x. x.tables) (sym done) ∙ (to5 ∙ (to4 ∙ to3)))

  pub init_or_verify-own_key :
      (passphrase passphrase' : Bytes) (key key' : MasterKey) (w w' : World)
      → AeadAuthentic lib
      → KeyMeta lib passphrase key w.tables
      → init_or_verify lib passphrase' w ≡ (ok key', w')
      → (key ≡ key') × (w'.tables ≡ w.tables)
  unfolding init_or_verify
  init_or_verify-own_key passphrase passphrase' key key' w w' authentic k e =
      >>=-elim (sql (get_meta k_salt)) _ w w' e λ stored w1 e1 r1.
        let (found, stay) = get_meta-eq-ok k_salt w w1 (map_err-eq-ok _ _ w w1 e1) in
        let verified : verify lib passphrase' k.salt w1 ≡ (ok key', w') =
          rw (sym found ∙ k.salt_stored) at r1 in
        let (same, still) =
          verify-own_key passphrase' k.salt key key' k.nonce k.ct k.draws w1 w' authentic
            (ap (λ t. meta_value k_vct t.meta) stay ∙ k.ct_stored) k.sealed verified in
        (same, still ∙ stay)

-- After a first start with a passphrase, every later start with it on the same tables, on which no
-- access fails, derives the same master key and changes nothing.
pub restart_same_key :
    (lib : Crates) (passphrase : Bytes) (key : MasterKey) (w w' later : World)
    → AeadCorrect lib
    → initialize lib passphrase w ≡ (ok key, w')
    → later.tables ≡ w'.tables
    → later.faults ≡ []
    → init_or_verify lib passphrase later ≡ (ok key, later)
restart_same_key lib passphrase key w w' later correct e same quiet =
    init_or_verify-of_KeyMeta lib passphrase key later correct quiet
      (subst (KeyMeta lib passphrase key) (sym same) (initialize-KeyMeta lib passphrase key w w' e))

-- After a first start, a later start that succeeds with any passphrase has derived the same master
-- key and has changed no table: a passphrase that gives another key is refused.
pub restart_own_key :
    (lib : Crates) (passphrase passphrase' : Bytes) (key key' : MasterKey)
    (w w' later after : World)
    → AeadAuthentic lib
    → initialize lib passphrase w ≡ (ok key, w')
    → later.tables ≡ w'.tables
    → init_or_verify lib passphrase' later ≡ (ok key', after)
    → (key ≡ key') × (after.tables ≡ later.tables)
restart_own_key lib passphrase passphrase' key key' w w' later after authentic e same f =
    init_or_verify-own_key lib passphrase passphrase' key key' later after authentic
      (subst (KeyMeta lib passphrase key) (sym same) (initialize-KeyMeta lib passphrase key w w' e))
      f
