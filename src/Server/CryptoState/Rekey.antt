-- ===== src/Server/CryptoState/Rekey.antt =====
-- A rekey that ends well, `rekey` of crates/secrets-server/src/crypto_state.rs.
use secrets_manager.Prelude.{
  ℕ, ◌≡◌, refl, sym, ap, subst, subst₂, ◌∙◌, Option, some, List, [], ◌∷◌, arith, All, All2,
  Distinct, suc, length, Bytes,
}
use secrets_manager.Exec.{ok, map_err, >>=-elim}
use secrets_manager.Crates.{Crates, AeadCorrect, AeadAuthentic}
use secrets_manager.Crypto.{MasterKey, strong, derive_key, generate_salt, encrypt}
use secrets_manager.Crypto.Sealing.{Sealed, encrypt-Sealed}
use secrets_manager.Server.State.{World, Tables, StoredSecret, ProjectRow, on_draws, query}
use secrets_manager.Server.State.Endings.{
  lift->>=-elim, refuse_if->>=-eq-ok, map_err-eq-ok, map_error-eq-ok, on_draws-eq-ok,
  transaction-elim, pure-eq-ok,
}
use secrets_manager.Server.Repo.{get_meta, meta_value, find}
use secrets_manager.Server.Tables.Meta.{query-eq-ok}
use secrets_manager.Server.CryptoState.{
  RekeyRow, join_row, join_projects, insert_by_id, order_by_id, rekey_rows, reencrypt_all,
  current_key, rekey_with_params, rekey, verify, set_key_meta, sql, crypto, database, sentinel,
  verifier_aad, k_salt, k_vct,
}
use secrets_manager.Server.CryptoState.Verifier.{
  KeyMeta, key_meta-KeyMeta, set_key_meta-eq-ok, get_meta-eq-ok, key_meta,
}
use secrets_manager.Server.CryptoState.Passphrase.{verify-own_key}
use secrets_manager.Server.CryptoState.Rows.{
  has_id, same_row_id, same_id, find-order_by_id, Distinct-order_by_id, Distinct-join_projects,
  Joins, join_projects-Joins,
}
use secrets_manager.Server.CryptoState.Reencryption.{Rekeyed, rekey_rows-DoneBy}

length-insert_by_id :
    (x : RekeyRow) (ys : List RekeyRow) → length (insert_by_id x ys) ≡ suc (length ys)
unfolding insert_by_id
length-insert_by_id x [] = refl
length-insert_by_id x (y ∷ ys) = ground (arith, length-insert_by_id x ys)

length-order_by_id : (xs : List RekeyRow) → length (order_by_id xs) ≡ length xs
unfolding order_by_id
length-order_by_id [] = refl
length-order_by_id (x ∷ xs) =
    length-insert_by_id x (order_by_id xs) ∙ ap suc (length-order_by_id xs)

module _ (lib : Crates) (old_key new_key : MasterKey) where
  -- Each secret, with the row of the join for its project, has been encrypted anew.
  abbrev pub Reencrypted : List ProjectRow → List StoredSecret → List StoredSecret → Type 0
  Reencrypted ps = All2 (λ r r'. Rekeyed lib old_key new_key (join_row ps r) r r')

  Reencrypted-of_DoneBy :
      (ps : List ProjectRow) (xs : List RekeyRow) (rows rows' : List StoredSecret)
      → All (Joins ps xs) rows
      → All2
          (λ r r'. Rekeyed lib old_key new_key (find (has_id r.id) (order_by_id xs)) r r')
          rows
          rows'
      → Reencrypted ps rows rows'
  Reencrypted-of_DoneBy ps xs [] [] joins done = tt
  Reencrypted-of_DoneBy ps xs [] (r' ∷ rows') joins done = done
  Reencrypted-of_DoneBy ps xs (r ∷ rows) [] joins done = done
  Reencrypted-of_DoneBy ps xs (r ∷ rows) (r' ∷ rows') joins done = (
    subst (λ o. Rekeyed lib old_key new_key o r r') (find-order_by_id r.id xs ∙ joins.0) done.0,
    Reencrypted-of_DoneBy ps xs rows rows' joins.1 done.1,
  )

  -- The body of the transaction.
  pub record AllReencrypted (passphrase : Bytes) (n : ℕ) (t u : Tables) : Type 0 where
    pub key_meta : KeyMeta lib passphrase new_key u
    pub secrets : Reencrypted t.projects t.secrets u.secrets
    pub others : u ≡ record t { meta = u.meta; secrets = u.secrets }
    pub count : n ≡ length (join_projects t.projects t.secrets)

  -- The tables after the SELECT (`t1`), the loop, the encryption of the verifier, and the writes.
  assemble :
      (passphrase salt nonce ct : Bytes) (n draws : ℕ) (t t1 t2 t3 u : Tables)
      → derive_key lib passphrase salt strong ≡ ok new_key
      → Sealed lib new_key sentinel verifier_aad nonce ct draws
      → Distinct same_id t.secrets
      → t1 ≡ t
      → All2
          (λ r r'.
            Rekeyed lib old_key new_key
              (find (has_id r.id) (order_by_id (join_projects t.projects t.secrets)))
              r
              r')
          t1.secrets
          t2.secrets
      → t2 ≡ record t1 { secrets = t2.secrets }
      → t3 ≡ t2
      → u ≡ record t3 { meta = key_meta salt strong nonce ct t3.meta }
      → n ≡ length (join_projects t.projects t.secrets)
      → AllReencrypted passphrase n t u
  assemble passphrase salt nonce ct n draws t t1 t2 t3 u derived s distinct first done others stay
        wrote counted =
      let before : Tables = record t { secrets = t2.secrets } in
      let ends : u ≡ record before { meta = key_meta salt strong nonce ct t.meta } =
        wrote
        ∙ ap {B = Tables} (λ x. record x { meta = key_meta salt strong nonce ct x.meta })
            (stay ∙ (others ∙ ap {B = Tables} (λ x. record x { secrets = t2.secrets }) first)) in
      subst (AllReencrypted passphrase n t) (sym ends) (record {
        key_meta = key_meta-KeyMeta lib passphrase salt nonce ct new_key draws before derived s;
        secrets =
            Reencrypted-of_DoneBy t.projects (join_projects t.projects t.secrets) t.secrets
              t2.secrets (join_projects-Joins t.projects t.secrets distinct)
              (subst
                (λ x.
                  All2
                    (λ r r'.
                      Rekeyed lib old_key new_key
                        (find (has_id r.id) (order_by_id (join_projects t.projects t.secrets))) r
                        r')
                    x.secrets t2.secrets)
                first done);
        others = refl;
        count = counted;
      })

  reencrypt_all-eq-ok :
      (passphrase salt : Bytes) (n : ℕ) (w w' : World)
      → AeadCorrect lib
      → derive_key lib passphrase salt strong ≡ ok new_key
      → Distinct same_id w.tables.secrets
      → reencrypt_all lib old_key new_key salt strong w ≡ (ok n, w')
      → AllReencrypted passphrase n w.tables w'.tables
  unfolding reencrypt_all
  reencrypt_all-eq-ok passphrase salt n w w' correct derived distinct e =
      >>=-elim (sql (query λ t. order_by_id (join_projects t.projects t.secrets))) _ w w' e
        λ rows w1 e1 r1. >>=-elim (rekey_rows lib old_key new_key rows) _ w1 w' r1 λ _ w2 e2 r2.
          >>=-elim (map_err crypto (on_draws (encrypt lib new_key sentinel verifier_aad))) _ w2 w'
            r2
            λ sealed w3 e3 r3.
              >>=-elim (set_key_meta salt strong sealed.0 sealed.1) _ w3 w' r3 λ _ w4 e4 r4.
                let (selected, first) =
                  query-eq-ok (λ (t : Tables). order_by_id (join_projects t.projects t.secrets)) w
                    w1
                    (map_err-eq-ok _ (query λ t. order_by_id (join_projects t.projects t.secrets)) w
                      w1 e1) in
                let joined = join_projects w.tables.projects w.tables.secrets in
                let order : Distinct same_row_id rows =
                  subst (Distinct same_row_id) (sym selected) (
                    Distinct-order_by_id joined
                      (Distinct-join_projects w.tables.projects w.tables.secrets distinct)) in
                let (done, others) =
                  rekey_rows-DoneBy lib old_key new_key rows w1 w2 correct order e2 in
                let (drawn, stay) =
                  on_draws-eq-ok (encrypt lib new_key sentinel verifier_aad) w2 w3
                    (map_err-eq-ok crypto _ w2 w3 e3) in
                let (s, _) =
                  encrypt-Sealed lib new_key sentinel verifier_aad sealed.0 sealed.1 w2.draws
                    w3.draws drawn in
                let (counted, last) = pure-eq-ok (length rows) w4 w' r4 in
                assemble passphrase salt sealed.0 sealed.1 n w2.draws w.tables w1.tables w2.tables
                  w3.tables w'.tables derived s distinct first
                  (subst
                    (λ xs.
                      All2 (λ r r'. Rekeyed lib old_key new_key (find (has_id r.id) xs) r r')
                        w1.tables.secrets w2.tables.secrets)
                    selected done)
                  others stay
                  (ap (λ x. x.tables) (sym last)
                    ∙ set_key_meta-eq-ok salt strong sealed.0 sealed.1 w3 w4 e4)
                  (sym counted ∙ (ap length selected ∙ length-order_by_id joined))

current_key-some :
    (lib : Crates) (passphrase salt : Bytes) (stored : Option Bytes) (w w' : World)
    (key : MasterKey)
    → stored ≡ some salt
    → current_key lib passphrase stored w ≡ (ok key, w')
    → verify lib passphrase salt w ≡ (ok key, w')
unfolding current_key
current_key-some lib passphrase salt stored w w' key e h = rw e at h

finish :
    (lib : Crates) (key old_key new_key : MasterKey) (passphrase : Bytes) (n : ℕ)
    (t t' u u' : Tables)
    → key ≡ old_key
    → t ≡ t'
    → u ≡ u'
    → AllReencrypted lib key new_key passphrase n t u
    → AllReencrypted lib old_key new_key passphrase n t' u'
finish lib key old_key new_key passphrase n t t' u u' same before after all =
    subst (λ k. AllReencrypted lib k new_key passphrase n t' u') same
      (subst₂ (AllReencrypted lib key new_key passphrase n) before after all)

-- The tables hold a verifier for some passphrase and its key, and the ids of the secrets are
-- distinct. A rekey that ends well, from whatever current passphrase, then leaves a verifier for the new passphrase and a new key;
-- each secret whose project exists keeps all its columns but nonce and ciphertext, and decrypts
-- under the new key to what it decrypted to under the old one; other secrets, the projects and the
-- tokens stay as they are; and the result counts the secrets that were encrypted anew.
pub rekey-AllReencrypted :
    (lib : Crates) (passphrase current new : Bytes) (old_key : MasterKey) (n : ℕ) (w w' : World)
    → AeadCorrect lib
    → AeadAuthentic lib
    → KeyMeta lib passphrase old_key w.tables
    → Distinct same_id w.tables.secrets
    → rekey lib current new w ≡ (ok n, w')
    → (new_key : MasterKey) × AllReencrypted lib old_key new_key new n w.tables w'.tables
unfolding rekey rekey_with_params
rekey-AllReencrypted lib passphrase current new old_key n w w' correct authentic k distinct e =
    let (_, e') = refuse_if->>=-eq-ok _ _ _ w w' e in
    >>=-elim (sql (get_meta k_salt)) _ w w' e' λ stored w1 e1 r1.
      >>=-elim (current_key lib current stored) _ w1 w' r1 λ key w2 e2 r2.
        >>=-elim (on_draws (generate_salt lib)) _ w2 w' r2 λ salt w3 e3 r3.
          lift->>=-elim _ _ w3 w' r3 λ new_key d r4.
            transaction-elim database _ w3 w' r4 λ u v began ran ended.
              let (found, stay1) =
                get_meta-eq-ok k_salt w w1 (map_err-eq-ok _ (get_meta k_salt) w w1 e1) in
              let verified : verify lib current k.salt w1 ≡ (ok key, w2) =
                current_key-some lib current k.salt stored w1 w2 key (sym found ∙ k.salt_stored)
                  e2 in
              let (same_key, stay2) =
                verify-own_key lib current k.salt old_key key k.nonce k.ct k.draws w1 w2 authentic
                  (ap (λ t. meta_value k_vct t.meta) stay1 ∙ k.ct_stored) k.sealed verified in
              let (_, stay3) = on_draws-eq-ok (generate_salt lib) w2 w3 e3 in
              let whole : u.tables ≡ w.tables = began ∙ (stay3 ∙ (stay2 ∙ stay1)) in
              let all =
                reencrypt_all-eq-ok lib key new_key new salt n u v correct
                  (map_error-eq-ok crypto (derive_key lib new salt strong) d)
                  (subst (λ t. Distinct same_id t.secrets) (sym whole) distinct) ran in
              (
                new_key,
                finish lib key old_key new_key new n u.tables w.tables v.tables w'.tables
                    (sym same_key) whole (sym ended) all,
              )
