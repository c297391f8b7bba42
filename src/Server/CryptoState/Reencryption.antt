-- ===== src/Server/CryptoState/Reencryption.antt =====
-- What a rekey does to the secrets: the loop of `rekey_with_params`.
use secrets_manager.Prelude.{
  ℕ, ◌≡◌, refl, sym, ap, subst, ==_iff, ◌∙◌, false, Option, none, some, List, [], ◌∷◌, arith, ◌==◌,
  if◌then◌else◌, any, All2, Distinct, Bool-cases, inl, inr, Bytes,
}
use secrets_manager.Exec.{ok, map_err, >>=-elim}
use secrets_manager.Crates.{Crates, AeadCorrect}
use secrets_manager.Crypto.{MasterKey, aad_bytes, encrypt, decrypt}
use secrets_manager.Crypto.Sealing.{encrypt-Sealed, decrypt-Sealed}
use secrets_manager.Server.State.{World, Tables, StoredSecret, on_draws}
use secrets_manager.Server.State.Endings.{
  lift->>=-elim, map_err-eq-ok, map_error-eq-ok, on_draws-eq-ok, pure-eq-ok,
}
use secrets_manager.Server.Repo.{find}
use secrets_manager.Server.Tables.Meta.{execute-eq-ok}
use secrets_manager.Server.CryptoState.{
  RekeyRow, replace_ciphertext, update_ciphertext, rekey_row, rekey_rows, crypto,
}
use secrets_manager.Server.CryptoState.Rows.{has_id, same_row_id, find-none_of_any}

update_ciphertext-eq-ok :
    (id : ℕ) (nonce ciphertext : Bytes) (w w' : World)
    → update_ciphertext id nonce ciphertext w ≡ (ok tt, w')
    → w'.tables
      ≡ record w.tables { secrets = replace_ciphertext id nonce ciphertext w.tables.secrets }
unfolding update_ciphertext
update_ciphertext-eq-ok id nonce ciphertext w w' e = ground (
  arith,
  execute-eq-ok {A = Unit {0}}
      (λ t. some (tt, record t { secrets = replace_ciphertext id nonce ciphertext t.secrets })) w w'
      e,
)

-- All but the nonce and the ciphertext is as before.
abbrev pub SameRecord : StoredSecret → StoredSecret → Type 0
SameRecord r r' = r' ≡ record r { nonce = r'.nonce; ciphertext = r'.ciphertext }

module _ (lib : Crates) (old_key new_key : MasterKey) where
  -- The plaintext that `x` has under the old key is the one that the secret has under the new key.
  pub record Resealed (x : RekeyRow) (r' : StoredSecret) : Type 0 where
    pub plaintext : Bytes
    pub before : decrypt lib old_key x.nonce x.ciphertext (aad_bytes x.project x.key) ≡ ok plaintext
    pub after :
        decrypt lib new_key r'.nonce r'.ciphertext (aad_bytes x.project x.key) ≡ ok plaintext

  -- What becomes of a secret, given the row of the join with its id.
  abbrev pub Rekeyed : Option RekeyRow → StoredSecret → StoredSecret → Type 0
  Rekeyed none r r' = r' ≡ r
  Rekeyed (some x) r r' = SameRecord r r' × Resealed x r'

  record RowDone (x : RekeyRow) (t u : Tables) : Type 0 where
    nonce : Bytes
    ciphertext : Bytes
    plaintext : Bytes
    before : decrypt lib old_key x.nonce x.ciphertext (aad_bytes x.project x.key) ≡ ok plaintext
    after : decrypt lib new_key nonce ciphertext (aad_bytes x.project x.key) ≡ ok plaintext
    written : u ≡ record t { secrets = replace_ciphertext x.id nonce ciphertext t.secrets }

  rekey_row-RowDone :
      (x : RekeyRow) (w w' : World)
      → AeadCorrect lib
      → rekey_row lib old_key new_key x w ≡ (ok tt, w')
      → RowDone x w.tables w'.tables
  unfolding rekey_row
  rekey_row-RowDone x w w' correct e = lift->>=-elim _ _ w w' e λ plaintext d r1.
      >>=-elim
        (map_err crypto (on_draws (encrypt lib new_key plaintext (aad_bytes x.project x.key)))) _ w
        w' r1
        λ sealed w1 e1 r2.
          let (drawn, stay) = on_draws-eq-ok _ w w1 (map_err-eq-ok crypto _ w w1 e1) in
          let (s, _) =
            encrypt-Sealed lib new_key plaintext (aad_bytes x.project x.key) sealed.0 sealed.1
              w.draws w1.draws drawn in
          let wrote =
            update_ciphertext-eq-ok x.id sealed.0 sealed.1 w1 w'
              (map_err-eq-ok _ (update_ciphertext x.id sealed.0 sealed.1) w1 w' r2) in
          record {
            nonce = sealed.0;
            ciphertext = sealed.1;
            plaintext = plaintext;
            before = map_error-eq-ok _ _ d;
            after = decrypt-Sealed lib correct new_key plaintext _ sealed.0 sealed.1 w.draws s;
            written =
                wrote
                ∙ ap {B = Tables}
                    (λ t. record t {
                      secrets = replace_ciphertext x.id sealed.0 sealed.1 t.secrets;
                    })
                    stay;
          }

  abbrev DoneBy : List RekeyRow → StoredSecret → StoredSecret → Type 0
  DoneBy xs r r' = Rekeyed (find (has_id r.id) xs) r r'

  DoneBy-refl : (rows : List StoredSecret) → All2 (DoneBy []) rows rows
  unfolding find
  DoneBy-refl [] = tt
  DoneBy-refl (r ∷ rows) = (refl, DoneBy-refl rows)

  -- A row whose id is not in the rest of the loop is left alone by it.
  DoneBy-untouched :
      (xs : List RekeyRow) (r r' : StoredSecret)
      → any (has_id r.id) xs ≡ false
      → DoneBy xs r r'
      → r' ≡ r
  DoneBy-untouched xs r r' h d = ground (arith, find-none_of_any r.id xs h)

  DoneBy-row :
      (x : RekeyRow) (xs : List RekeyRow) (r r' : StoredSecret) (nonce ciphertext plaintext : Bytes)
      → any (same_row_id x) xs ≡ false
      → decrypt lib old_key x.nonce x.ciphertext (aad_bytes x.project x.key) ≡ ok plaintext
      → decrypt lib new_key nonce ciphertext (aad_bytes x.project x.key) ≡ ok plaintext
      → DoneBy xs
          (if r.id == x.id then record r { nonce = nonce; ciphertext = ciphertext } else r)
          r'
      → DoneBy (x ∷ xs) r r'
  unfolding find
  DoneBy-row x xs r r' nonce ciphertext plaintext fresh before after d =
      elim (Bool-cases (r.id == x.id)) [
        | inl here ↦
            let id : r.id ≡ x.id = (==_iff r.id x.id).0 here in
            let same : r' ≡ record r { nonce = nonce; ciphertext = ciphertext } =
              DoneBy-untouched xs (record r { nonce = nonce; ciphertext = ciphertext }) r'
                (ap (λ i. any (has_id i) xs) id ∙ fresh) (rw here at d) in
            rw here (
              subst (λ s. SameRecord r s × Resealed x s) (sym same)
                (refl, record { plaintext = plaintext; before = before; after = after }))
        | inr there ↦ rw there (rw there at d)
      ]

  DoneBy-rows :
      (x : RekeyRow) (xs : List RekeyRow) (rows rows' : List StoredSecret)
      (nonce ciphertext plaintext : Bytes)
      → any (same_row_id x) xs ≡ false
      → decrypt lib old_key x.nonce x.ciphertext (aad_bytes x.project x.key) ≡ ok plaintext
      → decrypt lib new_key nonce ciphertext (aad_bytes x.project x.key) ≡ ok plaintext
      → All2 (DoneBy xs) (replace_ciphertext x.id nonce ciphertext rows) rows'
      → All2 (DoneBy (x ∷ xs)) rows rows'
  unfolding replace_ciphertext
  DoneBy-rows x xs [] [] nonce ciphertext plaintext fresh before after d = tt
  DoneBy-rows x xs [] (r' ∷ rows') nonce ciphertext plaintext fresh before after d = d
  DoneBy-rows x xs (r ∷ rows) [] nonce ciphertext plaintext fresh before after d = d
  DoneBy-rows x xs (r ∷ rows) (r' ∷ rows') nonce ciphertext plaintext fresh before after d = (
    DoneBy-row x xs r r' nonce ciphertext plaintext fresh before after d.0,
    DoneBy-rows x xs rows rows' nonce ciphertext plaintext fresh before after d.1,
  )

  -- Each secret has become what the row with its id makes of it.
  pub rekey_rows-DoneBy :
      (xs : List RekeyRow) (w w' : World)
      → AeadCorrect lib
      → Distinct same_row_id xs
      → rekey_rows lib old_key new_key xs w ≡ (ok tt, w')
      → All2 (DoneBy xs) w.tables.secrets w'.tables.secrets
        × (w'.tables ≡ record w.tables { secrets = w'.tables.secrets })
  unfolding rekey_rows
  rekey_rows-DoneBy [] w w' correct d e =
      let stay = ap (λ x. x.tables) (pure-eq-ok tt w w' e).1 in
      subst
        (λ t.
          All2 (DoneBy []) w.tables.secrets t.secrets
          × (t ≡ record w.tables { secrets = t.secrets }))
        stay (DoneBy-refl w.tables.secrets, refl)
  rekey_rows-DoneBy (x ∷ xs) w w' correct d e =
      >>=-elim (rekey_row lib old_key new_key x) _ w w' e λ _ w1 e1 r1.
        let row = rekey_row-RowDone x w w1 correct e1 in
        let (done, others) = rekey_rows-DoneBy xs w1 w' correct d.1 r1 in
        (
          DoneBy-rows x xs w.tables.secrets w'.tables.secrets row.nonce row.ciphertext row.plaintext
              d.0 row.before row.after
              (subst (λ t. All2 (DoneBy xs) t.secrets w'.tables.secrets) row.written done),
          others ∙ ap {B = Tables} (λ t. record t { secrets = w'.tables.secrets }) row.written,
        )
