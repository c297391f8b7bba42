-- ===== src/Server/Soundness/Rekeys.antt =====
-- A rekey, crates/secrets-server/src/crypto_state.rs, keeps the tables sound, under the new key.
use secrets_manager.Prelude.{
  ℕ, ◌≡◌, refl, sym, subst, ap, ◌∙◌, Bool, true, Option, none, some, List, [], ◌∷◌, arith, any, All,
  All2, Distinct, Bytes, is_utf8,
}
use secrets_manager.Exec.{Outcome, ok, err, panic, is_ok}
use secrets_manager.Crates.{Crates, AeadCorrect, AeadAuthentic}
use secrets_manager.Crypto.{MasterKey, decrypt, aad_bytes}
use secrets_manager.Server.State.{ProjectRow, StoredSecret, Tables, World}
use secrets_manager.Server.Repo.{find}
use secrets_manager.Server.Tables.Secrets.{same_key}
use secrets_manager.Server.CryptoState.{StateError, RekeyRow, join_row, rekey}
use secrets_manager.Server.CryptoState.Rows.{same_id}
use secrets_manager.Server.CryptoState.Reencryption.{SameRecord, Resealed, Rekeyed}
use secrets_manager.Server.CryptoState.Rekey.{AllReencrypted, rekey-AllReencrypted}
use secrets_manager.Server.CryptoState.Rollback.{rekey-rollback}
use secrets_manager.Server.Handlers.Constraints.{same_name}
use secrets_manager.Server.Soundness.{same_project_id, owns, Readable, Sound}

module _ {A : Type 0} (R : A → A → Type 0) where
  any-All2 :
      (p : A → Bool) (xs xs' : List A)
      → ((x x' : A) → R x x' → p x' ≡ p x)
      → All2 R xs xs'
      → any p xs' ≡ any p xs
  any-All2 p [] [] k h = refl
  any-All2 p [] (x' ∷ xs') k h = elim h [ ]
  any-All2 p (x ∷ xs) [] k h = elim h [ ]
  any-All2 p (x ∷ xs) (x' ∷ xs') k h =
      let first : p x' ≡ p x = k x x' h.0 in
      let rest : any p xs' ≡ any p xs = any-All2 p xs xs' k h.1 in ground arith

  -- Elements that a test does not tell from those before stay distinct.
  Distinct-All2 :
      (same : A → A → Bool) (xs xs' : List A)
      → ((x x' : A) → R x x' → (y : A) → (same x' y ≡ same x y) × (same y x' ≡ same y x))
      → All2 R xs xs'
      → Distinct same xs
      → Distinct same xs'
  Distinct-All2 same [] [] k h d = tt
  Distinct-All2 same [] (x' ∷ xs') k h d = elim h [ ]
  Distinct-All2 same (x ∷ xs) [] k h d = elim h [ ]
  Distinct-All2 same (x ∷ xs) (x' ∷ xs') k h d = (
    any-All2 (same x') xs xs' (λ y y' r. (k y y' r x').1) h.1
        ∙ ((λ i. any (λ y. (k x x' h.0 y).0 i) xs) ∙ d.0),
    Distinct-All2 same xs xs' k h.1 d.1,
  )

  All-All2 :
      {P Q : A → Type 0} (xs xs' : List A)
      → ((x x' : A) → P x → R x x' → Q x')
      → All P xs
      → All2 R xs xs'
      → All Q xs'
  All-All2 [] [] k a h = tt
  All-All2 [] (x' ∷ xs') k a h = elim h [ ]
  All-All2 (x ∷ xs) [] k a h = elim h [ ]
  All-All2 (x ∷ xs) (x' ∷ xs') k a h = (k x x' a.0 h.0, All-All2 xs xs' k a.1 h.1)

module _ (lib : Crates) (old_key new_key : MasterKey) where
  Rekeyed-SameRecord :
      (o : Option RekeyRow) (r r' : StoredSecret)
      → Rekeyed lib old_key new_key o r r'
      → SameRecord r r'
  Rekeyed-SameRecord none r r' h = subst (SameRecord r) (sym h) refl
  Rekeyed-SameRecord (some x) r r' h = h.0

  abbrev joined : ProjectRow → StoredSecret → RekeyRow
  joined p r = record {
    id = r.id;
    project = p.name;
    key = r.key;
    nonce = r.nonce;
    ciphertext = r.ciphertext;
  }

  join_row-owned :
      (ps : List ProjectRow) (p : ProjectRow) (r : StoredSecret)
      → find (owns r) ps ≡ some p
      → join_row ps r ≡ some (joined p r)
  unfolding join_row
  join_row-owned ps p r h = rw (h, join_row) refl

  Readable-Resealed :
      (ps : List ProjectRow) (r r' : StoredSecret)
      → (x : Readable lib old_key ps r) → SameRecord r r'
      → Resealed lib old_key new_key (joined x.project r) r'
      → Readable lib new_key ps r'
  Readable-Resealed ps r r' x same s = record {
    project = x.project;
    plaintext = s.plaintext;
    owner = ap (λ q. find (owns q) ps) same ∙ x.owner;
    opened =
        ap (λ k. decrypt lib new_key r'.nonce r'.ciphertext (aad_bytes x.project.name k))
          (ap (λ q. q.key) same)
        ∙ s.after;
    text =
        let again : ok x.plaintext ≡ ok s.plaintext = sym x.opened ∙ s.before in
        let equal : x.plaintext ≡ s.plaintext = cc again in
        subst (λ v. is_utf8 v ≡ true) equal x.text;
  }

  Readable-Rekeyed :
      (ps : List ProjectRow) (r r' : StoredSecret)
      → Readable lib old_key ps r
      → Rekeyed lib old_key new_key (join_row ps r) r r'
      → Readable lib new_key ps r'
  Readable-Rekeyed ps r r' x h =
      let (same, s) =
        subst (λ o. Rekeyed lib old_key new_key o r r') (join_row-owned ps x.project r x.owner) h in
      Readable-Resealed ps r r' x same s

  AllReencrypted-Sound :
      (passphrase : Bytes) (n : ℕ) (t u : Tables)
      → AllReencrypted lib old_key new_key passphrase n t u
      → Sound lib old_key t
      → Sound lib new_key u
  AllReencrypted-Sound passphrase n t u a s =
      let R : StoredSecret → StoredSecret → Type 0 =
        λ r r'. Rekeyed lib old_key new_key (join_row t.projects r) r r' in
      let projects : u.projects ≡ t.projects = ap (λ x. x.projects) a.others in
      record {
        passphrase = passphrase;
        verifier = a.key_meta;
        unique = record {
          projects = subst (Distinct same_name) (sym projects) s.unique.projects;
          secrets =
              Distinct-All2 R same_key t.secrets u.secrets
                (λ r r' h y.
                  let same = Rekeyed-SameRecord (join_row t.projects r) r r' h in
                  (ap (λ q. same_key q y) same, ap (same_key y) same))
                a.secrets s.unique.secrets;
        };
        project_ids = subst (Distinct same_project_id) (sym projects) s.project_ids;
        secret_ids =
            Distinct-All2 R same_id t.secrets u.secrets
              (λ r r' h y.
                let same = Rekeyed-SameRecord (join_row t.projects r) r r' h in
                (ap (λ q. same_id q y) same, ap (same_id y) same))
              a.secrets s.secret_ids;
        readable =
            subst (λ ps. All (Readable lib new_key ps) u.secrets) (sym projects)
              (All-All2 R {P = Readable lib old_key t.projects}
                {Q = Readable lib new_key t.projects} t.secrets u.secrets
                (λ r r'. Readable-Rekeyed t.projects r r') s.readable a.secrets);
      }

-- The tables are sound under a key.
abbrev pub SoundSome : Crates → Tables → Type 0
SoundSome lib t = (key : MasterKey) × Sound lib key t

settled-SoundSome :
    (lib : Crates) (current new : Bytes) (key : MasterKey) (w : World)
    (r : Outcome StateError ℕ × World)
    → AeadCorrect lib
    → AeadAuthentic lib
    → Sound lib key w.tables
    → rekey lib current new w ≡ r
    → SoundSome lib r.1.tables
settled-SoundSome lib current new key w (ok n, w') correct authentic s e =
    let (new_key, all) =
      rekey-AllReencrypted lib s.passphrase current new key n w w' correct authentic s.verifier
        s.secret_ids e in
    (new_key, AllReencrypted-Sound lib key new_key new n w.tables w'.tables all s)
settled-SoundSome lib current new key w (err x, w') correct authentic s e =
    let stay = rekey-rollback lib current new w (ap (λ p. is_ok p.0) e) in
    (key, subst (Sound lib key) (sym stay ∙ ap (λ p. p.1.tables) e) s)
settled-SoundSome lib current new key w (panic, w') correct authentic s e =
    let stay = rekey-rollback lib current new w (ap (λ p. is_ok p.0) e) in
    (key, subst (Sound lib key) (sym stay ∙ ap (λ p. p.1.tables) e) s)

-- A rekey, however it ends, leaves tables that are sound under some key, if they were.
pub rekey-SoundSome :
    (lib : Crates) (current new : Bytes) (key : MasterKey) (w : World)
    → AeadCorrect lib
    → AeadAuthentic lib
    → Sound lib key w.tables
    → SoundSome lib (rekey lib current new w).1.tables
rekey-SoundSome lib current new key w correct authentic s =
    settled-SoundSome lib current new key w (rekey lib current new w) correct authentic s refl
