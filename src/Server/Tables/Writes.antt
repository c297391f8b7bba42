-- ===== src/Server/Tables/Writes.antt =====
-- What writing to the secrets table changes, `upsert_secret` and `delete_secret` of
-- crates/secrets-server/src/repo.rs.
use mathlib.Core.Option
use secrets_manager.Prelude.{
  ℕ, ◌≡◌, refl, sym, subst, ◌∙◌, ap, Bool, false, not, ltb, ◌&&◌, Option, none, some, List, [], ◌∷◌,
  ◌++◌, arith, ◌==◌, if◌then◌else◌, keep, any, any-append_one, count_if, Distinct, Bool-cases, inl,
  inr, Bytes, ◌=ᵇ◌, =ᵇ_iff,
}
use secrets_manager.Crates.{Crates}
use secrets_manager.Server.State.{StoredSecret, ProjectRow}
use secrets_manager.Server.Repo.{
  SecretRow, secret_of_row, at_key, find, update_secret, inserted, upserted,
}
use secrets_manager.Server.Tables.Secrets.{same_key}

-- What a project holds under a key.
abbrev pub held : ℕ → Bytes → List StoredSecret → Option SecretRow
held pid j rows = Option.map secret_of_row (find (at_key pid j) rows)

abbrev pub sealed_row : Bytes → Bytes → Bytes → SecretRow
sealed_row key nonce ciphertext = record { key = key; nonce = nonce; ciphertext = ciphertext }

held-update_secret :
    (pid q : ℕ) (key j nonce ciphertext now : Bytes) (rows : List StoredSecret)
    → held q j (update_secret pid key nonce ciphertext now rows) ≡ (
        if (pid == q && key =ᵇ j) && any (at_key pid key) rows
        then some (sealed_row key nonce ciphertext)
        else held q j rows)
unfolding find update_secret
held-update_secret pid q key j nonce ciphertext now [] = ground arith
held-update_secret pid q key j nonce ciphertext now (r ∷ rows) = ground (
  arith,
  held-update_secret pid q key j nonce ciphertext now rows,
  =ᵇ_iff key j,
  =ᵇ_iff r.key key,
  =ᵇ_iff r.key j,
)

find-append :
    (q : ℕ) (j : Bytes) (rows : List StoredSecret) (r : StoredSecret)
    → find (at_key q j) (rows ++ r ∷ [])
      ≡ (if any (at_key q j) rows then find (at_key q j) rows else find (at_key q j) (r ∷ []))
unfolding find
find-append q j [] r = refl
find-append q j (s ∷ rows) r = ground (arith, find-append q j rows r)

find-none :
    (q : ℕ) (j : Bytes) (rows : List StoredSecret)
    → any (at_key q j) rows ≡ false
    → find (at_key q j) rows ≡ none
unfolding find
find-none q j [] h = refl
find-none q j (r ∷ rows) h = ground (arith, find-none q j rows)

any-update_secret :
    (i pid : ℕ) (k key nonce ciphertext now : Bytes) (rows : List StoredSecret)
    → any (at_key i k) (update_secret pid key nonce ciphertext now rows) ≡ any (at_key i k) rows
unfolding update_secret
any-update_secret i pid k key nonce ciphertext now [] = refl
any-update_secret i pid k key nonce ciphertext now (r ∷ rows) =
    ground (arith, any-update_secret i pid k key nonce ciphertext now rows)

Distinct-update_secret :
    (pid : ℕ) (key nonce ciphertext now : Bytes) (rows : List StoredSecret)
    → Distinct same_key rows
    → Distinct same_key (update_secret pid key nonce ciphertext now rows)
unfolding update_secret
Distinct-update_secret pid key nonce ciphertext now [] d = tt
Distinct-update_secret pid key nonce ciphertext now (r ∷ rows) d = ground (
  arith,
  any-update_secret r.project_id pid r.key key nonce ciphertext now rows,
  Distinct-update_secret pid key nonce ciphertext now rows d.1,
)

Distinct-append :
    (rows : List StoredSecret) (r : StoredSecret)
    → any (at_key r.project_id r.key) rows ≡ false
    → Distinct same_key rows
    → Distinct same_key (rows ++ r ∷ [])
Distinct-append [] r h d = (refl, tt)
Distinct-append (s ∷ rows) r h d = ground (
  arith,
  any-append_one (same_key s) rows r,
  Distinct-append rows r,
  =ᵇ_iff r.key s.key,
  =ᵇ_iff s.key r.key,
)

module _ (lib : Crates) (pid : ℕ) (key nonce ciphertext now : Bytes) (ps : List ProjectRow) where
  held-append :
      (q : ℕ) (j : Bytes) (rows : List StoredSecret)
      → any (at_key pid key) rows ≡ false
      → held q j (rows ++ inserted lib pid key nonce ciphertext now rows ∷ [])
        ≡ (if pid == q && key =ᵇ j then some (sealed_row key nonce ciphertext) else held q j rows)
  unfolding inserted find
  held-append q j rows new = elim (Bool-cases (pid == q && key =ᵇ j)) [
    | inl here ↦
        let id : pid ≡ q = ground arith in
        let same : key ≡ j = ground (arith, =ᵇ_iff key j) in
        let none_yet : any (at_key q j) rows ≡ false =
          (λ i. any (at_key (sym id i) (sym same i)) rows) ∙ new in
        ground
          (arith, find-append q j rows (inserted lib pid key nonce ciphertext now rows), none_yet)
    | inr there ↦ ground (
      arith,
      find-append q j rows (inserted lib pid key nonce ciphertext now rows),
      find-none q j rows,
    )
  ]

  -- After an upsert the key holds what was written, and every other key what it held.
  pub held-upserted :
      (q : ℕ) (j : Bytes) (rows rows' : List StoredSecret)
      → upserted lib pid key nonce ciphertext now ps rows ≡ some rows'
      → held q j rows'
        ≡ (if pid == q && key =ᵇ j then some (sealed_row key nonce ciphertext) else held q j rows)
  unfolding upserted find
  held-upserted q j rows rows' e = elim (Bool-cases (any (at_key pid key) rows)) [
    | inl old ↦
        let same : update_secret pid key nonce ciphertext now rows ≡ rows' = ground arith in
        ap (held q j) (sym same)
        ∙ ground (arith, held-update_secret pid q key j nonce ciphertext now rows)
    | inr new ↦
        let same : rows ++ inserted lib pid key nonce ciphertext now rows ∷ [] ≡ rows' =
          ground arith in
        ap (held q j) (sym same) ∙ held-append q j rows new
  ]

  pub Distinct-upserted :
      (rows rows' : List StoredSecret)
      → upserted lib pid key nonce ciphertext now ps rows ≡ some rows'
      → Distinct same_key rows
      → Distinct same_key rows'
  unfolding upserted
  Distinct-upserted rows rows' e d = elim (Bool-cases (any (at_key pid key) rows)) [
    | inl old ↦
        let same : update_secret pid key nonce ciphertext now rows ≡ rows' = ground arith in
        subst (Distinct same_key) same (Distinct-update_secret pid key nonce ciphertext now rows d)
    | inr new ↦
        let same : rows ++ inserted lib pid key nonce ciphertext now rows ∷ [] ≡ rows' =
          ground arith in
        subst (Distinct same_key) same
          (Distinct-append rows (inserted lib pid key nonce ciphertext now rows) new d)
  ]

pub held-delete :
    (pid q : ℕ) (key j : Bytes) (rows : List StoredSecret)
    → held q j (keep (λ r. not (at_key pid key r)) rows)
      ≡ (if pid == q && key =ᵇ j then none else held q j rows)
unfolding find
held-delete pid q key j [] = ground arith
held-delete pid q key j (r ∷ rows) =
    ground (arith, held-delete pid q key j rows, =ᵇ_iff key j, =ᵇ_iff r.key key, =ᵇ_iff r.key j)

any-keep :
    {A : Type 0} (p q : A → Bool) (xs : List A) → any p xs ≡ false → any p (keep q xs) ≡ false
any-keep p q [] h = refl
any-keep p q (x ∷ xs) h = ground (arith, any-keep p q xs)

pub Distinct-keep :
    {A : Type 0} (same : A → A → Bool) (q : A → Bool) (xs : List A)
    → Distinct same xs
    → Distinct same (keep q xs)
Distinct-keep same q [] d = tt
Distinct-keep same q (x ∷ xs) d =
    ground (arith, any-keep (same x) q xs, Distinct-keep same q xs d.1)

pub count_if-pos : {A : Type 0} (p : A → Bool) (xs : List A) → ltb 0 (count_if p xs) ≡ any p xs
count_if-pos p [] = refl
count_if-pos p (x ∷ xs) = ground (arith, count_if-pos p xs)
