-- ===== src/Server/Soundness/Puts.antt =====
-- `put_secret` of crates/secrets-server/src/handlers.rs keeps the tables sound.
use secrets_manager.Prelude.{
  ℕ, ◌+◌, ◌≡◌, refl, sym, subst, ap, ◌∙◌, true, some, List, [], ◌∷◌, ◌++◌, map, arith, ◌==◌, ==_iff,
  any, any-map, All, All-append, Distinct, Distinct-append_one, Bytes, =ᵇ_iff, Bool-cases, inl, inr,
  is_utf8,
}
use secrets_manager.Exec.{ok}
use secrets_manager.Crates.{Crates, FreshRowid}
use secrets_manager.Crypto.{MasterKey, aad_bytes, decrypt}
use secrets_manager.Server.State.{ProjectRow, StoredSecret, Tables}
use secrets_manager.Server.Repo.{find, named, at_key, update_secret, inserted, upserted}
use secrets_manager.Server.Tables.Writes.{Distinct-upserted}
use secrets_manager.Server.CryptoState.Rows.{same_id}
use secrets_manager.Server.Handlers.Writing.{with_secrets}
use secrets_manager.Server.Soundness.{same_project_id, Readable, Sound}
use secrets_manager.Server.Soundness.Statements.{KeyMeta-same_meta}

any-of_find :
    (id : ℕ) (name : Bytes) (ps : List ProjectRow) (p : ProjectRow)
    → find (named name) ps ≡ some p
    → p.id ≡ id
    → any (λ q. id == q.id) ps ≡ true
unfolding find
any-of_find id name [] p h e = cc h
any-of_find id name (q ∷ ps) p h e = ground (arith, any-of_find id name ps p)

-- The project found by its name is the one that its id finds.
pub find-named_by_id :
    (name : Bytes) (ps : List ProjectRow) (p : ProjectRow)
    → Distinct same_project_id ps
    → find (named name) ps ≡ some p
    → find (λ q. q.id == p.id) ps ≡ some p
unfolding find
find-named_by_id name [] p d h = cc h
find-named_by_id name (q ∷ ps) p d h = elim (Bool-cases (named name q)) [
  | inl here ↦
      let same : some q ≡ some p = rw here at h in
      let q_is_p : q ≡ p = cc same in
      subst (λ x. find (λ y. y.id == x.id) (q ∷ ps) ≡ some x) q_is_p
        (ground (arith, ==_iff q.id q.id))
  | inr there ↦
      let rest : find (named name) ps ≡ some p = rw there at h in
      ground (arith, any-of_find q.id name ps p rest, find-named_by_id name ps p d.1 rest)
]

pub find-named_holds :
    (name : Bytes) (ps : List ProjectRow) (p : ProjectRow)
    → find (named name) ps ≡ some p
    → named name p ≡ true
unfolding find
find-named_holds name [] p h = cc h
find-named_holds name (q ∷ ps) p h = ground (arith, find-named_holds name ps p)

All-update_secret :
    (P : StoredSecret → Type 0) (pid : ℕ) (key nonce ct now : Bytes) (rows : List StoredSecret)
    → ((r : StoredSecret)
        → at_key pid key r ≡ true
        → P (record r {
          nonce = nonce;
          ciphertext = ct;
          version = r.version + 1;
          updated_at = now;
        }))
    → All P rows
    → All P (update_secret pid key nonce ct now rows)
unfolding update_secret
All-update_secret P pid key nonce ct now [] k h = tt
All-update_secret P pid key nonce ct now (r ∷ rows) k h = (
  elim (Bool-cases (at_key pid key r)) [ inl here ↦ rw here (k r here) | inr there ↦ rw there h.0 ],
  All-update_secret P pid key nonce ct now rows k h.1,
)

any_id-update_secret :
    (id pid : ℕ) (key nonce ct now : Bytes) (rows : List StoredSecret)
    → any (λ s. id == s.id) (update_secret pid key nonce ct now rows) ≡ any (λ s. id == s.id) rows
unfolding update_secret
any_id-update_secret id pid key nonce ct now [] = refl
any_id-update_secret id pid key nonce ct now (r ∷ rows) =
    ground (arith, any_id-update_secret id pid key nonce ct now rows)

Distinct_id-update_secret :
    (pid : ℕ) (key nonce ct now : Bytes) (rows : List StoredSecret)
    → Distinct same_id rows
    → Distinct same_id (update_secret pid key nonce ct now rows)
unfolding update_secret
Distinct_id-update_secret pid key nonce ct now [] d = tt
Distinct_id-update_secret pid key nonce ct now (r ∷ rows) d = ground (
  arith,
  any_id-update_secret r.id pid key nonce ct now rows,
  Distinct_id-update_secret pid key nonce ct now rows d.1,
)

module _ (lib : Crates) (key : MasterKey) (name k value nonce ct now : Bytes) (t : Tables)
    (p : ProjectRow) where
  -- What an upsert starts from: the project's row, and a ciphertext of the value as the record.
  pub record Sealable : Type 0 where
    pub found : find (named name) t.projects ≡ some p
    pub text : is_utf8 value ≡ true
    pub opens : decrypt lib key nonce ct (aad_bytes name k) ≡ ok value

  Readable-written :
      (r : StoredSecret)
      → Distinct same_project_id t.projects
      → Sealable
      → r.project_id ≡ p.id
      → r.key ≡ k
      → r.nonce ≡ nonce
      → r.ciphertext ≡ ct
      → Readable lib key t.projects r
  Readable-written r d s own same_key same_nonce same_ct = record {
    project = p;
    plaintext = value;
    owner =
        ap (λ i. find (λ q. q.id == i) t.projects) own
        ∙ find-named_by_id name t.projects p d s.found;
    opened =
        (λ i. decrypt lib key (same_nonce i) (same_ct i) (
          aad_bytes ((=ᵇ_iff p.name name).0 (find-named_holds name t.projects p s.found) i)
            (same_key i)))
        ∙ s.opens;
    text = s.text;
  }

  Readable-update_secret :
      Sound lib key t
      → Sealable
      → All (Readable lib key t.projects) (update_secret p.id k nonce ct now t.secrets)
  Readable-update_secret sound s =
      All-update_secret (Readable lib key t.projects) p.id k nonce ct now t.secrets
        (λ r here.
          Readable-written _ sound.project_ids s (ground (arith, ==_iff r.project_id p.id))
            (ground (arith, =ᵇ_iff r.key k)) refl refl)
        sound.readable

  abbrev added : StoredSecret
  added = inserted lib p.id k nonce ct now t.secrets

  Readable-inserted :
      Sound lib key t → Sealable → All (Readable lib key t.projects) (t.secrets ++ added ∷ [])
  unfolding inserted
  Readable-inserted sound s =
      All-append (Readable lib key t.projects) t.secrets (added ∷ []) sound.readable
        (Readable-written added sound.project_ids s refl refl refl refl, tt)

  ids-inserted : FreshRowid lib → Sound lib key t → Distinct same_id (t.secrets ++ added ∷ [])
  unfolding inserted
  ids-inserted fresh sound =
      Distinct-append_one same_id t.secrets added
        (sym (any-map _ (λ r. r.id) t.secrets) ∙ fresh.unused (map (λ r. r.id) t.secrets))
        sound.secret_ids

  upserted-kept :
      (rows : List StoredSecret)
      → FreshRowid lib
      → Sound lib key t
      → Sealable
      → upserted lib p.id k nonce ct now t.projects t.secrets ≡ some rows
      → All (Readable lib key t.projects) rows × Distinct same_id rows
  unfolding upserted
  upserted-kept rows fresh sound s e = elim (Bool-cases (any (at_key p.id k) t.secrets)) [
    | inl old ↦
        let same : update_secret p.id k nonce ct now t.secrets ≡ rows = ground arith in
        subst (λ rs. All (Readable lib key t.projects) rs × Distinct same_id rs) same
          (
            Readable-update_secret sound s,
            Distinct_id-update_secret p.id k nonce ct now t.secrets sound.secret_ids,
          )
    | inr new ↦
        let same : t.secrets ++ added ∷ [] ≡ rows = ground arith in
        subst (λ rs. All (Readable lib key t.projects) rs × Distinct same_id rs) same
          (Readable-inserted sound s, ids-inserted fresh sound)
  ]

  pub upserted-Sound :
      (rows : List StoredSecret)
      → FreshRowid lib
      → Sound lib key t
      → Sealable
      → upserted lib p.id k nonce ct now t.projects t.secrets ≡ some rows
      → Sound lib key (with_secrets rows t)
  upserted-Sound rows fresh sound s e =
      let (readable, ids) = upserted-kept rows fresh sound s e in
      record {
        passphrase = sound.passphrase;
        verifier = KeyMeta-same_meta lib key sound.passphrase t _ refl sound.verifier;
        unique = record {
          projects = sound.unique.projects;
          secrets =
              Distinct-upserted lib p.id k nonce ct now t.projects t.secrets rows e
                sound.unique.secrets;
        };
        project_ids = sound.project_ids;
        secret_ids = ids;
        readable = readable;
      }
