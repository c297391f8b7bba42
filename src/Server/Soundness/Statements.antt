-- ===== src/Server/Soundness/Statements.antt =====
-- The statements of crates/secrets-server/src/repo.rs keep the tables sound, but for the one that
-- writes a secret.
use secrets_manager.Prelude.{
  ℕ, ◌≡◌, refl, sym, ◌∙◌, Bool, false, not, Option, some, List, [], ◌∷◌, ◌++◌, map, arith, any,
  any-map, All-map, All-keep, Distinct-append_one, Bytes, Bool-cases, inl, inr,
}
use secrets_manager.Crates.{Crates, FreshRowid}
use secrets_manager.Crypto.{MasterKey}
use secrets_manager.Server.State.{ProjectRow, StoredSecret, TokenRow, Tables}
use secrets_manager.Server.State.Moves.{
  Preorder, Moves, Written, Moves-bind, Moves-execute, now_rfc3339-Moves,
}
use secrets_manager.Server.Repo.{
  find, named, at_key, create_project, delete_secret, insert_token, revoke_token,
}
use secrets_manager.Server.Tables.Secrets.{same_key}
use secrets_manager.Server.Tables.Writes.{Distinct-keep}
use secrets_manager.Server.CryptoState.Rows.{same_id}
use secrets_manager.Server.CryptoState.Verifier.{KeyMeta}
use secrets_manager.Server.Auth.Revocation.{revocation}
use secrets_manager.Server.Auth.Issuance.{insertion}
use secrets_manager.Server.Handlers.Walks.{Statements}
use secrets_manager.Server.Handlers.Constraints.{Unique, registration, Distinct-append_project}
use secrets_manager.Server.Handlers.Deleting.{deletion}
use secrets_manager.Server.Soundness.{same_project_id, owns, Readable, Sound, StaysSound}

pub find-append_some :
    {A : Type 0} (p : A → Bool) (xs ys : List A) (x : A)
    → find p xs ≡ some x
    → find p (xs ++ ys) ≡ some x
unfolding find
find-append_some p [] ys x h = cc h
find-append_some p (y ∷ xs) ys x h = ground (arith, find-append_some p xs ys x)

module _ (lib : Crates) (key : MasterKey) where
  -- The key's metadata stands in one table.
  pub KeyMeta-same_meta :
      (passphrase : Bytes) (t u : Tables)
      → u.meta ≡ t.meta
      → KeyMeta lib passphrase key t
      → KeyMeta lib passphrase key u
  KeyMeta-same_meta passphrase t u same k = record {
    salt = k.salt;
    params = k.params;
    nonce = k.nonce;
    ct = k.ct;
    draws = k.draws;
    salt_stored = rw same k.salt_stored;
    m_stored = rw same k.m_stored;
    t_stored = rw same k.t_stored;
    p_stored = rw same k.p_stored;
    nonce_stored = rw same k.nonce_stored;
    ct_stored = rw same k.ct_stored;
    valid = k.valid;
    m_fits = k.m_fits;
    t_fits = k.t_fits;
    p_fits = k.p_fits;
    derived = k.derived;
    sealed = k.sealed;
  }

  pub StaysSound-Preorder : Preorder (StaysSound lib key)
  StaysSound-Preorder = record { same = λ t s. s; then_to = λ f g s. g (f s) }

  Readable-append :
      (ps qs : List ProjectRow) (r : StoredSecret)
      → Readable lib key ps r
      → Readable lib key (ps ++ qs) r
  Readable-append ps qs r x = record {
    project = x.project;
    plaintext = x.plaintext;
    owner = find-append_some (owns r) ps qs x.project x.owner;
    opened = x.opened;
    text = x.text;
  }

  abbrev registered : Bytes → Bytes → Tables → ProjectRow
  registered name now t = record {
    id = lib.fresh_rowid (map (λ p. p.id) t.projects);
    name = name;
    created_at = now;
  }

  registered-Sound :
      FreshRowid lib
      → (name now : Bytes) (t : Tables) → any (named name) t.projects ≡ false
      → Unique (record t { projects = t.projects ++ registered name now t ∷ [] })
      → Sound lib key t
      → Sound lib key (record t { projects = t.projects ++ registered name now t ∷ [] })
  registered-Sound fresh name now t free u s = record {
    passphrase = s.passphrase;
    verifier = KeyMeta-same_meta s.passphrase t _ refl s.verifier;
    unique = u;
    project_ids =
        Distinct-append_one same_project_id t.projects (registered name now t)
          (sym (any-map _ (λ p. p.id) t.projects) ∙ fresh.unused (map (λ p. p.id) t.projects))
          s.project_ids;
    secret_ids = s.secret_ids;
    readable =
        All-map _ _ t.secrets (Readable-append t.projects (registered name now t ∷ [])) s.readable;
  }

  registered-Unique :
      (name now : Bytes) (t : Tables)
      → any (named name) t.projects ≡ false
      → Unique t
      → Unique (record t { projects = t.projects ++ registered name now t ∷ [] })
  registered-Unique name now t free u = record {
    projects = Distinct-append_project t.projects (registered name now t) free u.projects;
    secrets = u.secrets;
  }

  registration-Sound :
      FreshRowid lib
      → (name now : Bytes) (t : Tables)
      → Written (StaysSound lib key) t (registration lib name now t)
  registration-Sound fresh name now t = elim (Bool-cases (any (named name) t.projects)) [
    | inl taken ↦ rw taken tt
    | inr free ↦
        rw free
          λ s. registered-Sound fresh name now t free (registered-Unique name now t free s.unique) s
  ]

  pub create_project-Sound :
      FreshRowid lib → (name : Bytes) → Moves (StaysSound lib key) (create_project lib name)
  unfolding create_project
  create_project-Sound fresh name =
      Moves-bind StaysSound-Preorder _ _ (now_rfc3339-Moves StaysSound-Preorder lib) λ now.
        Moves-execute StaysSound-Preorder (registration lib name now)
          (registration-Sound fresh name now)

  delete_secret-Sound :
      (pid : ℕ) (key' : Bytes) → Moves (StaysSound lib key) (delete_secret pid key')
  unfolding delete_secret
  delete_secret-Sound pid key' = Moves-execute StaysSound-Preorder (deletion pid key') λ t s.
      record {
        passphrase = s.passphrase;
        verifier = KeyMeta-same_meta s.passphrase t _ refl s.verifier;
        unique = record {
          projects = s.unique.projects;
          secrets =
              Distinct-keep same_key (λ r. not (at_key pid key' r)) t.secrets s.unique.secrets;
        };
        project_ids = s.project_ids;
        secret_ids = Distinct-keep same_id (λ r. not (at_key pid key' r)) t.secrets s.secret_ids;
        readable = All-keep _ (λ r. not (at_key pid key' r)) t.secrets s.readable;
      }

  -- What leaves the metadata, the projects and the secrets.
  with_tokens-Sound :
      (t : Tables) (rows : List TokenRow) → StaysSound lib key t (record t { tokens = rows })
  with_tokens-Sound t rows s = record {
    passphrase = s.passphrase;
    verifier = KeyMeta-same_meta s.passphrase t _ refl s.verifier;
    unique = record { projects = s.unique.projects; secrets = s.unique.secrets };
    project_ids = s.project_ids;
    secret_ids = s.secret_ids;
    readable = s.readable;
  }

  insert_token-Sound :
      (name hash : Bytes) (scope expires_at : Option Bytes)
      → Moves (StaysSound lib key) (insert_token lib name hash scope expires_at)
  unfolding insert_token
  insert_token-Sound name hash scope expires_at =
      Moves-bind StaysSound-Preorder _ _ (now_rfc3339-Moves StaysSound-Preorder lib) λ now.
        Moves-execute StaysSound-Preorder (insertion lib name hash scope expires_at now)
          λ t. with_tokens-Sound t _

  revoke_token-Sound : (name : Bytes) → Moves (StaysSound lib key) (revoke_token name)
  unfolding revoke_token
  revoke_token-Sound name =
      Moves-execute StaysSound-Preorder (revocation name) λ t. with_tokens-Sound t _

  pub Sound-Statements : FreshRowid lib → Statements lib (StaysSound lib key)
  Sound-Statements fresh = record {
    create_project = create_project-Sound fresh;
    delete_secret = delete_secret-Sound;
    insert_token = insert_token-Sound;
    revoke_token = revoke_token-Sound;
  }
