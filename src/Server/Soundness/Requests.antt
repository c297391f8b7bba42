-- ===== src/Server/Soundness/Requests.antt =====
-- The requests of a server keep its tables sound.
use mathlib.Core.Option
use secrets_manager.Prelude.{
  ℕ, ◌≡◌, sym, subst, ◌∙◌, true, some, Option-cases, inl, inr, Bytes, is_utf8,
}
use secrets_manager.Exec.{ok, ok_or, Exec, map_err}
use secrets_manager.Crates.{Crates, FreshRowid, AeadCorrect}
use secrets_manager.Crypto.{MasterKey, aad_bytes, encrypt, decrypt}
use secrets_manager.Crypto.Sealing.{encrypt-Sealed, decrypt-Sealed}
use secrets_manager.Server.State.{Tables, World, ProjectRow, execute, on_draws, now_rfc3339}
use secrets_manager.Server.State.Moves.{Moves, moves_rules, now_rfc3339-Moves}
use secrets_manager.Server.State.Endings.{ok_or-eq-ok}
use secrets_manager.Server.State.Triples.{
  Keeping-Preorder, Triple, Writes, Triple-bind, Triple-lift, Triple-on_draws, Triple-Moves,
  Triple-ends, Triple-map_err, Triple-query, Triple-execute, Triple-pure, Moves-Triple,
}
use secrets_manager.Server.Repo.{AuthedToken, find, named, upserted, project_id, upsert_secret}
use secrets_manager.Server.Error.{not_found, from_sql}
use secrets_manager.Server.Handlers.Secrets.{Body, require_project, store_secret, put_secret, sql}
use secrets_manager.Server.Handlers.Walks.{put_secret-Moves}
use secrets_manager.Server.Handlers.Writing.{written}
use secrets_manager.Server.History.{IsText, Step, Step-Moves}
use secrets_manager.Server.Soundness.{Sound, StaysSound}
use secrets_manager.Server.Soundness.Statements.{Sound-Statements, StaysSound-Preorder}
use secrets_manager.Server.Soundness.Puts.{Sealable, upserted-Sound}

module _ (lib : Crates) (key : MasterKey) where
  abbrev KeepsSound :
      {E A : Type 0} → (Tables → Type 0) → Exec World E A → (A → Tables → Type 0) → Type 0
  KeepsSound P m Q = Triple (Sound lib key) P m Q

  module _ (name : Bytes) where
    -- The tables are sound, and have the project under the id.
    abbrev Holds : ℕ → Tables → Type 0
    Holds pid t =
        Sound lib key t × (Option.map (λ p. p.id) (find (named name) t.projects) ≡ some pid)

    require_project-Holds : KeepsSound (Sound lib key) (require_project name) Holds
    unfolding require_project project_id
    require_project-Holds =
        Triple-bind (Sound lib key) (sql (project_id name)) _
          (Triple-map_err (Sound lib key) from_sql (project_id name) (
            Triple-query (Sound lib key)
              (λ t. Option.map (λ p. p.id) (find (named name) t.projects)) (λ t s. s)))
          λ found.
            Triple-ends (Sound lib key) _
              (λ pid t h. (h.0.0, sym h.0.1 ∙ ok_or-eq-ok found not_found h.1))
              (Triple-lift (Sound lib key) (ok_or found not_found) (λ t h. h.0))

  written-Sound_at :
      (name k value nonce ct now : Bytes) (p : ProjectRow) (t : Tables)
      → FreshRowid lib
      → Sound lib key t
      → Sealable lib key name k value nonce ct now t p
      → Writes (Sound lib key) (λ _ t'. Sound lib key t') (written lib p.id k nonce ct now t)
  written-Sound_at name k value nonce ct now p t fresh sound s =
      elim (Option-cases (upserted lib p.id k nonce ct now t.projects t.secrets)) [
        | inl failed ↦ rw failed tt
        | inr (rows, up) ↦
            rw up (upserted-Sound lib key name k value nonce ct now t p rows fresh sound s up)
      ]

  written-Sound :
      (name k value nonce ct now : Bytes) (pid : ℕ) (t : Tables)
      → FreshRowid lib
      → is_utf8 value ≡ true
      → Holds name pid t
      → decrypt lib key nonce ct (aad_bytes name k) ≡ ok value
      → Writes (Sound lib key) (λ _ t'. Sound lib key t') (written lib pid k nonce ct now t)
  written-Sound name k value nonce ct now pid t fresh text h opens =
      elim (Option-cases (find (named name) t.projects)) [
        | inl absent ↦ cc (rw absent at h.1)
        | inr (p, found) ↦
            let own : some p.id ≡ some pid = rw found at h.1 in
            let same : p.id ≡ pid = cc own in
            subst
              (λ i.
                Writes (Sound lib key) (λ _ t'. Sound lib key t') (written lib i k nonce ct now t))
              same
              (written-Sound_at name k value nonce ct now p t fresh h.0
                (record { found = found; text = text; opens = opens }))
      ]

  module _ (name k value : Bytes) where
    abbrev Encrypted : ℕ → Bytes × Bytes → Tables → Type 0
    Encrypted pid sealed t =
        Holds name pid t
        × (d : ℕ) × (d' : ℕ) × (encrypt lib key value (aad_bytes name k) d ≡ (ok sealed, d'))

    upsert_secret-Sound :
        (pid : ℕ) (sealed : Bytes × Bytes)
        → AeadCorrect lib
        → FreshRowid lib
        → is_utf8 value ≡ true
        → KeepsSound
            (Encrypted pid sealed)
            (upsert_secret lib pid k sealed.0 sealed.1)
            (λ _ t. Sound lib key t)
    unfolding upsert_secret
    upsert_secret-Sound pid sealed correct fresh text =
        Triple-bind (Sound lib key) (now_rfc3339 lib) _
          (Triple-Moves (Sound lib key) (now_rfc3339 lib)
            (now_rfc3339-Moves (Keeping-Preorder (Encrypted pid sealed)) lib) (λ t h. h.0.0))
          λ now.
            Triple-bind (Sound lib key) (execute (written lib pid k sealed.0 sealed.1 now)) _
              (Triple-execute (Sound lib key) (written lib pid k sealed.0 sealed.1 now)
                (λ t h. h.0.0)
                λ t h.
                  let (holds, d, d', drawn) = h in
                  let (s, _) =
                    encrypt-Sealed lib key value (aad_bytes name k) sealed.0 sealed.1 d d' drawn in
                  written-Sound name k value sealed.0 sealed.1 now pid t fresh text holds
                    (decrypt-Sealed lib correct key value (aad_bytes name k) sealed.0 sealed.1 d s))
              λ _.
                Triple-Moves (Sound lib key) _ (search (moves_rules, Keeping-Preorder) depth 12)
                  (λ t s. s)

    store_secret-Sound :
        AeadCorrect lib
        → FreshRowid lib
        → is_utf8 value ≡ true
        → Moves (StaysSound lib key) (store_secret lib key name k value)
    unfolding store_secret
    store_secret-Sound correct fresh text = Moves-Triple (Sound lib key) _ (
        Triple-bind (Sound lib key) (require_project name) _ (require_project-Holds name) λ pid.
          Triple-bind (Sound lib key)
            (map_err _ (on_draws (encrypt lib key value (aad_bytes name k)))) _
            (Triple-map_err (Sound lib key) _ _ (
              Triple-on_draws (Sound lib key) (encrypt lib key value (aad_bytes name k))
                (λ t h. h.0)))
            λ sealed.
              Triple-bind (Sound lib key) (sql (upsert_secret lib pid k sealed.0 sealed.1)) _
                (Triple-map_err (Sound lib key) from_sql _
                  (upsert_secret-Sound pid sealed correct fresh text))
                λ version. Triple-pure (Sound lib key) (k, version) (λ t s. s))

  pub put_secret-Sound :
      AeadCorrect lib
      → FreshRowid lib
      → (token : AuthedToken) (name k : Bytes) (body : Body Bytes) → IsText body
      → Moves (StaysSound lib key) (put_secret lib key token name k body)
  put_secret-Sound correct fresh token name k body text =
      put_secret-Moves (StaysSound-Preorder lib key) lib key token name k body
        λ value sent. store_secret-Sound name k value correct fresh (subst IsText sent text)

  -- Whatever a request is and however it ends, the tables stay sound.
  pub Step-Sound :
      AeadCorrect lib
      → FreshRowid lib
      → (w w' : World) → Step lib key w w'
      → Sound lib key w.tables
      → Sound lib key w'.tables
  Step-Sound correct fresh w w' step =
      Step-Moves lib key (StaysSound-Preorder lib key) (Sound-Statements lib key fresh)
        (put_secret-Sound correct fresh) w w' step
