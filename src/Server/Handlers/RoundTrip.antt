-- ===== src/Server/Handlers/RoundTrip.antt =====
-- Reading back what was written: sequences of the handlers `get_secrets`, `put_secret` and
-- `delete_secret` of crates/secrets-server/src/handlers.rs.
use mathlib.Core.Option
use secrets_manager.Prelude.{
  ℕ, ◌≡◌, sym, subst, ap, ◌∙◌, Bool, true, false, ◌&&◌, ◌==◌, ==_iff, Option, none, some, List,
  arith, if◌then◌else◌, Distinct, Bytes, ◌=ᵇ◌, is_utf8, from_utf8, BTreeMap, btree_get,
}
use secrets_manager.Exec.{ok}
use secrets_manager.Crates.{Crates, AeadCorrect}
use secrets_manager.Crypto.{MasterKey, aad_bytes}
use secrets_manager.Crypto.Sealing.{Sealed, decrypt-Sealed}
use secrets_manager.Server.State.{World, StoredSecret, ProjectRow}
use secrets_manager.Server.Repo.{AuthedToken, SecretRow, named, find}
use secrets_manager.Server.Tables.Secrets.{same_key}
use secrets_manager.Server.Tables.Writes.{held, sealed_row}
use secrets_manager.Server.Handlers.Secrets.{
  decrypt_row, get_secrets, put_secret, delete_secret_handler,
}
use secrets_manager.Server.Handlers.Reading.{opened, stored_value, Shows, get_secrets-Shows}
use secrets_manager.Server.Handlers.Writing.{put_secret-Puts}
use secrets_manager.Server.Handlers.Deleting.{delete_secret-Deletes}

some-inj : {A : Type 0} {x y : A} → some x ≡ some y → x ≡ y
some-inj e = cc e

-- A project's id stays the same while the projects do.
same_pid :
    (name : Bytes) (ps ps' : List ProjectRow) {i j : ℕ}
    → Option.map (λ p. p.id) (find (named name) ps) ≡ some i
    → Option.map (λ p. p.id) (find (named name) ps') ≡ some j
    → ps' ≡ ps
    → i ≡ j
same_pid name ps ps' hi hj same =
    some-inj (sym hi ∙ (ap (λ x. Option.map (λ p. p.id) (find (named name) x)) (sym same) ∙ hj))

module _ (lib : Crates) (state_key : MasterKey) (name : Bytes) where
  pub opened-Sealed :
      (key value nonce ct : Bytes) (draws : ℕ)
      → AeadCorrect lib
      → is_utf8 value ≡ true
      → Sealed lib state_key value (aad_bytes name key) nonce ct draws
      → opened lib state_key name (sealed_row key nonce ct) ≡ some value
  unfolding decrypt_row from_utf8
  opened-Sealed key value nonce ct draws correct text s =
      ground
        (arith, decrypt-Sealed lib correct state_key value (aad_bytes name key) nonce ct draws s)

  pub stored_value-held :
      (p : ℕ) (j : Bytes) (rows rows' : List StoredSecret) (b : Bool) (o : Option SecretRow)
      → held p j rows' ≡ (if b then o else held p j rows)
      → stored_value lib state_key name p j rows' ≡ (
          if b
          then Option.bind o (opened lib state_key name)
          else stored_value lib state_key name p j rows)
  stored_value-held p j rows rows' true o h = ap (λ x. Option.bind x (opened lib state_key name)) h
  stored_value-held p j rows rows' false o h = ap (λ x. Option.bind x (opened lib state_key name)) h

  if-same_id :
      (p : ℕ) (b : Bool) (new shown old : Option Bytes)
      → shown ≡ old
      → (if p == p && b then new else old) ≡ (if b then new else shown)
  if-same_id p b new shown old e = ground (arith, ==_iff p p)

  -- Two reads of the project around a write that changes what it holds under one key.
  Shows-around :
      (key : Bytes) (first second : AuthedToken) (m m' : BTreeMap Bytes) (w0 w1 w2 w3 : World)
      (pid : ℕ) (o : Option SecretRow)
      → Shows lib state_key name first m w0 w1
      → Shows lib state_key name second m' w2 w3
      → Option.map (λ p. p.id) (find (named name) w1.tables.projects) ≡ some pid
      → w2.tables.projects ≡ w1.tables.projects
      → ((q : ℕ) (j : Bytes)
          → held q j w2.tables.secrets
            ≡ (if pid == q && key =ᵇ j then o else held q j w1.tables.secrets))
      → (j : Bytes)
      → btree_get j m'
        ≡ (if key =ᵇ j then Option.bind o (opened lib state_key name) else btree_get j m)
  Shows-around key first second m m' w0 w1 w2 w3 pid o before after project others changed j =
      let same1 : before.pid ≡ pid =
        same_pid name w0.tables.projects w1.tables.projects before.project project
          (ap (λ t. t.projects) before.unchanged) in
      let same2 : pid ≡ after.pid =
        same_pid name w1.tables.projects w2.tables.projects project after.project others in
      let old : btree_get j m ≡ stored_value lib state_key name pid j w1.tables.secrets =
        before.values j
        ∙ (λ i. stored_value lib state_key name (same1 i) j (sym before.unchanged i).secrets) in
      after.values j
      ∙ ((λ i. stored_value lib state_key name (sym same2 i) j w2.tables.secrets)
          ∙ (stored_value-held pid j w1.tables.secrets w2.tables.secrets (pid == pid && key =ᵇ j) o
                (changed pid j)
              ∙ if-same_id pid (key =ᵇ j) (Option.bind o (opened lib state_key name))
                  (btree_get j m) _ old))

-- A value that is UTF-8 text, put under a key between two successful reads of a project, is what the
-- second read shows under that key, and under every other key it shows what the first did; whoever
-- the tokens of the three requests are, provided the table holds a key of a project only once and
-- decryption inverts encryption.
pub put_secret-get_secrets :
    (lib : Crates) (state_key : MasterKey) (name key value : Bytes)
    (first writer second : AuthedToken) (m m' : BTreeMap Bytes) (k : Bytes) (version : ℕ)
    (w0 w1 w2 w3 : World)
    → AeadCorrect lib
    → is_utf8 value ≡ true
    → Distinct same_key w0.tables.secrets
    → get_secrets lib state_key first name w0 ≡ (ok m, w1)
    → put_secret lib state_key writer name key (ok value) w1 ≡ (ok (k, version), w2)
    → get_secrets lib state_key second name w2 ≡ (ok m', w3)
    → (j : Bytes) → btree_get j m' ≡ (if key =ᵇ j then some value else btree_get j m)
unfolding Option.bind
put_secret-get_secrets lib state_key name key value first writer second m m' k version w0 w1 w2 w3
      correct text d read write again j =
    let before = get_secrets-Shows lib state_key name first m w0 w1 d read in
    let p = put_secret-Puts lib state_key name key value writer k version w1 w2 write in
    let d1 : Distinct same_key w1.tables.secrets =
      subst (λ t. Distinct same_key t.secrets) (sym before.unchanged) d in
    let after = get_secrets-Shows lib state_key name second m' w2 w3 (p.distinct d1) again in
    Shows-around lib state_key name key first second m m' w0 w1 w2 w3 p.pid _ before after p.project
      (ap (λ t. t.projects) p.others) p.secrets j
    ∙ ap (λ o. if key =ᵇ j then o else btree_get j m)
        (opened-Sealed lib state_key name key value p.nonce p.ct p.draws correct text p.sealed)

-- After a successful delete between two successful reads of a project, which answers 204, the second
-- read shows nothing under the key, and under every other key what the first did, provided the table
-- holds a key of a project only once.
pub delete_secret-get_secrets :
    (lib : Crates) (state_key : MasterKey) (name key : Bytes) (first writer second : AuthedToken)
    (m m' : BTreeMap Bytes) (status : ℕ) (w0 w1 w2 w3 : World)
    → Distinct same_key w0.tables.secrets
    → get_secrets lib state_key first name w0 ≡ (ok m, w1)
    → delete_secret_handler writer name key w1 ≡ (ok status, w2)
    → get_secrets lib state_key second name w2 ≡ (ok m', w3)
    → (status ≡ 204) × ((j : Bytes) → btree_get j m' ≡ (if key =ᵇ j then none else btree_get j m))
unfolding Option.bind
delete_secret-get_secrets lib state_key name key first writer second m m' status w0 w1 w2 w3 d read
      write again =
    let before = get_secrets-Shows lib state_key name first m w0 w1 d read in
    let (answered, p) = delete_secret-Deletes name key writer status w1 w2 write in
    let d1 : Distinct same_key w1.tables.secrets =
      subst (λ t. Distinct same_key t.secrets) (sym before.unchanged) d in
    let after = get_secrets-Shows lib state_key name second m' w2 w3 (p.distinct d1) again in
    (
      answered,
      Shows-around lib state_key name key first second m m' w0 w1 w2 w3 p.pid none before after
          p.project (ap (λ t. t.projects) p.others) p.secrets,
    )
