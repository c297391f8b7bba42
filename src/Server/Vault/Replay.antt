-- ===== src/Server/Vault/Replay.antt =====
-- Requests of crates/secrets-server/src/handlers.rs beside the changes of a map.
use mathlib.Core.Option
use secrets_manager.Prelude.{
  ℕ, ◌≡◌, refl, sym, subst, ap, ◌∙◌, Bool, true, false, ◌&&◌, Option, none, some, List, ◌∷◌, ◌==◌,
  ==_iff, arith, if◌then◌else◌, Distinct, Bool-cases, Option-cases, inl, inr, Bytes, ◌=ᵇ◌, =ᵇ_iff,
  BTreeMap, btree_get, is_utf8,
}
use secrets_manager.Exec.{ok}
use secrets_manager.Crates.{Crates, AeadCorrect}
use secrets_manager.Crypto.{MasterKey}
use secrets_manager.Server.State.{World, Tables, ProjectRow}
use secrets_manager.Server.Repo.{AuthedToken, SecretRow, find, named}
use secrets_manager.Server.Tables.Secrets.{same_key}
use secrets_manager.Server.Tables.Writes.{held, sealed_row}
use secrets_manager.Server.Handlers.Secrets.{get_secrets, put_secret, delete_secret_handler}
use secrets_manager.Server.Handlers.Reading.{opened, stored_value, Shows, get_secrets-Shows}
use secrets_manager.Server.Handlers.Writing.{put_secret-Puts}
use secrets_manager.Server.Handlers.Deleting.{delete_secret-Deletes}
use secrets_manager.Server.Handlers.RoundTrip.{opened-Sealed, stored_value-held}
use secrets_manager.Server.Soundness.{same_project_id}
use secrets_manager.Server.Soundness.Puts.{find-named_by_id, find-named_holds}
use secrets_manager.Server.Vault.{
  Change, put, delete, replay, in_project, vault, Handled, begins, put_handled, delete_handled,
  get_handled,
}

some-inj : {A : Type 0} {x y : A} → some x ≡ some y → x ≡ y
some-inj e = cc e

either :
    {A : Type 0} (b : Bool) {x y old new : A}
    → (b ≡ true → x ≡ y)
    → old ≡ new
    → (if b then x else old) ≡ (if b then y else new)
either true h e = h refl
either false h e = e

-- Projects have the same id just where they have the same name.
same_id-same_name :
    (name name' : Bytes) (ps : List ProjectRow) (p q : ProjectRow)
    → Distinct same_project_id ps
    → find (named name) ps ≡ some p
    → find (named name') ps ≡ some q
    → (p.id == q.id) ≡ (name =ᵇ name')
same_id-same_name name name' ps p q d hp hq = elim (Bool-cases (name =ᵇ name')) [
  | inl same ↦
      let e : some p ≡ some q =
        sym hp ∙ (ap (λ n. find (named n) ps) ((=ᵇ_iff name name').0 same) ∙ hq) in
      let ids : p.id ≡ q.id = ap (λ x. x.id) (some-inj e) in (==_iff p.id q.id).1 ids ∙ sym same
  | inr other ↦ elim (Bool-cases (p.id == q.id)) [
    | inl ids ↦
        let e : some p ≡ some q =
          sym (find-named_by_id name ps p d hp)
          ∙ (ap (λ i. find (λ x. x.id == i) ps) ((==_iff p.id q.id).0 ids)
              ∙ find-named_by_id name' ps q d hq) in
        let names : name ≡ name' =
          sym ((=ᵇ_iff p.name name).0 (find-named_holds name ps p hp))
          ∙ (ap (λ x. x.name) (some-inj e)
              ∙ (=ᵇ_iff q.name name').0 (find-named_holds name' ps q hq)) in
        cc (sym other ∙ (=ᵇ_iff name name').1 names)
    | inr apart ↦ apart ∙ sym other
  ]
]

module _ (lib : Crates) (state_key : MasterKey) where
  -- A write that changes what the project holds under one key.
  vault-written :
      (name key : Bytes) (t u : Tables) (p : ProjectRow) (o : Option SecretRow) (n k : Bytes)
      → Distinct same_project_id t.projects
      → find (named name) t.projects ≡ some p
      → u.projects ≡ t.projects
      → ((q : ℕ) (j : Bytes)
          → held q j u.secrets ≡ (if p.id == q && key =ᵇ j then o else held q j t.secrets))
      → vault lib state_key u n k ≡ (
          if name =ᵇ n && key =ᵇ k
          then Option.bind o (opened lib state_key n)
          else vault lib state_key t n k)
  unfolding vault
  vault-written name key t u p o n k d found same changed =
      elim (Option-cases (find (named n) t.projects)) [
        | inl absent ↦ elim (Bool-cases (name =ᵇ n)) [
          | inl own ↦
              let e : some p ≡ none =
                sym found
                ∙ (ap (λ x. find (named x) t.projects) ((=ᵇ_iff name n).0 own) ∙ absent) in
              cc e
          | inr other ↦
              let absent' : find (named n) u.projects ≡ none = ap (find (named n)) same ∙ absent in
              rw other (rw absent' (rw absent refl))
        ]
        | inr (q, there) ↦
            let there' : find (named n) u.projects ≡ some q = ap (find (named n)) same ∙ there in
            rw there' (
              rw there (
                stored_value-held lib state_key n q.id k t.secrets u.secrets
                  (p.id == q.id && key =ᵇ k) o (changed q.id k)
                ∙ ap
                    (λ b.
                      if b && key =ᵇ k
                      then Option.bind o (opened lib state_key n)
                      else stored_value lib state_key n q.id k t.secrets)
                    (same_id-same_name name n t.projects p q d found there)))
      ]

  -- The same, for the id that a request has found.
  vault-changed :
      (name key : Bytes) (t u : Tables) (pid : ℕ) (o : Option SecretRow) (n k : Bytes)
      → Distinct same_project_id t.projects
      → Option.map (λ p. p.id) (find (named name) t.projects) ≡ some pid
      → u.projects ≡ t.projects
      → ((q : ℕ) (j : Bytes)
          → held q j u.secrets ≡ (if pid == q && key =ᵇ j then o else held q j t.secrets))
      → vault lib state_key u n k ≡ (
          if name =ᵇ n && key =ᵇ k
          then Option.bind o (opened lib state_key n)
          else vault lib state_key t n k)
  vault-changed name key t u pid o n k d project same changed =
      elim (Option-cases (find (named name) t.projects)) [
        | inl absent ↦ cc (rw absent at project)
        | inr (p, found) ↦
            let e : some p.id ≡ some pid = rw found at project in
            vault-written name key t u p o n k d found same (λ q j.
              changed q j
              ∙ ap (λ i. if i == q && key =ᵇ j then o else held q j t.secrets) (sym (some-inj e)))
      ]

  -- What the tables keep while requests are handled.
  record Follows (w w' : World) (changes : List Change) : Type 0 where
    projects : w'.tables.projects ≡ w.tables.projects
    distinct : Distinct same_key w'.tables.secrets
    values :
        (n k : Bytes)
        → vault lib state_key w'.tables n k ≡ replay changes (vault lib state_key w.tables) n k

  Follows-put :
      (token : AuthedToken) (name key value k : Bytes) (version : ℕ) (changes : List Change)
      (w w' w'' : World)
      → AeadCorrect lib
      → Distinct same_project_id w.tables.projects
      → is_utf8 value ≡ true
      → put_secret lib state_key token name key (ok value) w' ≡ (ok (k, version), w'')
      → Follows w w' changes
      → Follows w w'' (put name key value ∷ changes)
  unfolding replay Option.bind
  Follows-put token name key value k version changes w w' w'' correct d text e f =
      let p = put_secret-Puts lib state_key name key value token k version w' w'' e in
      let same : w''.tables.projects ≡ w'.tables.projects = ap (λ t. t.projects) p.others in
      record {
        projects = same ∙ f.projects;
        distinct = p.distinct f.distinct;
        values = λ n j.
            vault-changed name key w'.tables w''.tables p.pid (some (sealed_row key p.nonce p.ct)) n
              j (subst (Distinct same_project_id) (sym f.projects) d) p.project same p.secrets
            ∙ either (name =ᵇ n && key =ᵇ j)
                (λ here.
                  let own : n ≡ name = sym ((=ᵇ_iff name n).0 (ground arith)) in
                  ap (λ x. opened lib state_key x (sealed_row key p.nonce p.ct)) own
                  ∙ opened-Sealed lib state_key name key value p.nonce p.ct p.draws correct text
                      p.sealed)
                (f.values n j);
      }

  Follows-delete :
      (token : AuthedToken) (name key : Bytes) (status : ℕ) (changes : List Change)
      (w w' w'' : World)
      → Distinct same_project_id w.tables.projects
      → delete_secret_handler token name key w' ≡ (ok status, w'')
      → Follows w w' changes
      → Follows w w'' (delete name key ∷ changes)
  unfolding replay Option.bind
  Follows-delete token name key status changes w w' w'' d e f =
      let (_, p) = delete_secret-Deletes name key token status w' w'' e in
      let same : w''.tables.projects ≡ w'.tables.projects = ap (λ t. t.projects) p.others in
      record {
        projects = same ∙ f.projects;
        distinct = p.distinct f.distinct;
        values = λ n j.
            vault-changed name key w'.tables w''.tables p.pid none n j
              (subst (Distinct same_project_id) (sym f.projects) d) p.project same p.secrets
            ∙ either (name =ᵇ n && key =ᵇ j) (λ here. refl) (f.values n j);
      }

  Follows-same :
      (changes : List Change) (w w' w'' : World)
      → w''.tables ≡ w'.tables
      → Follows w w' changes
      → Follows w w'' changes
  Follows-same changes w w' w'' same f = record {
    projects = ap (λ t. t.projects) same ∙ f.projects;
    distinct = subst (λ t. Distinct same_key t.secrets) (sym same) f.distinct;
    values = λ n k. ap (λ t. vault lib state_key t n k) same ∙ f.values n k;
  }

  Handled-Follows :
      (w w' : World) (changes : List Change)
      → AeadCorrect lib
      → Distinct same_project_id w.tables.projects
      → Distinct same_key w.tables.secrets
      → Handled lib state_key w w' changes
      → Follows w w' changes
  unfolding replay
  Handled-Follows w w' changes correct ids keys (begins _) = record {
    projects = refl;
    distinct = keys;
    values = λ n k. refl;
  }
  Handled-Follows w w' changes correct ids keys
        (put_handled {w' = v} {changes = before} token name key value k version h text e) =
      Follows-put token name key value k version before w v w' correct ids text e
        (Handled-Follows w v before correct ids keys h)
  Handled-Follows w w' changes correct ids keys
        (delete_handled {w' = v} {changes = before} token name key status h e) =
      Follows-delete token name key status before w v w' ids e
        (Handled-Follows w v before correct ids keys h)
  Handled-Follows w w' changes correct ids keys (get_handled {w' = v} token name m h e) =
      let f = Handled-Follows w v changes correct ids keys h in
      Follows-same changes w v w'
        (get_secrets-Shows lib state_key name token m v w' f.distinct e).unchanged f

  shown :
      (token : AuthedToken) (name : Bytes) (m : BTreeMap Bytes) (w w' : World) (j : Bytes)
      → Shows lib state_key name token m w w'
      → btree_get j m ≡ vault lib state_key w.tables name j
  unfolding vault
  shown token name m w w' j s =
      s.values j ∙ ap (in_project lib state_key w.tables name j) (sym s.project)

-- After any puts of texts, deletes and reads that ended well, by whatever tokens, a read of a project
-- that ends well shows under each key what the changes, made one after the other to the map that the
-- first tables stood for, make of it; where the tables began with distinct ids of projects and
-- distinct keys in each.
pub get_secrets-replay :
    (lib : Crates) (state_key : MasterKey) (token : AuthedToken) (name : Bytes) (m : BTreeMap Bytes)
    (w w' w'' : World) (changes : List Change) (j : Bytes)
    → AeadCorrect lib
    → Distinct same_project_id w.tables.projects
    → Distinct same_key w.tables.secrets
    → Handled lib state_key w w' changes
    → get_secrets lib state_key token name w' ≡ (ok m, w'')
    → btree_get j m ≡ replay changes (vault lib state_key w.tables) name j
get_secrets-replay lib state_key token name m w w' w'' changes j correct ids keys h e =
    let f = Handled-Follows lib state_key w w' changes correct ids keys h in
    shown lib state_key token name m w' w'' j
      (get_secrets-Shows lib state_key name token m w' w'' f.distinct e)
    ∙ f.values name j
