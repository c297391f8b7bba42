-- ===== src/Server/CryptoState/Verifier.antt =====
-- The verifier: what initialisation and rekeying write is what verification reads back.
use secrets_manager.Prelude.{
  ℕ, ◌^◌, ◌<◌, ◌≡◌, refl, sym, ap, ◌∙◌, Option, some, List, [], arith, Bytes, ◌=ᵇ◌, length-le_bytes,
  from_le_bytes-le_bytes,
}
use secrets_manager.Exec.{ok, Exec, ◌>>=◌, >>=-eq-ok, >>=-elim}
use secrets_manager.Crates.{Crates}
use secrets_manager.Crypto.{KdfParams, strong, MasterKey, derive_key}
use secrets_manager.Crypto.Sealing.{Sealed}
use secrets_manager.Server.State.{Tables, World}
use secrets_manager.Server.State.Endings.{lift-eq-ok, map_err-eq-ok, ok_or-eq-ok}
use secrets_manager.Server.Repo.{meta_value, with_meta, set_meta, get_meta}
use secrets_manager.Server.Tables.Meta.{meta_value-with_meta, set_meta-eq-ok, query-ok, query-eq-ok}
use secrets_manager.Server.CryptoState.{
  StateError, sql, sentinel, verifier_aad, k_salt, k_m, k_t, k_p, k_vnonce, k_vct, u32_to_le,
  le_to_u32, validate_kdf_params, get_required, required_u32, set_key_meta,
}

-- The meta table after `set_key_meta`.
abbrev pub key_meta :
    Bytes → KdfParams → Bytes → Bytes → List (Bytes × Bytes) → List (Bytes × Bytes)
key_meta salt params nonce ct m = with_meta k_vct ct (
    with_meta k_vnonce nonce (
      with_meta k_p (u32_to_le params.p_cost) (
        with_meta k_t (u32_to_le params.t_cost)
          (with_meta k_m (u32_to_le params.m_cost_kib) (with_meta k_salt salt m)))))

abbrev stored : Bytes → Bytes → Tables → Tables
stored k v t = record t { meta = with_meta k v t.meta }

then_meta :
    {B : Type 0} (k v : Bytes) (next : Exec World StateError B) (w w'' : World) {b : B}
    → (sql (set_meta k v) >>= λ _. next) w ≡ (ok b, w'')
    → (w' : World) × (w'.tables ≡ stored k v w.tables) × (next w' ≡ (ok b, w''))
then_meta k v next w w'' h =
    let (a, w', wrote, rest) = >>=-eq-ok (sql (set_meta k v)) (λ _. next) w w'' h in
    (w', set_meta-eq-ok k v w w' (map_err-eq-ok _ (set_meta k v) w w' wrote), rest)

pub set_key_meta-eq-ok :
    (salt : Bytes) (params : KdfParams) (nonce ct : Bytes) (w w' : World)
    → set_key_meta salt params nonce ct w ≡ (ok tt, w')
    → w'.tables ≡ record w.tables { meta = key_meta salt params nonce ct w.tables.meta }
unfolding set_key_meta
set_key_meta-eq-ok salt params nonce ct w w' h =
    let (w1, e1, h1) = then_meta k_salt salt _ w w' h in
    let (w2, e2, h2) = then_meta k_m (u32_to_le params.m_cost_kib) _ w1 w' h1 in
    let (w3, e3, h3) = then_meta k_t (u32_to_le params.t_cost) _ w2 w' h2 in
    let (w4, e4, h4) = then_meta k_p (u32_to_le params.p_cost) _ w3 w' h3 in
    let (w5, e5, h5) = then_meta k_vnonce nonce _ w4 w' h4 in
    let e6 = set_meta-eq-ok k_vct ct w5 w' (map_err-eq-ok _ (set_meta k_vct ct) w5 w' h5) in
    e6
    ∙ ap (stored k_vct ct) (
        e5
        ∙ ap (stored k_vnonce nonce) (
            e4
            ∙ ap (stored k_p (u32_to_le params.p_cost)) (
                e3
                ∙ ap (stored k_t (u32_to_le params.t_cost))
                    (e2 ∙ ap (stored k_m (u32_to_le params.m_cost_kib)) e1))))

-- A number of 32 bits is read back from its four bytes.
pub le_to_u32-u32_to_le : (n : ℕ) → n < 2 ^ 32 → le_to_u32 (u32_to_le n) ≡ ok n
unfolding le_to_u32
le_to_u32-u32_to_le n h =
    ground (arith, length-le_bytes 4 n, from_le_bytes-le_bytes 4 n (omega arith))

module _ (lib : Crates) where
  -- The meta table holds a salt, parameters within the bounds, and a verifier that was sealed under
  -- the key that the passphrase gives with them.
  pub record KeyMeta (passphrase : Bytes) (key : MasterKey) (t : Tables) : Type 0 where
    pub salt : Bytes
    pub params : KdfParams
    pub nonce : Bytes
    pub ct : Bytes
    pub draws : ℕ
    pub salt_stored : meta_value k_salt t.meta ≡ some salt
    pub m_stored : meta_value k_m t.meta ≡ some (u32_to_le params.m_cost_kib)
    pub t_stored : meta_value k_t t.meta ≡ some (u32_to_le params.t_cost)
    pub p_stored : meta_value k_p t.meta ≡ some (u32_to_le params.p_cost)
    pub nonce_stored : meta_value k_vnonce t.meta ≡ some nonce
    pub ct_stored : meta_value k_vct t.meta ≡ some ct
    pub valid : validate_kdf_params params ≡ ok tt
    pub m_fits : params.m_cost_kib < 2 ^ 32
    pub t_fits : params.t_cost < 2 ^ 32
    pub p_fits : params.p_cost < 2 ^ 32
    pub derived : derive_key lib passphrase salt params ≡ ok key
    pub sealed : Sealed lib key sentinel verifier_aad nonce ct draws

  pub key_meta-KeyMeta :
      (passphrase salt nonce ct : Bytes) (key : MasterKey) (draws : ℕ) (t : Tables)
      → derive_key lib passphrase salt strong ≡ ok key
      → Sealed lib key sentinel verifier_aad nonce ct draws
      → KeyMeta passphrase key (record t { meta = key_meta salt strong nonce ct t.meta })
  unfolding ◌=ᵇ◌ validate_kdf_params
  key_meta-KeyMeta passphrase salt nonce ct key draws t derived sealed = record {
    salt = salt;
    params = strong;
    nonce = nonce;
    ct = ct;
    draws = draws;
    salt_stored = simp meta_value-with_meta;
    m_stored = simp meta_value-with_meta;
    t_stored = simp meta_value-with_meta;
    p_stored = simp meta_value-with_meta;
    nonce_stored = simp meta_value-with_meta;
    ct_stored = simp meta_value-with_meta;
    valid = refl;
    m_fits = omega arith;
    t_fits = omega arith;
    p_fits = omega arith;
    derived = derived;
    sealed = sealed;
  }

pub get_meta-ok :
    (k : Bytes) (w : World) → w.faults ≡ [] → get_meta k w ≡ (ok (meta_value k w.tables.meta), w)
unfolding get_meta
get_meta-ok k w h = query-ok (λ t. meta_value k t.meta) w h

pub get_required-ok :
    (k v : Bytes) (w : World)
    → w.faults ≡ []
    → meta_value k w.tables.meta ≡ some v
    → get_required k w ≡ (ok v, w)
unfolding get_required ◌>>=◌
get_required-ok k v w h e = simp (get_meta-ok k w h, e)

pub required_u32-ok :
    (k : Bytes) (n : ℕ) (w : World)
    → w.faults ≡ []
    → n < 2 ^ 32
    → meta_value k w.tables.meta ≡ some (u32_to_le n)
    → required_u32 k w ≡ (ok n, w)
unfolding required_u32 ◌>>=◌
required_u32-ok k n w h fits e =
    simp (get_required-ok k (u32_to_le n) w h e, le_to_u32-u32_to_le n fits)

pub get_meta-eq-ok :
    (k : Bytes) (w w' : World) {v : Option Bytes}
    → get_meta k w ≡ (ok v, w')
    → (meta_value k w.tables.meta ≡ v) × (w'.tables ≡ w.tables)
unfolding get_meta
get_meta-eq-ok k w w' e =
    let (same, stay) = query-eq-ok (λ t. meta_value k t.meta) w w' e in (sym same, stay)

pub get_required-eq-ok :
    (k : Bytes) (w w' : World) {v : Bytes}
    → get_required k w ≡ (ok v, w')
    → (meta_value k w.tables.meta ≡ some v) × (w'.tables ≡ w.tables)
unfolding get_required
get_required-eq-ok k w w' e = >>=-elim (sql (get_meta k)) _ w w' e λ value w1 e1 r1.
    let (found, stay) = get_meta-eq-ok k w w1 (map_err-eq-ok _ (get_meta k) w w1 e1) in
    let (some_v, same) = lift-eq-ok _ w1 w' r1 in
    (found ∙ ok_or-eq-ok value _ some_v, ap (λ x. x.tables) (sym same) ∙ stay)

pub required_u32-eq-ok :
    (k : Bytes) (w w' : World) {n : ℕ} → required_u32 k w ≡ (ok n, w') → w'.tables ≡ w.tables
unfolding required_u32
required_u32-eq-ok k w w' e = >>=-elim (get_required k) _ w w' e λ bytes w1 e1 r1.
    let (_, stay) = get_required-eq-ok k w w1 e1 in
    ap (λ x. x.tables) (sym (lift-eq-ok _ w1 w' r1).1) ∙ stay
