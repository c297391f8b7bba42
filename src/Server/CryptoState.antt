-- ===== src/Server/CryptoState.antt =====
-- Master-key initialisation, verification and rekeying, crates/secrets-server/src/crypto_state.rs.
pub mod Rollback
pub mod Verifier
pub mod Passphrase
pub mod Rows
pub mod Reencryption
pub mod Rekey
use secrets_manager.Prelude.{
  ℕ, zero, suc, ◌*◌, Bool, true, false, not, ◌&&◌, Option, none, some, List, [], ◌∷◌, ◌==◌,
  if◌then◌else◌, length, leb, Bytes, ascii, ◌=ᵇ◌, le_bytes, from_le_bytes,
}
use secrets_manager.Exec.{
  Outcome, ok, err, panic, map_error, ok_or, Exec, pure, fail, lift, map_err, refuse_if, ◌>>=◌,
  ◌>>◌,
}
use secrets_manager.Crates.{Crates}
use secrets_manager.Crypto.{
  KdfParams, strong, MasterKey, aad_bytes, derive_key, encrypt, decrypt, generate_salt,
}
use secrets_manager.Crypto.Error.{CryptoError}
use secrets_manager.Server.State.{
  StoredSecret, ProjectRow, Tables, World, SqlError, Sql, query, execute, transaction, on_draws,
}
use secrets_manager.Server.Repo.{find, get_meta, set_meta}

-- The `anyhow` errors, one constructor for each message.
pub data StateError : Type 0 where
  database : StateError
  crypto : CryptoError → StateError
  missing_metadata : Bytes → StateError
  corrupted_parameter unsupported_parameters verification_failed : StateError
  same_passphrase uninitialized undecryptable_secret : StateError

abbrev pub sentinel : Bytes
sentinel = ascii "secrets-manager-verifier-v1"

abbrev pub k_salt : Bytes
k_salt = ascii "kdf_salt"

abbrev pub k_m : Bytes
k_m = ascii "kdf_m_cost_kib"

abbrev pub k_t : Bytes
k_t = ascii "kdf_t_cost"

abbrev pub k_p : Bytes
k_p = ascii "kdf_p_cost"

abbrev pub k_vnonce : Bytes
k_vnonce = ascii "verifier_nonce"

abbrev pub k_vct : Bytes
k_vct = ascii "verifier_ct"

abbrev in_range : ℕ → ℕ → ℕ → Bool
in_range low high n = leb low n && leb n high

unfoldable pub validate_kdf_params : KdfParams → Outcome StateError (Unit {0})
validate_kdf_params params =
    if in_range 8 (1024 * 1024) params.m_cost_kib
      && in_range 1 32 params.t_cost
      && in_range 1 8 params.p_cost
    then ok tt
    else err unsupported_parameters

unfoldable pub verifier_aad : Bytes
verifier_aad = aad_bytes (0 ∷ ascii "meta") (0 ∷ ascii "verifier")

abbrev pub u32_to_le : ℕ → Bytes
u32_to_le v = le_bytes 4 v

unfoldable pub le_to_u32 : Bytes → Outcome StateError ℕ
le_to_u32 bytes = if length bytes == 4 then ok (from_le_bytes bytes) else err corrupted_parameter

-- `?` on a result of rusqlite
abbrev pub sql : {A : Type 0} → Sql A → Exec World StateError A
sql m = map_err (λ _. database) m

unfoldable pub get_required : Bytes → Exec World StateError Bytes
get_required key = do value ← sql (get_meta key); lift (ok_or value (missing_metadata key))

-- `le_to_u32(&get_required(conn, key)?)?`
unfoldable pub required_u32 : Bytes → Exec World StateError ℕ
unfolding get_required le_to_u32
required_u32 key = do bytes ← get_required key; lift (le_to_u32 bytes)

-- The six writes that end `initialize_with_params` and `rekey_with_params`.
unfoldable pub set_key_meta : Bytes → KdfParams → Bytes → Bytes → Exec World StateError (Unit {0})
set_key_meta salt params nonce ct = do
  sql (set_meta k_salt salt)
  sql (set_meta k_m (u32_to_le params.m_cost_kib))
  sql (set_meta k_t (u32_to_le params.t_cost))
  sql (set_meta k_p (u32_to_le params.p_cost))
  sql (set_meta k_vnonce nonce)
  sql (set_meta k_vct ct)

-- A row of the SELECT in `rekey_with_params`.
pub record RekeyRow : Type 0 where
  pub id : ℕ
  pub project : Bytes
  pub key : Bytes
  pub nonce : Bytes
  pub ciphertext : Bytes

-- JOIN projects ON projects.id = secrets.project_id
unfoldable pub join_row : List ProjectRow → StoredSecret → Option RekeyRow
unfolding find
join_row projects r = elim (find (λ p. p.id == r.project_id) projects) [
  | none ↦ none
  | some p ↦ some (record {
    id = r.id;
    project = p.name;
    key = r.key;
    nonce = r.nonce;
    ciphertext = r.ciphertext;
  })
]

unfoldable pub join_projects : List ProjectRow → List StoredSecret → List RekeyRow
join_projects projects [] = []
join_projects projects (r ∷ rows) =
    let rest = join_projects projects rows in
    elim (join_row projects r) [ none ↦ rest | some x ↦ x ∷ rest ]

-- ORDER BY secrets.id
unfoldable pub insert_by_id : RekeyRow → List RekeyRow → List RekeyRow
insert_by_id x [] = x ∷ []
insert_by_id x (y ∷ ys) =
    let rest = insert_by_id x ys in if leb x.id y.id then x ∷ y ∷ ys else y ∷ rest

unfoldable pub order_by_id : List RekeyRow → List RekeyRow
order_by_id [] = []
order_by_id (x ∷ xs) = insert_by_id x (order_by_id xs)

-- UPDATE secrets SET nonce = ?1, ciphertext = ?2 WHERE id = ?3
unfoldable pub replace_ciphertext : ℕ → Bytes → Bytes → List StoredSecret → List StoredSecret
replace_ciphertext id nonce ciphertext [] = []
replace_ciphertext id nonce ciphertext (r ∷ rows) =
    (if r.id == id then record r { nonce = nonce; ciphertext = ciphertext } else r)
    ∷ replace_ciphertext id nonce ciphertext rows

unfoldable pub update_ciphertext : ℕ → Bytes → Bytes → Sql (Unit {0})
unfolding execute
update_ciphertext id nonce ciphertext =
    execute λ t. some (tt, record t { secrets = replace_ciphertext id nonce ciphertext t.secrets })

module _ (lib : Crates) where
  unfoldable pub verify : Bytes → Bytes → Exec World StateError MasterKey
  unfolding required_u32 validate_kdf_params get_required
  verify passphrase salt = do
    m ← required_u32 k_m
    t ← required_u32 k_t
    p ← required_u32 k_p
    let params : KdfParams = record { m_cost_kib = m; t_cost = t; p_cost = p }
    lift (validate_kdf_params params)
    key ← lift (map_error crypto (derive_key lib passphrase salt params))
    nonce ← get_required k_vnonce
    ct ← get_required k_vct
    opened ← lift (map_error (λ _. verification_failed) (decrypt lib key nonce ct verifier_aad))
    pure key

  unfoldable pub initialize_with_params : Bytes → KdfParams → Exec World StateError MasterKey
  initialize_with_params passphrase params = do
    salt ← on_draws (generate_salt lib)
    key ← lift (map_error crypto (derive_key lib passphrase salt params))
    sealed ← map_err crypto (on_draws (encrypt lib key sentinel verifier_aad))
    transaction database (set_key_meta salt params sealed.0 sealed.1)
    pure key

  unfoldable pub initialize : Bytes → Exec World StateError MasterKey
  unfolding initialize_with_params
  initialize passphrase = initialize_with_params passphrase strong

  unfoldable pub init_or_verify : Bytes → Exec World StateError MasterKey
  init_or_verify passphrase = do
    stored ← sql (get_meta k_salt)
    elim stored [ some salt ↦ verify passphrase salt | none ↦ initialize passphrase ]

  -- One round of the loop of `rekey_with_params`.
  unfoldable pub rekey_row : MasterKey → MasterKey → RekeyRow → Exec World StateError (Unit {0})
  rekey_row old_key new_key row = do
    let aad = aad_bytes row.project row.key
    plaintext ←
        lift
          (map_error (λ _. undecryptable_secret) (decrypt lib old_key row.nonce row.ciphertext aad))
    sealed ← map_err crypto (on_draws (encrypt lib new_key plaintext aad))
    sql (update_ciphertext row.id sealed.0 sealed.1)

  unfoldable pub rekey_rows :
      MasterKey → MasterKey → List RekeyRow → Exec World StateError (Unit {0})
  rekey_rows old_key new_key [] = pure tt
  rekey_rows old_key new_key (row ∷ rows) = do
    rekey_row old_key new_key row
    rekey_rows old_key new_key rows

  -- What `rekey_with_params` does inside its transaction.
  unfoldable pub reencrypt_all : MasterKey → MasterKey → Bytes → KdfParams → Exec World StateError ℕ
  reencrypt_all old_key new_key new_salt new_params = do
    rows ← sql (query λ t. order_by_id (join_projects t.projects t.secrets))
    rekey_rows old_key new_key rows
    verifier ← map_err crypto (on_draws (encrypt lib new_key sentinel verifier_aad))
    set_key_meta new_salt new_params verifier.0 verifier.1
    pure (length rows)

  unfoldable pub current_key : Bytes → Option Bytes → Exec World StateError MasterKey
  current_key current_passphrase none = fail uninitialized
  current_key current_passphrase (some salt) = verify current_passphrase salt

  unfoldable pub rekey_with_params : Bytes → Bytes → KdfParams → Exec World StateError ℕ
  unfolding current_key
  rekey_with_params current_passphrase new_passphrase new_params = do
    refuse_if (current_passphrase =ᵇ new_passphrase) same_passphrase
    stored ← sql (get_meta k_salt)
    old_key ← current_key current_passphrase stored
    new_salt ← on_draws (generate_salt lib)
    new_key ← lift (map_error crypto (derive_key lib new_passphrase new_salt new_params))
    transaction database (reencrypt_all old_key new_key new_salt new_params)

  unfoldable pub rekey : Bytes → Bytes → Exec World StateError ℕ
  unfolding rekey_with_params
  rekey current_passphrase new_passphrase =
      rekey_with_params current_passphrase new_passphrase strong
