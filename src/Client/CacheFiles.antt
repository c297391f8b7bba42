-- ===== src/Client/CacheFiles.antt =====
-- The cache on the disk, crates/secrets-client/src/cache.rs on Linux: the cache key's file, and
-- `open`, `store`, `load` and `remove` of `CacheStore`.
pub mod Key
pub mod Stored
use mathlib.Core.Option
use secrets_manager.Prelude.{
  ℕ, suc, ◌%◌, Bool, true, false, not, Option, none, some, List, [], ◌∷◌, ◌++◌, ◌==◌, if◌then◌else◌,
  length, Bytes, ascii, BTreeMap,
}
use secrets_manager.Exec.{
  Outcome, ok, err, panic, ok_or, map_error, Exec, pure, lift, map_err, refuse_if, ◌>>=◌, ◌>>◌,
}
use secrets_manager.Crates.{Crates}
use secrets_manager.Crypto.{MasterKey, hash_token, key_len}
use secrets_manager.Server.Config.{join_path}
use secrets_manager.Client.Cache.{CacheStore}
use secrets_manager.Client.CacheEntries.{
  Envelope, CacheError, on_file, no_cache_directory, invalid_key_length, clock_before_epoch,
  encode_envelope, parse_envelope, encode_payload, unsupported_version, cache_version, Json,
  seal_entry, open_entry,
}
use secrets_manager.Client.Files.{
  CachePath, Disk, FileError, accessing, stat_failed, path_exists, open_private_for_read,
  read_to_end, read_file, remove_file, create_dir_all, disk_random, write_private_file, made,
}

-- SECRETS_CACHE_DIR, `dirs::cache_dir`, and the clock, in seconds since 1970 (`none` before).
pub record ClientHost : Type 0 where
  pub cache_dir_var : Option Bytes
  pub user_cache_dir : Option Bytes
  pub now_unix : Option ℕ

pub record ClientConfig : Type 0 where
  pub server_url : Bytes
  pub token : Bytes

-- `serde_json` of an envelope.
pub record EnvelopeJson : Type 0 where
  pub encode : Envelope → Option Bytes
  pub decode : Bytes → Option Envelope

unfoldable pub key_from_slice : Bytes → Outcome CacheError MasterKey
key_from_slice bytes =
    if not (length bytes == key_len) then err invalid_key_length else ok (record { expose = bytes })

abbrev pub files : {A : Type 0} → Exec Disk FileError A → Exec Disk CacheError A
files m = map_err on_file m

-- A part of the code that only draws random numbers.
unfoldable pub on_disk_draws : {E A : Type 0} → Exec ℕ E A → Exec Disk E A
on_disk_draws m d = let (r, draws) = m d.draws in (r, record d { draws = draws })

unfoldable pub cache_dir : ClientHost → Outcome CacheError Bytes
unfolding join_path
cache_dir host = elim host.cache_dir_var [
  | some dir ↦ ok dir
  | none ↦ elim host.user_cache_dir [
    | none ↦ err no_cache_directory
    | some base ↦ ok (join_path base (ascii "secrets"))
  ]
]

abbrev pub cache_key_path : Bytes → CachePath
cache_key_path dir = record { dir = dir; name = ascii "cache-key" }

-- `mode & 0o077 != 0`, and the chmod to 0700 then.
abbrev dir_made_private : ℕ → Exec Disk FileError (Unit {0})
dir_made_private mode =
    if not (mode % 64 == 0)
    then accessing stat_failed (λ d. (ok tt, record d { dir_mode = some 448 }))
    else pure tt

unfoldable pub restrict_dir : Exec Disk FileError (Unit {0})
unfolding accessing ◌>>=◌
restrict_dir = do
  mode ← accessing stat_failed (λ d. (ok (made d.dir_mode d.new_dir_mode), d))
  dir_made_private mode

module _ (lib : Crates) where
  unfoldable pub read_cache_key : Bytes → Exec Disk CacheError MasterKey
  unfolding open_private_for_read read_to_end key_from_slice ◌>>=◌
  read_cache_key dir = do
    f ← files (open_private_for_read (cache_key_path dir))
    raw ← files (read_to_end f)
    lift (key_from_slice raw)

  unfoldable pub create_cache_key : Bytes → Exec Disk CacheError MasterKey
  unfolding disk_random write_private_file ◌>>=◌
  create_cache_key dir = do
    raw ← files (disk_random lib key_len)
    files (write_private_file lib (cache_key_path dir) raw)
    pure (record { expose = raw })

  unfoldable pub load_or_create_cache_key : Bytes → Exec Disk CacheError MasterKey
  unfolding path_exists read_cache_key create_cache_key
  load_or_create_cache_key dir d =
      let (exists, d') = path_exists (cache_key_path dir) d in
      if exists then read_cache_key dir d' else create_cache_key dir d'

  -- The store, and its directory.
  unfoldable pub cache_open : ClientHost → ClientConfig → Exec Disk CacheError (Bytes × CacheStore)
  unfolding load_or_create_cache_key create_dir_all restrict_dir cache_dir hash_token ◌>>=◌
  cache_open host cfg = do
    dir ← lift (cache_dir host)
    files create_dir_all
    files restrict_dir
    key ← load_or_create_cache_key dir
    pure (
      dir,
      record { key = key; server_url = cfg.server_url; token_hash = hash_token lib cfg.token },
    )

  unfoldable pub cache_path : Bytes → CacheStore → Bytes → CachePath
  cache_path dir store project = record {
    dir = dir;
    name =
        lib.base64_encode (lib.sha256 (store.server_url ++ 0 ∷ (store.token_hash ++ 0 ∷ project)))
        ++ ascii ".json";
  }

  module _ (json : Json) (envelopes : EnvelopeJson) (host : ClientHost) (dir : Bytes)
      (store : CacheStore) where
    -- The clock is read between the encoding and the rest of `seal_entry`, which has the encoding too.
    unfoldable pub cache_store : Bytes → BTreeMap Bytes → Exec Disk CacheError (Unit {0})
    unfolding seal_entry write_private_file cache_path ◌>>=◌
    cache_store project secrets = do
      plain ← lift (ok_or (json.encode secrets) encode_payload)
      now ← lift (ok_or host.now_unix clock_before_epoch)
      envelope ← on_disk_draws (seal_entry lib json store project secrets now)
      data_ ← lift (ok_or (envelopes.encode envelope) encode_envelope)
      files (write_private_file lib (cache_path dir store project) data_)

    unfoldable pub cache_load : Bytes → Exec Disk CacheError (BTreeMap Bytes)
    unfolding open_entry read_file cache_path ◌>>=◌
    cache_load project = do
      data_ ← files (read_file (cache_path dir store project))
      envelope ← lift (ok_or (envelopes.decode data_) parse_envelope)
      refuse_if (not (envelope.version == cache_version)) unsupported_version
      now ← lift (ok_or host.now_unix clock_before_epoch)
      lift (open_entry lib json store project now envelope)

    unfoldable pub cache_remove : Bytes → Disk → Disk
    unfolding remove_file cache_path
    cache_remove project d = remove_file (cache_path dir store project) d
