-- ===== src/Client/CacheFiles/Key.antt =====
-- The cache key is made once: `load_or_create_cache_key` of crates/secrets-client/src/cache.rs.
use secrets_manager.Prelude.{
  ◌%◌, ◌≡◌, refl, sym, subst, ap, ◌∙◌, true, false, not, some, [], ◌==◌, ==_iff, arith,
  if◌then◌else◌, length, Bool-cases, Option-cases, inl, inr, Bytes,
}
use secrets_manager.Exec.{
  ok, map_error, Exec, pure, map_err, refuse_if, ◌>>=◌, ◌>>◌, >>=-elim, >>=-of_ok,
}
use secrets_manager.Crates.{Crates, FillsBuffer}
use secrets_manager.Crypto.{MasterKey, key_len}
use secrets_manager.Server.State.Endings.{
  map_err-eq-ok, lift-eq-ok, pure-eq-ok, refuse_if->>=-eq-ok,
}
use secrets_manager.Client.CacheEntries.{on_file}
use secrets_manager.Client.Files.{
  CachePath, FileKind, FileError, regular, directory, special, symlink, is_symlink, resolves,
  is_regular, FileEntry, Disk, file, disk_access, accessing, path_exists, open_no_follow,
  open_private_for_read, stat_failed, not_regular, not_private, read_to_end, read_failed,
  disk_random, write_private_file,
}
use secrets_manager.Client.Files.Others.{private_file, files-disk_access}
use secrets_manager.Client.Files.Atomic.{
  same_path_refl, accessing-eq-ok, temp_path-other, Replaced, write_private_file-Replaced,
}
use secrets_manager.Client.CacheFiles.{
  files, cache_key_path, key_from_slice, read_cache_key, create_cache_key, load_or_create_cache_key,
}

pub files-ok :
    {A : Type 0} (m : Exec Disk FileError A) (d d' : Disk) {a : A}
    → m d ≡ (ok a, d')
    → files m d ≡ (ok a, d')
unfolding map_err
files-ok m d d' e = ap (λ r. (map_error on_file r.0, r.1)) e

-- The key's file is private and holds the key.
pub record KeyFile (dir : Bytes) (key : MasterKey) (d : Disk) : Type 0 where
  pub entry : FileEntry
  pub there : file (cache_key_path dir) d.files ≡ some entry
  pub regular_file : is_regular entry.kind ≡ true
  pub private_mode : entry.mode % 64 ≡ 0
  pub holds : entry.contents ≡ key.expose
  pub fits : length key.expose ≡ key_len

path_exists-files : (p : CachePath) (d : Disk) → (path_exists p d).1.files ≡ d.files
unfolding path_exists
path_exists-files p d = let same = files-disk_access d in ground arith

open_no_follow-eq-ok :
    (p : CachePath) (d d' : Disk) (f : FileEntry)
    → open_no_follow p d ≡ (ok f, d')
    → (file p d.files ≡ some f) × (d'.files ≡ d.files)
unfolding open_no_follow accessing
open_no_follow-eq-ok p d d' f e = let same = files-disk_access d in ground arith

open_private_for_read-eq-ok :
    (p : CachePath) (d d' : Disk) (f : FileEntry)
    → open_private_for_read p d ≡ (ok f, d')
    → (file p d.files ≡ some f)
      × (is_regular f.kind ≡ true)
      × (f.mode % 64 ≡ 0)
      × (d'.files ≡ d.files)
unfolding open_private_for_read
open_private_for_read-eq-ok p d d' f e = >>=-elim (open_no_follow p) _ d d' e λ g d1 e1 r1.
    >>=-elim (accessing stat_failed (pure tt)) _ d1 d' r1 λ _ d2 e2 r2.
      let (is_file, r3) =
        refuse_if->>=-eq-ok (not (is_regular g.kind)) not_regular
          (λ _. refuse_if (not (g.mode % 64 == 0)) not_private >> pure g) d2 d' r2 in
      let (closed, r4) =
        refuse_if->>=-eq-ok (not (g.mode % 64 == 0)) not_private (λ _. pure g) d2 d' r3 in
      let (same, done) = pure-eq-ok g d2 d' r4 in
      let (there, stay1) = open_no_follow-eq-ok p d d1 g e1 in
      let (_, stay2) = accessing-eq-ok stat_failed d1 d2 e2 in
      subst
        (λ h.
          (file p d.files ≡ some h)
          × (is_regular h.kind ≡ true)
          × (h.mode % 64 ≡ 0)
          × (d'.files ≡ d.files))
        same
        (
          there,
          ground arith,
          (==_iff (g.mode % 64) 0).0 (ground arith),
          ap (λ x. x.files) (sym done) ∙ (stay2 ∙ stay1),
        )

key_from_slice-eq-ok :
    (raw : Bytes) (key : MasterKey)
    → key_from_slice raw ≡ ok key
    → (length raw ≡ key_len) × (key.expose ≡ raw)
unfolding key_from_slice
key_from_slice-eq-ok raw key e = elim (Bool-cases (length raw == key_len)) [
  | inl right ↦
      let same : ok (record { expose = raw }) ≡ ok key = rw right at e in
      let taken : record { expose = raw } ≡ key = cc same in
      ((==_iff (length raw) key_len).0 right, ap (λ k. k.expose) (sym taken))
  | inr wrong ↦ cc (rw wrong at e)
]

is_regular-resolves :
    (k : FileKind) → is_regular k ≡ true → (resolves k ≡ true) × (is_symlink k ≡ false)
is_regular-resolves regular e = (refl, refl)
is_regular-resolves directory e = cc e
is_regular-resolves special e = cc e
is_regular-resolves (symlink b) e = cc e

pub accessing-ok :
    {A : Type 0} (e : FileError) (a : A) (d : Disk)
    → d.faults ≡ []
    → accessing e (pure a) d ≡ (ok a, d)
unfolding accessing disk_access pure
accessing-ok e a d quiet = ground arith

-- Where no access fails.
module _ (p : CachePath) (f : FileEntry) (d : Disk) where
  path_exists-ok :
      d.faults ≡ []
      → file p d.files ≡ some f
      → is_regular f.kind ≡ true
      → path_exists p d ≡ (true, d)
  unfolding path_exists disk_access
  path_exists-ok quiet there r = let (there', _) = is_regular-resolves f.kind r in ground arith

  open_no_follow-ok :
      d.faults ≡ []
      → file p d.files ≡ some f
      → is_regular f.kind ≡ true
      → open_no_follow p d ≡ (ok f, d)
  unfolding open_no_follow accessing disk_access
  open_no_follow-ok quiet there r = let (_, plain) = is_regular-resolves f.kind r in ground arith

  open_private_for_read-ok :
      d.faults ≡ []
      → file p d.files ≡ some f
      → is_regular f.kind ≡ true
      → f.mode % 64 ≡ 0
      → open_private_for_read p d ≡ (ok f, d)
  unfolding open_private_for_read ◌>>=◌
  open_private_for_read-ok quiet there r closed = simp (
    open_no_follow-ok quiet there r,
    accessing-ok {A = Unit {0}} stat_failed tt d quiet,
    r,
    (==_iff (f.mode % 64) 0).1 closed,
  )

read_to_end-ok : (f : FileEntry) (d : Disk) → d.faults ≡ [] → read_to_end f d ≡ (ok f.contents, d)
unfolding read_to_end
read_to_end-ok f d quiet = accessing-ok read_failed f.contents d quiet

key_from_slice-ok :
    (raw : Bytes) (key : MasterKey)
    → raw ≡ key.expose
    → length key.expose ≡ key_len
    → key_from_slice raw ≡ ok key
unfolding key_from_slice
key_from_slice-ok raw key same fits =
    rw same (rw ((==_iff (length key.expose) key_len).1 fits) refl)

module _ (lib : Crates) (dir : Bytes) where
  drawn_fits :
      FillsBuffer lib
      → (raw : Bytes) (d d' : Disk) → disk_random lib key_len d ≡ (ok raw, d')
      → length raw ≡ key_len
  unfolding disk_random
  drawn_fits full raw d d' e = elim (Option-cases (lib.fill_bytes key_len d.draws)) [
    | inl failed ↦ cc (ap (λ p. p.0) (rw failed at e))
    | inr (bytes, filled) ↦
        let same : ok bytes ≡ ok raw = ap (λ p. p.0) (rw filled at e) in
        let equal : bytes ≡ raw = cc same in
        ap length (sym equal) ∙ full.fills key_len d.draws filled
  ]

  read_cache_key-KeyFile :
      (key : MasterKey) (d d' : Disk) → read_cache_key lib dir d ≡ (ok key, d') → KeyFile dir key d'
  unfolding read_cache_key read_to_end
  read_cache_key-KeyFile key d d' e =
      >>=-elim (files (open_private_for_read (cache_key_path dir))) _ d d' e λ f d1 e1 r1.
        >>=-elim (files (read_to_end f)) _ d1 d' r1 λ raw d2 e2 r2.
          let (there, is_file, closed, stay1) =
            open_private_for_read-eq-ok (cache_key_path dir) d d1 f
              (map_err-eq-ok on_file (open_private_for_read (cache_key_path dir)) d d1 e1) in
          let (contents, stay2) =
            accessing-eq-ok read_failed d1 d2 (map_err-eq-ok on_file (read_to_end f) d1 d2 e2) in
          let (parsed, stay3) = lift-eq-ok (key_from_slice raw) d2 d' r2 in
          let (fits, taken) = key_from_slice-eq-ok raw key parsed in
          record {
            entry = f;
            there =
                ap (file (cache_key_path dir)) (ap (λ x. x.files) (sym stay3) ∙ (stay2 ∙ stay1))
                ∙ there;
            regular_file = is_file;
            private_mode = closed;
            holds = contents ∙ sym taken;
            fits = ap length taken ∙ fits;
          }

  create_cache_key-KeyFile :
      FillsBuffer lib
      → (key : MasterKey) (d d' : Disk) → create_cache_key lib dir d ≡ (ok key, d')
      → KeyFile dir key d'
  unfolding create_cache_key
  create_cache_key-KeyFile full key d d' e =
      >>=-elim (files (disk_random lib key_len)) _ d d' e λ raw d1 e1 r1.
        >>=-elim (files (write_private_file lib (cache_key_path dir) raw)) _ d1 d' r1 λ _ d2 e2 r2.
          let (same, done) = pure-eq-ok (record { expose = raw }) d2 d' r2 in
          let wrote =
            map_err-eq-ok on_file (write_private_file lib (cache_key_path dir) raw) d1 d2 e2 in
          let replaced =
            subst (Replaced lib (cache_key_path dir) raw d1) wrote
              (write_private_file-Replaced lib (cache_key_path dir) raw d1) in
          let there : file (cache_key_path dir) d2.files ≡ some (private_file raw) =
            replaced (cache_key_path dir) (temp_path-other lib (cache_key_path dir))
            ∙ ap (λ b. if b then some (private_file raw) else file (cache_key_path dir) d1.files)
                (same_path_refl (cache_key_path dir)) in
          record {
            entry = private_file raw;
            there = ap (λ x. file (cache_key_path dir) x.files) (sym done) ∙ there;
            regular_file = refl;
            private_mode = refl;
            holds = ap (λ k. k.expose) same;
            fits =
                ap (λ k. length k.expose) (sym same)
                ∙ drawn_fits full raw d d1
                    (map_err-eq-ok on_file (disk_random lib key_len) d d1 e1);
          }

  -- Whether it was there before or was made, the key stands in its file.
  load_or_create-KeyFile :
      FillsBuffer lib
      → (key : MasterKey) (d d' : Disk) → load_or_create_cache_key lib dir d ≡ (ok key, d')
      → KeyFile dir key d'
  unfolding load_or_create_cache_key
  load_or_create-KeyFile full key d d' e =
      let d1 = (path_exists (cache_key_path dir) d).1 in
      elim (Bool-cases (path_exists (cache_key_path dir) d).0) [
        | inl found ↦ read_cache_key-KeyFile key d1 d' (rw found at e)
        | inr absent ↦ create_cache_key-KeyFile full key d1 d' (rw absent at e)
      ]

  reads :
      (key : MasterKey) (d : Disk)
      → d.faults ≡ []
      → KeyFile dir key d
      → read_cache_key lib dir d ≡ (ok key, d)
  unfolding read_cache_key
  reads key d quiet k =
      >>=-of_ok (files (open_private_for_read (cache_key_path dir))) _ d d (
        files-ok (open_private_for_read (cache_key_path dir)) d d (
          open_private_for_read-ok (cache_key_path dir) k.entry d quiet k.there k.regular_file
            k.private_mode))
      ∙ (>>=-of_ok (files (read_to_end k.entry)) _ d d
            (files-ok (read_to_end k.entry) d d (read_to_end-ok k.entry d quiet))
          ∙ ap (λ r. (r, d)) (key_from_slice-ok k.entry.contents key k.holds k.fits))

  loads :
      (key : MasterKey) (d : Disk)
      → d.faults ≡ []
      → KeyFile dir key d
      → load_or_create_cache_key lib dir d ≡ (ok key, d)
  unfolding load_or_create_cache_key
  loads key d quiet k =
      ap (λ x. if x.0 then read_cache_key lib dir x.1 else create_cache_key lib dir x.1)
        (path_exists-ok (cache_key_path dir) k.entry d quiet k.there k.regular_file)
      ∙ reads key d quiet k

-- Once a cache key has been given out, whether it was read or made, every later call on the same files
-- gives the same key and changes nothing, as long as no access fails.
pub load_or_create_cache_key-same_key :
    (lib : Crates) (dir : Bytes) (key : MasterKey) (d d' later : Disk)
    → FillsBuffer lib
    → load_or_create_cache_key lib dir d ≡ (ok key, d')
    → later.files ≡ d'.files
    → later.faults ≡ []
    → load_or_create_cache_key lib dir later ≡ (ok key, later)
load_or_create_cache_key-same_key lib dir key d d' later full e same quiet =
    let k = load_or_create-KeyFile lib dir full key d d' e in
    loads lib dir key later quiet (record {
      entry = k.entry;
      there = ap (file (cache_key_path dir)) same ∙ k.there;
      regular_file = k.regular_file;
      private_mode = k.private_mode;
      holds = k.holds;
      fits = k.fits;
    })
