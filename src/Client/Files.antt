-- ===== src/Client/Files.antt =====
-- The private files of crates/secrets-client/src/cache.rs: `write_private_file`,
-- `open_private_for_read` and what they call, on a disk of which accesses may fail.
pub mod Others
pub mod Atomic
use mathlib.Core.Option
use secrets_manager.Prelude.{
  ℕ, suc, ◌%◌, Bool, true, false, not, ◌&&◌, Option, none, some, List, [], ◌∷◌, ◌++◌, ◌==◌,
  if◌then◌else◌, keep, take, Bytes, ascii, ◌=ᵇ◌,
}
use secrets_manager.Exec.{Outcome, ok, err, panic, Exec, pure, lift, refuse_if, ◌>>=◌, ◌>>◌}
use secrets_manager.Crates.{Crates}

-- A directory and a file name in it.
pub record CachePath : Type 0 where
  pub dir : Bytes
  pub name : Bytes

abbrev pub same_path : CachePath → CachePath → Bool
same_path p q = p.dir =ᵇ q.dir && p.name =ᵇ q.name

-- What a symbolic link leads to may be there (true) or not.
pub data FileKind : Type 0 where
  regular directory special : FileKind
  symlink : Bool → FileKind

abbrev pub is_regular : FileKind → Bool
is_regular regular = true
is_regular directory = false
is_regular special = false
is_regular (symlink b) = false

abbrev pub is_directory : FileKind → Bool
is_directory directory = true
is_directory regular = false
is_directory special = false
is_directory (symlink b) = false

-- Whether there is something where the path leads.
abbrev pub resolves : FileKind → Bool
resolves (symlink b) = b
resolves regular = true
resolves directory = true
resolves special = true

abbrev pub is_symlink : FileKind → Bool
is_symlink (symlink b) = true
is_symlink regular = false
is_symlink directory = false
is_symlink special = false

-- `contents` is what reading through the path gives.
pub record FileEntry : Type 0 where
  pub kind : FileKind
  pub mode : ℕ
  pub contents : Bytes

-- `faults` says which of the coming accesses fail, and `torn` how much of a failing write is
-- written; `dir_mode` is the mode of the cache directory, if there is one, and `new_dir_mode` the one
-- that a new directory gets.
pub record Disk : Type 0 where
  pub files : List (CachePath × FileEntry)
  pub faults : List Bool
  pub torn : ℕ
  pub draws : ℕ
  pub dir_mode : Option ℕ
  pub new_dir_mode : ℕ

pub data FileError : Type 0 where
  create_dir_failed open_failed stat_failed not_regular not_private : FileError
  read_failed write_failed flush_failed replace_failed : FileError

unfoldable pub file : CachePath → List (CachePath × FileEntry) → Option FileEntry
file p [] = none
file p ((q, e) ∷ files) = let rest = file p files in if same_path q p then some e else rest

unfoldable pub without : CachePath → List (CachePath × FileEntry) → List (CachePath × FileEntry)
without p files = keep (λ x. not (same_path x.0 p)) files

unfoldable pub with_file :
    CachePath → FileEntry → List (CachePath × FileEntry) → List (CachePath × FileEntry)
unfolding without
with_file p e files = (p, e) ∷ without p files

unfoldable pub disk_access : Disk → Bool × Disk
disk_access d = elim d.faults [
  | [] ↦ (false, d)
  | fault ∷ rest ↦ (fault, record d { faults = rest })
]

-- What an access does, unless it fails.
unfoldable pub accessing : {A : Type 0} → FileError → Exec Disk FileError A → Exec Disk FileError A
unfolding disk_access
accessing e body d = let (fault, d') = disk_access d in if fault then (err e, d') else body d'

abbrev pub made : Option ℕ → ℕ → ℕ
made none new = new
made (some mode) new = mode

-- `fs::create_dir_all` of the cache directory.
unfoldable pub create_dir_all : Exec Disk FileError (Unit {0})
unfolding accessing
create_dir_all =
    accessing create_dir_failed
      λ d. (ok tt, record d { dir_mode = some (made d.dir_mode d.new_dir_mode) })

-- `Path::exists`, which is false too where the access fails.
unfoldable pub path_exists : CachePath → Disk → Bool × Disk
unfolding disk_access file
path_exists p d =
    let (fault, d') = disk_access d in
    elim (file p d'.files) [ none ↦ (false, d') | some f ↦ (not fault && resolves f.kind, d') ]

-- `OpenOptions::open` for reading, with O_NOFOLLOW.
unfoldable pub open_no_follow : CachePath → Exec Disk FileError FileEntry
unfolding accessing file
open_no_follow p = accessing open_failed λ d. elim (file p d.files) [
  | none ↦ (err open_failed, d)
  | some f ↦ if is_symlink f.kind then (err open_failed, d) else (ok f, d)
]

unfoldable pub open_private_for_read : CachePath → Exec Disk FileError FileEntry
unfolding open_no_follow ◌>>=◌
open_private_for_read p = do
  f ← open_no_follow p
  accessing stat_failed (pure tt)
  refuse_if (not (is_regular f.kind)) not_regular
  refuse_if (not (f.mode % 64 == 0)) not_private
  pure f

-- `read_to_end` of an open file.
unfoldable pub read_to_end : FileEntry → Exec Disk FileError Bytes
unfolding accessing
read_to_end f = accessing read_failed (pure f.contents)

-- `fs::read`, which follows symbolic links.
unfoldable pub read_file : CachePath → Exec Disk FileError Bytes
unfolding accessing file
read_file p = accessing read_failed λ d. elim (file p d.files) [
  | none ↦ (err read_failed, d)
  | some f ↦
      if resolves f.kind && not (is_directory f.kind)
      then (ok f.contents, d)
      else (err read_failed, d)
]

-- O_CREAT, O_EXCL, O_NOFOLLOW, and the mode 0600 of a new file.
unfoldable pub private_open_for_write : CachePath → Exec Disk FileError (Unit {0})
unfolding accessing file with_file
private_open_for_write p = accessing open_failed λ d. elim (file p d.files) [
  | some f ↦ (err open_failed, d)
  | none ↦ (
    ok tt,
    record d { files = with_file p (record { kind = regular; mode = 384; contents = [] }) d.files },
  )
]

-- Bytes written from the start on over those of a file.
unfoldable pub overwritten : Bytes → Bytes → Bytes
overwritten [] old = old
overwritten (b ∷ data_) [] = b ∷ data_
overwritten (b ∷ data_) (c ∷ old) = b ∷ overwritten data_ old

-- Bytes written to the file at a path, of which kind and mode stay; none if it is gone.
abbrev pub written_to :
    CachePath
    → Bytes
    → Option FileEntry
    → List (CachePath × FileEntry)
    → List (CachePath × FileEntry)
written_to p data_ none files = files
written_to p data_ (some f) files =
    with_file p (record f { contents = overwritten data_ f.contents }) files

-- `write_all` to the file that was opened.
unfoldable pub write_all : CachePath → Bytes → Exec Disk FileError (Unit {0})
unfolding disk_access file with_file overwritten
write_all p data_ d =
    let (fault, d') = disk_access d in
    if fault
    then (
      err write_failed,
      record d' { files = written_to p (take d'.torn data_) (file p d'.files) d'.files },
    )
    else (ok tt, record d' { files = written_to p data_ (file p d'.files) d'.files })

-- `let _ = fs::remove_file(..)`
unfoldable pub remove_file : CachePath → Disk → Disk
unfolding disk_access without
remove_file p d =
    let (fault, d') = disk_access d in
    if fault then d' else record d' { files = without p d'.files }

abbrev replaces : Option FileEntry → Bool
replaces none = true
replaces (some f) = not (is_directory f.kind)

unfoldable pub rename : CachePath → CachePath → Exec Disk FileError (Unit {0})
unfolding accessing file with_file
rename p q = accessing replace_failed λ d. elim (file p d.files) [
  | none ↦ (err replace_failed, d)
  | some f ↦
      if replaces (file q d.files)
      then (ok tt, record d { files = with_file q f (without p d.files) })
      else (err replace_failed, d)
]

-- What is run, and the removal of a file if it ends in an error.
abbrev pub cleaned :
    CachePath → Outcome FileError (Unit {0}) × Disk → Outcome FileError (Unit {0}) × Disk
cleaned tmp (ok u, d) = (ok u, d)
cleaned tmp (err e, d) = (err e, remove_file tmp d)
cleaned tmp (panic, d) = (panic, d)

-- The writing of the temporary file.
unfoldable pub write_temp : CachePath → Bytes → Exec Disk FileError (Unit {0})
unfolding ◌>>=◌
write_temp tmp data_ = do
  private_open_for_write tmp
  write_all tmp data_
  accessing flush_failed (pure tt)

module _ (lib : Crates) where
  abbrev pub drawn : Option Bytes → Outcome FileError Bytes
  drawn none = panic
  drawn (some bytes) = ok bytes

  -- `SysRng.try_fill_bytes(..).expect(..)`
  unfoldable pub disk_random : ℕ → Exec Disk FileError Bytes
  disk_random n d = (drawn (lib.fill_bytes n d.draws), record d { draws = suc d.draws })

  abbrev pub temp_path : CachePath → Bytes → CachePath
  temp_path p suffix = record {
    dir = p.dir;
    name = p.name ++ (ascii "." ++ (lib.base64_encode suffix ++ ascii ".tmp"));
  }

  unfoldable pub random_temp_sibling : CachePath → Exec Disk FileError CachePath
  unfolding disk_random ◌>>=◌
  random_temp_sibling p = do suffix ← disk_random 16; pure (temp_path p suffix)

  unfoldable pub write_private_file : CachePath → Bytes → Exec Disk FileError (Unit {0})
  unfolding write_temp create_dir_all ◌>>=◌
  write_private_file p data_ = do
    create_dir_all
    tmp ← random_temp_sibling p
    λ d. cleaned tmp (write_temp tmp data_ d)
    λ d. cleaned tmp (rename tmp p d)
