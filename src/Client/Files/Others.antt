-- ===== src/Client/Files/Others.antt =====
-- Which files the accesses of crates/secrets-client/src/cache.rs leave as they are.
use secrets_manager.Prelude.{
  ◌≡◌, refl, ◌∙◌, false, Option, none, some, List, [], ◌∷◌, arith, if◌then◌else◌, take, Bytes,
  =ᵇ_iff,
}
use secrets_manager.Exec.{Outcome, ok, err, panic, Exec, pure, continue, ◌>>=◌}
use secrets_manager.Client.Files.{
  CachePath, same_path, FileEntry, Disk, FileError, file, without, with_file, disk_access,
  accessing, regular, overwritten, written_to, private_open_for_write, write_all, remove_file,
  write_temp, flush_failed,
}

pub file-without :
    (p q : CachePath) (files : List (CachePath × FileEntry))
    → file q (without p files) ≡ (if same_path p q then none else file q files)
unfolding file without
file-without p q [] = ground arith
file-without p q ((r, e) ∷ files) = ground (
  arith,
  file-without p q files,
  =ᵇ_iff r.dir p.dir,
  =ᵇ_iff r.name p.name,
  =ᵇ_iff r.dir q.dir,
  =ᵇ_iff r.name q.name,
  =ᵇ_iff p.dir q.dir,
  =ᵇ_iff p.name q.name,
)

pub file-with_file :
    (p q : CachePath) (e : FileEntry) (files : List (CachePath × FileEntry))
    → file q (with_file p e files) ≡ (if same_path p q then some e else file q files)
unfolding file with_file
file-with_file p q e files = ground (arith, file-without p q files)

pub files-disk_access : (d : Disk) → (disk_access d).1.files ≡ d.files
unfolding disk_access
files-disk_access d = ground arith

-- A regular file that its owner alone can read and write.
abbrev pub private_file : Bytes → FileEntry
private_file contents = record { kind = regular; mode = 384; contents = contents }

pub overwritten-empty : (data_ : Bytes) → overwritten data_ [] ≡ data_
unfolding overwritten
overwritten-empty [] = refl
overwritten-empty (b ∷ data_) = refl

-- All files but one are as before.
abbrev pub Others : CachePath → Disk → Disk → Type 0
Others p d d' = (q : CachePath) → same_path p q ≡ false → file q d'.files ≡ file q d.files

private_open-Others : (p : CachePath) (d : Disk) → Others p d (private_open_for_write p d).1
unfolding private_open_for_write accessing
private_open-Others p d q other =
    let same = files-disk_access d in
    let written = file-with_file p q (private_file []) (disk_access d).1.files in ground arith

file-written_to :
    (p q : CachePath) (data_ : Bytes) (o : Option FileEntry) (files : List (CachePath × FileEntry))
    → same_path p q ≡ false
    → file q (written_to p data_ o files) ≡ file q files
file-written_to p q data_ none files other = refl
file-written_to p q data_ (some f) files other = rw file-with_file (rw other refl)

write_all-Others : (p : CachePath) (data_ : Bytes) (d : Disk) → Others p d (write_all p data_ d).1
unfolding write_all
write_all-Others p data_ d q other =
    let same = files-disk_access d in
    let d1 = (disk_access d).1 in
    let torn = file-written_to p q (take d1.torn data_) (file p d1.files) d1.files other in
    let written = file-written_to p q data_ (file p d1.files) d1.files other in ground arith

accessing-Others :
    (p : CachePath) (e : FileError) (d : Disk) → Others p d (accessing e (pure tt) d).1
unfolding accessing pure
accessing-Others p e d q other = let same = files-disk_access d in ground arith

pub remove_file-Others : (p : CachePath) (d : Disk) → Others p d (remove_file p d)
unfolding remove_file
remove_file-Others p d q other =
    let same = files-disk_access d in
    let removed = file-without p q (disk_access d).1.files in ground arith

pub Others-then :
    (p : CachePath) (d d' d'' : Disk) → Others p d d' → Others p d' d'' → Others p d d''
Others-then p d d' d'' f g q other = g q other ∙ f q other

continue-Others :
    (p : CachePath) (d : Disk) (r : Outcome FileError (Unit {0}) × Disk)
    (f : Unit {0} → Exec Disk FileError (Unit {0}))
    → Others p d r.1
    → ((d' : Disk) → Others p d' (f tt d').1)
    → Others p d (continue r.0 f r.1).1
continue-Others p d (ok u, d') f first rest = Others-then p d d' (f tt d').1 first (rest d')
continue-Others p d (err e, d') f first rest = first
continue-Others p d (panic, d') f first rest = first

pub write_temp-Others :
    (tmp : CachePath) (data_ : Bytes) (d : Disk) → Others tmp d (write_temp tmp data_ d).1
unfolding write_temp ◌>>=◌
write_temp-Others tmp data_ d =
    continue-Others tmp d (private_open_for_write tmp d) _ (private_open-Others tmp d) λ d1.
      continue-Others tmp d1 (write_all tmp data_ d1) _ (write_all-Others tmp data_ d1)
        λ d2. accessing-Others tmp flush_failed d2
