-- ===== src/Client/Files/Atomic.antt =====
-- `write_private_file` of crates/secrets-client/src/cache.rs replaces a file whole or not at all.
use secrets_manager.Prelude.{
  ℕ, suc, ◌+◌, ◌≡◌, refl, sym, subst, ap, ◌∙◌, false, ◌&&◌, Option, none, some, List, [], ◌++◌,
  arith, if◌then◌else◌, length, length-append, Bool-cases, true, inl, inr, Bytes, ascii, ◌=ᵇ◌,
  =ᵇ_iff,
}
use secrets_manager.Exec.{Outcome, ok, err, panic, is_ok, Exec, pure, continue, ◌>>=◌, >>=-elim}
use secrets_manager.Crates.{Crates}
use secrets_manager.Client.Files.{
  CachePath, same_path, FileEntry, Disk, FileError, file, without, disk_access, accessing,
  written_to, private_open_for_write, write_all, remove_file, rename, cleaned, disk_random,
  temp_path, random_temp_sibling, write_temp, write_private_file, flush_failed, create_dir_all,
  drawn,
}
use secrets_manager.Client.Files.Others.{
  file-without, file-with_file, files-disk_access, private_file, overwritten-empty, Others,
  remove_file-Others, Others-then, write_temp-Others,
}

pub same_path_refl : (p : CachePath) → same_path p p ≡ true
same_path_refl p = ground (arith, =ᵇ_iff p.dir p.dir, =ᵇ_iff p.name p.name)

contents-written_to :
    (p : CachePath) (data_ : Bytes) (o : Option FileEntry) (files : List (CachePath × FileEntry))
    → o ≡ some (private_file [])
    → file p (written_to p data_ o files) ≡ some (private_file data_)
contents-written_to p data_ o files new =
    ap (λ x. file p (written_to p data_ x files)) new
    ∙ rw file-with_file (rw same_path_refl (rw overwritten-empty refl))

private_open-new :
    (p : CachePath) (d d' : Disk)
    → private_open_for_write p d ≡ (ok tt, d')
    → file p d'.files ≡ some (private_file [])
unfolding private_open_for_write accessing
private_open-new p d d' e =
    let made = file-with_file p p (private_file []) (disk_access d).1.files in
    let same = same_path_refl p in ground arith

write_all-eq-ok :
    (p : CachePath) (data_ : Bytes) (d d' : Disk)
    → file p d.files ≡ some (private_file [])
    → write_all p data_ d ≡ (ok tt, d')
    → file p d'.files ≡ some (private_file data_)
unfolding write_all
write_all-eq-ok p data_ d d' new e =
    let there : file p (disk_access d).1.files ≡ some (private_file []) =
      ap (file p) (files-disk_access d) ∙ new in
    let written =
      contents-written_to p data_ (file p (disk_access d).1.files) (disk_access d).1.files there in
    ground arith

pub accessing-eq-ok :
    {A : Type 0} {a b : A} (e : FileError) (d d' : Disk)
    → accessing e (pure a) d ≡ (ok b, d')
    → (a ≡ b) × (d'.files ≡ d.files)
unfolding accessing pure
accessing-eq-ok e d d' h = let same = files-disk_access d in ground arith

write_temp-eq-ok :
    (tmp : CachePath) (data_ : Bytes) (d d' : Disk)
    → write_temp tmp data_ d ≡ (ok tt, d')
    → file tmp d'.files ≡ some (private_file data_)
unfolding write_temp
write_temp-eq-ok tmp data_ d d' e = >>=-elim (private_open_for_write tmp) _ d d' e λ _ d1 e1 r1.
    >>=-elim (write_all tmp data_) _ d1 d' r1 λ _ d2 e2 r2.
      ap (file tmp) (accessing-eq-ok flush_failed d2 d' r2).1
      ∙ write_all-eq-ok tmp data_ d1 d2 (private_open-new tmp d d1 e1) e2

-- How a write has ended, for each file but the temporary one.
abbrev Written : CachePath → CachePath → Bytes → Disk → Outcome FileError (Unit {0}) × Disk → Type 0
Written tmp p data_ d (ok u, d') =
    (q : CachePath)
    → same_path tmp q ≡ false
    → file q d'.files ≡ (if same_path p q then some (private_file data_) else file q d.files)
Written tmp p data_ d (err e, d') = Others tmp d d'
Written tmp p data_ d (panic, d') = Others tmp d d'

Written-cleaned :
    (tmp p : CachePath) (data_ : Bytes) (d : Disk) (r : Outcome FileError (Unit {0}) × Disk)
    → Written tmp p data_ d r
    → Written tmp p data_ d (cleaned tmp r)
Written-cleaned tmp p data_ d (ok u, d') h = h
Written-cleaned tmp p data_ d (err e, d') h =
    Others-then tmp d d' (remove_file tmp d') h (remove_file-Others tmp d')
Written-cleaned tmp p data_ d (panic, d') h = h

rename-eq-ok :
    (tmp p : CachePath) (f : FileEntry) (d d' : Disk)
    → file tmp d.files ≡ some f
    → rename tmp p d ≡ (ok tt, d')
    → (q : CachePath) → same_path tmp q ≡ false
    → file q d'.files ≡ (if same_path p q then some f else file q d.files)
unfolding rename accessing
rename-eq-ok tmp p f d d' there e q other =
    let same = files-disk_access d in
    let moved = file-with_file p q f (without tmp (disk_access d).1.files) in
    let left = file-without tmp q (disk_access d).1.files in ground arith

rename-failed :
    (tmp p : CachePath) (d : Disk)
    → is_ok (rename tmp p d).0 ≡ false
    → (rename tmp p d).1.files ≡ d.files
unfolding rename accessing
rename-failed tmp p d e = let same = files-disk_access d in ground arith

renamed-Written :
    (tmp p : CachePath) (data_ : Bytes) (d d1 : Disk) (r : Outcome FileError (Unit {0}) × Disk)
    → Others tmp d d1
    → file tmp d1.files ≡ some (private_file data_)
    → rename tmp p d1 ≡ r
    → Written tmp p data_ d r
renamed-Written tmp p data_ d d1 (ok u, d2) before there e = λ q other.
    rename-eq-ok tmp p (private_file data_) d1 d2 there e q other
    ∙ ap (λ o. if same_path p q then some (private_file data_) else o) (before q other)
renamed-Written tmp p data_ d d1 (err x, d2) before there e = λ q other.
    ap (file q) (sym (ap (λ r. r.1.files) e) ∙ rename-failed tmp p d1 (ap (λ r. is_ok r.0) e))
    ∙ before q other
renamed-Written tmp p data_ d d1 (panic, d2) before there e = λ q other.
    ap (file q) (sym (ap (λ r. r.1.files) e) ∙ rename-failed tmp p d1 (ap (λ r. is_ok r.0) e))
    ∙ before q other

replaced-Written :
    (tmp p : CachePath) (data_ : Bytes) (d : Disk) (r : Outcome FileError (Unit {0}) × Disk)
    → write_temp tmp data_ d ≡ r
    → (let (o, d1) = cleaned tmp r in
        Written tmp p data_ d (continue o (λ _ d'. cleaned tmp (rename tmp p d')) d1))
replaced-Written tmp p data_ d (ok u, d1) e = Written-cleaned tmp p data_ d (rename tmp p d1) (
    renamed-Written tmp p data_ d d1 (rename tmp p d1)
      (subst (λ r. Others tmp d r.1) e (write_temp-Others tmp data_ d))
      (write_temp-eq-ok tmp data_ d d1 e) refl)
replaced-Written tmp p data_ d (err x, d1) e =
    Written-cleaned tmp p data_ d (err x, d1)
      (subst (λ r. Others tmp d r.1) e (write_temp-Others tmp data_ d))
replaced-Written tmp p data_ d (panic, d1) e =
    subst (λ r. Others tmp d r.1) e (write_temp-Others tmp data_ d)

longer : (n m : ℕ) → n + suc m ≡ n → ⊥
longer n m e = omega arith

module _ (lib : Crates) where
  -- How a write has ended: at the path stands what was written, or, if it failed, what stood there;
  -- and nothing else has changed but for a temporary file beside it.
  abbrev pub Replaced : CachePath → Bytes → Disk → Outcome FileError (Unit {0}) × Disk → Type 0
  Replaced p data_ d (r, d') =
      (q : CachePath)
      → ((suffix : Bytes) → same_path (temp_path lib p suffix) q ≡ false)
      → file q d'.files
        ≡ (if is_ok r && same_path p q then some (private_file data_) else file q d.files)

  Replaced-of_Written :
      (p : CachePath) (suffix data_ : Bytes) (d d1 : Disk) (r : Outcome FileError (Unit {0}) × Disk)
      → d1.files ≡ d.files
      → Written (temp_path lib p suffix) p data_ d1 r
      → Replaced p data_ d r
  Replaced-of_Written p suffix data_ d d1 (ok u, d') same h = λ q other.
      h q (other suffix)
      ∙ ap (λ fs. if same_path p q then some (private_file data_) else file q fs) same
  Replaced-of_Written p suffix data_ d d1 (err e, d') same h =
      λ q other. h q (other suffix) ∙ ap (file q) same
  Replaced-of_Written p suffix data_ d d1 (panic, d') same h =
      λ q other. h q (other suffix) ∙ ap (file q) same

  -- The path itself is no temporary file beside it.
  pub temp_path-other :
      (p : CachePath) (suffix : Bytes) → same_path (temp_path lib p suffix) p ≡ false
  temp_path-other p suffix = elim (Bool-cases ((temp_path lib p suffix).name =ᵇ p.name)) [
    | inl same ↦
        let tail = ascii "." ++ (lib.base64_encode suffix ++ ascii ".tmp") in
        let e : length (p.name ++ tail) ≡ length p.name =
          ap length ((=ᵇ_iff (temp_path lib p suffix).name p.name).0 same) in
        elim (longer (length p.name) _ (sym (length-append p.name tail) ∙ e)) [ ]
    | inr other ↦ ground arith
  ]

  -- From the temporary path on.
  abbrev through : CachePath → Bytes → CachePath → Exec Disk FileError (Unit {0})
  through p data_ tmp =
      (λ d. cleaned tmp (write_temp tmp data_ d)) >>= λ _ d. cleaned tmp (rename tmp p d)

  through-Replaced :
      (p : CachePath) (data_ : Bytes) (d d1 : Disk) (o : Option Bytes)
      → d1.files ≡ d.files
      → (let (r, d2) = continue (drawn lib o) (λ suffix. pure (temp_path lib p suffix)) d1 in
          Replaced p data_ d (continue r (through p data_) d2))
  unfolding pure ◌>>=◌
  through-Replaced p data_ d d1 none same = λ q other. ap (file q) same
  through-Replaced p data_ d d1 (some suffix) same =
      let tmp = temp_path lib p suffix in
      Replaced-of_Written p suffix data_ d d1 _ same
        (replaced-Written tmp p data_ d1 (write_temp tmp data_ d1) refl)

  created-Replaced :
      (p : CachePath) (data_ : Bytes) (d : Disk) (r : Outcome FileError (Unit {0}) × Disk)
      → r.1.files ≡ d.files
      → Replaced p data_ d (continue r.0 (λ _. random_temp_sibling lib p >>= through p data_) r.1)
  unfolding random_temp_sibling disk_random ◌>>=◌
  created-Replaced p data_ d (ok u, d1) same =
      through-Replaced p data_ d (record d1 { draws = suc d1.draws }) (lib.fill_bytes 16 d1.draws)
        same
  created-Replaced p data_ d (err e, d1) same = λ q other. ap (file q) same
  created-Replaced p data_ d (panic, d1) same = λ q other. ap (file q) same

files-create_dir_all : (d : Disk) → (create_dir_all d).1.files ≡ d.files
unfolding create_dir_all accessing
files-create_dir_all d = let same = files-disk_access d in ground arith

-- A private file that is written, on a disk on which any access may fail, stands afterwards whole at
-- its path, of mode 0600, if the write ended well; else there stands what stood there before. No
-- other file has changed, but for a temporary file beside it.
pub write_private_file-Replaced :
    (lib : Crates) (p : CachePath) (data_ : Bytes) (d : Disk)
    → Replaced lib p data_ d (write_private_file lib p data_ d)
unfolding write_private_file ◌>>=◌
write_private_file-Replaced lib p data_ d =
    created-Replaced lib p data_ d (create_dir_all d) (files-create_dir_all d)
