-- ===== src/Server/Lock.antt =====
-- The database lock, crates/secrets-server/src/lock.rs. A lock file is a database of its own, held
-- under BEGIN EXCLUSIVE; the operating system gives it back when the process ends.
use secrets_manager.Prelude.{
  Bool, ◌&&◌, Option, none, some, List, ◌∷◌, ◌++◌, any, if◌then◌else◌, keep, not, Bytes, ascii,
  ◌=ᵇ◌,
}
use secrets_manager.Crates.{Crates}

-- A directory and a file name in it.
abbrev pub FilePath : Type 0
FilePath = Bytes × Bytes

abbrev pub same_file : FilePath → FilePath → Bool
same_file p q = p.0 =ᵇ q.0 && p.1 =ᵇ q.1

abbrev name_or : Option Bytes → Bytes
name_or none = ascii "secrets.db"
name_or (some name) = name

unfoldable pub lock_path : Crates → Bytes → FilePath
lock_path lib db_path =
    let (parent, name) = lib.path_parts db_path in (parent, name_or name ++ ascii ".lock")

-- BEGIN EXCLUSIVE without waiting: `none` if another process holds the file.
unfoldable pub try_exclusive : FilePath → List FilePath → Option (List FilePath)
try_exclusive path held = if any (same_file path) held then none else some (path ∷ held)

unfoldable pub give_back : FilePath → List FilePath → List FilePath
give_back path held = keep (λ p. not (same_file path p)) held
