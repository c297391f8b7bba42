-- ===== src/Server/Config.antt =====
-- The configuration and the passphrase of the server, crates/secrets-server/src/config.rs (its Unix
-- half). What the process finds around it is a `Host`; prompts read the lines that are typed, one
-- after the other.
pub mod Passphrase
use mathlib.Core.Option
use secrets_manager.Prelude.{
  ℕ, ◌%◌, Bool, true, false, not, ◌&&◌, Option, none, some, List, [], ◌∷◌, ◌++◌, ◌==◌,
  if◌then◌else◌, length, Bytes, ascii, from_utf8,
}
use secrets_manager.Exec.{
  Outcome, ok, err, panic, ok_or, then_result, Exec, pure, fail, lift, refuse_if, ◌>>=◌, ◌>>◌,
}

pub record HostFile : Type 0 where
  pub is_symlink : Bool
  pub is_regular : Bool
  pub mode : ℕ
  pub contents : Option Bytes

-- `valid_addr` is the parser of `SocketAddr`.
pub record Host : Type 0 where
  pub var : Bytes → Option Bytes
  pub file : Bytes → Option HostFile
  pub is_terminal : Bool
  pub valid_addr : Bytes → Bool

abbrev pub Typed : Type 0
Typed = List (Option Bytes)

pub data ConfigError : Type 0 where
  invalid_addr variable_empty file_variable_empty no_prompt passphrase_empty unavailable :
      ConfigError
  open_failed not_regular not_private read_failed file_empty : ConfigError
  new_variable_empty same_as_current confirmation_differs new_unavailable : ConfigError

-- `std::env::var(..).ok()`: a value that is text.
unfoldable pub text_var : Host → Bytes → Option Bytes
text_var host name = Option.bind (host.var name) from_utf8

abbrev pub is_empty : Bytes → Bool
is_empty text = length text == 0

abbrev pub or_default : Option Bytes → Bytes → Bytes
or_default none default = default
or_default (some value) default = value

pub record Config : Type 0 where
  pub db_path : Bytes
  pub audit_path : Bytes
  pub bind_addr : Bytes

unfoldable pub from_env : Host → Outcome ConfigError Config
unfolding text_var
from_env host =
    let bind = or_default (text_var host (ascii "SECRETS_BIND")) (ascii "127.0.0.1:8787") in
    if host.valid_addr bind
    then ok (record {
      db_path = or_default (host.var (ascii "SECRETS_DB_PATH")) (ascii "secrets.db");
      audit_path = or_default (host.var (ascii "SECRETS_AUDIT_PATH")) (ascii "audit.jsonl");
      bind_addr = bind;
    })
    else err invalid_addr

-- `rpassword::prompt_password`
unfoldable pub prompt_password : Exec Typed ConfigError Bytes
prompt_password [] = (err no_prompt, [])
prompt_password (none ∷ typed) = (err no_prompt, typed)
prompt_password (some line ∷ typed) = (ok line, typed)

pub data PassphraseFileMode : Type 0 where
  owner_only systemd_credential : PassphraseFileMode

abbrev pub is_owner_only : PassphraseFileMode → Bool
is_owner_only owner_only = true
is_owner_only systemd_credential = false

-- `mode & 0o077 != 0`
abbrev pub open_to_others : ℕ → Bool
open_to_others mode = not (mode % 64 == 0)

unfoldable pub open_passphrase_file :
    Host → Bytes → PassphraseFileMode → Outcome ConfigError HostFile
open_passphrase_file host path mode = elim (host.file path) [
  | none ↦ err open_failed
  | some f ↦
      if f.is_symlink
      then err open_failed
      else if not f.is_regular
      then err not_regular
      else if is_owner_only mode && open_to_others f.mode
      then err not_private
      else ok f
]

-- A list without its last element, if that is the given byte.
unfoldable pub pop_if_last : ℕ → Bytes → Option Bytes
pop_if_last c [] = none
pop_if_last c (x ∷ []) = if x == c then some [] else none
pop_if_last c (x ∷ y ∷ text) = Option.map (λ t. x ∷ t) (pop_if_last c (y ∷ text))

unfoldable pub strip_single_trailing_newline : Bytes → Bytes
unfolding pop_if_last
strip_single_trailing_newline s = elim (pop_if_last b'\n' s) [
  | none ↦ s
  | some line ↦ or_default (pop_if_last b'\r' line) line
]

unfoldable pub read_passphrase_file : Host → Bytes → PassphraseFileMode → Outcome ConfigError Bytes
unfolding open_passphrase_file strip_single_trailing_newline
read_passphrase_file host path mode = then_result (open_passphrase_file host path mode) λ f.
    then_result (ok_or (Option.bind f.contents from_utf8) read_failed) λ text.
      let passphrase = strip_single_trailing_newline text in
      if is_empty passphrase then err file_empty else ok passphrase

-- `PathBuf::join` of a directory and a file name.
unfoldable pub join_path : Bytes → Bytes → Bytes
unfolding pop_if_last
join_path [] name = name
join_path (c ∷ dir) name = elim (pop_if_last b'/' (c ∷ dir)) [
  | none ↦ (c ∷ dir) ++ b'/' ∷ name
  | some _ ↦ (c ∷ dir) ++ name
]

unfoldable pub systemd_credential_path : Host → Bytes → Option Bytes
systemd_credential_path host name = Option.bind (host.var (ascii "CREDENTIALS_DIRECTORY")) λ dir.
    let path = join_path dir name in elim (host.file path) [ none ↦ none | some f ↦ some path ]

unfoldable pub acquire_passphrase : Host → Exec Typed ConfigError Bytes
unfolding text_var read_passphrase_file systemd_credential_path prompt_password ◌>>=◌
acquire_passphrase host = elim (text_var host (ascii "SECRETS_PASSPHRASE")) [
  | some p ↦ do refuse_if (is_empty p) variable_empty; pure p
  | none ↦ elim (host.var (ascii "SECRETS_PASSPHRASE_FILE")) [
    | some path ↦ do
      refuse_if (is_empty path) file_variable_empty
      lift (read_passphrase_file host path owner_only)
    | none ↦ elim (systemd_credential_path host (ascii "secrets-passphrase")) [
      | some path ↦ lift (read_passphrase_file host path systemd_credential)
      | none ↦
          if host.is_terminal
          then (do
            entered ← prompt_password
            refuse_if (is_empty entered) passphrase_empty
            pure entered)
          else fail unavailable
    ]
  ]
]
