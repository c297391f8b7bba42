-- ===== src/Client/Config.antt =====
-- The configuration of the client, crates/secrets-client/src/config.rs (its Unix half). What the
-- process finds around it is a record; the url and toml crates are parameters in it. The state is
-- the warnings that were printed.
pub mod Choices
pub mod Secure
use mathlib.Core.Option
use secrets_manager.Prelude.{
  ℕ, ◌%◌, Bool, true, false, not, ◌||◌, ◌&&◌, Option, none, some, List, [], ◌∷◌, ◌++◌, ◌==◌,
  if◌then◌else◌, length, Bytes, ascii, ◌=ᵇ◌, from_utf8,
}
use secrets_manager.Exec.{
  Outcome, ok, err, panic, ok_or, then_result, Exec, pure, fail, lift, refuse_if, ◌>>=◌, ◌>>◌,
}
use secrets_manager.Server.Config.{join_path}
use secrets_manager.Client.CacheFiles.{ClientConfig}

-- `url::Host`; an IPv6 address is its eight numbers.
pub data UrlHost : Type 0 where
  ipv4 : ℕ → ℕ → ℕ → ℕ → UrlHost
  ipv6 : List ℕ → UrlHost
  domain : Bytes → UrlHost

-- The parts of a `url::Url` that the source reads.
pub record Url : Type 0 where
  pub scheme : Bytes
  pub host : Option UrlHost
  pub username : Bytes
  pub password : Option Bytes
  pub query : Option Bytes
  pub fragment : Option Bytes

pub record FileConfig : Type 0 where
  pub server_url : Option Bytes
  pub token : Option Bytes

-- `contents` is `none` where reading fails.
pub record ConfigFile : Type 0 where
  pub mode : ℕ
  pub contents : Option Bytes

pub record ConfigHost : Type 0 where
  pub var : Bytes → Option Bytes
  pub home_dir : Option Bytes
  pub file : Bytes → Option ConfigFile
  pub parse_url : Bytes → Option Url
  pub parse_toml : Bytes → Option FileConfig

pub data ConfigError : Type 0 where
  no_home read_failed parse_failed no_server_url no_token : ConfigError
  invalid_url needs_https userinfo query_or_fragment : ConfigError
  unsupported_scheme : Bytes → ConfigError

-- A path and a mode for each warning.
abbrev pub Warnings : Type 0
Warnings = List (Bytes × ℕ)

unfoldable pub config_path : ConfigHost → Outcome ConfigError Bytes
unfolding join_path
config_path host = elim (host.var (ascii "SECRETS_CONFIG")) [
  | some p ↦ ok p
  | none ↦ then_result (ok_or host.home_dir no_home) λ home. ok (
      join_path (join_path (join_path home (ascii ".config")) (ascii "secrets"))
        (ascii "config.toml"))
]

unfoldable pub check_permissions : Bytes → ConfigFile → Exec Warnings ConfigError (Unit {0})
check_permissions path f warnings =
    let mode = f.mode % 512 in
    (ok tt, if not (mode % 64 == 0) then (path, mode) ∷ warnings else warnings)

unfoldable pub read_config : ConfigHost → Bytes → Exec Warnings ConfigError FileConfig
unfolding check_permissions ◌>>=◌
read_config host path = elim (host.file path) [
  | none ↦ pure (record { server_url = none; token = none })
  | some f ↦ do
    check_permissions path f
    text ← lift (ok_or (Option.bind f.contents from_utf8) read_failed)
    lift (ok_or (host.parse_toml text) parse_failed)
]

-- `.filter(|s| !s.is_empty())`
abbrev pub non_empty : Bytes → Option Bytes
non_empty [] = none
non_empty (c ∷ text) = some (c ∷ text)

abbrev pub or_else : Option Bytes → Option Bytes → Option Bytes
or_else none other = other
or_else (some value) other = some value

-- A variable that is text and not empty, or else what the file says.
unfoldable pub overridden : Option Bytes → Option Bytes → Option Bytes
overridden var from_file = or_else (Option.bind (Option.bind var from_utf8) non_empty) from_file

unfoldable pub is_loopback_host : Url → Bool
is_loopback_host parsed = elim parsed.host [
  | some (ipv4 a b c d) ↦ a == 127
  | some (ipv6 numbers) ↦ numbers =ᵇ (0 ∷ 0 ∷ 0 ∷ 0 ∷ 0 ∷ 0 ∷ 0 ∷ 1 ∷ [])
  | some (domain d) ↦ d =ᵇ ascii "localhost"
  | none ↦ false
]

abbrev pub is_set : Option Bytes → Bool
is_set none = false
is_set (some text) = true

unfoldable pub check_scheme : Url → Outcome ConfigError (Unit {0})
unfolding is_loopback_host
check_scheme parsed =
    if parsed.scheme =ᵇ ascii "https"
    then ok tt
    else if parsed.scheme =ᵇ ascii "http"
    then (if is_loopback_host parsed then ok tt else err needs_https)
    else err (unsupported_scheme parsed.scheme)

unfoldable pub validate_server_url : ConfigHost → Bytes → Outcome ConfigError (Unit {0})
unfolding check_scheme
validate_server_url host raw = then_result (ok_or (host.parse_url raw) invalid_url) λ parsed.
    then_result (check_scheme parsed) λ _.
      if not (length parsed.username == 0) || is_set parsed.password
      then err userinfo
      else if is_set parsed.query || is_set parsed.fragment
      then err query_or_fragment
      else ok tt

-- `trim_end_matches`
unfoldable pub trim_end_matches : ℕ → Bytes → Bytes
trim_end_matches c [] = []
trim_end_matches c (x ∷ text) =
    let rest = trim_end_matches c text in if x == c && length rest == 0 then [] else x ∷ rest

unfoldable pub load : ConfigHost → Exec Warnings ConfigError ClientConfig
unfolding config_path read_config overridden validate_server_url trim_end_matches ◌>>=◌
load host = do
  path ← lift (config_path host)
  file ← read_config host path
  server_url ←
      lift
        (ok_or (overridden (host.var (ascii "SECRETS_SERVER_URL")) file.server_url) no_server_url)
  lift (validate_server_url host server_url)
  token ← lift (ok_or (overridden (host.var (ascii "SECRETS_TOKEN")) file.token) no_token)
  pure (record { server_url = trim_end_matches b'/' server_url; token = token })
