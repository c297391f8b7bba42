-- ===== src/Examples/Config.antt =====
-- A run of crates/secrets-client/src/config.rs: a configuration file that others can read, and a
-- server URL in the environment.
use mathlib.Core.Option
use secrets_manager.Prelude.{
  refl, none, some, [], ◌∷◌, ◌++◌, if◌then◌else◌, Bytes, ascii, ◌=ᵇ◌, from_utf8, is_utf8,
}
use secrets_manager.Exec.{◌>>=◌}
use secrets_manager.Server.Config.{join_path, pop_if_last}
use secrets_manager.Client.CacheFiles.{ClientConfig}
use secrets_manager.Client.Config.{
  Url, ipv4, ConfigHost, config_path, check_permissions, read_config, overridden, is_loopback_host,
  check_scheme, validate_server_url, trim_end_matches, load,
}
use secrets_manager.Client.Config.Secure.{Loaded, load-Loaded}

abbrev config_file : Bytes
config_file = ascii "/home/u/.config/secrets/config.toml"

abbrev server : Bytes
server = ascii "http://127.0.0.1"

abbrev parsed : Url
parsed = record {
  scheme = ascii "http";
  host = some (ipv4 127 0 0 1);
  username = [];
  password = none;
  query = none;
  fragment = none;
}

abbrev host : ConfigHost
host = record {
  var = λ name. if name =ᵇ ascii "SECRETS_SERVER_URL" then some (server ++ ascii "/") else none;
  home_dir = some (ascii "/home/u");
  file = λ p.
      if p =ᵇ config_file then some (record { mode = 420; contents = some (ascii "t") }) else none;
  parse_url = λ text. if text =ᵇ (server ++ ascii "/") then some parsed else none;
  parse_toml = λ text. some (record { server_url = none; token = some text });
}

abbrev loaded : ClientConfig
loaded = record { server_url = server; token = ascii "t" }

load-Loaded_example : Loaded host loaded
unfolding load config_path join_path pop_if_last read_config check_permissions overridden
    validate_server_url check_scheme is_loopback_host trim_end_matches from_utf8 is_utf8 ◌=ᵇ◌ ◌>>=◌
    Option.bind
load-Loaded_example = load-Loaded host [] ((config_file, 420) ∷ []) loaded refl
