-- ===== src/Server/Names.antt =====
-- The checks on names of crates/secrets-server/src/handlers.rs and commands.rs, and on received keys
-- of crates/secrets-client/src/api.rs.
use secrets_manager.Prelude.{Bool, ◌&&◌, ◌||◌, not, ℕ, ◌==◌, leb, length, all, Bytes, within}

abbrev pub is_ascii_alphanumeric : ℕ → Bool
is_ascii_alphanumeric b = within b'0' b'9' b || within b'A' b'Z' b || within b'a' b'z' b

abbrev pub project_byte : ℕ → Bool
project_byte b = is_ascii_alphanumeric b || b == b'-' || b == b'_'

abbrev pub key_byte : ℕ → Bool
key_byte b = is_ascii_alphanumeric b || b == b'-' || b == b'_' || b == b'.'

unfoldable pub valid_project : Bytes → Bool
valid_project name = not (length name == 0) && leb (length name) 64 && all project_byte name

unfoldable pub valid_key : Bytes → Bool
valid_key key = not (length key == 0) && leb (length key) 128 && all key_byte key
