-- ===== src/Client/Dotenv.antt =====
-- `dotenv_value` and the text of `export`, crates/secrets-client/src/commands.rs. The code goes
-- through characters; those it escapes are ASCII, so that it does the same to each byte of UTF-8.
use secrets_manager.Prelude.{
  ℕ, Bool, ◌&&◌, ◌||◌, not, ◌==◌, length, all, [], ◌∷◌, ◌++◌, if◌then◌else◌, Bytes, BTreeMap,
}
use secrets_manager.Client.Received.{is_ascii_alphanumeric}

abbrev pub safe_byte : ℕ → Bool
safe_byte b =
    is_ascii_alphanumeric b
    || b == b'_'
    || b == b'-'
    || b == b'.'
    || b == b'/'
    || b == b':'
    || b == b'@'

abbrev pub backslash : ℕ
backslash = 92

abbrev pub quote : ℕ
quote = 34

-- The `match` of the loop.
unfoldable pub escape : ℕ → Bytes
escape c =
    if c == backslash
    then backslash ∷ backslash ∷ []
    else if c == quote
    then backslash ∷ quote ∷ []
    else if c == b'\n'
    then backslash ∷ b'n' ∷ []
    else if c == b'\r'
    then backslash ∷ b'r' ∷ []
    else c ∷ []

unfoldable pub escape_all : Bytes → Bytes
unfolding escape
escape_all [] = []
escape_all (c ∷ value) = escape c ++ escape_all value

unfoldable pub dotenv_value : Bytes → Bytes
unfolding escape_all
dotenv_value value =
    if not (length value == 0) && all safe_byte value
    then value
    else quote ∷ (escape_all value ++ quote ∷ [])

-- The loop of `export`.
unfoldable pub export_text : BTreeMap Bytes → Bytes
unfolding dotenv_value
export_text [] = []
export_text ((k, v) ∷ secrets) = k ++ b'=' ∷ (dotenv_value v ++ b'\n' ∷ export_text secrets)
