-- ===== src/Client/Export.antt =====
-- Reading the exported text of crates/secrets-client/src/commands.rs back.
use mathlib.Core.Option
use secrets_manager.Prelude.{
  ℕ, zero, suc, ◌≡◌, refl, ap, ◌∙◌, Bool, true, false, ◌&&◌, not, ◌==◌, length, all, All,
  append_assoc, arith, Option, none, some, [], ◌∷◌, ◌++◌, if◌then◌else◌, Bytes, BTreeMap,
  Bool-cases, inl, inr,
}
use secrets_manager.Exec.{ok}
use secrets_manager.Client.Received.{
  valid_secret_key, secret_key_byte, Accepted, secret_map_from_plain,
  secret_map_from_plain-Accepted,
}
use secrets_manager.Client.Dotenv.{
  safe_byte, backslash, quote, escape, escape_all, dotenv_value, export_text,
}

-- The text before the first occurrence of a byte, and the text after it.
abbrev put_before : ℕ → Option (Bytes × Bytes) → Option (Bytes × Bytes)
put_before c none = none
put_before c (some (before, after)) = some (c ∷ before, after)

unfoldable pub split_at : ℕ → Bytes → Option (Bytes × Bytes)
split_at stop [] = none
split_at stop (c ∷ text) =
    let rest = split_at stop text in if c == stop then some ([], text) else put_before c rest

unfoldable pub unescape : ℕ → ℕ
unescape c = if c == b'n' then b'\n' else if c == b'r' then b'\r' else c

abbrev at_end : Bytes → Option Bytes
at_end [] = some []
at_end (c ∷ text) = none

-- A quoted value up to its closing quote, after which the text ends; whether a backslash was before.
unfoldable pub unquote : Bool → Bytes → Option Bytes
unfolding unescape
unquote escaped [] = none
unquote true (c ∷ text) = Option.map (λ v. unescape c ∷ v) (unquote false text)
unquote false (c ∷ text) =
    let after = unquote true text in
    let plain = Option.map (λ v. c ∷ v) (unquote false text) in
    if c == backslash then after else if c == quote then at_end text else plain

unfoldable pub read_value : Bytes → Option Bytes
unfolding unquote
read_value [] = none
read_value (c ∷ text) = if c == quote then unquote false text else some (c ∷ text)

-- What a reader of dotenv lines makes of a text of `n` lines.
unfoldable pub read_dotenv : ℕ → Bytes → Option (BTreeMap Bytes)
unfolding split_at read_value
read_dotenv zero [] = some []
read_dotenv zero (c ∷ text) = none
read_dotenv (suc n) text = Option.bind (split_at b'=' text) λ kv.
    Option.bind (split_at b'\n' kv.1) λ vt.
      Option.bind (read_value vt.0)
        λ value. Option.map (λ m. (kv.0, value) ∷ m) (read_dotenv n vt.1)

split_at-append :
    (stop : ℕ) (xs ys : Bytes)
    → all (λ c. not (c == stop)) xs ≡ true
    → split_at stop (xs ++ stop ∷ ys) ≡ some (xs, ys)
unfolding split_at
split_at-append stop [] ys h = ground arith
split_at-append stop (x ∷ xs) ys h = ground (arith, split_at-append stop xs ys)

unquote-escape :
    (c : ℕ) (text v : Bytes)
    → unquote false text ≡ some v
    → unquote false (escape c ++ text) ≡ some (c ∷ v)
unfolding unquote escape unescape
unquote-escape c text v h = ground arith

unquote-escape_all : (v : Bytes) → unquote false (escape_all v ++ quote ∷ []) ≡ some v
unfolding unquote escape_all
unquote-escape_all [] = refl
unquote-escape_all (c ∷ v) =
    ap (unquote false) (append_assoc (escape c) (escape_all v) (quote ∷ []))
    ∙ unquote-escape c (escape_all v ++ quote ∷ []) v (unquote-escape_all v)

escape-one_line :
    (c : ℕ) (text : Bytes)
    → all (λ c. not (c == b'\n')) text ≡ true
    → all (λ c. not (c == b'\n')) (escape c ++ text) ≡ true
unfolding escape
escape-one_line c text h = ground arith

escape_all-one_line : (v : Bytes) → all (λ c. not (c == b'\n')) (escape_all v ++ quote ∷ []) ≡ true
unfolding escape_all
escape_all-one_line [] = refl
escape_all-one_line (c ∷ v) =
    ap (all (λ c. not (c == b'\n'))) (append_assoc (escape c) (escape_all v) (quote ∷ []))
    ∙ escape-one_line c (escape_all v ++ quote ∷ []) (escape_all-one_line v)

all-weaken :
    (p q : ℕ → Bool) (xs : Bytes)
    → ((c : ℕ) → p c ≡ true → q c ≡ true)
    → all p xs ≡ true
    → all q xs ≡ true
all-weaken p q [] h a = refl
all-weaken p q (x ∷ xs) h a = ground (arith, h x, all-weaken p q xs h)

dotenv_value-one_line : (v : Bytes) → all (λ c. not (c == b'\n')) (dotenv_value v) ≡ true
unfolding dotenv_value
dotenv_value-one_line v = elim (Bool-cases (not (length v == 0) && all safe_byte v)) [
  | inl safe ↦
      rw safe (all-weaken safe_byte (λ c. not (c == b'\n')) v (λ c h. ground arith) (ground arith))
  | inr unsafe ↦ rw unsafe (escape_all-one_line v)
]

read_value-safe :
    (v : Bytes) → (not (length v == 0) && all safe_byte v) ≡ true → read_value v ≡ some v
unfolding read_value
read_value-safe [] h = ground arith
read_value-safe (c ∷ v) h = ground arith

read_value-dotenv_value : (v : Bytes) → read_value (dotenv_value v) ≡ some v
unfolding dotenv_value read_value
read_value-dotenv_value v = elim (Bool-cases (not (length v == 0) && all safe_byte v)) [
  | inl safe ↦ rw safe (read_value-safe v safe)
  | inr unsafe ↦ rw unsafe (unquote-escape_all v)
]

valid_secret_key-no_sign :
    (k : Bytes) → valid_secret_key k ≡ true → all (λ c. not (c == b'=')) k ≡ true
unfolding valid_secret_key
valid_secret_key-no_sign k h =
    all-weaken secret_key_byte (λ c. not (c == b'=')) k (λ c e. ground arith) (ground arith)

read_dotenv-export_text :
    (m : BTreeMap Bytes) → All Accepted m → read_dotenv (length m) (export_text m) ≡ some m
unfolding read_dotenv export_text Option.bind
read_dotenv-export_text [] a = refl
read_dotenv-export_text ((k, v) ∷ m) a =
    rw
      (
        split_at-append b'=' k (dotenv_value v ++ b'\n' ∷ export_text m)
            (valid_secret_key-no_sign k a.0),
        split_at-append b'\n' (dotenv_value v) (export_text m) (dotenv_value-one_line v),
        read_value-dotenv_value v,
        read_dotenv-export_text m a.1,
      )
      refl

-- What the client prints for the secrets it accepted from a server reads back, line by line, as
-- exactly those keys and values: no key or value can end its line early or start another one.
pub read_dotenv-export :
    (raw m : BTreeMap Bytes)
    → secret_map_from_plain raw ≡ ok m
    → read_dotenv (length m) (export_text m) ≡ some m
read_dotenv-export raw m e = read_dotenv-export_text m (secret_map_from_plain-Accepted raw m e)
