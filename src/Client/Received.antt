-- ===== src/Client/Received.antt =====
-- Secrets received from the server or the cache, crates/secrets-client/src/api.rs.
pub mod Order
use secrets_manager.Prelude.{
  ℕ, ◌≡◌, subst, Bool, true, ◌&&◌, ◌||◌, not, ◌==◌, leb, length, all, All, [], ◌∷◌, if◌then◌else◌,
  Bytes, within, BTreeMap, btree_insert, Bool-cases, inl, inr, ◌=ᵇ◌, bytes_leb,
}
use secrets_manager.Exec.{Outcome, ok, err}

-- `Error::UnexpectedResponse`
pub data ReceiveError : Type 0 where
  unexpected_response : ReceiveError

abbrev pub is_ascii_alphanumeric : ℕ → Bool
is_ascii_alphanumeric b = within b'0' b'9' b || within b'A' b'Z' b || within b'a' b'z' b

abbrev pub secret_key_byte : ℕ → Bool
secret_key_byte b = is_ascii_alphanumeric b || b == b'-' || b == b'_' || b == b'.'

unfoldable pub valid_secret_key : Bytes → Bool
valid_secret_key key = not (length key == 0) && leb (length key) 128 && all secret_key_byte key

-- The loop of `secret_map_from_plain`, and the function.
unfoldable pub checked_into :
    BTreeMap Bytes → BTreeMap Bytes → Outcome ReceiveError (BTreeMap Bytes)
checked_into [] out = ok out
checked_into ((key, value) ∷ raw) out =
    let rest = checked_into raw (btree_insert key value out) in
    if not (valid_secret_key key) then err unexpected_response else rest

unfoldable pub secret_map_from_plain : BTreeMap Bytes → Outcome ReceiveError (BTreeMap Bytes)
unfolding checked_into
secret_map_from_plain raw = checked_into raw []

-- A pair with a key that the client accepts.
abbrev pub Accepted : Bytes × Bytes → Type 0
Accepted p = valid_secret_key p.0 ≡ true

Accepted-btree_insert :
    (key value : Bytes) (m : BTreeMap Bytes)
    → valid_secret_key key ≡ true
    → All Accepted m
    → All Accepted (btree_insert key value m)
unfolding btree_insert
Accepted-btree_insert key value [] h a = (h, tt)
Accepted-btree_insert key value ((j, w) ∷ m) h a = elim (Bool-cases (j =ᵇ key)) [
  | inl same ↦ rw same (h, a.1)
  | inr other ↦ elim (Bool-cases (bytes_leb key j)) [
    | inl before ↦ rw (other, before) (h, a)
    | inr after ↦ rw (other, after) (a.0, Accepted-btree_insert key value m h a.1)
  ]
]

checked_into-Accepted :
    (raw out m : BTreeMap Bytes) → All Accepted out → checked_into raw out ≡ ok m → All Accepted m
unfolding checked_into
checked_into-Accepted [] out m a e = subst (All Accepted) (cc e) a
checked_into-Accepted ((key, value) ∷ raw) out m a e = elim (Bool-cases (valid_secret_key key)) [
  | inl valid ↦
      checked_into-Accepted raw (btree_insert key value out) m
        (Accepted-btree_insert key value out valid a) (rw valid at e)
  | inr bad ↦ cc (rw bad at e)
]

pub secret_map_from_plain-Accepted :
    (raw m : BTreeMap Bytes) → secret_map_from_plain raw ≡ ok m → All Accepted m
unfolding secret_map_from_plain
secret_map_from_plain-Accepted raw m e = checked_into-Accepted raw [] m tt e
