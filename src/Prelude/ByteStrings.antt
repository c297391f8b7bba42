-- ===== src/Prelude/ByteStrings.antt =====
-- Bytes and strings. A Rust `String` is its UTF-8 bytes, so both are lists of numbers.
use Prim.Native.Nat.{ℕ, zero, suc, ◌+◌, ◌*◌, ◌/◌, ◌%◌, ◌^◌, ◌<◌}
use Prim.Native.Char.{code}
use Prim.Native.String.{String}
use mathlib.Core.Path.{◌≡◌, refl, sym, ap, ◌≡⟨◌⟩◌, ◌∎}
use mathlib.Core.Logic.{◌↔◌}
use mathlib.Core.Bool.{Bool, true, false, ◌&&◌}
use mathlib.Core.List.{List, [], ◌∷◌, ◌++◌, tail}
use native.Mathlib.Omega.{arith}
use secrets_manager.Prelude.Tests.{ltb, ◌==◌, if◌then◌else◌}
use secrets_manager.Prelude.Lists.{length}
use native.Mathlib.Nat.{pow-suc}

abbrev pub Bytes : Type 0
Bytes = List ℕ

-- The bytes of an ASCII literal.
abbrev pub ascii : String → Bytes
ascii String.[] = []
ascii (String.◌∷◌ c s) = code c ∷ ascii s

infix 50 ◌=ᵇ◌
unfoldable pub ◌=ᵇ◌ : Bytes → Bytes → Bool
[] =ᵇ [] = true
[] =ᵇ (y ∷ ys) = false
(x ∷ xs) =ᵇ [] = false
(x ∷ xs) =ᵇ (y ∷ ys) = x == y && xs =ᵇ ys

-- The lexicographic order: that of `str`, and SQLite's BINARY collation.
unfoldable pub bytes_leb : Bytes → Bytes → Bool
bytes_leb [] ys = true
bytes_leb (x ∷ xs) [] = false
bytes_leb (x ∷ xs) (y ∷ ys) =
    let rest = bytes_leb xs ys in if ltb x y then true else if x == y then rest else false

pub =ᵇ_iff : (xs ys : Bytes) → ((xs =ᵇ ys) ≡ true) ↔ (xs ≡ ys)
unfolding ◌=ᵇ◌
=ᵇ_iff [] [] = ground arith
=ᵇ_iff [] (y ∷ ys) = ground arith
=ᵇ_iff (x ∷ xs) [] = ground arith
=ᵇ_iff (x ∷ xs) (y ∷ ys) = ground (arith, =ᵇ_iff xs ys)

pub =ᵇ_refl : (xs : Bytes) → (xs =ᵇ xs) ≡ true
=ᵇ_refl xs = (=ᵇ_iff xs xs).1 refl

pub bytes_leb_refl : (xs : Bytes) → bytes_leb xs xs ≡ true
unfolding bytes_leb
bytes_leb_refl [] = refl
bytes_leb_refl (x ∷ xs) = ground (arith, bytes_leb_refl xs)

-- Whether a text ends in a byte.
unfoldable pub ends_in : ℕ → Bytes → Bool
ends_in c [] = false
ends_in c (x ∷ []) = x == c
ends_in c (x ∷ y ∷ text) = ends_in c (y ∷ text)

-- `u32::to_le_bytes` and `u64::to_le_bytes`; `as u32` keeps the low 32 bits.
abbrev pub as_u32 : ℕ → ℕ
as_u32 n = n % 2 ^ 32

-- The `k` low bytes of a number, least first.
unfoldable pub le_bytes : ℕ → ℕ → Bytes
le_bytes zero n = []
le_bytes (suc k) n = n % 256 ∷ le_bytes k (n / 256)

unfoldable pub from_le_bytes : Bytes → ℕ
from_le_bytes [] = 0
from_le_bytes (b ∷ bs) = b + 256 * from_le_bytes bs

pub length-le_bytes : (k n : ℕ) → length (le_bytes k n) ≡ k
unfolding le_bytes
length-le_bytes zero n = refl
length-le_bytes (suc k) n = ap suc (length-le_bytes k (n / 256))

-- A number that fits in `k` bytes is read back.
pub from_le_bytes-le_bytes : (k n : ℕ) → n < 256 ^ k → from_le_bytes (le_bytes k n) ≡ n
unfolding le_bytes from_le_bytes
from_le_bytes-le_bytes zero n h = omega arith
from_le_bytes-le_bytes (suc k) n h =
    let small : n / 256 < 256 ^ k = omega (arith, pow-suc 256 k) in
    omega (arith, from_le_bytes-le_bytes k (n / 256) small)

-- Two numbers with the same `k` bytes are equal, if they fit.
pub le_bytes-injective :
    (k m n : ℕ) → m < 256 ^ k → n < 256 ^ k → le_bytes k m ≡ le_bytes k n → m ≡ n
le_bytes-injective k m n hm hn e =
    m
    ≡⟨ sym (from_le_bytes-le_bytes k m hm) ⟩ from_le_bytes (le_bytes k m)
    ≡⟨ ap from_le_bytes e ⟩ from_le_bytes (le_bytes k n)
    ≡⟨ from_le_bytes-le_bytes k n hn ⟩ n ∎

abbrev head_or : ℕ → Bytes → ℕ
head_or d [] = d
head_or d (x ∷ xs) = x

-- Two lists that begin with parts of one length agree in those parts and in the rests.
pub append-cancel :
    (us vs xs ys : Bytes) → length us ≡ length vs → us ++ xs ≡ vs ++ ys → (us ≡ vs) × (xs ≡ ys)
append-cancel [] [] xs ys l e = (refl, e)
append-cancel [] (v ∷ vs) xs ys l e = absurd (omega arith)
append-cancel (u ∷ us) [] xs ys l e = absurd (omega arith)
append-cancel (u ∷ us) (v ∷ vs) xs ys l e =
    let rest = append-cancel us vs xs ys (omega arith) (ap tail e) in
    ground (arith, rest, ap (head_or 0) e)
