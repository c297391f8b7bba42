-- ===== src/Prelude/Utf8.antt =====
-- `String::from_utf8` and `str::is_char_boundary` of the standard library, over bytes.
use Prim.Native.Nat.{ℕ, zero, suc}
use mathlib.Core.Bool.{Bool, true, false, not, ◌&&◌, ◌||◌}
use mathlib.Core.Option.{Option, none, some}
use mathlib.Core.List.{[], ◌∷◌}
use secrets_manager.Prelude.Tests.{leb, ◌==◌, if◌then◌else◌}
use secrets_manager.Prelude.ByteStrings.{Bytes}

abbrev pub within : ℕ → ℕ → ℕ → Bool
within lo hi b = leb lo b && leb b hi

-- A continuation byte, 10xxxxxx.
abbrev pub is_continuation : ℕ → Bool
is_continuation b = within 0x80 0xBF b

-- The well-formed byte sequences of the Unicode standard, which `core::str::from_utf8` accepts:
-- what a lead byte demands is the number of continuation bytes and the range of the first.
abbrev pub is_lead : ℕ → Bool
is_lead b = leb b 0x7F || within 0xC2 0xF4 b

abbrev pub lead_need : ℕ → ℕ
lead_need b = if leb b 0x7F then 0 else if leb b 0xDF then 1 else if leb b 0xEF then 2 else 3

abbrev pub lead_low : ℕ → ℕ
lead_low b = if b == 0xE0 then 0xA0 else if b == 0xF0 then 0x90 else 0x80

abbrev pub lead_high : ℕ → ℕ
lead_high b = if b == 0xED then 0x9F else if b == 0xF4 then 0x8F else 0xBF

-- `need` continuation bytes are still to come, the first of them from `low` to `high`.
unfoldable pub utf8_from : ℕ → ℕ → ℕ → Bytes → Bool
utf8_from zero low high [] = true
utf8_from (suc need) low high [] = false
utf8_from zero low high (b ∷ bs) =
    is_lead b && utf8_from (lead_need b) (lead_low b) (lead_high b) bs
utf8_from (suc need) low high (b ∷ bs) = within low high b && utf8_from need 0x80 0xBF bs

unfoldable pub is_utf8 : Bytes → Bool
unfolding utf8_from
is_utf8 bs = utf8_from 0 0 0 bs

-- `String::from_utf8`
unfoldable pub from_utf8 : Bytes → Option Bytes
unfolding is_utf8
from_utf8 bs = if is_utf8 bs then some bs else none

-- `str::is_char_boundary`: false past the end.
unfoldable pub is_char_boundary : Bytes → ℕ → Bool
is_char_boundary bs zero = true
is_char_boundary [] (suc n) = false
is_char_boundary (b ∷ []) (suc n) = n == 0
is_char_boundary (b ∷ c ∷ bs) (suc zero) = not (is_continuation c)
is_char_boundary (b ∷ c ∷ bs) (suc (suc n)) = is_char_boundary (c ∷ bs) (suc n)
