-- ===== src/Server/Audit/Truncation.antt =====
-- `truncate_for_log` of crates/secrets-server/src/audit.rs.
use secrets_manager.Prelude.{
  ℕ, zero, suc, ◌≤◌, ◌≡◌, refl, sym, ap, ◌∙◌, Bool, true, false, not, [], ◌∷◌, ◌++◌, leb, arith,
  if◌then◌else◌, length, take, length-take_le, Bytes, is_char_boundary, is_continuation, is_utf8,
  utf8_from, lead_need, lead_low, lead_high, Bool-cases, inl, inr,
}
use secrets_manager.Server.Audit.{boundary_to, truncate_for_log}

boundary_to-bound : (s : Bytes) (n : ℕ) → boundary_to s n ≤ n
unfolding boundary_to
boundary_to-bound s zero = omega arith
boundary_to-bound s (suc n) = ground (arith, boundary_to-bound s n)

take-all : (s : Bytes) → take (length s) s ≡ s
take-all [] = refl
take-all (c ∷ s) = ap (λ t. c ∷ t) (take-all s)

is_char_boundary-end : (s : Bytes) → is_char_boundary s (length s) ≡ true
unfolding is_char_boundary
is_char_boundary-end [] = refl
is_char_boundary-end (b ∷ []) = refl
is_char_boundary-end (b ∷ c ∷ []) = refl
is_char_boundary-end (b ∷ c ∷ d ∷ s) = is_char_boundary-end (c ∷ d ∷ s)

-- At the start of a character, or at the end.
abbrev starts : Bytes → Bool
starts [] = true
starts (b ∷ s) = not (is_continuation b)

abbrev is_cut : Bytes → ℕ → Bool
is_cut s zero = starts s
is_cut [] (suc n) = false
is_cut (b ∷ s) (suc n) = is_cut s n

is_char_boundary-is_cut : (s : Bytes) (n : ℕ) → is_char_boundary s (suc n) ≡ is_cut s (suc n)
unfolding is_char_boundary
is_char_boundary-is_cut [] n = refl
is_char_boundary-is_cut (b ∷ []) zero = refl
is_char_boundary-is_cut (b ∷ []) (suc n) = ground arith
is_char_boundary-is_cut (b ∷ c ∷ s) zero = refl
is_char_boundary-is_cut (b ∷ c ∷ s) (suc n) = is_char_boundary-is_cut (c ∷ s) n

utf8_from-take :
    (need low high : ℕ) (s : Bytes) (n : ℕ)
    → 0x80 ≤ low
    → high ≤ 0xBF
    → is_cut s n ≡ true
    → utf8_from need low high s ≡ true
    → utf8_from need low high (take n s) ≡ true
unfolding utf8_from
utf8_from-take zero low high s zero hl hh cut h = refl
utf8_from-take (suc need) low high [] zero hl hh cut h = h
utf8_from-take (suc need) low high (b ∷ s) zero hl hh cut h = ground arith
utf8_from-take need low high [] (suc n) hl hh cut h = cc
utf8_from-take zero low high (b ∷ s) (suc n) hl hh cut h = ground (
  arith,
  utf8_from-take (lead_need b) (lead_low b) (lead_high b) s n (ground arith) (ground arith) cut,
)
utf8_from-take (suc need) low high (b ∷ s) (suc n) hl hh cut h =
    ground (arith, utf8_from-take need 0x80 0xBF s n (omega arith) (omega arith) cut)

utf8_from-zero : (s : Bytes) → utf8_from 0 0 0 s ≡ utf8_from 0 0x80 0xBF s
unfolding utf8_from
utf8_from-zero [] = refl
utf8_from-zero (b ∷ s) = refl

take_boundary-is_utf8 :
    (s : Bytes) (n : ℕ) → is_utf8 s ≡ true → is_utf8 (take (boundary_to s n) s) ≡ true
unfolding boundary_to is_utf8
take_boundary-is_utf8 s zero h = refl
take_boundary-is_utf8 s (suc n) h = elim (Bool-cases (is_char_boundary s (suc n))) [
  | inl here ↦ rw here (
      utf8_from-zero (take (suc n) s)
      ∙ utf8_from-take 0 0x80 0xBF s (suc n) (omega arith) (omega arith)
          (sym (is_char_boundary-is_cut s n) ∙ here) (sym (utf8_from-zero s) ∙ h))
  | inr before ↦ rw before (take_boundary-is_utf8 s n h)
]

take-prefix : (n : ℕ) (s : Bytes) → (rest : Bytes) × (s ≡ take n s ++ rest)
take-prefix zero s = (s, refl)
take-prefix (suc n) [] = ([], refl)
take-prefix (suc n) (c ∷ s) = let (rest, e) = take-prefix n s in (rest, ap (λ t. c ∷ t) e)

boundary_to-end : (s : Bytes) (n : ℕ) → n ≡ length s → boundary_to s n ≡ n
unfolding boundary_to
boundary_to-end s zero e = refl
boundary_to-end s (suc n) e =
    let last = ap (is_char_boundary s) e ∙ is_char_boundary-end s in rw last refl

-- What the log shows of a path segment has at most 64 bytes and is the segment's beginning; it is the
-- whole segment if that has at most 64 bytes; and cut from text it is text, as no character is split.
pub truncate_for_log-bounded :
    (segment : Bytes)
    → (length (truncate_for_log segment) ≤ 64)
      × ((rest : Bytes) × (segment ≡ truncate_for_log segment ++ rest))
      × (leb (length segment) 64 ≡ true → truncate_for_log segment ≡ segment)
      × (is_utf8 segment ≡ true → is_utf8 (truncate_for_log segment) ≡ true)
unfolding truncate_for_log
truncate_for_log-bounded segment =
    let end = if leb (length segment) 64 then length segment else 64 in
    let small : end ≤ 64 = ground arith in
    (
      omega (
        arith,
        small,
        boundary_to-bound segment end,
        length-take_le (boundary_to segment end) segment,
      ),
      take-prefix (boundary_to segment end) segment,
      λ short. rw short (
          ap (λ n. take n segment) (boundary_to-end segment (length segment) refl)
          ∙ take-all segment),
      take_boundary-is_utf8 segment end,
    )
