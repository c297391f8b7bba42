-- ===== src/Server/Config/Passphrase.antt =====
-- What `acquire_passphrase` gives, crates/secrets-server/src/config.rs.
use secrets_manager.Prelude.{
  ends_in, ℕ, ◌≡◌, refl, sym, ap, ◌∙◌, false, none, some, [], ◌∷◌, ◌++◌, arith, append_assoc, Bytes,
}
use secrets_manager.Exec.{ok}
use secrets_manager.Server.Config.{
  Host, Typed, is_empty, pop_if_last, strip_single_trailing_newline, read_passphrase_file,
  prompt_password, acquire_passphrase,
}

pop_if_last-append : (c : ℕ) (text : Bytes) → pop_if_last c (text ++ c ∷ []) ≡ some text
unfolding pop_if_last
pop_if_last-append c [] = ground arith
pop_if_last-append c (x ∷ []) = ground arith
pop_if_last-append c (x ∷ y ∷ text) = ground (arith, pop_if_last-append c (y ∷ text))

pop_if_last-other : (c : ℕ) (text : Bytes) → ends_in c text ≡ false → pop_if_last c text ≡ none
unfolding pop_if_last ends_in
pop_if_last-other c [] e = refl
pop_if_last-other c (x ∷ []) e = ground arith
pop_if_last-other c (x ∷ y ∷ text) e = ground (arith, pop_if_last-other c (y ∷ text) e)

-- One line ending is taken away, and no more: a text p and "\r\n" is read as p, a text q that does not
-- end in "\r" and "\n" as q, and a text r that does not end in "\n" as it is.
pub strip_single_trailing_newline-line :
    (p q r : Bytes)
    → ends_in b'\r' q ≡ false
    → ends_in b'\n' r ≡ false
    → (strip_single_trailing_newline (p ++ b'\r' ∷ b'\n' ∷ []) ≡ p)
      × (strip_single_trailing_newline (q ++ b'\n' ∷ []) ≡ q)
      × (strip_single_trailing_newline r ≡ r)
unfolding strip_single_trailing_newline
strip_single_trailing_newline-line p q r hq hr = (
  ap strip_single_trailing_newline (sym (append_assoc p (b'\r' ∷ []) (b'\n' ∷ [])))
      ∙ ground (arith, pop_if_last-append b'\n' (p ++ b'\r' ∷ []), pop_if_last-append b'\r' p),
  ground (arith, pop_if_last-append b'\n' q, pop_if_last-other b'\r' q hq),
  ground (arith, pop_if_last-other b'\n' r hr),
)

-- Whatever its source, a passphrase that is acquired is not empty.
pub acquire_passphrase-non_empty :
    (host : Host) (typed typed' : Typed) (p : Bytes)
    → acquire_passphrase host typed ≡ (ok p, typed')
    → is_empty p ≡ false
unfolding acquire_passphrase read_passphrase_file prompt_password
acquire_passphrase-non_empty host typed typed' p e = ground arith
