-- ===== src/Examples/Toy.antt =====
-- An instance of the crates that satisfies the laws, for concrete runs: its cipher frames its inputs
-- and keeps them readable.
use secrets_manager.Prelude.{
  any, ◌<◌, false, ℕ, suc, ◌+◌, ◌≡◌, refl, sym, ap, ◌∙◌, true, ◌==◌, if◌then◌else◌, Option, none,
  some, List, [], ◌∷◌, ◌++◌, arith, length, take, replicate, length-replicate, Bytes, ◌=ᵇ◌, =ᵇ_iff,
  append-cancel, append_assoc, append-nil,
}
use secrets_manager.Crates.{
  Base64Correct, FreshRowid, Crates, AeadCorrect, AeadAuthentic, FillsBuffer, ComparesBytes,
}

some-inj : {A : Type 0} {x y : A} → some x ≡ some y → x ≡ y
some-inj e = cc e

abbrev frame : Bytes → Bytes → Bytes
frame xs rest = length xs ∷ (xs ++ rest)

abbrev framed : Bytes → Bytes → Bytes → Bytes → Bytes
framed key nonce aad msg = frame key (frame nonce (frame aad msg))

frame-injective : (xs ys us vs : Bytes) → frame xs us ≡ frame ys vs → (xs ≡ ys) × (us ≡ vs)
frame-injective xs ys us vs e = append-cancel xs ys us vs (cc e) (cc e)

unfoldable pub drop_prefix : Bytes → Bytes → Option Bytes
drop_prefix [] text = some text
drop_prefix (p ∷ ps) [] = none
drop_prefix (p ∷ ps) (c ∷ text) = let rest = drop_prefix ps text in if p == c then rest else none

drop_prefix-append : (ps text : Bytes) → drop_prefix ps (ps ++ text) ≡ some text
unfolding drop_prefix
drop_prefix-append [] text = refl
drop_prefix-append (p ∷ ps) text = ground (arith, drop_prefix-append ps text)

drop_prefix-eq-some : (ps text rest : Bytes) → drop_prefix ps text ≡ some rest → text ≡ ps ++ rest
unfolding drop_prefix
drop_prefix-eq-some [] text rest e = cc e
drop_prefix-eq-some (p ∷ ps) [] rest e = cc e
drop_prefix-eq-some (p ∷ ps) (c ∷ text) rest e = ground (arith, drop_prefix-eq-some ps text rest)

framed-split :
    (key nonce aad msg : Bytes) → framed key nonce aad msg ≡ framed key nonce aad [] ++ msg
framed-split key nonce aad msg =
    ap (λ t. length key ∷ t)
      (ap (λ t. key ++ length nonce ∷ t)
          (ap (λ t. nonce ++ length aad ∷ (t ++ msg)) (sym (append-nil aad))
            ∙ sym (append_assoc nonce (length aad ∷ (aad ++ [])) msg))
        ∙ sym (append_assoc key (frame nonce (frame aad [])) msg))

abbrev sum : List ℕ → ℕ
sum [] = 0
sum (x ∷ xs) = x + sum xs

abbrev only : Bytes → Option ℕ
only [] = none
only (x ∷ xs) = some x

abbrev pub toy : Crates
toy = record {
  aead_encrypt = λ key nonce msg aad. some (framed key nonce aad msg);
  aead_decrypt = λ key nonce ct aad. drop_prefix (framed key nonce aad []) ct;
  argon2_params = λ m t p. true;
  argon2_hash = λ m t p passphrase salt. some (take 32 (passphrase ++ (salt ++ replicate 32 0)));
  sha256 = λ xs. xs;
  subtle_eq = λ xs ys. xs =ᵇ ys;
  base64_encode = λ xs. xs;
  base64_decode = λ xs. some xs;
  fill_bytes = λ n draw. some (replicate n draw);
  now_utc = λ tick. tick;
  add_days = λ now days. some (now + days);
  format_rfc3339 = λ at. some (at ∷ []);
  parse_rfc3339 = only;
  path_parts = λ path. ([], some path);
  fresh_rowid = λ ids. suc (sum ids);
}

pub toy-AeadCorrect : AeadCorrect toy
toy-AeadCorrect = record {
  decrypts = λ key nonce msg aad e.
      ap (drop_prefix (framed key nonce aad [])) (sym (some-inj e) ∙ framed-split key nonce aad msg)
      ∙ drop_prefix-append (framed key nonce aad []) msg;
}

pub toy-AeadAuthentic : AeadAuthentic toy
toy-AeadAuthentic = record {
  made = λ key nonce ct aad {msg} e. ap some (
      framed-split key nonce aad msg
      ∙ sym (drop_prefix-eq-some (framed key nonce aad []) ct msg e));
  binds = λ key key' nonce nonce' msg msg' aad aad' e e'.
      let (keys, rest) = frame-injective key key' _ _ (some-inj (e ∙ sym e')) in
      let (_, rest') = frame-injective nonce nonce' _ _ rest in
      (keys, (frame-injective aad aad' msg msg' rest').0);
}

pub toy-FillsBuffer : FillsBuffer toy
toy-FillsBuffer = record {
  fills = λ n draw e. ap length (sym (some-inj e)) ∙ length-replicate n draw;
}

pub toy-ComparesBytes : ComparesBytes toy
toy-ComparesBytes = record { compares = λ xs ys l. =ᵇ_iff xs ys }

pub toy-Base64Correct : Base64Correct toy
toy-Base64Correct = record { decodes = λ bytes. refl }

above-sum : (bound : ℕ) (ids : List ℕ) → sum ids < bound → any (λ id. id == bound) ids ≡ false
above-sum bound [] h = refl
above-sum bound (x ∷ ids) h = ground (arith, above-sum bound ids)

pub toy-FreshRowid : FreshRowid toy
toy-FreshRowid = record { unused = λ ids. above-sum (suc (sum ids)) ids (omega arith) }
