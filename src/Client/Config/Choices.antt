-- ===== src/Client/Config/Choices.antt =====
-- Where the parts of a configuration come from, crates/secrets-client/src/config.rs.
use mathlib.Core.Option
use secrets_manager.Prelude.{
  ◌≡◌, refl, sym, subst, ap, not, ◌||◌, ◌&&◌, ◌++◌, if◌then◌else◌, is_utf8, from_utf8, ends_in,
  replicate, ℕ, suc, ==_iff, true, false, Bool, Bool-cases, Option-cases, ◌==◌, Option, none, some,
  inl, inr, [], ◌∷◌, length, arith, Bytes,
}
use secrets_manager.Exec.{ok, ok_or, lift, ◌>>=◌, >>=-elim}
use secrets_manager.Server.State.Endings.{lift->>=-elim, lift-eq-ok, ok_or-eq-ok}
use secrets_manager.Client.Config.{
  ConfigFile, FileConfig, ConfigHost, Warnings, check_permissions, read_failed, parse_failed,
  read_config, overridden, trim_end_matches,
}

-- A variable that is not set, no text, or empty.
abbrev pub unset : Option Bytes → Bool
unset none = true
unset (some v) = not (is_utf8 v) || length v == 0

-- A text from a variable of the environment, or else from the file.
pub data Chosen (var from_file : Option Bytes) (text : Bytes) : Type 0 where
  by_variable :
      var ≡ some text → is_utf8 text ≡ true → (length text == 0) ≡ false → Chosen var from_file text
  by_file : unset var ≡ true → from_file ≡ some text → Chosen var from_file text

-- The file at a path has a configuration; one that is not there has none of its parts.
pub data Says (host : ConfigHost) (path : Bytes) (c : FileConfig) : Type 0 where
  absent : host.file path ≡ none → c.server_url ≡ none → c.token ≡ none → Says host path c
  present :
      (f : ConfigFile) (text : Bytes)
      → host.file path ≡ some f
      → f.contents ≡ some text
      → is_utf8 text ≡ true
      → host.parse_toml text ≡ some c
      → Says host path c

-- A text without the bytes c at its end.
pub record Trimmed (c : ℕ) (raw text : Bytes) : Type 0 where
  pub count : ℕ
  pub whole : raw ≡ text ++ replicate count c
  pub ends : ends_in c text ≡ false

pub overridden-Chosen :
    (var from_file : Option Bytes) (text : Bytes)
    → overridden var from_file ≡ some text
    → Chosen var from_file text
unfolding overridden from_utf8 is_utf8 Option.bind
overridden-Chosen none from_file text e = by_file refl e
overridden-Chosen (some []) from_file text e = by_file refl e
overridden-Chosen (some (b ∷ v)) from_file text e = elim (Bool-cases (is_utf8 (b ∷ v))) [
  | inl good ↦
      let e' : some (b ∷ v) ≡ some text = rw good at e in
      let same : b ∷ v ≡ text = cc e' in
      by_variable e' (subst (λ t. is_utf8 t ≡ true) same good)
        (subst (λ t. (length t == 0) ≡ false) same (ground arith))
  | inr bad ↦ by_file (rw bad refl) (rw bad at e)
]

text_of :
    (o : Option Bytes) (text : Bytes)
    → Option.bind o from_utf8 ≡ some text
    → (o ≡ some text) × (is_utf8 text ≡ true)
unfolding from_utf8 Option.bind
text_of none text e = cc e
text_of (some v) text e = elim (Bool-cases (is_utf8 v)) [
  | inl good ↦
      let e' : some v ≡ some text = rw good at e in
      let same : v ≡ text = cc e' in (e', subst (λ t. is_utf8 t ≡ true) same good)
  | inr bad ↦ cc (rw bad at e)
]

read_found :
    (host : ConfigHost) (path : Bytes) (f : ConfigFile) (c : FileConfig) (w w' : Warnings)
    → host.file path ≡ some f
    → (check_permissions path f >>= λ _.
          lift (ok_or (Option.bind f.contents from_utf8) read_failed) >>= λ text.
          lift (ok_or (host.parse_toml text) parse_failed))
        w
      ≡ (ok c, w')
    → Says host path c
read_found host path f c w w' there e = >>=-elim (check_permissions path f) _ w w' e λ _ w1 _ e1.
    lift->>=-elim (ok_or (Option.bind f.contents from_utf8) read_failed) _ w1 w' e1 λ text given e2.
      let (contents, good) = text_of f.contents text (ok_or-eq-ok _ read_failed given) in
      present f text there contents good (
        ok_or-eq-ok (host.parse_toml text) parse_failed
          (lift-eq-ok (ok_or (host.parse_toml text) parse_failed) w1 w' e2).0)

abbrev none_said : FileConfig
none_said = record { server_url = none; token = none }

pub read_config-Says :
    (host : ConfigHost) (path : Bytes) (c : FileConfig) (w w' : Warnings)
    → read_config host path w ≡ (ok c, w')
    → Says host path c
unfolding read_config
read_config-Says host path c w w' e = elim (Option-cases (host.file path)) [
  | inl gone ↦
      let same : ok none_said ≡ ok c = ap (λ p. p.0) (rw (read_config, gone) at e) in
      let is : none_said ≡ c = cc same in
      absent gone (ap (λ x. x.server_url) (sym is)) (ap (λ x. x.token) (sym is))
  | inr (f, there) ↦ read_found host path f c w w' there (rw (read_config, there) at e)
]

trim_step :
    (c x n : ℕ) (text rest : Bytes)
    → text ≡ rest ++ replicate n c
    → ends_in c rest ≡ false
    → Trimmed c (x ∷ text) (if x == c && length rest == 0 then [] else x ∷ rest)
unfolding ends_in
trim_step c x n text [] whole ends = elim (Bool-cases (x == c)) [
  | inl own ↦
      rw own (record { count = suc n; whole = λ i. (==_iff x c).0 own i ∷ whole i; ends = refl })
  | inr other ↦ rw other (record { count = n; whole = ap (λ t. x ∷ t) whole; ends = other })
]
trim_step c x n text (y ∷ rest) whole ends =
    let more : (x == c && length (y ∷ rest) == 0) ≡ false = ground arith in
    subst (λ b. Trimmed c (x ∷ text) (if b then [] else x ∷ y ∷ rest)) (sym more)
      (record { count = n; whole = ap (λ t. x ∷ t) whole; ends = ends })

pub trim_end_matches-Trimmed : (c : ℕ) (text : Bytes) → Trimmed c text (trim_end_matches c text)
unfolding trim_end_matches ends_in
trim_end_matches-Trimmed c [] = record { count = 0; whole = refl; ends = refl }
trim_end_matches-Trimmed c (x ∷ text) =
    let t = trim_end_matches-Trimmed c text in
    trim_step c x t.count text (trim_end_matches c text) t.whole t.ends
