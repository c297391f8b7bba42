-- ===== src/Client/Config/Secure.antt =====
-- What `load` accepts, crates/secrets-client/src/config.rs.
use secrets_manager.Prelude.{
  ◌≡◌, refl, subst, ap, ℕ, ==_iff, ◌∙◌, true, false, Bool-cases, ◌==◌, Option, none, some, inl, inr,
  [], ◌∷◌, length, arith, Bytes, ascii, ◌=ᵇ◌, =ᵇ_iff,
}
use secrets_manager.Exec.{Outcome, ok, err, panic, ok_or, then_result, >>=-elim}
use secrets_manager.Server.State.Endings.{lift->>=-elim, ok_or-eq-ok, pure-eq-ok}
use secrets_manager.Client.CacheFiles.{ClientConfig}
use secrets_manager.Client.Config.{
  Url, UrlHost, ipv4, ipv6, domain, FileConfig, ConfigHost, Warnings, config_path, read_config,
  overridden, invalid_url, no_server_url, no_token, is_set, is_loopback_host, check_scheme,
  validate_server_url, load,
}
use secrets_manager.Client.Config.Choices.{
  Chosen, Says, Trimmed, overridden-Chosen, read_config-Says, trim_end_matches-Trimmed,
}

-- The host is this machine: an address of 127.0.0.0/8, ::1 or localhost.
pub data Loopback (o : Option UrlHost) : Type 0 where
  v4 : (b c d : ℕ) → o ≡ some (ipv4 127 b c d) → Loopback o
  v6 : o ≡ some (ipv6 (0 ∷ 0 ∷ 0 ∷ 0 ∷ 0 ∷ 0 ∷ 0 ∷ 1 ∷ [])) → Loopback o
  localhost : o ≡ some (domain (ascii "localhost")) → Loopback o

-- Where a token may be sent in the clear: to this machine alone.
pub data Transport (u : Url) : Type 0 where
  encrypted : u.scheme ≡ ascii "https" → Transport u
  local : u.scheme ≡ ascii "http" → Loopback u.host → Transport u

pub record Safe (u : Url) : Type 0 where
  pub transport : Transport u
  pub username : u.username ≡ []
  pub password : u.password ≡ none
  pub query : u.query ≡ none
  pub fragment : u.fragment ≡ none

-- The configuration that was loaded, from the text of a server URL that parses.
pub record Loaded (host : ConfigHost) (c : ClientConfig) : Type 0 where
  pub path : Bytes
  pub from_file : FileConfig
  pub raw : Bytes
  pub parsed : Url
  pub at : config_path host ≡ ok path
  pub says : Says host path from_file
  pub source : Chosen (host.var (ascii "SECRETS_SERVER_URL")) from_file.server_url raw
  pub token : Chosen (host.var (ascii "SECRETS_TOKEN")) from_file.token c.token
  pub parses : host.parse_url raw ≡ some parsed
  pub safe : Safe parsed
  pub trimmed : Trimmed b'/' raw c.server_url

is_loopback_host-Loopback :
    (u : Url) (o : Option UrlHost) → is_loopback_host (record u { host = o }) ≡ true → Loopback o
unfolding is_loopback_host
is_loopback_host-Loopback u none e = cc e
is_loopback_host-Loopback u (some (ipv4 a b c d)) e =
    v4 b c d (ap (λ n. some (ipv4 n b c d)) ((==_iff a 127).0 e))
is_loopback_host-Loopback u (some (ipv6 numbers)) e =
    v6 (ap (λ n. some (ipv6 n)) ((=ᵇ_iff numbers _).0 e))
is_loopback_host-Loopback u (some (domain d)) e =
    localhost (ap (λ n. some (domain n)) ((=ᵇ_iff d (ascii "localhost")).0 e))

check_scheme-Transport : (u : Url) → check_scheme u ≡ ok tt → Transport u
unfolding check_scheme
check_scheme-Transport u e = elim (Bool-cases (u.scheme =ᵇ ascii "https")) [
  | inl https ↦ encrypted ((=ᵇ_iff u.scheme (ascii "https")).0 https)
  | inr other ↦ elim (Bool-cases (u.scheme =ᵇ ascii "http")) [
    | inl http ↦
        let here : is_loopback_host u ≡ true = ground arith in
        local ((=ᵇ_iff u.scheme (ascii "http")).0 http) (is_loopback_host-Loopback u u.host here)
    | inr neither ↦ cc (rw (other, neither) at e)
  ]
]

module _ {E A : Type 0} where
  then_result-eq-ok :
      {B : Type 0} (r : Outcome E A) (f : A → Outcome E B) {b : B}
      → then_result r f ≡ ok b
      → (a : A) × (r ≡ ok a) × (f a ≡ ok b)
  then_result-eq-ok (ok a) f h = (a, refl, h)
  then_result-eq-ok (err e) f h = cc h
  then_result-eq-ok panic f h = cc h

not_set : (o : Option Bytes) → is_set o ≡ false → o ≡ none
not_set none e = refl
not_set (some text) e = cc e

no_bytes : (text : Bytes) → (length text == 0) ≡ true → text ≡ []
no_bytes [] e = refl
no_bytes (c ∷ text) e = ground arith

validate_server_url-Safe :
    (host : ConfigHost) (raw : Bytes)
    → validate_server_url host raw ≡ ok tt
    → (u : Url) × (host.parse_url raw ≡ some u) × Safe u
unfolding validate_server_url
validate_server_url-Safe host raw e =
    let (u, parses, rest) = then_result-eq-ok (ok_or (host.parse_url raw) invalid_url) _ e in
    let (_, scheme, parts) = then_result-eq-ok (check_scheme u) _ rest in
    (
      u,
      ok_or-eq-ok (host.parse_url raw) invalid_url parses,
      record {
        transport = check_scheme-Transport u scheme;
        username = no_bytes u.username (ground arith);
        password = not_set u.password (ground arith);
        query = not_set u.query (ground arith);
        fragment = not_set u.fragment (ground arith);
      },
    )

-- A configuration that is loaded has the server URL and the token of the environment, where they are
-- set to a text that is not empty, and of the file at the configuration's path otherwise. The URL
-- parses; it uses https, or http to an address of 127.0.0.0/8, ::1 or localhost; it has no user name,
-- password, query or fragment; all slashes at its end are taken away, and nothing else.
pub load-Loaded :
    (host : ConfigHost) (warnings warnings' : Warnings) (c : ClientConfig)
    → load host warnings ≡ (ok c, warnings')
    → Loaded host c
unfolding load
load-Loaded host warnings warnings' c e =
    lift->>=-elim (config_path host) _ warnings warnings' e λ path at e1.
      >>=-elim (read_config host path) _ warnings warnings' e1 λ file w read e2.
        lift->>=-elim
          (ok_or (overridden (host.var (ascii "SECRETS_SERVER_URL")) file.server_url) no_server_url)
          _ w warnings' e2
          λ raw source e3.
            lift->>=-elim (validate_server_url host raw) _ w warnings' e3 λ _ valid e4.
              lift->>=-elim
                (ok_or (overridden (host.var (ascii "SECRETS_TOKEN")) file.token) no_token) _ w
                warnings' e4
                λ token given e5.
                  let (u, parses, safe) = validate_server_url-Safe host raw valid in
                  let (made, _) = pure-eq-ok _ w warnings' e5 in
                  record {
                    path = path;
                    from_file = file;
                    raw = raw;
                    parsed = u;
                    at = at;
                    says = read_config-Says host path file warnings w read;
                    source = overridden-Chosen _ _ raw (ok_or-eq-ok _ no_server_url source);
                    token =
                        overridden-Chosen _ _ c.token
                          (ok_or-eq-ok _ no_token given ∙ ap (λ x. some x.token) made);
                    parses = parses;
                    safe = safe;
                    trimmed =
                        subst (λ x. Trimmed b'/' raw x.server_url) made
                          (trim_end_matches-Trimmed b'/' raw);
                  }
