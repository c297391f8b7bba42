-- ===== src/Client/Api/Updates.antt =====
-- A client that has set a secret does not read what its cache held before: `set_secret` and
-- `get_secrets` of crates/secrets-client/src/api.rs.
use secrets_manager.Prelude.{
  ◌≡◌, sym, subst, ap, ◌∙◌, some, List, [], ◌∷◌, ◌++◌, arith, Bytes, ascii,
}
use secrets_manager.Exec.{ok, err, ok_or, map_error, map_err, >>=-elim, >>=-of_err}
use secrets_manager.Server.State.Endings.{lift->>=-elim}
use secrets_manager.Crates.{Crates}
use secrets_manager.Client.Cache.{CacheStore}
use secrets_manager.Client.CacheEntries.{Json, on_file}
use secrets_manager.Client.Files.{
  Disk, CachePath, disk_access, accessing, read_file, remove_file, read_failed,
}
use secrets_manager.Client.Files.Others.{file-without}
use secrets_manager.Client.CacheFiles.{
  ClientHost, EnvelopeJson, files, cache_path, cache_load, cache_remove,
}
use secrets_manager.Client.Files.Atomic.{same_path_refl}
use secrets_manager.Client.Api.{
  unexpected_response, offline_cache_unavailable, Request, put, Reply, answered, status_code,
  no_response, WireJson, ClientWorld, Api, auth_header, call, secrets_url, get_secrets, set_secret,
  forgotten,
}
use secrets_manager.Client.Api.Source.{fetch_request}
use secrets_manager.Client.Api.Offline.{get_secrets-unreachable}

abbrev set_request : Api → Bytes → Bytes → Bytes → Request
set_request api project key body = record {
  method = put;
  url = secrets_url api project ++ (ascii "/" ++ key);
  authorization = auth_header api;
  body = some body;
}

read_file-removed :
    (p : CachePath) (d : Disk)
    → d.faults ≡ []
    → read_file p (remove_file p d) ≡ (err read_failed, remove_file p d)
unfolding read_file remove_file accessing disk_access
read_file-removed p d quiet =
    let gone = file-without p p d.files in let same = same_path_refl p in ground arith

module _ (lib : Crates) (network : List Request → Request → Reply) (wire : WireJson) (json : Json)
    (envelopes : EnvelopeJson) (host : ClientHost) (api : Api) (project dir : Bytes)
    (store : CacheStore) where
  forgotten-eq-ok :
      (reply : Reply) (w w' : ClientWorld)
      → api.cache ≡ some (dir, store)
      → forgotten lib network wire json envelopes host api project reply w ≡ (ok tt, w')
      → w'.disk ≡ remove_file (cache_path lib dir store project) w.disk
  unfolding cache_remove
  forgotten-eq-ok (answered body) w w' has e = ap (λ p. p.1.disk) (sym (rw has at e))
  forgotten-eq-ok (status_code code) w w' has e = cc (ap (λ p. p.0) e)
  forgotten-eq-ok no_response w w' has e = cc (ap (λ p. p.0) e)

  set_secret-eq-ok :
      (key value : Bytes) (w w' : ClientWorld)
      → api.cache ≡ some (dir, store)
      → set_secret lib network wire json envelopes host api project key value w ≡ (ok tt, w')
      → w'.disk ≡ remove_file (cache_path lib dir store project) w.disk
  unfolding set_secret call
  set_secret-eq-ok key value w w' has e =
      lift->>=-elim (ok_or (wire.set_body value) unexpected_response) _ w w' e λ body _ r1.
        >>=-elim (call network (set_request api project key body)) _ w w' r1 λ reply w1 e1 r2.
          forgotten-eq-ok reply w1 w' has r2
          ∙ ap (λ p. remove_file (cache_path lib dir store project) p.1.disk) (sym e1)

  load-removed :
      (d : Disk)
      → d.faults ≡ []
      → (let d' = remove_file (cache_path lib dir store project) d in
          cache_load lib json envelopes host dir store project d' ≡ (err (on_file read_failed), d'))
  unfolding cache_load map_err
  load-removed d quiet =
      let p = cache_path lib dir store project in
      >>=-of_err (files (read_file p)) _ (remove_file p d) (remove_file p d)
        (ap (λ r. (map_error on_file r.0, r.1)) (read_file-removed p d quiet))

-- After a secret of a project was set, on a disk on which no access fails, the client has nothing of
-- that project in its cache: where the server then gives no answer, `get_secrets` ends in an error
-- rather than in what the cache held before.
pub set_secret-get_secrets :
    (lib : Crates) (network later : List Request → Request → Reply) (wire : WireJson) (json : Json)
    (envelopes : EnvelopeJson) (host : ClientHost) (api : Api) (project key value dir : Bytes)
    (store : CacheStore) (w w1 w2 : ClientWorld)
    → api.cache ≡ some (dir, store)
    → w.disk.faults ≡ []
    → set_secret lib network wire json envelopes host api project key value w ≡ (ok tt, w1)
    → w2.disk ≡ w1.disk
    → later w2.sent (fetch_request api project) ≡ no_response
    → get_secrets lib later wire json envelopes host api project w2 ≡ (
      err (offline_cache_unavailable (on_file read_failed)),
      record w2 { sent = fetch_request api project ∷ w2.sent },
    )
set_secret-get_secrets lib network later wire json envelopes host api project key value dir store w
      w1 w2 has quiet set same silent =
    let removed =
      same
      ∙ set_secret-eq-ok lib network wire json envelopes host api project dir store key value w w1
          has set in
    get_secrets-unreachable lib later wire json envelopes host api project dir store
      (err (on_file read_failed)) w2 has silent
      (subst
        (λ d.
          cache_load lib json envelopes host dir store project d ≡ (err (on_file read_failed), d))
        (sym removed)
        (load-removed lib later wire json envelopes host api project dir store w.disk quiet))
