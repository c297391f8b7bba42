-- ===== src/Server/Audit/Entries.antt =====
-- What `audit_middleware` of crates/secrets-server/src/audit.rs appends to the log.
use mathlib.Core.Option
use secrets_manager.Prelude.{
  ℕ, suc, ◌≡◌, refl, sym, subst, ap, ◌∙◌, Bool, Bool-cases, inl, inr, true, false, not, Option,
  none, some, List, [], ◌∷◌, ◌++◌, append-nil, ◌==◌, ==_iff, all, length, take, if◌then◌else◌,
  arith, Bytes, ascii, ◌=ᵇ◌,
}
use secrets_manager.Exec.{Outcome, ok, err, panic, Exec, continue, ◌>>=◌, >>=-of_ok}
use secrets_manager.Crates.{Crates}
use secrets_manager.Server.State.{World, Entry, access, now_rfc3339, now_utc}
use secrets_manager.Server.Error.{AppError}
use secrets_manager.Server.Auth.{strip_prefix, resolve_token_name}
use secrets_manager.Server.Audit.{
  Request, nth_segment, truncate_for_log, logged_project, logged_path, append_entry, record_request,
  audit_middleware,
}

abbrev pub project_route : Bytes
project_route = ascii "/v1/projects/{name}"

-- The end of a segment of a path.
abbrev pub at_end : Bytes → Bool
at_end [] = true
at_end (c ∷ rest) = c == b'/'

-- What the log may show of a request as its path and its project: the template of its route, or
-- that it has none; and on the routes of a project, cut, the third segment of the path.
pub data Shown (request : Request) : Bytes → Option Bytes → Type 0 where
  unmatched : request.matched ≡ none → Shown request (ascii "(unmatched)") none
  of_project :
      (more segment rest : Bytes)
      → request.matched ≡ some (project_route ++ more)
      → request.path ≡ ascii "/v1/projects/" ++ (segment ++ rest)
      → all (λ c. not (c == b'/')) segment ≡ true
      → at_end rest ≡ true
      → Shown request (project_route ++ more) (some (truncate_for_log segment))
  elsewhere :
      (template : Bytes)
      → request.matched ≡ some template
      → (take 19 template =ᵇ project_route) ≡ false
      → Shown request template none

strip_prefix-other :
    (p text : Bytes) → (take (length p) text =ᵇ p) ≡ false → strip_prefix p text ≡ none
unfolding strip_prefix ◌=ᵇ◌
strip_prefix-other [] text e = cc e
strip_prefix-other (c ∷ p) [] e = refl
strip_prefix-other (c ∷ p) (d ∷ text) e = elim (Bool-cases (c == d)) [
  | inl same ↦
      let back : (d == c) ≡ true = (==_iff d c).1 (sym ((==_iff c d).0 same)) in
      rw same (strip_prefix-other p text (rw back at e))
  | inr apart ↦ rw apart refl
]

nth_segment-first :
    (segment rest : Bytes)
    → all (λ c. not (c == b'/')) segment ≡ true
    → at_end rest ≡ true
    → nth_segment 0 (segment ++ rest) ≡ some segment
unfolding nth_segment
nth_segment-first [] [] plain end = refl
nth_segment-first [] (c ∷ rest) plain end = rw end refl
nth_segment-first (c ∷ segment) rest plain end = elim (Bool-cases (c == b'/')) [
  | inl slash ↦ cc (rw slash at plain)
  | inr other ↦ rw other (rw (nth_segment-first segment rest (rw other at plain) end) refl)
]

logged_path-Shown :
    (request : Request) (path : Bytes) (project : Option Bytes)
    → Shown request path project
    → logged_path request.matched ≡ path
logged_path-Shown request path project (unmatched e) = ap logged_path e
logged_path-Shown request path project (of_project more segment rest e at plain end) =
    ap logged_path e
logged_path-Shown request path project (elsewhere template e differs) = ap logged_path e

logged_project-Shown :
    (request : Request) (path : Bytes) (project : Option Bytes)
    → Shown request path project
    → logged_project request ≡ project
unfolding logged_project nth_segment
logged_project-Shown request path project (unmatched e) = rw e refl
logged_project-Shown request path project (of_project more segment rest e at plain end) =
    rw e (rw at (ap (Option.map truncate_for_log) (nth_segment-first segment rest plain end)))
logged_project-Shown request path project (elsewhere template e differs) =
    rw e (rw (strip_prefix-other project_route template differs) refl)

-- A write to the log fails.
abbrev pub failing : List Bool → Bool
failing [] = false
failing (fault ∷ rest) = fault

-- What a request adds to the log that was answered, or not.
abbrev pub appended : Outcome AppError ℕ → List Bool → (ℕ → Entry) → List Entry
appended (ok status) faults entry = if failing faults then [] else entry status ∷ []
appended (err e) faults entry = []
appended panic faults entry = []

abbrev pub Logs : Outcome AppError ℕ → World → (ℕ → Entry) → Outcome AppError ℕ × World → Type 0
Logs r w entry (r', w') =
    (r' ≡ r) × (w'.tables ≡ w.tables) × (w'.log ≡ w.log ++ appended r w.faults entry)

append_entry-Logs :
    (e : Entry) (w : World)
    → ((append_entry {E = AppError} e w).0 ≡ ok tt)
      × ((append_entry {E = AppError} e w).1.tables ≡ w.tables)
      × ((append_entry {E = AppError} e w).1.log
          ≡ w.log ++ (if failing w.faults then [] else e ∷ []))
unfolding append_entry access
append_entry-Logs e w =
    let none_new = append-nil w.log in (ground arith, ground arith, ground arith)

finish :
    (x : Outcome AppError (Unit {0}) × World) (status : ℕ) (w : World) (entries : List Entry)
    → (x.0 ≡ ok tt) × (x.1.tables ≡ w.tables) × (x.1.log ≡ w.log ++ entries)
    → (let (r, w') = continue x.0 (λ _ v. (ok status, v)) x.1 in
        (r ≡ ok status) × (w'.tables ≡ w.tables) × (w'.log ≡ w.log ++ entries))
finish (ok u, v) status w entries (e, t, l) = (refl, t, l)
finish (err x, v) status w entries (e, t, l) = cc e
finish (panic, v) status w entries (e, t, l) = cc e

>>=-step :
    (m : Exec World AppError ℕ) (f : ℕ → Exec World AppError ℕ) (w : World)
    {r : Outcome AppError ℕ × World}
    → m w ≡ r
    → (m >>= f) w ≡ continue r.0 f r.1
unfolding ◌>>=◌
>>=-step m f w e = ap (λ p. continue p.0 f p.1) e

module _ (lib : Crates) (request : Request) (name project : Option Bytes) (path ts : Bytes) where
  -- The entry for a request that is answered with a status.
  abbrev pub new_entry : ℕ → Entry
  new_entry status = record {
    ts = ts;
    token = name;
    method = request.method;
    path = path;
    project = project;
    status = status;
  }

  abbrev recorded : ℕ → Exec World AppError ℕ
  recorded status =
      record_request lib request.method (logged_path request.matched) (logged_project request) name
        status
      >>= λ _. λ w. (ok status, w)

  recorded-Logs :
      (r : Outcome AppError ℕ) (w : World)
      → Shown request path project
      → lib.format_rfc3339 (lib.now_utc w.ticks) ≡ some ts
      → Logs r w new_entry (continue r recorded w)
  unfolding record_request now_rfc3339 now_utc ◌>>=◌
  recorded-Logs (ok status) w shown clock =
      rw
        (
          clock,
          logged_path-Shown request path project shown,
          logged_project-Shown request path project shown,
        )
        (finish (append_entry (new_entry status) (record w { ticks = suc w.ticks })) status w _
          (append_entry-Logs (new_entry status) (record w { ticks = suc w.ticks })))
  recorded-Logs (err e) w shown clock = (refl, refl, sym (append-nil w.log))
  recorded-Logs panic w shown clock = (refl, refl, sym (append-nil w.log))

-- Where the time has a text, the middleware gives the answer of the handler, whatever it is, and
-- leaves the tables as the handler left them. An answered request appends one entry to the log as the
-- handler left it, with the status, the method, the name of the token, the template of the route or
-- "(unmatched)", and on the routes of a project the third segment of the path, cut; a request that
-- ends without an answer appends none, as does one whose entry cannot be written.
pub audit_middleware-entry :
    (lib : Crates) (request : Request) (next : Exec World AppError ℕ) (name project : Option Bytes)
    (path ts : Bytes) (r : Outcome AppError ℕ) (w w1 w2 : World)
    → Shown request path project
    → resolve_token_name lib {E = AppError} request.header w ≡ (ok name, w1)
    → next w1 ≡ (r, w2)
    → lib.format_rfc3339 (lib.now_utc w2.ticks) ≡ some ts
    → Logs r w2 (new_entry lib request name project path ts) (audit_middleware lib request next w)
unfolding audit_middleware
audit_middleware-entry lib request next name project path ts r w w1 w2 shown resolved handled
      clock =
    subst (Logs r w2 (new_entry lib request name project path ts))
      (sym (
        >>=-of_ok (resolve_token_name lib {E = AppError} request.header) _ w w1 resolved
        ∙ >>=-step next _ w1 handled))
      (recorded-Logs lib request name project path ts r w2 shown clock)
