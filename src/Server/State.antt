-- ===== src/Server/State.antt =====
-- The state that the server's code reads and writes: the database of crates/secrets-server/src/db.rs
-- (one row type for each table of `migrate`), the database mutex of app.rs and the audit log of
-- audit.rs, with the numbers of random draws and of clock readings made so far.
pub mod Moves
pub mod Endings
pub mod Triples
use secrets_manager.Prelude.{
  ℕ, suc, Bool, false, Option, none, some, List, [], ◌∷◌, if◌then◌else◌, Bytes,
}
use secrets_manager.Exec.{Outcome, ok, err, panic, Exec, pure, lift, ◌>>=◌}
use secrets_manager.Crates.{Crates}

pub record ProjectRow : Type 0 where
  pub id : ℕ
  pub name : Bytes
  pub created_at : Bytes

pub record StoredSecret : Type 0 where
  pub id : ℕ
  pub project_id : ℕ
  pub key : Bytes
  pub nonce : Bytes
  pub ciphertext : Bytes
  pub version : ℕ
  pub updated_at : Bytes

pub record TokenRow : Type 0 where
  pub id : ℕ
  pub name : Bytes
  pub token_hash : Bytes
  pub project_scope : Option Bytes
  pub created_at : Bytes
  pub revoked : ℕ
  pub expires_at : Option Bytes

pub record Tables : Type 0 where
  pub meta : List (Bytes × Bytes)
  pub projects : List ProjectRow
  pub secrets : List StoredSecret
  pub tokens : List TokenRow

-- One line of the audit log.
pub record Entry : Type 0 where
  pub ts : Bytes
  pub token : Option Bytes
  pub method : Bytes
  pub path : Bytes
  pub project : Option Bytes
  pub status : ℕ

-- `faults` says which of the coming accesses to a file fail (true); past its end none does.
pub record World : Type 0 where
  pub tables : Tables
  pub faults : List Bool
  pub draws : ℕ
  pub ticks : ℕ
  pub poisoned : Bool
  pub log : List Entry

pub data SqlError : Type 0 where
  sqlite : SqlError

abbrev pub Sql : Type 0 → Type 0
Sql A = Exec World SqlError A

-- Whether the next access fails, and the world after it.
unfoldable pub access : World → Bool × World
access w = elim w.faults [ [] ↦ (false, w) | fault ∷ rest ↦ (fault, record w { faults = rest }) ]

-- A SELECT.
unfoldable pub query : {A : Type 0} → (Tables → A) → Sql A
query select w =
    let (fault, w') = access w in if fault then (err sqlite, w') else (ok (select w'.tables), w')

abbrev pub committed : {A : Type 0} → World → Option (A × Tables) → Outcome SqlError A × World
committed w none = (err sqlite, w)
committed w (some (a, tables)) = (ok a, record w { tables = tables })

-- A statement that writes: it fails whole, by an access or by a constraint (`none`).
unfoldable pub execute : {A : Type 0} → (Tables → Option (A × Tables)) → Sql A
execute write w =
    let (fault, w') = access w in if fault then (err sqlite, w') else committed w' (write w'.tables)

-- What a transaction leaves: the writes if it ended well, else (rolled back on drop) none of them.
abbrev pub settled : {E A : Type 0} → Tables → Outcome E A × World → Outcome E A × World
settled before (ok a, w) = (ok a, w)
settled before (err e, w) = (err e, record w { tables = before })
settled before (panic, w) = (panic, record w { tables = before })

-- BEGIN or COMMIT
unfoldable pub mark : {E : Type 0} → E → Exec World E (Unit {0})
mark e w = let (fault, w') = access w in if fault then (err e, w') else (ok tt, w')

-- `unchecked_transaction`, the body, `commit`; `e` is the error of the first and the last.
unfoldable pub transaction : {E A : Type 0} → E → Exec World E A → Exec World E A
unfolding mark ◌>>=◌
transaction e body w = settled w.tables ((mark e >>= λ _. body >>= λ a. mark e >>= λ _. pure a) w)

module _ (lib : Crates) where
  -- `OffsetDateTime::now_utc`
  unfoldable pub now_utc : {E : Type 0} → Exec World E ℕ
  now_utc w = (ok (lib.now_utc w.ticks), record w { ticks = suc w.ticks })

  abbrev pub expected : {E A : Type 0} → Option A → Outcome E A
  expected none = panic
  expected (some a) = ok a

  unfoldable pub now_rfc3339 : {E : Type 0} → Exec World E Bytes
  unfolding now_utc ◌>>=◌
  now_rfc3339 = do now ← now_utc; lift (expected (lib.format_rfc3339 now))

-- A part of the code that only draws random numbers.
unfoldable pub on_draws : {E A : Type 0} → Exec ℕ E A → Exec World E A
on_draws m w = let (r, draws) = m w.draws in (r, record w { draws = draws })
