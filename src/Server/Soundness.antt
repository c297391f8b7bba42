-- ===== src/Server/Soundness.antt =====
-- What the tables of crates/secrets-server/src/db.rs hold at any time of a server with a master key:
-- the key's verifier, rows that keep the constraints, and secrets that the key opens as the record
-- that they stand for.
pub mod Statements
pub mod Puts
pub mod Requests
pub mod Rekeys
pub mod Available
use secrets_manager.Prelude.{
  ℕ, ◌≡◌, ap, ◌∙◌, Bool, true, some, List, ◌==◌, All, Distinct, Bytes, is_utf8,
}
use secrets_manager.Exec.{ok}
use secrets_manager.Crates.{Crates}
use secrets_manager.Crypto.{MasterKey, aad_bytes, decrypt}
use secrets_manager.Server.State.{ProjectRow, StoredSecret, Tables}
use secrets_manager.Server.Repo.{find}
use secrets_manager.Server.CryptoState.Rows.{same_id}
use secrets_manager.Server.CryptoState.Verifier.{KeyMeta}
use secrets_manager.Server.Handlers.Constraints.{Unique}

-- PRIMARY KEY of `projects`
abbrev pub same_project_id : ProjectRow → ProjectRow → Bool
same_project_id p q = p.id == q.id

abbrev pub owns : StoredSecret → ProjectRow → Bool
owns r p = p.id == r.project_id

module _ (lib : Crates) (key : MasterKey) where
  -- A secret has a project, and opens under the key to a text.
  pub record Readable (ps : List ProjectRow) (r : StoredSecret) : Type 0 where
    pub project : ProjectRow
    pub plaintext : Bytes
    pub owner : find (owns r) ps ≡ some project
    pub opened : decrypt lib key r.nonce r.ciphertext (aad_bytes project.name r.key) ≡ ok plaintext
    pub text : is_utf8 plaintext ≡ true

  pub record Sound (t : Tables) : Type 0 where
    pub passphrase : Bytes
    pub verifier : KeyMeta lib passphrase key t
    pub unique : Unique t
    pub project_ids : Distinct same_project_id t.projects
    pub secret_ids : Distinct same_id t.secrets
    pub readable : All (Readable t.projects) t.secrets

  abbrev pub StaysSound : Tables → Tables → Type 0
  StaysSound t u = Sound t → Sound u
