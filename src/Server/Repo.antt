-- ===== src/Server/Repo.antt =====
-- The data-access layer, crates/secrets-server/src/repo.rs, one module for each table. Each SQL
-- statement is a function on the tables; the constraints of the schema are the cases in which it
-- fails.
mod Select
mod Meta
mod Projects
mod Secrets
mod Tokens
unfoldable pub use Select.*
unfoldable pub use Meta.*
unfoldable pub use Projects.*
unfoldable pub use Secrets.*
unfoldable pub use Tokens.*
