-- ===== src/Server/Tables.antt =====
-- What the operations of crates/secrets-server/src/repo.rs do to the tables.
pub mod Meta
pub mod Secrets
pub mod Writes
