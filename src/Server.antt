-- ===== src/Server.antt =====
-- The server, crates/secrets-server/src.
pub mod State
pub mod Repo
pub mod Tables
pub mod CryptoState
pub mod Error
pub mod Auth
pub mod Audit
pub mod Names
pub mod Handlers
pub mod History
pub mod Soundness
pub mod Vault
pub mod Schema
pub mod Config
pub mod Lock
pub mod Commands
pub mod System
