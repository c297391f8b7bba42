-- ===== src/Server/Handlers.antt =====
-- The HTTP handlers, crates/secrets-server/src/handlers.rs.
pub mod Secrets
pub mod Admin
pub mod Steps
pub mod Reading
pub mod Writing
pub mod Deleting
pub mod RoundTrip
pub mod Walks
pub mod Constraints
pub mod Uniqueness
