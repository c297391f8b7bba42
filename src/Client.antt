-- ===== src/Client.antt =====
-- The client, crates/secrets-client: what it accepts as secrets and what it prints of them.
pub mod Received
pub mod Dotenv
pub mod Export
pub mod Cache
pub mod CacheEntries
pub mod Files
pub mod CacheFiles
pub mod Api
pub mod Config
