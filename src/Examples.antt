-- ===== src/Examples.antt =====
-- Concrete runs of the theorems, over a small instance of the crates.
pub mod Toy
mod Sealing
mod Export
mod Server
mod Rekey
mod Requests
mod Cache
pub mod Config
pub mod Schema
pub mod System
pub mod Offline
