-- ===== src/Mikrotik.antt =====
-- The access to the router (backend/internal/mikrotik): the interface Client, the cache before
-- it, the client in memory, and the script that makes a certificate.
mod Types
pub mod Calls
pub mod Cache
pub mod Fake
pub mod Script
pub use Types.*
