-- ===== src/Adapters.antt =====
-- The storage adapters of adapters/.
pub mod Rows
pub mod Mongo
pub mod Postgres
pub mod Redis
pub mod Ping
pub mod Setup
