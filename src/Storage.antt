-- ===== src/Storage.antt =====
-- packages/storage-sqlite: the SQLite storage, one module for each group of tables.
pub mod Result
pub mod Records
pub mod Engine
pub mod Replay
pub mod Rows
pub mod Guards
pub mod Keys
pub mod Trust
pub mod Artifacts
pub mod Credentials
pub mod Events
pub mod Steps
pub mod Provenance
pub mod Migrations
