-- ===== src/Db.antt =====
-- The package db: the store of redirects and of missed slugs, and the queue of usage records.
-- The SQL statements of the source are read as operations on tables.
pub mod Sql
pub mod Store
pub mod Counted
pub mod Invariant
pub mod Redirects
pub mod Misses
pub mod Import
pub mod Reach
pub mod Stats
pub mod Remote
pub mod Schema
pub mod Migrations
