-- ===== src/Store.antt =====
-- internal/store: the authoritative database of a room, and a relay's copy of it.
pub mod Tables
pub mod Sql
pub mod Commit
pub mod Rows
pub mod Refinement
pub mod Open
pub mod Replica
pub mod Query
pub mod Audit
