-- ===== src/Replica.antt =====
-- How a relay follows its sequencer, internal/replica.
pub mod Connect
pub mod Sync
