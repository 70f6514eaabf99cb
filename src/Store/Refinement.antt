-- ===== src/Store/Refinement.antt =====
-- The tables against the projection: both turn the same events into the same room state.
pub mod Shows
pub mod Bodies
pub mod Settle
pub mod Record
pub mod Commit
pub mod Sequencer
pub mod Relay
pub mod Again
pub mod Created
pub mod Nonces
pub mod Run
pub mod Installed
