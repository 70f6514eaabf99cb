-- ===== src/Client.antt =====
-- Parts of the client, internal/client.
pub mod Replay
pub mod Store
