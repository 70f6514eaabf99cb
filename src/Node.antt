-- ===== src/Node.antt =====
-- Parts of the relay node, internal/node.
pub mod Penalties
pub mod Peers
pub mod Submit
