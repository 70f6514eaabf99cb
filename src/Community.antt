-- ===== src/Community.antt =====
-- internal/community: the room protocol's data, its validation and signatures, and the projection.
pub mod Types
pub mod Text
pub mod Platform
pub mod Validate
pub mod Canonical
pub mod Fields
pub mod Sign
pub mod Projection
