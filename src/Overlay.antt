-- ===== src/Overlay.antt =====
-- internal/overlay: which broadcasts a node has delivered.
pub mod Dedup
