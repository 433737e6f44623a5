-- ===== src/Cdn.antt =====
-- The CDN's names for image files (shared/src/cdn/key.rs).
pub mod File
pub mod Key
pub mod Roundtrip
mod Tests
