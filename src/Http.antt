-- ===== src/Http.antt =====
-- The HTTP layer that the applications share (shared/src/http).
pub mod Connections
