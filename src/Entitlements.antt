-- ===== src/Entitlements.antt =====
-- Entitlement edges (shared/src/database/types/entitlement.rs): the kinds of node with their
-- text, the edges, and the sets that a traversal's targets are sorted into.
pub mod Kind
pub mod Roundtrip
pub mod Calculated
pub mod Correct
pub mod Fetch
mod Tests
