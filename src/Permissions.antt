-- ===== src/Permissions.antt =====
-- Permission masks, their merging over roles, and the checks
-- (shared/src/database/types/role/permissions.rs, apps/api/src/dataloader/full_user.rs).
pub mod Bitmask
pub mod AllowDeny
pub mod Record
pub mod Checks
pub mod Resources
pub mod Exclusion
pub mod Superset
pub mod Computed
pub mod Legacy
pub mod Crate
mod Tests
