-- ===== src/Permissions.antt =====
-- packages/permissions: grants, their combination into effective permissions, and the access
-- questions that are asked of them.
pub mod Access
pub mod Engine
pub mod Profiles
pub mod Cache
