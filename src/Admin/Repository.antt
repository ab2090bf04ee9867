-- ===== src/Admin/Repository.antt =====
-- internal/modules/admin/repository: the statements on users, roles and permissions.
pub mod Users
pub mod Roles
pub mod Permissions
