-- ===== src/Admin/Service.antt =====
-- internal/modules/admin/service: the operations of the service, and what they answer.
pub mod Users
pub mod Roles
pub mod Permissions
pub mod Seed
