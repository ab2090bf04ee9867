-- ===== src/Admin.antt =====
-- internal/modules/admin: users, roles and permissions.
pub mod Paging
pub mod Repository
pub mod Service
pub mod Assignments
pub mod Reports
pub mod Revocation
pub mod Seeding
pub mod Tests
