-- ===== src/Admin/Seeding.antt =====
-- internal/modules/admin/service/admin_service.go: `SeedDefaultAdmin` on a new database.
pub mod Created
pub mod Base
pub mod Given
pub mod Account
pub mod NewDatabase
