-- ===== src/Auth.antt =====
-- internal/modules/auth: accounts, sessions and tokens.
pub mod Repository
pub mod Tokens
pub mod Service
pub mod Registration
pub mod Frames
pub mod Rows
pub mod Sessions
pub mod Rotation
pub mod Issue
pub mod Lockout
pub mod Keys
pub mod Tests
