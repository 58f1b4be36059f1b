-- ===== src/Admin.antt =====
-- What an administrator changes.
pub mod Licenses
pub mod Auth
