-- ===== src/Devices.antt =====
-- The devices of a user: their registration and revocation.
pub mod Category
pub mod Registration
pub mod Revocation
