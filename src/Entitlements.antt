-- ===== src/Entitlements.antt =====
-- src/entitlements/entitlement.service.ts
pub mod Features
pub mod Types
pub mod Pick
pub mod Queries
pub mod Snapshot
