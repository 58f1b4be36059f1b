-- ===== src/Licenses.antt =====
-- src/licenses, src/security/license-key.service.ts and src/admin/common/plan-features.util.ts.
pub mod Key
pub mod Slots
pub mod Activate
pub mod Replacement
pub mod Issuance
pub mod Recovery
