-- ===== src/Entitlements/Types.antt =====
-- The answers of entitlements/entitlement.service.ts.
use ruznamo_backend.Common.{ℕ, Bool, List, Option, ℤ}
use ruznamo_backend.Db.{LicenseStatus, PlanCode, TrialStatus}
use ruznamo_backend.Entitlements.Features.{Features}

pub data EffectiveStatus : Type 0 where
  active trial expired suspended none_at_all : EffectiveStatus

pub data AccessSource : Type 0 where
  trial license no_source : AccessSource

pub record TrialView : Type 0 where
  pub status : TrialStatus
  pub expires_at : ℕ
  pub started_at : ℕ

pub record LicenseView : Type 0 where
  pub id : ℕ
  pub status : LicenseStatus
  pub key_prefix : List ℕ
  pub starts_at : Option ℕ
  pub expires_at : Option ℕ

pub record DeviceUsage : Type 0 where
  pub active_count : ℕ
  pub max : Option ℤ
  pub current_installation_active : Bool

pub record EntitlementSnapshot : Type 0 where
  pub access : Bool
  pub source : AccessSource
  pub effective_status : EffectiveStatus
  pub plan : Option PlanCode
  pub trial : Option TrialView
  pub license : Option LicenseView
  pub devices : DeviceUsage
  pub features : Features
  pub evaluated_at : ℕ
