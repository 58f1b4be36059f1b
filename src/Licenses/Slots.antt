-- ===== src/Licenses/Slots.antt =====
-- licenses/active-license-activation.ts, and the two readers of a plan's device limit:
-- `readMaxDevices` of licenses.service.ts and `readMaxDevicesFromFeatures` of
-- admin/common/plan-features.util.ts. Then the checks that the license services share.
pub mod Laws
use ruznamo_backend.Common.{
  String, ℕ, zero, suc, Bool, false, Option, none, some, List, ◌&&◌, ◌||◌, leb, ltb, ◌==◌,
  if◌then◌else◌, is_some, is_none, str_eq, find, count, select, any, Result, ok, err, ℤ, pos,
  negsuc, parse_int, codes, Error, license_revoked, license_expired, plan_misconfigured, throw_if,
  ◌>>◌, ◌>>=◌,
}
use ruznamo_backend.Db.{
  Db, Device, Feature, License, Activation, is_license_revoked, is_license_expired,
}

-- `device: { revokedAt: null }` of an activation with this device
unfoldable pub device_live : List Device → ℕ → Bool
unfolding any
device_live devices id = any (λ d. d.id == id && is_none d.revoked_at) devices

-- activeActivationsForLicense
unfoldable pub is_active_slot : List Device → ℕ → Activation → Bool
is_active_slot devices license_id a =
    a.license_id == license_id && is_none a.revoked_at && device_live devices a.device_id

-- The where clause `licenseId_deviceId`.
abbrev pub is_pair : ℕ → ℕ → Activation → Bool
is_pair license_id device_id a = a.license_id == license_id && a.device_id == device_id

unfoldable pub active_count : Db → ℕ → ℕ
active_count db license_id = count (is_active_slot db.devices license_id) db.activations

abbrev pub at_least_one : ℤ → Option ℕ
at_least_one (pos zero) = none
at_least_one (pos (suc n)) = some (suc n)
at_least_one (negsuc n) = none

-- `Number.isFinite(parsed) && parsed >= 1`
abbrev pub parsed_limit : Option ℤ → Option ℕ
parsed_limit none = none
parsed_limit (some z) = at_least_one z

abbrev pub limit_or_throw : Option ℕ → Result ℕ
limit_or_throw none = err plan_misconfigured
limit_or_throw (some n) = ok n

-- `feature?.value ?? '1'`
abbrev pub value_or : String → Option Feature → String
value_or fallback none = fallback
value_or fallback (some f) = f.value

-- readMaxDevices
unfoldable pub read_max_devices : List Feature → Result ℕ
unfolding find parse_int
read_max_devices features = limit_or_throw (
    parsed_limit
      (parse_int (codes (value_or "1" (find (λ f. str_eq f.key "max_devices") features)))))

abbrev pub feature_limit : Option Feature → Option ℕ
feature_limit none = some 1
feature_limit (some f) = parsed_limit (parse_int (codes f.value))

-- readMaxDevicesFromFeatures with its fallback, 1
unfoldable pub read_max_devices_from_features : List Feature → Option ℕ
unfolding find parse_int
read_max_devices_from_features features =
    feature_limit (find (λ f. str_eq f.key "max_devices" || str_eq f.key "device_limit") features)

-- `license.expiresAt && license.expiresAt <= new Date()`
abbrev pub is_past : ℕ → Option ℕ → Bool
is_past now none = false
is_past now (some t) = leb t now

-- assertLicenseActivatable
unfoldable pub assert_license_activatable : ℕ → License → Result (Unit {0})
assert_license_activatable now license = do
  throw_if (is_license_revoked license.status || is_some license.revoked_at) license_revoked
  throw_if (is_license_expired license.status || is_past now license.expires_at) license_expired
