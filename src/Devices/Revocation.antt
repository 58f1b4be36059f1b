-- ===== src/Devices/Revocation.antt =====
-- `revoke` of devices/devices.service.ts, which clears a device's slots and sessions, and
-- devices/revoke-device-installation.ts, which blocks the installation.
pub mod Clear
use ruznamo_backend.Common.{
  ℕ, Bool, Option, none, some, ◌&&◌, ◌==◌, is_none, is_some, is_id, if◌then◌else◌, find,
  update_where, Result, ok, ◌>>=◌, or_throw, device_not_found,
}
use ruznamo_backend.Db.{Db, Device, Activation, RefreshToken, ActorType, log}
use ruznamo_backend.Licenses.Activate.{MobileJwtPayload}

abbrev pub end_activation : ℕ → Activation → Activation
end_activation now a = record a { revoked_at = some now }

abbrev pub end_token : ℕ → RefreshToken → RefreshToken
end_token now t = record t { revoked_at = some now }

-- `refreshToken.updateMany` of a device
unfoldable pub end_sessions : ℕ → ℕ → Db → Db
unfolding update_where
end_sessions now device_id db = record db {
  tokens =
      update_where (λ t. is_id t.device_id device_id && is_none t.revoked_at) (end_token now)
        db.tokens;
}

-- The transaction of `revoke`.
unfoldable pub clear_device : ℕ → ℕ → Db → Db
unfolding update_where
clear_device now device_id db = end_sessions now device_id (record db {
  activations =
      update_where (λ a. a.device_id == device_id && is_none a.revoked_at) (end_activation now)
        db.activations;
})

-- revoke
unfoldable pub revoke_device : Db → ℕ → MobileJwtPayload → ℕ → Result (Device × Db)
revoke_device db now user device_id = do
  d ← or_throw (find (λ d. d.id == device_id && d.user_id == user.sub) db.devices) device_not_found
  ok (
    d,
    (if is_some d.revoked_at
        then db
        else log ActorType.user user.sub "device.slots_cleared" d.id (clear_device now d.id db)),
  )

-- revokeDeviceInstallation
unfoldable pub revoke_device_installation : ℕ → ℕ → Db → Db
unfolding update_where
revoke_device_installation device_id now db = end_sessions now device_id (record db {
  devices =
      update_where (λ d. d.id == device_id) (λ d. record d { revoked_at = some now }) db.devices;
})
