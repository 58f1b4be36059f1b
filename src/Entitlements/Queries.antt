-- ===== src/Entitlements/Queries.antt =====
-- The queries that `getSnapshot` of entitlements/entitlement.service.ts runs, and its two tests for
-- an activation of a license on an installation.
use ruznamo_backend.Common.{
  ℕ, Bool, false, Option, none, some, List, ◌&&◌, ◌||◌, ltb, ◌==◌, is_none, is_some, is_id, any,
  select, find, sort_by,
}
use ruznamo_backend.Db.{Db, Device, License, is_license_active, is_license_pending}

-- `orderBy: { expiresAt: 'desc' }`, where PostgreSQL puts NULL first.
abbrev pub later_expiry : License → License → Bool
later_expiry l r = elim l.expires_at [
  | none ↦ is_some r.expires_at
  | some t ↦ elim r.expires_at [ none ↦ false | some u ↦ ltb u t ]
]

-- The query's `licenses` of a user.
unfoldable pub owned_licenses : Db → ℕ → List License
unfolding sort_by select
owned_licenses db user_id = sort_by later_expiry (
    select
      (λ l. is_id l.user_id user_id && (is_license_active l.status || is_license_pending l.status))
      db.licenses)

-- The query's `devices` of a user.
unfoldable pub live_devices : Db → ℕ → List Device
unfolding select
live_devices db user_id = select (λ d. d.user_id == user_id && is_none d.revoked_at) db.devices

-- The query of `currentDevice`: none without an installation id.
unfoldable pub current_device : Db → ℕ → Option ℕ → Option Device
unfolding find
current_device db user_id none = none
current_device db user_id (some i) =
    find (λ d. d.user_id == user_id && d.installation_id == i) db.devices

abbrev pub is_revoked_device : Option Device → Bool
is_revoked_device none = false
is_revoked_device (some d) = is_some d.revoked_at

abbrev pub is_live_device : Option Device → Bool
is_live_device none = false
is_live_device (some d) = is_none d.revoked_at

-- currentDeviceHasActiveLicenseActivation
unfoldable pub current_device_has_activation : Db → ℕ → ℕ → ℕ → Bool
unfolding any
current_device_has_activation db user_id installation_id license_id =
    any
      (λ a.
        a.license_id == license_id
        && is_none a.revoked_at
        && any
            (λ d.
              d.id == a.device_id
              && d.user_id == user_id
              && d.installation_id == installation_id
              && is_none d.revoked_at)
            db.devices)
      db.activations

-- deviceHasLicenseActivation, over the devices and activations of the query
unfoldable pub device_has_license_activation : Db → List Device → ℕ → ℕ → Bool
unfolding any
device_has_license_activation db devices installation_id license_id =
    any
      (λ d.
        d.installation_id == installation_id
        && is_none d.revoked_at
        && any (λ a. a.device_id == d.id && is_none a.revoked_at && a.license_id == license_id)
            db.activations)
      devices
