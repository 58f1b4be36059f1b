-- ===== src/Licenses/Activate.antt =====
-- `activate` of licenses/licenses.service.ts. The transaction reads the tables `db`; it creates the
-- activation in the tables `met`, and after a unique violation reads the row again in `seen`: both
-- are `db` unless another transaction commits in between.
pub mod Run
pub mod Slot
pub mod Repeat
pub mod Retry
pub mod Response
use ruznamo_backend.Common.{
  ℕ, String, Bool, true, false, Option, none, some, List, ◌&&◌, ◌||◌, leb, ◌==◌, is_none, is_some,
  or_else, if◌then◌else◌, find, insert, update_where, Result, ok, err, ◌>>=◌, ◌>>◌, or_throw,
  license_invalid, device_revoked, license_recovery_required, device_replacement_required,
  license_activation_limit,
}
use ruznamo_backend.Db.{
  Db, License, Device, Activation, LicenseEvent, LicenseStatus, ActorType, PlanCode, Action, settle,
  and_then, log,
}
use ruznamo_backend.Licenses.Key.{normalize_key}
use ruznamo_backend.Licenses.Slots.{
  is_pair, active_count, read_max_devices, assert_license_activatable,
}
use ruznamo_backend.Entitlements.Types.{EntitlementSnapshot}
use ruznamo_backend.Entitlements.Snapshot.{get_snapshot}

-- auth/mobile-jwt.payload.ts
pub record MobileJwtPayload : Type 0 where
  pub sub : ℕ
  pub device_id : ℕ
  pub installation_id : ℕ

pub record Activated : Type 0 where
  pub license : License
  pub device : Device
  pub idempotent : Bool

-- The data of `license.update`, from the row that was read.
abbrev pub mark_active : ℕ → License → License → License
mark_active now read l = record l {
  status = LicenseStatus.active;
  activated_at = some (or_else read.activated_at now);
  starts_at = some (or_else read.starts_at now);
}

abbrev pub activation_event : ℕ → License → String → LicenseEvent
activation_event now license reason = record {
  license_id = license.id;
  from_status = license.status;
  to_status = LicenseStatus.active;
  reason = reason;
  created_at = now;
}

abbrev pub new_activation : ℕ → ℕ → ℕ → Activation
new_activation now license_id device_id = record {
  license_id = license_id;
  device_id = device_id;
  created_at = now;
  revoked_at = none;
  revoke_reason = none;
}

-- `license.update` and `licenseEvent.create`
unfoldable pub set_active : ℕ → License → String → Db → Db
unfolding update_where
set_active now license reason db = record db {
  licenses = update_where (λ l. l.id == license.id) (mark_active now license) db.licenses;
  events = insert (activation_event now license reason) db.events;
}

abbrev done : License → Device → Bool → Db → Result (Activated × Db)
done license device idempotent db =
    ok (record { license = license; device = device; idempotent = idempotent }, db)

-- The catch of a unique violation.
unfoldable pub after_violation : Db → License → Device → Result (Activated × Db)
unfolding find
after_violation seen license device = elim (find (is_pair license.id device.id) seen.activations) [
  | none ↦ err license_activation_limit
  | some a ↦
      if is_some a.revoked_at then err license_recovery_required else done license device true seen
]

-- `licenseActivation.create` and what follows
unfoldable pub create_activation : Db → Db → ℕ → License → Device → Result (Activated × Db)
unfolding find
create_activation met seen now license device =
    elim (find (is_pair license.id device.id) met.activations) [
      | some a ↦ after_violation seen license device
      | none ↦ done license device false (
          set_active now license "mobile_activation" (record met {
            activations = insert (new_activation now license.id device.id) met.activations;
          }))
    ]

-- From the lookup of an existing activation on.
unfoldable pub claim_slot : Db → Db → Db → ℕ → License → Device → ℕ → Result (Activated × Db)
unfolding find
claim_slot db met seen now license device max_devices =
    elim (find (is_pair license.id device.id) db.activations) [
      | some a ↦
          if is_some a.revoked_at
          then err license_recovery_required
          else done license device true db
      | none ↦
          if leb max_devices (active_count db license.id)
          then err device_replacement_required
          else create_activation met seen now license device
    ]

-- The row of the session's device, if it is not revoked.
unfoldable pub session_device : Db → MobileJwtPayload → Option Device
unfolding find
session_device db user =
    find (λ d. d.id == user.device_id && d.user_id == user.sub && is_none d.revoked_at) db.devices

-- The answer of `activate`.
pub record ActivateResponse : Type 0 where
  pub license_id : ℕ
  pub status : LicenseStatus
  pub plan_code : PlanCode
  pub starts_at : Option ℕ
  pub expires_at : Option ℕ
  pub activated_at : Option ℕ
  pub entitlements : EntitlementSnapshot

abbrev pub respond : License → EntitlementSnapshot → ActivateResponse
respond l snapshot = record {
  license_id = l.id;
  status = LicenseStatus.active;
  plan_code = l.plan.code;
  starts_at = l.starts_at;
  expires_at = l.expires_at;
  activated_at = l.activated_at;
  entitlements = snapshot;
}

-- What follows the transaction: the audit entry and the answer.
unfoldable pub finish : ℕ → MobileJwtPayload → Activated → Action ActivateResponse
finish now user r db =
    let logged =
      log ActorType.user user.sub
        (if r.idempotent then "license.activation.idempotent" else "license.activated") r.license.id
        db in
    (
      (do
        snapshot ← get_snapshot logged now user.sub (some user.installation_id)
        ok (respond r.license snapshot)),
      logged,
    )

-- createHmac('sha256', pepper) of node's crypto is the parameter `hash`.
module _ (hash : List ℕ → ℕ) where
  unfoldable pub license_of_key : Db → List ℕ → Option License
  license_of_key db key = find (λ l. l.key_hash == hash (normalize_key key)) db.licenses

  -- The transaction.
  unfoldable pub activate_tx :
      Db → Db → Db → ℕ → MobileJwtPayload → List ℕ → Result (Activated × Db)
  activate_tx db met seen now user key = do
    license ← or_throw (license_of_key db key) license_invalid
    assert_license_activatable now license
    device ← or_throw (session_device db user) device_revoked
    max_devices ← read_max_devices license.plan.features
    claim_slot db met seen now license device max_devices

  -- The method.
  unfoldable pub activate :
      Db → Db → Db → ℕ → MobileJwtPayload → List ℕ → Result ActivateResponse × Db
  activate db met seen now user key =
      and_then (settle db (activate_tx db met seen now user key)) (finish now user)
