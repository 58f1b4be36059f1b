-- ===== src/Licenses/Recovery.antt =====
-- licenses/license-recovery.service.ts: a user who proved to hold a license's Telegram account activates
-- it, or replaces a device; `assertValidGrant` is of auth/telegram-auth.service.ts.
pub mod Authority
pub mod Limit
use ruznamo_backend.Common.{
  ℕ, Bool, true, false, not, none, some, ◌&&◌, leb, ◌==◌, is_some, is_id, if◌then◌else◌, find,
  Result, ok, err, ◌>>=◌, ◌>>◌, or_throw, throw_if, recovery_grant_invalid,
  recovery_grant_device_mismatch, recovery_grant_used, recovery_grant_expired, license_not_found,
  not_license_holder, device_revoked, device_replacement_required,
}
use ruznamo_backend.Db.{Db, License, RecoveryGrant, ActorType, Action, settle, and_then, log}
use ruznamo_backend.Entitlements.Snapshot.{get_snapshot}
use ruznamo_backend.Licenses.Slots.{active_count, assert_license_activatable}
use ruznamo_backend.Licenses.Activate.{
  MobileJwtPayload, Activated, ActivateResponse, respond, set_active, session_device,
}
use ruznamo_backend.Licenses.Replacement.{
  license_of, slot_limit, is_active_pair, occupy, execute_replacement,
}

-- assertValidGrant
unfoldable pub assert_valid_grant : Db → ℕ → ℕ → MobileJwtPayload → Result RecoveryGrant
unfolding find
assert_valid_grant db now grant_id user = do
  g ← or_throw (find (λ g. g.id == grant_id) db.grants) recovery_grant_invalid
  throw_if (not (g.mobile_user_id == user.sub && g.device_id == user.device_id))
      recovery_grant_device_mismatch
  throw_if (is_some g.consumed_at) recovery_grant_used
  throw_if (leb g.expires_at now) recovery_grant_expired
  ok g

-- assertLicenseHeldByGrant
unfoldable pub assert_license_held_by_grant : Db → RecoveryGrant → ℕ → Result (Unit {0})
assert_license_held_by_grant db g license_id = do
  l ← or_throw (license_of db license_id) license_not_found
  throw_if (not (is_id l.holder g.telegram_account_id)) not_license_holder

-- From the lookup of an existing activation on. A full license ends the transaction with nothing
-- written, and the exception follows it.
unfoldable pub claim_via_telegram : Db → ℕ → License → ℕ → Result (Bool × Db)
claim_via_telegram db now l device_id =
    if is_active_pair db l.id device_id
    then ok (true, db)
    else if leb (slot_limit l) (active_count db l.id)
    then err device_replacement_required
    else ok (
      false,
      set_active now l "telegram_auth_activation"
          (record db { activations = occupy now l.id device_id db.activations }),
    )

-- The checks and the transaction of activateViaTelegram.
unfoldable pub activate_via_telegram_tx :
    Db → ℕ → ℕ → ℕ → MobileJwtPayload → Result (Activated × Db)
activate_via_telegram_tx db now grant_id license_id user = do
  g ← assert_valid_grant db now grant_id user
  assert_license_held_by_grant db g license_id
  license ← or_throw (license_of db license_id) license_not_found
  assert_license_activatable now license
  device ← or_throw (session_device db user) device_revoked
  (idempotent, db') ← claim_via_telegram db now license device.id
  ok (record { license = license; device = device; idempotent = idempotent }, db')

abbrev finish_via_telegram : ℕ → MobileJwtPayload → Activated → Action ActivateResponse
finish_via_telegram now user r db =
    let logged =
      log ActorType.user user.sub
        (if r.idempotent
          then "license.telegram_activation.idempotent"
          else "license.telegram_activation.completed")
        r.license.id db in
    (
      (do
        snapshot ← get_snapshot logged now user.sub (some user.installation_id)
        ok (respond r.license snapshot)),
      logged,
    )

-- activateViaTelegram
unfoldable pub activate_via_telegram :
    Db → ℕ → ℕ → ℕ → MobileJwtPayload → Result ActivateResponse × Db
activate_via_telegram db now grant_id license_id user =
    and_then (settle db (activate_via_telegram_tx db now grant_id license_id user))
      (finish_via_telegram now user)

-- The checks, the replacement and the audit entry of replaceDeviceViaGrant.
unfoldable pub replace_device_via_grant : Db → ℕ → ℕ → ℕ → ℕ → MobileJwtPayload → Result Db
replace_device_via_grant db now grant_id license_id old_device_id user = do
  g ← assert_valid_grant db now grant_id user
  assert_license_held_by_grant db g license_id
  after ←
      execute_replacement db db now license_id user.device_id old_device_id g.telegram_account_id
        ActorType.user user.sub "telegram_grant_device_replacement" none
  ok (log ActorType.user user.sub "license.device.replacement_via_telegram_grant" license_id after)
