-- ===== src/Tests/Activating.antt =====
-- The activation of a license on its first device.
use ruznamo_backend.Common.{some, Result, arith, false, ◌≢◌, ◌≡◌, ◌≤◌, ◌+◌, refl, true, none, ok}
use ruznamo_backend.Db.{log, ActorType, PlanCode, LicenseStatus, License, Db}
use ruznamo_backend.Licenses.Slots.{assert_license_activatable, read_max_devices, active_count}
use ruznamo_backend.Licenses.Activate.{
  license_of_key, ActivateResponse, activate, Activated, activate_tx,
}
use ruznamo_backend.Licenses.Activate.Slot.{activate-slots}
use ruznamo_backend.Licenses.Activate.Response.{activate-stale_dates}
use ruznamo_backend.Licenses.Activate.Retry.{activate-retry}
use ruznamo_backend.Tests.Shop.{shop, session, key, weigh, value, fresh_license, runs, owner}
use ruznamo_backend.Entitlements.Snapshot.{snapshot_for}

abbrev activated : Activated × Db
activated =
    value
      (
        record {
          license = fresh_license;
          device = record {
            id = 0;
            user_id = 0;
            installation_id = 0;
            last_seen_at = 0;
            revoked_at = none;
          };
          idempotent = true;
        },
        shop,
      )
      (activate_tx weigh shop shop shop 1000 session key)

run : activate_tx weigh shop shop shop 1000 session key ≡ ok (activated.0, activated.1)
unfolding runs
run = refl

new : activated.0.idempotent ≡ false
unfolding runs
new = refl

the_license : activated.0.license ≡ fresh_license
unfolding runs
the_license = refl

limit : read_max_devices activated.0.license.plan.features ≡ ok 2
unfolding runs
limit = refl

other_license : activated.0.license.id ≢ 32
unfolding runs
other_license e = omega arith

activate-slots_example :
    (active_count activated.1 activated.0.license.id ≡ active_count shop activated.0.license.id + 1)
    × (active_count activated.1 activated.0.license.id ≤ 2)
    × (active_count activated.1 32 ≡ active_count shop 32)
activate-slots_example =
    activate-slots weigh shop shop shop 1000 session key activated.0 activated.1 2 32 refl refl run
      new limit other_license

abbrev unanswered : ActivateResponse
unanswered = record {
  license_id = 0;
  status = LicenseStatus.pending;
  plan_code = PlanCode.pro;
  starts_at = some 0;
  expires_at = none;
  activated_at = some 0;
  entitlements = snapshot_for shop 0 none owner;
}

abbrev answered : Result ActivateResponse × Db
answered = activate weigh shop shop shop 1000 session key

abbrev response : ActivateResponse
response = value unanswered answered.0

answered_ok : activate weigh shop shop shop 1000 session key ≡ (ok response, answered.1)
unfolding runs
answered_ok = refl

no_start : activated.0.license.starts_at ≡ none
unfolding runs
no_start = refl

no_activation_date : activated.0.license.activated_at ≡ none
unfolding runs
no_activation_date = refl

activate-stale_dates_example :
    (response.starts_at ≡ none)
    × (response.activated_at ≡ none)
    × ((stored : License) × (license_of_key weigh answered.1 key ≡ some stored)
        × (stored.starts_at ≡ some 1000)
        × (stored.activated_at ≡ some 1000))
activate-stale_dates_example =
    activate-stale_dates weigh shop 1000 session key activated.0 activated.1 response answered.1 run
      new no_start no_activation_date answered_ok

abbrev stored : License
stored = record fresh_license {
  status = LicenseStatus.active;
  activated_at = some 1000;
  starts_at = some 1000;
}

stored_found : license_of_key weigh answered.1 key ≡ some stored
unfolding runs
stored_found = refl

activatable : assert_license_activatable 2000 stored ≡ ok tt
unfolding runs
activatable = refl

activate-retry_example :
    (again : ActivateResponse) × (activate weigh answered.1 answered.1 answered.1 2000 session key
      ≡ (
        ok again,
        log ActorType.user session.sub "license.activation.idempotent" response.license_id
            answered.1,
      ))
    × (again.license_id ≡ response.license_id)
    × (again.starts_at ≡ some 1000)
    × (again.activated_at ≡ some 1000)
activate-retry_example =
    activate-retry weigh shop 1000 2000 session key response answered.1 stored answered_ok
      stored_found activatable
