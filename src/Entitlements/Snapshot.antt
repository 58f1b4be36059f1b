-- ===== src/Entitlements/Snapshot.antt =====
-- `getSnapshot`, `buildSnapshot` and `assertDeviceRegistrationAllowed` of
-- entitlements/entitlement.service.ts. The clock is read once, as `now`.
pub mod Access
use ruznamo_backend.Common.{
  ℕ, Bool, true, false, not, Option, none, some, List, [], ◌∷◌, ◌&&◌, ◌||◌, ltb, leb, ◌==◌, is_none,
  is_some, is_id, any, select, if◌then◌else◌, find, length, Result, ok, err, ◌>>=◌, throw_if,
  user_not_found, device_limit_reached, ℤ, pos, negsuc, count,
}
use ruznamo_backend.Db.{
  Db, User, Device, License, TrialGrant, UserStatus, PlanCode, TrialStatus, is_trial_active,
}
use ruznamo_backend.Licenses.Slots.{active_count}
use ruznamo_backend.Entitlements.Features.{Features, default_features, parse_plan_features}
use ruznamo_backend.Entitlements.Types.{
  EffectiveStatus, AccessSource, TrialView, LicenseView, DeviceUsage, EntitlementSnapshot,
}
use ruznamo_backend.Entitlements.Pick.{
  collect_activated_licenses, merge_license_candidates, pick_best_active_license,
}
use ruznamo_backend.Entitlements.Queries.{
  owned_licenses, live_devices, current_device, is_revoked_device, is_live_device,
  current_device_has_activation, device_has_license_activation,
}

abbrev trial_view : ℕ → TrialGrant → TrialView
trial_view now t = record {
  status =
      if leb t.expires_at now && is_trial_active t.status then TrialStatus.expired else t.status;
  expires_at = t.expires_at;
  started_at = t.started_at;
}

abbrev pub license_view : License → LicenseView
license_view l = record {
  id = l.id;
  status = l.status;
  key_prefix = l.key_prefix;
  starts_at = l.starts_at;
  expires_at = l.expires_at;
}

abbrev pub map_option : {A B : Type 0} → (A → B) → Option A → Option B
map_option f none = none
map_option f (some a) = some (f a)

abbrev is_license_source : AccessSource → Bool
is_license_source AccessSource.license = true
is_license_source _ = false

abbrev is_trial_source : AccessSource → Bool
is_trial_source AccessSource.trial = true
is_trial_source _ = false

-- The installation is one of the user's live devices.
unfoldable pub installation_active : List Device → Option ℕ → Bool → Bool
unfolding any
installation_active devices none current_revoked = false
installation_active devices (some i) current_revoked =
    not current_revoked && any (λ d. d.installation_id == i && is_none d.revoked_at) devices

unfoldable pub installation_usable :
    Db → List Device → Option License → AccessSource → Option ℕ → Bool → Bool
unfolding installation_active device_has_license_activation
installation_usable db devices (some l) AccessSource.license (some i) current_revoked =
    installation_active devices (some i) current_revoked
    && device_has_license_activation db devices i l.id
installation_usable db devices _ _ installation current_revoked =
    installation_active devices installation current_revoked

-- buildSnapshot
unfoldable pub build_snapshot :
    Db
    → ℕ
    → List Device
    → Option License
    → Option TrialGrant
    → EffectiveStatus
    → AccessSource
    → Bool
    → Option ℕ
    → ℕ
    → Bool
    → EntitlementSnapshot
build_snapshot db now devices license trial status source access installation activations revoked =
    let features : Features = elim license [
      | none ↦ default_features
      | some l ↦ parse_plan_features l.plan.features
    ] in
    record {
      access = access;
      source = source;
      effective_status = status;
      plan = elim license [
        | none ↦ if access && is_trial_source source then some PlanCode.standard else none
        | some l ↦ some l.plan.code
      ];
      trial = map_option (trial_view now) trial;
      license = map_option license_view license;
      devices = record {
        active_count =
            if is_license_source source && is_some license
            then activations
            else count (λ d. is_none d.revoked_at) devices;
        max = features.max_devices;
        current_installation_active =
            installation_usable db devices license source installation revoked;
      };
      features = features;
      evaluated_at = now;
    }

abbrev trial_active : ℕ → Option TrialGrant → Bool
trial_active now none = false
trial_active now (some t) = is_trial_active t.status && ltb now t.expires_at

abbrev trial_past : ℕ → Option TrialGrant → Bool
trial_past now none = false
trial_past now (some t) = leb t.expires_at now

-- The candidates of an active user.
unfoldable pub candidates : Db → ℕ → List License
candidates db user_id =
    merge_license_candidates (owned_licenses db user_id)
      (collect_activated_licenses db.licenses db.activations (live_devices db user_id) [])

-- `installationId && await currentDeviceHasActiveLicenseActivation(…)`
unfoldable pub entitled_on : Db → ℕ → Option ℕ → ℕ → Bool
unfolding current_device_has_activation
entitled_on db user_id none license_id = false
entitled_on db user_id (some i) license_id = current_device_has_activation db user_id i license_id

-- `user.trialGrant`
unfoldable pub trial_of : Db → ℕ → Option TrialGrant
unfolding find
trial_of db user_id = find (λ t. t.user_id == user_id) db.trials

-- The branches of getSnapshot for a user that is neither suspended nor deleted.
unfoldable pub active_user_snapshot : Db → ℕ → ℕ → Option ℕ → Option License → EntitlementSnapshot
active_user_snapshot db now user_id installation (some l) =
    let current = current_device db user_id installation in
    build_snapshot db now (live_devices db user_id) (some l) none EffectiveStatus.active
      AccessSource.license
      (not (is_revoked_device current) && entitled_on db user_id installation l.id) installation
      (active_count db l.id) (is_revoked_device current)
active_user_snapshot db now user_id installation none =
    let current = current_device db user_id installation in
    let trial = trial_of db user_id in
    if trial_active now trial
    then build_snapshot db now (live_devices db user_id) none trial EffectiveStatus.trial
        AccessSource.trial
        (not (is_revoked_device current) && (is_none installation || is_live_device current))
        installation 0 (is_revoked_device current)
    else build_snapshot db now (live_devices db user_id) none trial
        (if trial_past now trial then EffectiveStatus.expired else EffectiveStatus.none_at_all)
        AccessSource.no_source false installation 0 (is_revoked_device current)

abbrev refused_snapshot : Db → ℕ → ℕ → Option ℕ → EffectiveStatus → EntitlementSnapshot
refused_snapshot db now user_id installation status =
    build_snapshot db now (live_devices db user_id) none none status AccessSource.no_source false
      installation 0 (is_revoked_device (current_device db user_id installation))

unfoldable pub snapshot_for : Db → ℕ → Option ℕ → User → EntitlementSnapshot
snapshot_for db now installation user = elim user.status [
  | UserStatus.suspended ↦ refused_snapshot db now user.id installation EffectiveStatus.suspended
  | UserStatus.deleted ↦ refused_snapshot db now user.id installation EffectiveStatus.none_at_all
  | UserStatus.active ↦
      active_user_snapshot db now user.id installation
        (pick_best_active_license now (candidates db user.id))
]

-- The user's row.
unfoldable pub user_of : Db → ℕ → Option User
unfolding find
user_of db user_id = find (λ u. u.id == user_id) db.users

-- getSnapshot
unfoldable pub get_snapshot : Db → ℕ → ℕ → Option ℕ → Result EntitlementSnapshot
get_snapshot db now user_id installation = elim (user_of db user_id) [
  | none ↦ err user_not_found
  | some user ↦ ok (snapshot_for db now installation user)
]

-- `count >= max`, false where `max` is NaN
abbrev at_limit : ℕ → Option ℤ → Bool
at_limit n none = false
at_limit n (some (pos m)) = leb m n
at_limit n (some (negsuc m)) = true

-- assertDeviceRegistrationAllowed
unfoldable pub assert_device_registration_allowed : Db → ℕ → ℕ → Result (Unit {0})
assert_device_registration_allowed db now user_id = do
  snapshot ← get_snapshot db now user_id none
  throw_if (at_limit (length (live_devices db user_id)) snapshot.devices.max) device_limit_reached
