-- ===== src/Devices/Registration.antt =====
-- registerDevice of auth/auth.service.ts, and `register` of devices/devices.service.ts. Ids and the raw
-- token are given. Of a device's columns the date it was last seen is kept; a trial is named by its user.
pub mod Trial
use ruznamo_backend.Common.{
  ℕ, zero, suc, ◌+◌, ◌*◌, String, Bool, true, false, not, Option, none, some, List, ◌==◌, is_some,
  if◌then◌else◌, codes, same_text, str_eq, parse_int, or_else, ℤ, pos, negsuc, find, any, insert,
  update_where, Result, ok, err, ◌>>=◌, ◌>>◌, or_throw, throw_if, maintenance_mode, device_revoked,
  user_not_found, user_suspended, user_deleted, unique_violation, installation_in_use,
}
use ruznamo_backend.Db.{
  Db, User, Device, TrialGrant, UserStatus, UserCategory, TrialStatus, ActorType, log,
}
use ruznamo_backend.Entitlements.Snapshot.{user_of, trial_of, assert_device_registration_allowed}
use ruznamo_backend.Licenses.Activate.{MobileJwtPayload}
use ruznamo_backend.Sessions.{issue_token_pair, seen_at}
use ruznamo_backend.Devices.Category.{
  RegisterDeviceDto, resolve_user_category, given_name, patch_profile,
}

-- systemConfig.findUnique
unfoldable pub config_of : Db → String → Option (List ℕ)
unfolding find
config_of db key = elim (find (λ c. str_eq c.key key) db.configs) [
  | none ↦ none
  | some c ↦ some c.value
]

unfoldable pub in_maintenance : Db → Bool
unfolding same_text
in_maintenance db = elim (config_of db "MAINTENANCE_MODE") [
  | none ↦ false
  | some value ↦ same_text value (codes "true")
]

-- `Number.isFinite(parsed) && parsed > 0 ? parsed : 24`
abbrev positive_or_day : Option ℤ → ℕ
positive_or_day none = 24
positive_or_day (some (pos zero)) = 24
positive_or_day (some (pos (suc n))) = suc n
positive_or_day (some (negsuc n)) = 24

-- getTrialDurationHours
unfoldable pub trial_duration_hours : Db → ℕ
unfolding parse_int
trial_duration_hours db =
    positive_or_day (parse_int (or_else (config_of db "TRIAL_DURATION_HOURS") (codes "24")))

unfoldable pub installation_of : Db → ℕ → Option Device
unfolding find
installation_of db id = find (λ d. d.installation_id == id) db.devices

abbrev pub check_usable : UserStatus → Result (Unit {0})
check_usable UserStatus.active = ok tt
check_usable UserStatus.suspended = err user_suspended
check_usable UserStatus.deleted = err user_deleted

-- The profile of the user and the device's date.
unfoldable pub note_return : ℕ → RegisterDeviceDto → ℕ → ℕ → Db → Db
unfolding update_where
note_return now dto user_id device_id db = record db {
  users = update_where (λ u. u.id == user_id) (patch_profile dto) db.users;
  devices = update_where (λ d. d.id == device_id) (seen_at now) db.devices;
}

-- The ids and the token that a call draws.
pub record Drawn : Type 0 where
  pub user_id : ℕ
  pub device_id : ℕ
  pub token_id : ℕ
  pub raw : ℕ

-- The answer of registerDevice, with the rows that it formats.
pub record Registered : Type 0 where
  pub token : ℕ
  pub user : User
  pub device : Device
  pub trial : Option TrialGrant

abbrev pub new_user : RegisterDeviceDto → ℕ → User
new_user dto id = record {
  id = id;
  category = or_else (resolve_user_category dto.category dto.role_id) UserCategory.personal;
  status = UserStatus.active;
  display_name = given_name dto;
}

abbrev pub new_device : ℕ → ℕ → ℕ → ℕ → Device
new_device now id user_id installation_id = record {
  id = id;
  user_id = user_id;
  installation_id = installation_id;
  last_seen_at = now;
  revoked_at = none;
}

abbrev pub new_trial : ℕ → ℕ → ℕ → ℕ → TrialGrant
new_trial now hours user_id installation_id = record {
  user_id = user_id;
  installation_id = installation_id;
  status = TrialStatus.active;
  started_at = now;
  expires_at = now + hours * 3600 * 1000;
}

-- The transaction of a new installation, with the unique index on a trial's installation.
unfoldable pub create_account : Db → ℕ → RegisterDeviceDto → Drawn → Result Db
unfolding any
create_account db now dto drawn = do
  throw_if (any (λ t. t.installation_id == dto.installation_id) db.trials) unique_violation
  ok (record db {
    users = insert (new_user dto drawn.user_id) db.users;
    devices = insert (new_device now drawn.device_id drawn.user_id dto.installation_id) db.devices;
    trials =
        insert (new_trial now (trial_duration_hours db) drawn.user_id dto.installation_id)
          db.trials;
  })

module _ (hash : ℕ → ℕ) where
  -- The branch of a known installation.
  unfoldable pub register_known :
      Db → ℕ → List ℕ → RegisterDeviceDto → Drawn → Device → Result (Registered × Db)
  register_known db now lifetime dto drawn existing = do
    throw_if (is_some existing.revoked_at) device_revoked
    owner ← or_throw (user_of db existing.user_id) user_not_found
    check_usable owner.status
    let noted = note_return now dto existing.user_id existing.id db
    user ← or_throw (user_of noted existing.user_id) user_not_found
    ok (
      record {
        token = drawn.raw;
        user = user;
        device = seen_at now existing;
        trial = trial_of noted existing.user_id;
      },
      log ActorType.user existing.user_id "mobile.login" existing.id (
          issue_token_pair noted now drawn.token_id existing.user_id existing.id (hash drawn.raw)
            lifetime none),
    )

  -- The branch of a new installation.
  unfoldable pub register_new :
      Db → ℕ → List ℕ → RegisterDeviceDto → Drawn → Result (Registered × Db)
  register_new db now lifetime dto drawn = do
    made ← create_account db now dto drawn
    ok (
      record {
        token = drawn.raw;
        user = new_user dto drawn.user_id;
        device = new_device now drawn.device_id drawn.user_id dto.installation_id;
        trial = some (new_trial now (trial_duration_hours db) drawn.user_id dto.installation_id);
      },
      log ActorType.system drawn.user_id "trial.granted" drawn.user_id (
          log ActorType.user drawn.user_id "device.registered" drawn.device_id (
            log ActorType.user drawn.user_id "user.registered" drawn.user_id (
              issue_token_pair made now drawn.token_id drawn.user_id drawn.device_id
                (hash drawn.raw) lifetime none))),
    )

  -- registerDevice
  unfoldable pub register_device :
      Db → ℕ → List ℕ → RegisterDeviceDto → Drawn → Result (Registered × Db)
  register_device db now lifetime dto drawn = do
    throw_if (in_maintenance db) maintenance_mode
    elim (installation_of db dto.installation_id) [
      | some existing ↦ register_known db now lifetime dto drawn existing
      | none ↦ register_new db now lifetime dto drawn
    ]

-- The branch of `register` that creates the device.
unfoldable pub add_device : Db → ℕ → MobileJwtPayload → RegisterDeviceDto → ℕ → Result (Device × Db)
unfolding update_where
add_device db now user dto id = do
  assert_device_registration_allowed db now user.sub
  let row = new_device now id user.sub dto.installation_id
  ok (
    row,
    log ActorType.user user.sub "device.registered" id (record db {
      users = update_where (λ u. u.id == user.sub) (patch_profile dto) db.users;
      devices = insert row db.devices;
    }),
  )

-- `register` of devices.service.ts
unfoldable pub register : Db → ℕ → MobileJwtPayload → RegisterDeviceDto → ℕ → Result (Device × Db)
register db now user dto id = elim (installation_of db dto.installation_id) [
  | none ↦ add_device db now user dto id
  | some existing ↦ do
    throw_if (not (existing.user_id == user.sub)) installation_in_use
    throw_if (is_some existing.revoked_at) device_revoked
    ok (seen_at now existing, note_return now dto user.sub existing.id db)
]
