-- ===== src/Licenses/Replacement.antt =====
-- licenses/device-replacement.service.ts: a challenge for the holder of a license that is full, and
-- the replacement of one device by another.
pub mod Run
pub mod Slots
pub mod Rules
use ruznamo_backend.Common.{
  ℕ, ◌+◌, ◌-◌, ◌*◌, String, Bool, true, false, not, Option, none, some, List, [], ◌∷◌, ◌&&◌, ◌||◌,
  ltb, leb, ◌==◌, is_none, is_some, is_id, or_else, if◌then◌else◌, str_eq, find, any, insert,
  update_where, select, count, length, first, sort_by, Result, ok, err, ◌>>=◌, ◌>>◌, or_throw,
  throw_if, license_invalid, license_revoked, device_revoked, already_activated_on_device,
  replacement_not_required, no_active_device, replacement_cooldown, challenge_invalid,
  challenge_used, challenge_expired, license_not_found, not_license_holder,
  new_device_already_activated,
}
use ruznamo_backend.Db.{
  Db, License, Device, Activation, LicenseEvent, ReplacementChallenge, RevokeReason, ActorType,
  is_license_revoked, log,
}
use ruznamo_backend.Licenses.Slots.{
  is_pair, is_active_slot, active_count, device_live, read_max_devices_from_features,
}
use ruznamo_backend.Licenses.Activate.{
  MobileJwtPayload, set_active, new_activation, session_device, license_of_key,
}

-- REPLACEMENT_CHALLENGE_TTL_MS and REPLACEMENT_COOLDOWN_MS
abbrev pub challenge_ttl : ℕ
challenge_ttl = 15 * 60 * 1000

abbrev pub cooldown : ℕ
cooldown = 24 * 60 * 60 * 1000

-- `readMaxDevicesFromFeatures(…) ?? 1`
unfoldable pub slot_limit : License → ℕ
slot_limit l = or_else (read_max_devices_from_features l.plan.features) 1

abbrev pub counts_for_cooldown : String → Bool
counts_for_cooldown reason =
    str_eq reason "device_replacement_approved" || str_eq reason "holder_device_revoked"

-- assertReplacementCooldown. A date before 1970 + 24 h does not occur.
unfoldable pub assert_replacement_cooldown : Db → ℕ → ℕ → Result (Unit {0})
unfolding any
assert_replacement_cooldown db now license_id =
    throw_if
      (any
        (λ e.
          e.license_id == license_id
          && counts_for_cooldown e.reason
          && leb (now - cooldown) e.created_at)
        db.events)
      replacement_cooldown

abbrev older : Activation → Activation → Bool
older a b = ltb a.created_at b.created_at

-- `license.activations` of createChallenge, oldest first.
unfoldable pub active_activations : Db → ℕ → List Activation
unfolding select sort_by
active_activations db license_id =
    sort_by older (select (is_active_slot db.devices license_id) db.activations)

abbrev challenge :
    ℕ → ℕ → ℕ → License → Device → Activation → MobileJwtPayload → ReplacementChallenge
challenge now id token l d old user = record {
  id = id;
  token = token;
  license_id = l.id;
  new_device_id = d.id;
  old_device_id = old.device_id;
  mobile_user_id = user.sub;
  expires_at = now + challenge_ttl;
  consumed_at = none;
}

-- createChallenge. The row's `id` and the random `token` are given.
module _ (hash : List ℕ → ℕ) where
  unfoldable pub create_challenge :
      Db → ℕ → ℕ → ℕ → MobileJwtPayload → List ℕ → Result (ReplacementChallenge × Db)
  create_challenge db now id token user key = do
    l ← or_throw (license_of_key hash db key) license_invalid
    throw_if (is_license_revoked l.status || is_some l.revoked_at) license_revoked
    d ← or_throw (session_device db user) device_revoked
    let active = active_activations db l.id
    throw_if (any (λ a. a.device_id == d.id) active) already_activated_on_device
    throw_if (ltb (length active) (slot_limit l)) replacement_not_required
    old ← or_throw (first active) no_active_device
    assert_replacement_cooldown db now l.id
    let row = challenge now id token l d old user
    ok (row, record db { challenges = insert row db.challenges })

-- loadValidChallenge
unfoldable pub load_valid_challenge : Db → ℕ → ℕ → Result ReplacementChallenge
load_valid_challenge db now token = do
  c ← or_throw (find (λ c. c.token == token) db.challenges) challenge_invalid
  throw_if (is_some c.consumed_at) challenge_used
  throw_if (leb c.expires_at now) challenge_expired
  ok c

-- The row of a license by its id.
unfoldable pub license_of : Db → ℕ → Option License
unfolding find
license_of db id = find (λ l. l.id == id) db.licenses

abbrev pub revive : Activation → Activation
revive a = record a { revoked_at = none; revoke_reason = none }

abbrev pub retire : ℕ → Activation → Activation
retire now a = record a {
  revoked_at = some now;
  revoke_reason = some RevokeReason.device_replacement;
}

-- The new device gets a slot: its revoked activation is revived, or one is created.
unfoldable pub occupy : ℕ → ℕ → ℕ → List Activation → List Activation
unfolding find update_where
occupy now license_id device_id activations =
    elim (find (is_pair license_id device_id) activations) [
      | some a ↦ update_where (is_pair license_id device_id) revive activations
      | none ↦ insert (new_activation now license_id device_id) activations
    ]

-- The old device's slot is given up.
unfoldable pub vacate : ℕ → ℕ → ℕ → List Activation → List Activation
unfolding update_where
vacate now license_id device_id =
    update_where (λ a. is_pair license_id device_id a && is_none a.revoked_at) (retire now)

abbrev pub is_active_pair : Db → ℕ → ℕ → Bool
is_active_pair db license_id device_id = elim (find (is_pair license_id device_id) db.activations) [
  | none ↦ false
  | some a ↦ is_none a.revoked_at && device_live db.devices device_id
]

abbrev pub consume : ℕ → Option ℕ → List ReplacementChallenge → List ReplacementChallenge
consume now none cs = cs
consume now (some id) cs =
    update_where (λ c. c.id == id) (λ c. record c { consumed_at = some now }) cs

-- The activations after a replacement.
unfoldable pub replaced : Db → ℕ → License → ℕ → ℕ → List Activation
replaced db now l new_device_id old_device_id =
    if ltb (active_count db l.id) (slot_limit l)
    then occupy now l.id new_device_id db.activations
    else occupy now l.id new_device_id (vacate now l.id old_device_id db.activations)

-- executeReplacement: the checks in the tables `db`, the transaction on `met` and the audit entry.
unfoldable pub execute_replacement :
    Db → Db → ℕ → ℕ → ℕ → ℕ → ℕ → ActorType → ℕ → String → Option ℕ → Result Db
unfolding log
execute_replacement db met now license_id new_device_id old_device_id holder actor_type actor_id
      reason consumed =
    do
      l ← or_throw (license_of db license_id) license_not_found
      throw_if (not (is_id l.holder holder)) not_license_holder
      assert_replacement_cooldown db now l.id
      throw_if (is_active_pair met l.id new_device_id) new_device_already_activated
      ok (
          log actor_type actor_id "license.device.replacement_completed" l.id (
            set_active now l reason (record met {
              activations = replaced met now l new_device_id old_device_id;
              challenges = consume now consumed met.challenges;
            })))

-- confirmReplacement, which reads the challenge and the holder in `db`, too
unfoldable pub confirm_replacement : Db → Db → ℕ → ℕ → ℕ → Result Db
confirm_replacement db met now token holder = do
  c ← load_valid_challenge db now token
  l ← or_throw (license_of db c.license_id) license_not_found
  throw_if (not (is_id l.holder holder)) not_license_holder
  execute_replacement db met now c.license_id c.new_device_id c.old_device_id holder
      ActorType.telegram_bot holder "device_replacement_approved" (some c.id)
