-- ===== src/Telegram/Links.antt =====
-- licenses/telegram-license-link.service.ts. Ids and the random token of a challenge are given. An
-- activation is named by its license and device, in the audit log by its license.
pub mod Run
pub mod Holder
pub mod Once
pub mod Disconnect
use ruznamo_backend.Common.{
  ℕ, ◌+◌, ◌-◌, String, Bool, true, false, not, Option, none, some, List, ◌&&◌, ◌||◌, ◌==◌, leb,
  is_none, is_some, is_id, if◌then◌else◌, find, any, insert, update_where, Result, ok, ◌>>=◌, ◌>>◌,
  or_throw, throw_if, license_revoked, license_expired, license_not_found, not_license_holder,
  license_not_active_on_device, device_activation_missing, telegram_identity_mismatch,
  license_holder_conflict, telegram_purchase_owner_required, device_not_active_on_license,
  link_challenge_invalid, link_challenge_used, link_challenge_expired,
}
use ruznamo_backend.Db.{
  Db, License, Device, Activation, LicenseEvent, LinkChallenge, TelegramAccount, RevokeReason,
  ActorType, is_license_revoked, is_telegram_payment, is_admin_manual, log,
}
use ruznamo_backend.Licenses.Slots.{is_pair, is_active_slot, active_count, device_live, is_past}
use ruznamo_backend.Licenses.Activate.{MobileJwtPayload}
use ruznamo_backend.Licenses.Replacement.{license_of, slot_limit}

-- LINK_CHALLENGE_TTL_MS
abbrev pub link_challenge_ttl : ℕ
link_challenge_ttl = 900000

-- assertLicenseLinkable
unfoldable pub assert_license_linkable : ℕ → License → Result (Unit {0})
assert_license_linkable now l = do
  throw_if (is_license_revoked l.status || is_some l.revoked_at) license_revoked
  throw_if (is_past now l.expires_at) license_expired

-- `device: { userId, revokedAt: null }` of an activation
unfoldable pub device_of_user : List Device → ℕ → ℕ → Bool
unfolding any
device_of_user devices id user_id =
    any (λ d. d.id == id && d.user_id == user_id && is_none d.revoked_at) devices

-- The session's own activation of a license.
unfoldable pub session_activation : Db → MobileJwtPayload → ℕ → Option Activation
unfolding find
session_activation db user license_id =
    find
      (λ a.
        is_pair license_id user.device_id a
        && is_none a.revoked_at
        && device_of_user db.devices a.device_id user.sub)
      db.activations

abbrev link_challenge : ℕ → ℕ → ℕ → MobileJwtPayload → ℕ → LinkChallenge
link_challenge now id token user license_id = record {
  id = id;
  token = token;
  license_id = license_id;
  device_id = user.device_id;
  mobile_user_id = user.sub;
  expires_at = now + link_challenge_ttl;
  consumed_at = none;
}

-- createChallenge
unfoldable pub create_link_challenge :
    Db → ℕ → ℕ → ℕ → MobileJwtPayload → ℕ → Result (LinkChallenge × Db)
create_link_challenge db now id token user license_id = do
  a ← or_throw (session_activation db user license_id) license_not_active_on_device
  l ← or_throw (license_of db license_id) license_not_active_on_device
  assert_license_linkable now l
  let row = link_challenge now id token user license_id
  ok (
    row,
    log ActorType.user user.sub "license.telegram_link.challenge_created" license_id
        (record db { link_challenges = insert row db.link_challenges }),
  )

-- loadValidChallenge
unfoldable pub load_link_challenge : Db → ℕ → ℕ → Result LinkChallenge
load_link_challenge db now token = do
  c ← or_throw (find (λ c. c.token == token) db.link_challenges) link_challenge_invalid
  throw_if (is_some c.consumed_at) link_challenge_used
  throw_if (leb c.expires_at now) link_challenge_expired
  ok c

-- consumeChallenge
unfoldable pub consume_link_challenge : ℕ → ℕ → Db → Db
unfolding update_where
consume_link_challenge now id db = record db {
  link_challenges =
      update_where (λ c. c.id == id) (λ c. record c { consumed_at = some now }) db.link_challenges;
}

-- The account row, where the Telegram user who acts is its own.
unfoldable pub check_sender : Db → ℕ → ℕ → Result TelegramAccount
check_sender db account_id sender = do
  a ← or_throw (find (λ a. a.id == account_id) db.accounts) telegram_identity_mismatch
  throw_if (not (a.telegram_id == sender)) telegram_identity_mismatch
  ok a

-- The license with an activation of the device that is still active.
unfoldable pub load_claimed : Db → ℕ → ℕ → Result License
unfolding any
load_claimed db license_id device_id = do
  l ← or_throw (license_of db license_id) device_activation_missing
  throw_if
      (not (any (λ a. is_active_slot db.devices l.id a && a.device_id == device_id) db.activations))
      device_activation_missing
  ok l

-- Whether the account holds the license already, or may become its holder.
unfoldable pub check_holder : License → ℕ → Result Bool
check_holder l account = if is_id l.holder account then ok true else do
  throw_if (is_some l.holder) license_holder_conflict
  throw_if
      (is_telegram_payment l.issue_source && is_some l.purchaser && not (is_id l.purchaser account))
      telegram_purchase_owner_required
  ok false

abbrev pub link_holder : ℕ → ℕ → License → License
link_holder now account l = record l { holder = some account; holder_linked_at = some now }

abbrev pub unmoved_event : ℕ → License → String → LicenseEvent
unmoved_event now l reason = record {
  license_id = l.id;
  from_status = l.status;
  to_status = l.status;
  reason = reason;
  created_at = now;
}

-- The writes of both links: the holder, its history and the event.
unfoldable pub write_holder : ℕ → License → ℕ → String → String → ActorType → ℕ → Db → Db
unfolding update_where
write_holder now l account history event actor_type actor_id db = record db {
  licenses = update_where (λ m. m.id == l.id) (link_holder now account) db.licenses;
  holder_history =
      insert
        (record {
          license_id = l.id;
          from_account = l.holder;
          to_account = some account;
          reason = history;
          actor_type = actor_type;
          actor_id = actor_id;
        })
        db.holder_history;
  events = insert (unmoved_event now l event) db.events;
}

-- `{ linked: true, alreadyLinked, licenseId }`
pub record Linked : Type 0 where
  pub already_linked : Bool
  pub license_id : ℕ

-- What confirmLink writes once its checks have passed.
unfoldable pub settle_link : Db → ℕ → LinkChallenge → License → ℕ → Bool → Db
settle_link db now c l account already =
    if already
    then consume_link_challenge now c.id db
    else log ActorType.telegram_bot account "license.telegram_holder.linked" l.id (
        consume_link_challenge now c.id (
          write_holder now l account
            (if is_admin_manual l.issue_source
              then "MANUAL_LICENSE_TELEGRAM_CLAIMED"
              else "TELEGRAM_LINK_CONFIRMED")
            "telegram_holder_linked" ActorType.telegram_bot account db))

-- confirmLink; it reads the tables `db`, and its transaction writes on `met`.
unfoldable pub confirm_link : Db → Db → ℕ → ℕ → ℕ → ℕ → Result (Linked × Db)
confirm_link db met now token account sender = do
  c ← load_link_challenge db now token
  a ← check_sender db account sender
  l ← load_claimed db c.license_id c.device_id
  assert_license_linkable now l
  already ← check_holder l account
  ok (
    record { already_linked = already; license_id = l.id },
    settle_link met now c l account already,
  )

-- The same of linkHolderFromVerifiedChallenge.
unfoldable pub settle_verified : Db → ℕ → License → ℕ → ℕ → Bool → Db
settle_verified db now l account mobile_user_id already =
    if already
    then db
    else log ActorType.user mobile_user_id "license.telegram_holder.linked_via_otp" l.id (
        write_holder now l account "TELEGRAM_OTP_LINK_ACCOUNT" "telegram_holder_linked_via_otp"
          ActorType.user mobile_user_id db)

-- linkHolderFromVerifiedChallenge; it reads the tables `db`, and its transaction writes on `met`.
unfoldable pub link_verified : Db → Db → ℕ → ℕ → ℕ → ℕ → ℕ → Result (Linked × Db)
link_verified db met now license_id account device_id mobile_user_id = do
  l ← load_claimed db license_id device_id
  assert_license_linkable now l
  already ← check_holder l account
  ok (
    record { already_linked = already; license_id = l.id },
    settle_verified met now l account mobile_user_id already,
  )

-- The answer of revokeDeviceAsHolder.
pub record HolderRevoked : Type 0 where
  pub license_id : ℕ
  pub device_id : ℕ
  pub devices_used_before : ℕ
  pub devices_used_after : ℕ
  pub device_limit : ℕ

abbrev pub disconnect : ℕ → Activation → Activation
disconnect now a = record a {
  revoked_at = some now;
  revoke_reason = some RevokeReason.holder_disconnect;
}

unfoldable pub write_disconnect : ℕ → License → ℕ → Db → Db
unfolding update_where
write_disconnect now l device_id db = record db {
  activations = update_where (is_pair l.id device_id) (disconnect now) db.activations;
  events = insert (unmoved_event now l "holder_device_revoked") db.events;
}

-- revokeDeviceAsHolder
unfoldable pub revoke_device_as_holder : Db → ℕ → ℕ → ℕ → ℕ → Result (HolderRevoked × Db)
revoke_device_as_holder db now account license_id device_id = do
  l ← or_throw (license_of db license_id) license_not_found
  throw_if (not (is_id l.holder account)) not_license_holder
  a ←
      or_throw (find (λ a. is_pair license_id device_id a && is_none a.revoked_at) db.activations)
        device_not_active_on_license
  throw_if (not (device_live db.devices a.device_id)) device_not_active_on_license
  let before = active_count db license_id
  ok (
    record {
      license_id = license_id;
      device_id = device_id;
      devices_used_before = before;
      devices_used_after = before - 1;
      device_limit = slot_limit l;
    },
    log ActorType.telegram_bot account "license.device.revoked_by_holder" license_id
        (write_disconnect now l device_id db),
  )
