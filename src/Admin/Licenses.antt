-- ===== src/Admin/Licenses.antt =====
-- admin/licenses/admin-licenses.service.ts, without its lists: a license made by hand, revocation, the
-- disconnection of a device and the holder. An activation is named in the audit log by its license.
pub mod Revoked
use ruznamo_backend.Common.{
  true, ℕ, String, Bool, Option, none, some, List, ◌&&◌, ◌==◌, is_none, is_some, or_else,
  if◌then◌else◌, find, insert, update_where, Result, ok, err, ◌>>=◌, ◌>>◌, or_throw, throw_if, not,
  plan_not_found, license_not_found, telegram_account_not_found, device_activation_not_found,
}
use ruznamo_backend.Db.{
  Db, License, LicenseEvent, LicenseStatus, IssueSource, PlanCode, BillingPeriod, Activation,
  RevokeReason, TelegramAccount, ActorType, is_license_revoked, log,
}
use ruznamo_backend.Licenses.Slots.{is_pair, device_live}
use ruznamo_backend.Licenses.Replacement.{license_of}
use ruznamo_backend.Licenses.Issuance.{IssueLicenseInput, IssuedLicense, issue_license}
use ruznamo_backend.Payments.Prices.{plan_of_code}
use ruznamo_backend.Telegram.Links.{unmoved_event}

-- CreateManualLicenseDto, whose Telegram user id is trimmed and read.
pub record ManualLicense : Type 0 where
  pub plan_code : PlanCode
  pub billing_period : BillingPeriod
  pub telegram_user_id : Option ℕ

-- The user of the Telegram account that the form names, if it names one.
unfoldable pub linked_user : Db → Option ℕ → Result (Option ℕ)
unfolding find
linked_user db none = ok none
linked_user db (some telegram_id) = do
  a ← or_throw (find (λ a. a.telegram_id == telegram_id) db.accounts) telegram_account_not_found
  ok (some a.user_id)

module _ (hash : List ℕ → ℕ) where
  -- createManual
  unfoldable pub create_manual :
      Db → Db → ℕ → ℕ → List ℕ → ℕ → ManualLicense → Result (IssuedLicense × Db)
  create_manual db met now id raw admin dto = do
    plan ← or_throw (plan_of_code db dto.plan_code) plan_not_found
    user_id ← linked_user db dto.telegram_user_id
    (issued, after) ← issue_license hash db met now id raw (record {
      plan = plan;
      user_id = user_id;
      order_id = none;
      issue_source = IssueSource.admin_manual;
      billing_period = dto.billing_period;
      purchaser = none;
      holder = none;
      event_reason = "admin_manual_issue";
      activate_now = true;
    })
    ok (issued, log ActorType.admin admin "admin.license.manual_created" issued.license_id after)

abbrev pub set_revoked : ℕ → License → License
set_revoked now l = record l { status = LicenseStatus.revoked; revoked_at = some now }

-- The transaction of `revoke`.
unfoldable pub write_revocation : ℕ → License → String → Db → Db
unfolding update_where
write_revocation now l reason db = record db {
  licenses = update_where (λ m. m.id == l.id) (set_revoked now) db.licenses;
  events =
      insert
        (record {
          license_id = l.id;
          from_status = l.status;
          to_status = LicenseStatus.revoked;
          reason = reason;
          created_at = now;
        })
        db.events;
}

-- revoke
unfoldable pub revoke : Db → ℕ → ℕ → ℕ → Option String → Result Db
revoke db now id admin reason = do
  l ← or_throw (license_of db id) license_not_found
  ok (
      if is_license_revoked l.status
      then db
      else log ActorType.admin admin "admin.license.revoke" id
          (write_revocation now l (or_else reason "admin_revoke") db))

abbrev pub admin_disconnect : ℕ → Activation → Activation
admin_disconnect now a = record a {
  revoked_at = some now;
  revoke_reason = some RevokeReason.admin_disconnect;
}

-- revokeDeviceActivation
unfoldable pub revoke_device_activation : Db → ℕ → ℕ → ℕ → ℕ → Result Db
unfolding find update_where
revoke_device_activation db now admin license_id device_id = do
  l ← or_throw (license_of db license_id) license_not_found
  a ←
      or_throw (find (λ a. is_pair license_id device_id a && is_none a.revoked_at) db.activations)
        device_activation_not_found
  throw_if (not (device_live db.devices a.device_id)) device_activation_not_found
  ok (
      log ActorType.admin admin "admin.license.device_revoked" license_id (record db {
        activations =
            update_where (is_pair license_id device_id) (admin_disconnect now) db.activations;
        events = insert (unmoved_event now l "admin_device_revoked") db.events;
      }))

-- The holder's change and its history.
unfoldable pub write_change : ℕ → License → Option ℕ → Option ℕ → String → ℕ → Db → Db
unfolding update_where
write_change now l to_account linked_at reason admin db = record db {
  licenses =
      update_where (λ m. m.id == l.id)
        (λ m. record m { holder = to_account; holder_linked_at = linked_at }) db.licenses;
  holder_history =
      insert
        (record {
          license_id = l.id;
          from_account = l.holder;
          to_account = to_account;
          reason = reason;
          actor_type = ActorType.admin;
          actor_id = admin;
        })
        db.holder_history;
}

-- unlinkHolder
unfoldable pub unlink_holder : Db → ℕ → ℕ → ℕ → Result Db
unlink_holder db now admin license_id = do
  l ← or_throw (license_of db license_id) license_not_found
  ok (
      if is_none l.holder
      then db
      else log ActorType.admin admin "admin.license.holder_unlinked" license_id
          (write_change now l none none "admin_holder_unlinked" admin db))

-- assignHolder
unfoldable pub assign_holder : Db → ℕ → ℕ → ℕ → ℕ → Result Db
unfolding find
assign_holder db now admin license_id account_id = do
  l ← or_throw (license_of db license_id) license_not_found
  a ← or_throw (find (λ a. a.id == account_id) db.accounts) telegram_account_not_found
  ok (
      log ActorType.admin admin "admin.license.holder_assigned" license_id
        (write_change now l (some account_id) (some now) "admin_holder_assigned" admin db))
