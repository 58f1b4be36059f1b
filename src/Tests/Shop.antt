-- ===== src/Tests/Shop.antt =====
-- The tables of the tests: two users, three devices of the first one, a plan for two devices, licenses and orders.
use ruznamo_backend.Common.{ℕ, ◌+◌, ◌*◌, true, none, some, List, [], ◌∷◌, codes, Result, ok, err}
use ruznamo_backend.Db.{
  AdminUser, Db, User, Device, Plan, License, Activation, ReplacementChallenge, RecoveryGrant,
  TrialGrant, Order, Receipt, UserStatus, UserCategory, PlanCode, BillingPeriod, LicenseStatus,
  TrialStatus, OrderStatus, ReceiptStatus, ActorType,
}
use ruznamo_backend.Licenses.Activate.{MobileJwtPayload}
use ruznamo_backend.Payments.Approval.{PaymentActorContext}
use ruznamo_backend.Payments.Receipts.{ReceiptInput}

-- A hash of keys.
abbrev pub weigh : List ℕ → ℕ
weigh [] = 0
weigh (c ∷ cs) = c + 3 * weigh cs

abbrev pub value : {A : Type 0} → A → Result A → A
value a (ok b) = b
value a (err e) = a

abbrev phone : ℕ → ℕ → Device
phone id installation = record {
  id = id;
  user_id = 1;
  installation_id = installation;
  last_seen_at = 0;
  revoked_at = none;
}

abbrev pub pro_plan : Plan
pro_plan = record {
  id = 5;
  code = PlanCode.pro;
  is_active = true;
  features = record { key = "max_devices"; value = "2" } ∷ [];
  prices = record { billing_period = BillingPeriod.monthly; amount = 4900; is_active = true } ∷ [];
}

abbrev pub license : ℕ → ℕ → LicenseStatus → License
license id key_hash status = record {
  id = id;
  plan = pro_plan;
  user_id = some 1;
  order_id = none;
  key_hash = key_hash;
  key_prefix = [];
  status = status;
  issue_source = none;
  purchaser = none;
  holder = some 41;
  holder_linked_at = none;
  starts_at = none;
  expires_at = some 5000000000;
  activated_at = none;
  revoked_at = none;
}

abbrev pub slot : ℕ → ℕ → Activation
slot license_id device_id = record {
  license_id = license_id;
  device_id = device_id;
  created_at = device_id;
  revoked_at = none;
  revoke_reason = none;
}

abbrev pub key : List ℕ
key = codes "ab12"

-- A license that no device holds, and a full one.
abbrev pub fresh_license : License
fresh_license = license 31 (weigh key) LicenseStatus.pending

abbrev pub full_license : License
full_license = license 32 0 LicenseStatus.suspended

abbrev pub challenge : ReplacementChallenge
challenge = record {
  id = 71;
  token = 7;
  license_id = 32;
  new_device_id = 13;
  old_device_id = 11;
  mobile_user_id = 1;
  expires_at = 2000;
  consumed_at = none;
}

abbrev pub grant : RecoveryGrant
grant = record {
  id = 91;
  challenge_id = 83;
  telegram_account_id = 41;
  device_id = 13;
  mobile_user_id = 1;
  expires_at = 100000;
  consumed_at = none;
}

abbrev order : ℕ → OrderStatus → Order
order id status = record {
  id = id;
  user_id = 1;
  plan_id = 5;
  billing_period = BillingPeriod.monthly;
  amount = 4900;
  status = status;
  awaiting_receipt = true;
  paid_at = none;
  approved_at = none;
  rejected_at = none;
  rejection_reason = none;
  rejection_reason_code = none;
  payment_method_id = none;
  payment_method_name = none;
  payment_method_value = none;
  payment_method_recipient = none;
  created_at = 0;
  updated_at = 0;
}

-- An order under review, one that waits for its receipt, and a rejected one.
abbrev pub reviewed_order : Order
reviewed_order = order 51 OrderStatus.under_review

abbrev pub pending_order : Order
pending_order = order 52 OrderStatus.pending

abbrev pub rejected_order : Order
rejected_order = order 53 OrderStatus.rejected

abbrev receipt : Receipt
receipt = record {
  id = 61;
  order_id = 51;
  telegram_file_id = 0;
  telegram_update_id = 600;
  status = ReceiptStatus.pending;
  reviewed_at = none;
  rejection_reason = none;
}

abbrev pub owner : User
owner = record {
  id = 1;
  category = UserCategory.personal;
  status = UserStatus.active;
  display_name = none;
}

abbrev pub trial : TrialGrant
trial = record {
  user_id = 1;
  installation_id = 21;
  status = TrialStatus.active;
  started_at = 0;
  expires_at = 9000;
}

abbrev pub admin : AdminUser
admin = record {
  id = 9;
  email = codes "root@r.tj";
  password_hash = weigh (codes "first password");
  display_name = none;
  is_active = true;
  created_at = 0;
  last_login_at = none;
  roles =
      record { code = codes "ADMIN"; permissions = codes "b" ∷ codes "a" ∷ codes "b" ∷ [] } ∷ [];
  telegram_verified = none;
}

abbrev pub shop : Db
shop = record {
  users = owner ∷ [];
  devices = phone 11 21 ∷ phone 12 22 ∷ phone 13 23 ∷ [];
  plans = pro_plan ∷ [];
  licenses = fresh_license ∷ full_license ∷ [];
  activations = slot 32 11 ∷ slot 32 12 ∷ [];
  events = [];
  challenges = challenge ∷ [];
  holder_history = [];
  link_challenges = [];
  auth_challenges = [];
  grants = grant ∷ [];
  trials = trial ∷ [];
  orders = reviewed_order ∷ pending_order ∷ rejected_order ∷ [];
  receipts = receipt ∷ [];
  outbox = [];
  tokens = [];
  accounts = record { id = 41; user_id = 1; telegram_id = 4100 } ∷ [];
  configs = [];
  releases = [];
  versions = [];
  admins = admin ∷ [];
  admin_tokens = [];
  policies = [];
  conversations = [];
  messages = [];
  audit = [];
}

abbrev pub session : MobileJwtPayload
session = record { sub = 1; device_id = 11; installation_id = 21 }

abbrev pub clerk : PaymentActorContext
clerk = record { actor_type = ActorType.admin; actor_id = 9 }

abbrev pub photo : ReceiptInput
photo = record { order_id = 52; user_id = 1; telegram_file_id = 8; telegram_update_id = 601 }

-- What a test computes with.
unfoldable pub runs : Unit {0}
unfolding ruznamo_backend.Common.place ruznamo_backend.Common.sort_by ruznamo_backend.Common.find
    ruznamo_backend.Common.select ruznamo_backend.Common.count ruznamo_backend.Common.update_where
    ruznamo_backend.Common.any ruznamo_backend.Common.is_space ruznamo_backend.Common.trim_start
    ruznamo_backend.Common.read_digits ruznamo_backend.Common.read_sign
    ruznamo_backend.Common.parse_int ruznamo_backend.Common.trim_end ruznamo_backend.Common.trim
    ruznamo_backend.Common.same_text ruznamo_backend.Db.log
    ruznamo_backend.Entitlements.Features.feature_value
    ruznamo_backend.Entitlements.Features.parse_plan_features
    ruznamo_backend.Entitlements.Pick.map_set ruznamo_backend.Entitlements.Pick.merge_into
    ruznamo_backend.Entitlements.Pick.merge_license_candidates
    ruznamo_backend.Entitlements.Pick.set_once ruznamo_backend.Entitlements.Pick.collect_from
    ruznamo_backend.Entitlements.Pick.collect_activated_licenses
    ruznamo_backend.Entitlements.Pick.is_candidate ruznamo_backend.Entitlements.Pick.is_better
    ruznamo_backend.Entitlements.Pick.pick_best_active_license
    ruznamo_backend.Entitlements.Queries.owned_licenses
    ruznamo_backend.Entitlements.Queries.live_devices
    ruznamo_backend.Entitlements.Queries.current_device
    ruznamo_backend.Entitlements.Queries.current_device_has_activation
    ruznamo_backend.Entitlements.Queries.device_has_license_activation
    ruznamo_backend.Entitlements.Snapshot.installation_active
    ruznamo_backend.Entitlements.Snapshot.installation_usable
    ruznamo_backend.Entitlements.Snapshot.build_snapshot
    ruznamo_backend.Entitlements.Snapshot.candidates
    ruznamo_backend.Entitlements.Snapshot.entitled_on ruznamo_backend.Entitlements.Snapshot.trial_of
    ruznamo_backend.Entitlements.Snapshot.active_user_snapshot
    ruznamo_backend.Entitlements.Snapshot.snapshot_for
    ruznamo_backend.Entitlements.Snapshot.get_snapshot
    ruznamo_backend.Entitlements.Snapshot.assert_device_registration_allowed
    ruznamo_backend.Licenses.Activate.set_active ruznamo_backend.Licenses.Activate.after_violation
    ruznamo_backend.Licenses.Activate.create_activation ruznamo_backend.Licenses.Activate.claim_slot
    ruznamo_backend.Licenses.Activate.session_device ruznamo_backend.Licenses.Activate.finish
    ruznamo_backend.Licenses.Activate.license_of_key ruznamo_backend.Licenses.Activate.activate_tx
    ruznamo_backend.Licenses.Activate.activate
    ruznamo_backend.Licenses.Issuance.calculate_expires_at
    ruznamo_backend.Licenses.Issuance.find_stored_key
    ruznamo_backend.Licenses.Issuance.license_of_order
    ruznamo_backend.Licenses.Issuance.existing_license
    ruznamo_backend.Licenses.Issuance.raced_license ruznamo_backend.Licenses.Issuance.create_license
    ruznamo_backend.Licenses.Issuance.issue_license ruznamo_backend.Licenses.Key.lower
    ruznamo_backend.Licenses.Key.normalize_key ruznamo_backend.Licenses.Key.prefix
    ruznamo_backend.Licenses.Replacement.slot_limit
    ruznamo_backend.Licenses.Replacement.assert_replacement_cooldown
    ruznamo_backend.Licenses.Replacement.active_activations
    ruznamo_backend.Licenses.Replacement.create_challenge
    ruznamo_backend.Licenses.Replacement.load_valid_challenge
    ruznamo_backend.Licenses.Replacement.license_of ruznamo_backend.Licenses.Replacement.occupy
    ruznamo_backend.Licenses.Replacement.vacate ruznamo_backend.Licenses.Replacement.replaced
    ruznamo_backend.Licenses.Replacement.execute_replacement
    ruznamo_backend.Licenses.Replacement.confirm_replacement
    ruznamo_backend.Licenses.Slots.device_live ruznamo_backend.Licenses.Slots.is_active_slot
    ruznamo_backend.Licenses.Slots.active_count ruznamo_backend.Licenses.Slots.read_max_devices
    ruznamo_backend.Licenses.Slots.read_max_devices_from_features
    ruznamo_backend.Licenses.Slots.assert_license_activatable
    ruznamo_backend.Payments.Approval.find_stored_license_key
    ruznamo_backend.Payments.Approval.approve_duplicate
    ruznamo_backend.Payments.Approval.check_approvable
    ruznamo_backend.Payments.Approval.purchaser_of ruznamo_backend.Payments.Approval.complete_order
    ruznamo_backend.Payments.Approval.settle_approval ruznamo_backend.Payments.Approval.plan_of
    ruznamo_backend.Payments.Approval.approve_fresh ruznamo_backend.Payments.Approval.approve_order
    ruznamo_backend.Payments.Approval.approve ruznamo_backend.Payments.Refusal.write_rejection
    ruznamo_backend.Payments.Refusal.reject ruznamo_backend.Payments.Orders.order_of
    ruznamo_backend.Payments.Orders.existing_pending ruznamo_backend.Payments.Orders.create_order
    ruznamo_backend.Payments.Orders.find_or_create_pending_order
    ruznamo_backend.Payments.Orders.is_stale
    ruznamo_backend.Payments.Orders.cancel_stale_pending_purchases
    ruznamo_backend.Payments.Orders.start_payment_flow
    ruznamo_backend.Payments.Orders.attach_payment_method_and_await_receipt
    ruznamo_backend.Payments.Orders.get_current_pending_order
    ruznamo_backend.Payments.Orders.find_awaiting_receipt_order
    ruznamo_backend.Payments.Orders.find_awaiting_receipt_order_by_id
    ruznamo_backend.Payments.Orders.cancel_pending_order
    ruznamo_backend.Payments.Prices.plan_of_code
    ruznamo_backend.Payments.Prices.is_plan_available_for_purchase
    ruznamo_backend.Payments.Prices.is_plan_period_available_for_purchase
    ruznamo_backend.Payments.Prices.get_plan_price
    ruznamo_backend.Payments.Prices.get_plan_price_for_purchase
    ruznamo_backend.Payments.Receipts.receipt_of_update
    ruznamo_backend.Payments.Receipts.is_eligible ruznamo_backend.Payments.Receipts.record_receipt
    ruznamo_backend.Payments.Receipts.submit_receipt ruznamo_backend.Payments.Rejection.parse_code
    ruznamo_backend.Payments.Rejection.normalize_reject_reason
    ruznamo_backend.Payments.Rejection.collapse_spaces
    ruznamo_backend.Payments.Rejection.sanitize_custom_rejection_reason
    ruznamo_backend.Entitlements.Snapshot.user_of ruznamo_backend.Sessions.parse_expires_in_seconds
    ruznamo_backend.Sessions.touch_last_seen ruznamo_backend.Sessions.sync_by_installation_id
    ruznamo_backend.Sessions.issue_token_pair ruznamo_backend.Sessions.token_of_hash
    ruznamo_backend.Sessions.device_of ruznamo_backend.Sessions.check_session
    ruznamo_backend.Sessions.revoke_tokens ruznamo_backend.Sessions.refresh
    ruznamo_backend.Sessions.logout ruznamo_backend.Sessions.logout_all
    ruznamo_backend.Licenses.Recovery.assert_valid_grant
    ruznamo_backend.Licenses.Recovery.assert_license_held_by_grant
    ruznamo_backend.Licenses.Recovery.claim_via_telegram
    ruznamo_backend.Licenses.Recovery.activate_via_telegram_tx
    ruznamo_backend.Licenses.Recovery.activate_via_telegram
    ruznamo_backend.Licenses.Recovery.replace_device_via_grant
    ruznamo_backend.Telegram.Links.device_of_user
    ruznamo_backend.Telegram.Links.assert_license_linkable
    ruznamo_backend.Telegram.Links.session_activation
    ruznamo_backend.Telegram.Links.create_link_challenge
    ruznamo_backend.Telegram.Links.load_link_challenge
    ruznamo_backend.Telegram.Links.consume_link_challenge
    ruznamo_backend.Telegram.Links.check_sender ruznamo_backend.Telegram.Links.load_claimed
    ruznamo_backend.Telegram.Links.check_holder ruznamo_backend.Telegram.Links.write_holder
    ruznamo_backend.Telegram.Links.settle_link ruznamo_backend.Telegram.Links.confirm_link
    ruznamo_backend.Telegram.Links.settle_verified ruznamo_backend.Telegram.Links.link_verified
    ruznamo_backend.Telegram.Links.write_disconnect
    ruznamo_backend.Telegram.Links.revoke_device_as_holder
    ruznamo_backend.Telegram.SignIn.is_usable_license
    ruznamo_backend.Telegram.SignIn.licenses_on_device
    ruznamo_backend.Telegram.SignIn.resolve_license
    ruznamo_backend.Telegram.SignIn.check_link_account
    ruznamo_backend.Telegram.SignIn.create_auth_challenge
    ruznamo_backend.Telegram.SignIn.challenge_of ruznamo_backend.Telegram.SignIn.update_challenge
    ruznamo_backend.Telegram.SignIn.check_bindable ruznamo_backend.Telegram.SignIn.bind_telegram
    ruznamo_backend.Telegram.SignIn.check_answerable ruznamo_backend.Telegram.SignIn.miss
    ruznamo_backend.Telegram.SignIn.write_grant ruznamo_backend.Telegram.SignIn.hit
    ruznamo_backend.Telegram.SignIn.normalize_code ruznamo_backend.Telegram.SignIn.answer_code
    ruznamo_backend.Telegram.SignIn.verify_otp ruznamo_backend.Telegram.SignIn.consume_grant
    ruznamo_backend.Devices.Category.category_named ruznamo_backend.Devices.Category.category_of
    ruznamo_backend.Devices.Category.resolve_user_category
    ruznamo_backend.Devices.Category.given_name ruznamo_backend.Devices.Category.patch_profile
    ruznamo_backend.Devices.Registration.config_of
    ruznamo_backend.Devices.Registration.in_maintenance
    ruznamo_backend.Devices.Registration.trial_duration_hours
    ruznamo_backend.Devices.Registration.installation_of
    ruznamo_backend.Devices.Registration.note_return
    ruznamo_backend.Devices.Registration.create_account
    ruznamo_backend.Devices.Registration.register_known
    ruznamo_backend.Devices.Registration.register_new
    ruznamo_backend.Devices.Registration.register_device
    ruznamo_backend.Devices.Registration.add_device ruznamo_backend.Devices.Registration.register
    ruznamo_backend.Devices.Revocation.end_sessions ruznamo_backend.Devices.Revocation.clear_device
    ruznamo_backend.Devices.Revocation.revoke_device
    ruznamo_backend.Devices.Revocation.revoke_device_installation
    ruznamo_backend.Admin.Licenses.linked_user ruznamo_backend.Admin.Licenses.create_manual
    ruznamo_backend.Admin.Licenses.write_revocation ruznamo_backend.Admin.Licenses.revoke
    ruznamo_backend.Admin.Licenses.revoke_device_activation
    ruznamo_backend.Admin.Licenses.write_change ruznamo_backend.Admin.Licenses.unlink_holder
    ruznamo_backend.Admin.Licenses.assign_holder ruznamo_backend.Releases.release_of
    ruznamo_backend.Releases.latest_published ruznamo_backend.Releases.is_blank
    ruznamo_backend.Releases.release_of_version ruznamo_backend.Releases.store_upload
    ruznamo_backend.Releases.finalize_upload ruznamo_backend.Releases.update_draft
    ruznamo_backend.Releases.Publishing.check_publishable
    ruznamo_backend.Releases.Publishing.swap_published
    ruznamo_backend.Releases.Publishing.publish_tx
    ruznamo_backend.Releases.Publishing.current_version
    ruznamo_backend.Releases.Publishing.sync_legacy_app_version
    ruznamo_backend.Releases.Publishing.publish_found ruznamo_backend.Releases.Publishing.publish
    ruznamo_backend.Releases.Publishing.archive ruznamo_backend.Releases.Publishing.delete_draft
    ruznamo_backend.Releases.Publishing.is_artifact_deleted
    ruznamo_backend.Releases.Publishing.purge_file ruznamo_backend.Releases.Updates.changelog_for
    ruznamo_backend.Releases.Updates.check_update
    ruznamo_backend.Releases.Updates.authorize_download ruznamo_backend.Admin.Auth.add_new
    ruznamo_backend.Admin.Auth.extract_roles_and_permissions ruznamo_backend.Admin.Auth.to_profile
    ruznamo_backend.Admin.Auth.admin_of_email ruznamo_backend.Admin.Auth.admin_of
    ruznamo_backend.Admin.Auth.active_admin ruznamo_backend.Admin.Auth.admin_token_of
    ruznamo_backend.Admin.Auth.revoke_admin_tokens ruznamo_backend.Admin.Auth.issue_admin_tokens
    ruznamo_backend.Admin.Auth.logged_in ruznamo_backend.Admin.Auth.login
    ruznamo_backend.Admin.Auth.check_admin_session ruznamo_backend.Admin.Auth.refresh_admin
    ruznamo_backend.Admin.Auth.logout_admin ruznamo_backend.Admin.Auth.list_sessions
    ruznamo_backend.Admin.Auth.revoke_other_sessions ruznamo_backend.Admin.Auth.Account.get_profile
    ruznamo_backend.Admin.Auth.Account.update_profile
    ruznamo_backend.Admin.Auth.Account.with_password
    ruznamo_backend.Admin.Auth.Account.write_password
    ruznamo_backend.Admin.Auth.Account.change_password ruznamo_backend.Privacy.published_policy
    ruznamo_backend.Privacy.current_draft ruznamo_backend.Privacy.policy_of
    ruznamo_backend.Privacy.edit_policy ruznamo_backend.Privacy.save_draft
    ruznamo_backend.Privacy.swap_policy ruznamo_backend.Privacy.publish_policy_tx
    ruznamo_backend.Privacy.publish_policy ruznamo_backend.Privacy.ensure_initial_published
    ruznamo_backend.Privacy.get_published ruznamo_backend.Telegram.Support.open_conversation
    ruznamo_backend.Telegram.Support.conversation_of
    ruznamo_backend.Telegram.Support.update_conversation
    ruznamo_backend.Telegram.Support.create_conversation
    ruznamo_backend.Telegram.Support.get_or_create_open_conversation
    ruznamo_backend.Telegram.Support.append_message
    ruznamo_backend.Telegram.Support.append_user_message
    ruznamo_backend.Telegram.Support.append_admin_message
    ruznamo_backend.Telegram.Support.close_conversation
    ruznamo_backend.Telegram.Support.preview_message
    ruznamo_backend.Telegram.Support.conversation_item
    ruznamo_backend.Telegram.Support.list_open_conversations
    ruznamo_backend.Telegram.Support.get_conversation_history
runs = tt
