-- ===== src/Db/Enums.antt =====
-- The enums of prisma/schema.prisma and the tests that the services make on them.
use ruznamo_backend.Common.{Bool, true, false, ℕ, Option, some}

pub data UserStatus : Type 0 where
  active suspended deleted : UserStatus

pub data LicenseStatus : Type 0 where
  pending active expired revoked suspended : LicenseStatus

pub data IssueSource : Type 0 where
  telegram_payment admin_manual unknown_legacy : IssueSource

pub data PlanCode : Type 0 where
  standard pro pro_plus : PlanCode

pub data BillingPeriod : Type 0 where
  monthly yearly : BillingPeriod

pub data OrderStatus : Type 0 where
  pending receipt_submitted under_review approved rejected cancelled completed : OrderStatus

pub data ReceiptStatus : Type 0 where
  pending approved rejected : ReceiptStatus

pub data TrialStatus : Type 0 where
  active expired revoked : TrialStatus

pub data OutboxStatus : Type 0 where
  pending processing completed failed : OutboxStatus

pub data RevokeReason : Type 0 where
  holder_disconnect admin_disconnect device_replacement : RevokeReason

pub data ActorType : Type 0 where
  user admin system telegram_bot : ActorType

pub data UserCategory : Type 0 where
  teacher lecturer tutor trainer employee student personal : UserCategory

pub data AuthPurpose : Type 0 where
  login recovery device_replacement key_reveal link_account : AuthPurpose

pub data ReleaseStatus : Type 0 where
  draft published archived purged : ReleaseStatus

pub data SupportConversationStatus : Type 0 where
  opened closed : SupportConversationStatus

pub data SupportMessageDirection : Type 0 where
  user_to_admin admin_to_user : SupportMessageDirection

pub data SupportMessageContentType : Type 0 where
  text photo document : SupportMessageContentType

pub data PrivacyPolicyStatus : Type 0 where
  draft published archived : PrivacyPolicyStatus

-- Each enum is compared by `===`: the number of a value stands for it.
abbrev pub user_status_rank : UserStatus → ℕ
user_status_rank UserStatus.active = 0
user_status_rank UserStatus.suspended = 1
user_status_rank UserStatus.deleted = 2

abbrev pub plan_code_rank : PlanCode → ℕ
plan_code_rank PlanCode.standard = 1
plan_code_rank PlanCode.pro = 2
plan_code_rank PlanCode.pro_plus = 3

abbrev pub is_license_active : LicenseStatus → Bool
is_license_active LicenseStatus.active = true
is_license_active _ = false

abbrev pub is_license_pending : LicenseStatus → Bool
is_license_pending LicenseStatus.pending = true
is_license_pending _ = false

abbrev pub is_license_revoked : LicenseStatus → Bool
is_license_revoked LicenseStatus.revoked = true
is_license_revoked _ = false

abbrev pub is_license_expired : LicenseStatus → Bool
is_license_expired LicenseStatus.expired = true
is_license_expired _ = false

abbrev pub is_trial_active : TrialStatus → Bool
is_trial_active TrialStatus.active = true
is_trial_active _ = false

abbrev pub same_period : BillingPeriod → BillingPeriod → Bool
same_period BillingPeriod.monthly BillingPeriod.monthly = true
same_period BillingPeriod.yearly BillingPeriod.yearly = true
same_period _ _ = false

abbrev pub is_order_pending : OrderStatus → Bool
is_order_pending OrderStatus.pending = true
is_order_pending _ = false

abbrev pub is_order_submitted : OrderStatus → Bool
is_order_submitted OrderStatus.receipt_submitted = true
is_order_submitted _ = false

abbrev pub is_order_under_review : OrderStatus → Bool
is_order_under_review OrderStatus.under_review = true
is_order_under_review _ = false

abbrev pub is_order_rejected : OrderStatus → Bool
is_order_rejected OrderStatus.rejected = true
is_order_rejected _ = false

abbrev pub is_order_approved : OrderStatus → Bool
is_order_approved OrderStatus.approved = true
is_order_approved _ = false

abbrev pub is_order_completed : OrderStatus → Bool
is_order_completed OrderStatus.completed = true
is_order_completed _ = false

abbrev pub is_receipt_pending : ReceiptStatus → Bool
is_receipt_pending ReceiptStatus.pending = true
is_receipt_pending _ = false

abbrev pub is_outbox_completed : OutboxStatus → Bool
is_outbox_completed OutboxStatus.completed = true
is_outbox_completed _ = false

abbrev pub is_telegram_payment : Option IssueSource → Bool
is_telegram_payment (some IssueSource.telegram_payment) = true
is_telegram_payment _ = false

abbrev pub is_admin_manual : Option IssueSource → Bool
is_admin_manual (some IssueSource.admin_manual) = true
is_admin_manual _ = false

abbrev pub is_link_account : AuthPurpose → Bool
is_link_account AuthPurpose.link_account = true
is_link_account _ = false

abbrev pub is_draft : ReleaseStatus → Bool
is_draft ReleaseStatus.draft = true
is_draft _ = false

abbrev pub is_published : ReleaseStatus → Bool
is_published ReleaseStatus.published = true
is_published _ = false

abbrev pub is_purged : ReleaseStatus → Bool
is_purged ReleaseStatus.purged = true
is_purged _ = false

abbrev pub is_policy_draft : PrivacyPolicyStatus → Bool
is_policy_draft PrivacyPolicyStatus.draft = true
is_policy_draft _ = false

abbrev pub is_policy_published : PrivacyPolicyStatus → Bool
is_policy_published PrivacyPolicyStatus.published = true
is_policy_published _ = false

abbrev pub is_conversation_open : SupportConversationStatus → Bool
is_conversation_open SupportConversationStatus.opened = true
is_conversation_open _ = false
