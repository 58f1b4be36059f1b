-- ===== src/Db/Tables.antt =====
-- The rows.
use ruznamo_backend.Common.{ℕ, String, Bool, Option, List}
use ruznamo_backend.Db.Enums.{
  SupportConversationStatus, SupportMessageDirection, SupportMessageContentType,
  PrivacyPolicyStatus, UserStatus, LicenseStatus, IssueSource, PlanCode, BillingPeriod, OrderStatus,
  ReceiptStatus, TrialStatus, OutboxStatus, RevokeReason, ActorType, AuthPurpose, UserCategory,
  ReleaseStatus,
}

pub record User : Type 0 where
  pub id : ℕ
  pub category : UserCategory
  pub status : UserStatus
  pub display_name : Option (List ℕ)

pub record Device : Type 0 where
  pub id : ℕ
  pub user_id : ℕ
  pub installation_id : ℕ
  pub last_seen_at : ℕ
  pub revoked_at : Option ℕ

pub record Feature : Type 0 where
  pub key : String
  pub value : String

pub record Price : Type 0 where
  pub billing_period : BillingPeriod
  pub amount : ℕ
  pub is_active : Bool

pub record Plan : Type 0 where
  pub id : ℕ
  pub code : PlanCode
  pub is_active : Bool
  pub features : List Feature
  pub prices : List Price

pub record License : Type 0 where
  pub id : ℕ
  pub plan : Plan
  pub user_id : Option ℕ
  pub order_id : Option ℕ
  pub key_hash : ℕ
  pub key_prefix : List ℕ
  pub status : LicenseStatus
  pub issue_source : Option IssueSource
  pub purchaser : Option ℕ
  pub holder : Option ℕ
  pub holder_linked_at : Option ℕ
  pub starts_at : Option ℕ
  pub expires_at : Option ℕ
  pub activated_at : Option ℕ
  pub revoked_at : Option ℕ

-- The unique key (license, device) stands for the row's own id.
pub record Activation : Type 0 where
  pub license_id : ℕ
  pub device_id : ℕ
  pub created_at : ℕ
  pub revoked_at : Option ℕ
  pub revoke_reason : Option RevokeReason

pub record LicenseEvent : Type 0 where
  pub license_id : ℕ
  pub from_status : LicenseStatus
  pub to_status : LicenseStatus
  pub reason : String
  pub created_at : ℕ

pub record ReplacementChallenge : Type 0 where
  pub id : ℕ
  pub token : ℕ
  pub license_id : ℕ
  pub new_device_id : ℕ
  pub old_device_id : ℕ
  pub mobile_user_id : ℕ
  pub expires_at : ℕ
  pub consumed_at : Option ℕ

pub record HolderHistory : Type 0 where
  pub license_id : ℕ
  pub from_account : Option ℕ
  pub to_account : Option ℕ
  pub reason : String
  pub actor_type : ActorType
  pub actor_id : ℕ

pub record LinkChallenge : Type 0 where
  pub id : ℕ
  pub token : ℕ
  pub license_id : ℕ
  pub device_id : ℕ
  pub mobile_user_id : ℕ
  pub expires_at : ℕ
  pub consumed_at : Option ℕ

pub record AuthChallenge : Type 0 where
  pub id : ℕ
  pub token_hash : ℕ
  pub requesting_device_id : ℕ
  pub requesting_mobile_user_id : ℕ
  pub purpose : AuthPurpose
  pub context_license_id : Option ℕ
  pub telegram_account_id : Option ℕ
  pub otp_hash : Option ℕ
  pub otp_expires_at : Option ℕ
  pub attempt_count : ℕ
  pub max_attempts : ℕ
  pub verified_at : Option ℕ
  pub consumed_at : Option ℕ
  pub expires_at : ℕ

pub record RecoveryGrant : Type 0 where
  pub id : ℕ
  pub challenge_id : ℕ
  pub telegram_account_id : ℕ
  pub device_id : ℕ
  pub mobile_user_id : ℕ
  pub expires_at : ℕ
  pub consumed_at : Option ℕ

pub record TrialGrant : Type 0 where
  pub user_id : ℕ
  pub installation_id : ℕ
  pub status : TrialStatus
  pub started_at : ℕ
  pub expires_at : ℕ

pub record Order : Type 0 where
  pub id : ℕ
  pub user_id : ℕ
  pub plan_id : ℕ
  pub billing_period : BillingPeriod
  pub amount : ℕ
  pub status : OrderStatus
  pub awaiting_receipt : Bool
  pub paid_at : Option ℕ
  pub approved_at : Option ℕ
  pub rejected_at : Option ℕ
  pub rejection_reason : Option (List ℕ)
  pub rejection_reason_code : Option String
  pub payment_method_id : Option ℕ
  pub payment_method_name : Option (List ℕ)
  pub payment_method_value : Option (List ℕ)
  pub payment_method_recipient : Option (List ℕ)
  pub created_at : ℕ
  pub updated_at : ℕ

pub record Receipt : Type 0 where
  pub id : ℕ
  pub order_id : ℕ
  pub telegram_file_id : ℕ
  pub telegram_update_id : ℕ
  pub status : ReceiptStatus
  pub reviewed_at : Option ℕ
  pub rejection_reason : Option (List ℕ)

-- A row of type `telegram_license_key`, with its payload.
pub record Outbox : Type 0 where
  pub user_id : ℕ
  pub license_id : ℕ
  pub order_id : ℕ
  pub license_key : List ℕ
  pub status : OutboxStatus
  pub created_at : ℕ

pub record RefreshToken : Type 0 where
  pub id : ℕ
  pub user_id : ℕ
  pub device_id : Option ℕ
  pub token_hash : ℕ
  pub expires_at : ℕ
  pub revoked_at : Option ℕ
  pub replaced_by : Option ℕ

pub record TelegramAccount : Type 0 where
  pub id : ℕ
  pub user_id : ℕ
  pub telegram_id : ℕ

pub record SystemConfig : Type 0 where
  pub key : String
  pub value : List ℕ

pub record Release : Type 0 where
  pub id : ℕ
  pub version_name : List ℕ
  pub version_code : ℕ
  pub package_name : List ℕ
  pub signing_certificate : List ℕ
  pub object_key : ℕ
  pub file_size : ℕ
  pub sha256 : ℕ
  pub status : ReleaseStatus
  pub mandatory : Bool
  pub changelog_ru : Option (List ℕ)
  pub changelog_tg : Option (List ℕ)
  pub published_at : Option ℕ
  pub archived_at : Option ℕ
  pub artifact_deleted_at : Option ℕ

pub record AppVersion : Type 0 where
  pub id : ℕ
  pub latest_version : List ℕ
  pub minimum_supported_version : List ℕ
  pub force_update : Bool
  pub release_notes : Option (List ℕ)
  pub release_notes_tj : Option (List ℕ)
  pub is_active : Bool
  pub updated_at : ℕ

-- A role with the codes of its permissions.
pub record AdminRole : Type 0 where
  pub code : List ℕ
  pub permissions : List (List ℕ)

pub record AdminUser : Type 0 where
  pub id : ℕ
  pub email : List ℕ
  pub password_hash : ℕ
  pub display_name : Option (List ℕ)
  pub is_active : Bool
  pub created_at : ℕ
  pub last_login_at : Option ℕ
  pub roles : List AdminRole
  pub telegram_verified : Option Bool

pub record AdminRefreshToken : Type 0 where
  pub id : ℕ
  pub admin_user_id : ℕ
  pub token_hash : ℕ
  pub created_at : ℕ
  pub expires_at : ℕ
  pub revoked_at : Option ℕ
  pub replaced_by : Option ℕ

pub record SupportConversation : Type 0 where
  pub id : ℕ
  pub telegram_account_id : ℕ
  pub status : SupportConversationStatus
  pub category : Option (List ℕ)
  pub updated_at : ℕ
  pub closed_at : Option ℕ

pub record SupportMessage : Type 0 where
  pub id : ℕ
  pub conversation_id : ℕ
  pub direction : SupportMessageDirection
  pub content_type : SupportMessageContentType
  pub text : Option (List ℕ)
  pub caption : Option (List ℕ)
  pub file_id : Option (List ℕ)
  pub telegram_message_id : Option ℕ
  pub created_at : ℕ

pub record PrivacyPolicyRevision : Type 0 where
  pub id : ℕ
  pub revision : ℕ
  pub content_ru : List ℕ
  pub content_tg : List ℕ
  pub status : PrivacyPolicyStatus
  pub updated_at : ℕ
  pub published_at : Option ℕ
  pub archived_at : Option ℕ

pub record AuditLog : Type 0 where
  pub actor_type : ActorType
  pub actor_id : ℕ
  pub action : String
  pub entity_id : ℕ

pub record Db : Type 0 where
  pub users : List User
  pub devices : List Device
  pub plans : List Plan
  pub licenses : List License
  pub activations : List Activation
  pub events : List LicenseEvent
  pub challenges : List ReplacementChallenge
  pub holder_history : List HolderHistory
  pub link_challenges : List LinkChallenge
  pub auth_challenges : List AuthChallenge
  pub grants : List RecoveryGrant
  pub trials : List TrialGrant
  pub orders : List Order
  pub receipts : List Receipt
  pub outbox : List Outbox
  pub tokens : List RefreshToken
  pub accounts : List TelegramAccount
  pub configs : List SystemConfig
  pub releases : List Release
  pub versions : List AppVersion
  pub admins : List AdminUser
  pub admin_tokens : List AdminRefreshToken
  pub policies : List PrivacyPolicyRevision
  pub conversations : List SupportConversation
  pub messages : List SupportMessage
  pub audit : List AuditLog
