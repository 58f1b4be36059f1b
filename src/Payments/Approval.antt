-- ===== src/Payments/Approval.antt =====
-- payments/payment-approval.service.ts: an administrator approves a payment.
pub mod Run
pub mod Written
pub mod Fresh
pub mod Again
use ruznamo_backend.Common.{
  ℕ, ltb, Bool, true, false, not, Option, none, some, List, ◌&&◌, ◌||◌, ◌==◌, any, is_nil, or_else,
  if◌then◌else◌, find, insert, select, update_where, first, sort_by, Result, ok, ◌>>=◌, ◌>>◌,
  throw_if, or_throw, order_not_found, completed_without_license, not_eligible_for_approval,
  receipt_required, completed_cannot_be_rejected, plan_not_found, String,
}
use ruznamo_backend.Db.{
  Db, Order, Receipt, Plan, License, Outbox, TelegramAccount, OrderStatus, ReceiptStatus,
  OutboxStatus, IssueSource, ActorType, is_order_completed, is_order_approved,
  is_order_under_review, is_order_submitted, is_order_rejected, is_receipt_pending,
  is_outbox_completed, log,
}
use ruznamo_backend.Licenses.Issuance.{
  IssueLicenseInput, IssuedLicense, issue_license, license_of_order, already_delivered,
}
use ruznamo_backend.Payments.Orders.{has_id, order_of}
use ruznamo_backend.Payments.Rejection.{
  RejectReasonInput, RejectReason, normalize_reject_reason, code_name,
}

pub record PaymentActorContext : Type 0 where
  pub actor_type : ActorType
  pub actor_id : ℕ

pub record PaymentApprovalResult : Type 0 where
  pub order_id : ℕ
  pub user_id : ℕ
  pub license_id : ℕ
  pub license_key : List ℕ
  pub expires_at : ℕ
  pub already_processed : Bool

abbrev newest : Outbox → Outbox → Bool
newest a b = ltb b.created_at a.created_at

abbrev key_for : ℕ → Option Outbox → Option (List ℕ)
key_for user_id none = none
key_for user_id (some o) =
    if o.user_id == user_id && not (is_nil o.license_key) then some o.license_key else none

-- findStoredLicenseKey: the newest completed row of the license, if it is the user's.
unfoldable pub find_stored_license_key : Db → ℕ → ℕ → Option (List ℕ)
unfolding select sort_by
find_stored_license_key db license_id user_id = key_for user_id (
    first (
      sort_by newest
        (select (λ o. o.license_id == license_id && is_outbox_completed o.status) db.outbox)))

-- The branch for an order that has a license.
unfoldable pub approve_duplicate :
    Db → ℕ → PaymentActorContext → Order → License → PaymentApprovalResult × Db
approve_duplicate db now actor o l = (
  record {
    order_id = o.id;
    user_id = o.user_id;
    license_id = l.id;
    license_key = or_else (find_stored_license_key db l.id o.user_id) already_delivered;
    expires_at = or_else l.expires_at now;
    already_processed = true;
  },
  log actor.actor_type actor.actor_id "payment.approve.duplicate" o.id db,
)

-- The checks before a license is issued.
unfoldable pub check_approvable : Db → Order → Result (Unit {0})
unfolding any
check_approvable db o = do
  throw_if (is_order_completed o.status || is_order_approved o.status) completed_without_license
  throw_if (not (is_order_under_review o.status) && not (is_order_submitted o.status))
      not_eligible_for_approval
  throw_if (not (any (λ r. r.order_id == o.id) db.receipts)) receipt_required

-- The telegram account of the purchaser, who becomes the holder.
unfoldable pub purchaser_of : Db → ℕ → Option ℕ
unfolding find
purchaser_of db user_id = elim (find (λ (a : TelegramAccount). a.user_id == user_id) db.accounts) [
  | none ↦ none
  | some a ↦ some a.id
]

abbrev pub approval_input : Db → Order → Plan → IssueLicenseInput
approval_input db o plan = record {
  plan = plan;
  user_id = some o.user_id;
  order_id = some o.id;
  issue_source = IssueSource.telegram_payment;
  billing_period = o.billing_period;
  purchaser = purchaser_of db o.user_id;
  holder = purchaser_of db o.user_id;
  event_reason = "telegram_payment_approved";
  activate_now = true;
}

abbrev pub complete : ℕ → Order → Order
complete now o = record o {
  status = OrderStatus.completed;
  approved_at = some now;
  paid_at = some now;
  updated_at = now;
}

abbrev pub approve_receipt : ℕ → Receipt → Receipt
approve_receipt now r = record r { status = ReceiptStatus.approved; reviewed_at = some now }

abbrev delivery : ℕ → Order → IssuedLicense → Outbox
delivery now o issued = record {
  user_id = o.user_id;
  license_id = issued.license_id;
  order_id = o.id;
  license_key = issued.license_key;
  status = OutboxStatus.completed;
  created_at = now;
}

-- The transaction after the license is issued.
unfoldable pub complete_order : Db → ℕ → Order → IssuedLicense → Db
unfolding update_where
complete_order db now o issued = record db {
  orders = update_where (has_id o.id) (complete now) db.orders;
  receipts =
      update_where (λ r. r.order_id == o.id && is_receipt_pending r.status) (approve_receipt now)
        db.receipts;
  outbox = insert (delivery now o issued) db.outbox;
}

-- What follows issueLicense, in the tables that it left.
unfoldable pub settle_approval :
    Db → ℕ → PaymentActorContext → Order → IssuedLicense → PaymentApprovalResult × Db
settle_approval db now actor o issued = (
  record {
    order_id = o.id;
    user_id = o.user_id;
    license_id = issued.license_id;
    license_key = issued.license_key;
    expires_at = issued.expires_at;
    already_processed = issued.already_existed;
  },
  log actor.actor_type actor.actor_id
      (if issued.already_existed then "payment.approve.duplicate" else "payment.approved") o.id
      (if issued.already_existed then db else complete_order db now o issued),
)

-- The row of an order's plan.
unfoldable pub plan_of : Db → Order → Option Plan
plan_of db o = find (λ p. p.id == o.plan_id) db.plans

-- approve. `met` are the tables that the license's create meets; the new license's id and its random
-- key are given. The order's plan is a row, by its foreign key.
module _ (hash : List ℕ → ℕ) where
  -- From the issue of a license on.
  unfoldable pub approve_fresh :
      Db
      → Db
      → ℕ
      → ℕ
      → List ℕ
      → PaymentActorContext
      → Order
      → Plan
      → Result (PaymentApprovalResult × Db)
  approve_fresh db met now id raw actor o plan = do
    check_approvable db o
    (issued, after) ← issue_license hash db met now id raw (approval_input db o plan)
    ok (settle_approval after now actor o issued)

  unfoldable pub approve_order :
      Db
      → Db
      → ℕ
      → ℕ
      → List ℕ
      → PaymentActorContext
      → Order
      → Plan
      → Result (PaymentApprovalResult × Db)
  approve_order db met now id raw actor o plan = elim (license_of_order db o.id) [
    | some l ↦ ok (approve_duplicate db now actor o l)
    | none ↦ approve_fresh db met now id raw actor o plan
  ]

  unfoldable pub approve :
      Db → Db → ℕ → ℕ → List ℕ → ℕ → PaymentActorContext → Result (PaymentApprovalResult × Db)
  approve db met now id raw order_id actor = do
    o ← or_throw (order_of db order_id) order_not_found
    plan ← or_throw (plan_of db o) plan_not_found
    approve_order db met now id raw actor o plan
