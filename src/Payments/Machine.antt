-- ===== src/Payments/Machine.antt =====
-- The life of orders under the methods of payments/order.service.ts and
-- payments/payment-approval.service.ts, in any order and with any input.
pub mod Allowed
pub mod Status
pub mod Start
pub mod Unique
pub mod Licensed
pub mod Before
pub mod Completed
pub mod Final
pub mod Stuck
use ruznamo_backend.Common.{ℕ, ◌≡◌, List, Option, none, Bool, ◌==◌, Result, ok, err, find, is_id}
pub use ruznamo_backend.Db.{kept}
use ruznamo_backend.Db.{Db, Order, OrderStatus, BillingPeriod, License}
use ruznamo_backend.Payments.Refusal.{reject}
use ruznamo_backend.Payments.Orders.{
  order_of, start_payment_flow, PaymentMethod, attach_payment_method_and_await_receipt,
  cancel_pending_order,
}
use ruznamo_backend.Payments.Receipts.{ReceiptInput, submit_receipt}
use ruznamo_backend.Payments.Approval.{PaymentActorContext, approve}
use ruznamo_backend.Payments.Rejection.{RejectReasonInput}

-- One method. An order and a license are created under a new id.
pub data Step (hash : List ℕ → ℕ) : Db → Db → Type 0 where
  starts :
      (db : Db) (now id user_id plan_id : ℕ) (period : BillingPeriod)
      → order_of db id ≡ none
      → Step hash db (start_payment_flow now id user_id plan_id period db).1
  attaches :
      (db : Db) (now order_id user_id : ℕ) (m : PaymentMethod)
      → Step hash db (kept db (attach_payment_method_and_await_receipt db now order_id user_id m))
  cancels :
      (db : Db) (now user_id order_id : ℕ)
      → Step hash db (cancel_pending_order db now user_id order_id)
  submits :
      (db : Db) (now id : ℕ) (input : ReceiptInput)
      → Step hash db (kept db (submit_receipt db now id input))
  approves :
      (db : Db) (now id : ℕ) (raw : List ℕ) (order_id : ℕ) (actor : PaymentActorContext)
      → Step hash db (kept db (approve hash db db now id raw order_id actor))
  rejects :
      (db : Db) (now order_id : ℕ) (actor : PaymentActorContext) (input : RejectReasonInput)
      → Step hash db (kept db (reject db db now order_id actor input))

pub data Reach (hash : List ℕ → ℕ) (db : Db) : Db → Type 0 where
  here : Reach hash db db
  next : {mid db' : Db} → Reach hash db mid → Step hash mid db' → Reach hash db db'

-- How the code moves the status of an order. docs/PHASE-1-ARCHITECTURE.md has no rejection of an order
-- that is pending or cancelled, and completes one only from under review.
pub data Moves : OrderStatus → OrderStatus → Type 0 where
  stays : (s : OrderStatus) → Moves s s
  cancelled : Moves OrderStatus.pending OrderStatus.cancelled
  submitted : Moves OrderStatus.pending OrderStatus.under_review
  resubmitted : Moves OrderStatus.receipt_submitted OrderStatus.under_review
  approved : Moves OrderStatus.under_review OrderStatus.completed
  approved_unreviewed : Moves OrderStatus.receipt_submitted OrderStatus.completed
  rejected_pending : Moves OrderStatus.pending OrderStatus.rejected
  rejected_submitted : Moves OrderStatus.receipt_submitted OrderStatus.rejected
  rejected_reviewed : Moves OrderStatus.under_review OrderStatus.rejected
  rejected_cancelled : Moves OrderStatus.cancelled OrderStatus.rejected
