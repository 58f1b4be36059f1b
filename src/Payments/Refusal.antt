-- ===== src/Payments/Refusal.antt =====
-- `reject` of payments/payment-approval.service.ts: an administrator rejects a payment.
pub mod Again
use ruznamo_backend.Common.{
  ℕ, Bool, true, false, Option, some, List, ◌||◌, ◌==◌, if◌then◌else◌, update_where, Result, ok,
  ◌>>=◌, ◌>>◌, throw_if, or_throw, order_not_found, completed_cannot_be_rejected, String,
}
use ruznamo_backend.Db.{
  Db, Order, Receipt, OrderStatus, ReceiptStatus, is_order_completed, is_order_approved,
  is_order_rejected, log,
}
use ruznamo_backend.Payments.Orders.{has_id, order_of}
use ruznamo_backend.Payments.Rejection.{
  RejectReasonInput, RejectReason, normalize_reject_reason, code_name,
}
use ruznamo_backend.Payments.Approval.{PaymentActorContext}

pub record PaymentRejectionResult : Type 0 where
  pub order_id : ℕ
  pub already_processed : Bool
  pub reason_code : Option String
  pub reason_text : Option (List ℕ)

abbrev pub reject_order : ℕ → RejectReason → Order → Order
reject_order now reason o = record o {
  status = OrderStatus.rejected;
  rejected_at = some now;
  rejection_reason = some reason.text;
  rejection_reason_code = some (code_name reason.code);
  awaiting_receipt = false;
  updated_at = now;
}

abbrev pub reject_receipt : ℕ → RejectReason → Receipt → Receipt
reject_receipt now reason r = record r {
  status = ReceiptStatus.rejected;
  reviewed_at = some now;
  rejection_reason = some reason.text;
}

-- The transaction of `reject`.
unfoldable pub write_rejection : Db → ℕ → Order → RejectReason → Db
unfolding update_where
write_rejection db now o reason = record db {
  orders = update_where (has_id o.id) (reject_order now reason) db.orders;
  receipts = update_where (λ r. r.order_id == o.id) (reject_receipt now reason) db.receipts;
}

-- reject; it reads the order in the tables `db`, and its transaction writes on `met`.
unfoldable pub reject :
    Db → Db → ℕ → ℕ → PaymentActorContext → RejectReasonInput → Result (PaymentRejectionResult × Db)
unfolding log normalize_reject_reason
reject db met now order_id actor input = do
  o ← or_throw (order_of db order_id) order_not_found
  let reason = normalize_reject_reason input
  if is_order_rejected o.status
      then ok (
        record {
          order_id = o.id;
          already_processed = true;
          reason_code = o.rejection_reason_code;
          reason_text = o.rejection_reason;
        },
        met,
      )
      else do
        throw_if (is_order_completed o.status || is_order_approved o.status)
            completed_cannot_be_rejected
        ok (
          record {
            order_id = o.id;
            already_processed = false;
            reason_code = some (code_name reason.code);
            reason_text = some reason.text;
          },
          log actor.actor_type actor.actor_id "payment.rejected" o.id
              (write_rejection met now o reason),
        )
