-- ===== src/Payments/Receipts.antt =====
-- `submitReceipt` of payments/order.service.ts.
pub mod Once
use ruznamo_backend.Common.{
  ℕ, Bool, true, false, Option, none, some, ◌&&◌, ◌||◌, ◌==◌, find, insert, update_where, Result,
  ok, ◌>>=◌, or_throw, no_eligible_order,
}
use ruznamo_backend.Db.{
  Db, Order, Receipt, OrderStatus, ReceiptStatus, ActorType, is_order_pending, is_order_submitted,
  log,
}
use ruznamo_backend.Payments.Orders.{has_id, order_of}

pub record ReceiptInput : Type 0 where
  pub order_id : ℕ
  pub user_id : ℕ
  pub telegram_file_id : ℕ
  pub telegram_update_id : ℕ

pub record Submitted : Type 0 where
  pub receipt : Receipt
  pub order : Option Order
  pub duplicate : Bool

-- The receipt of an update that was handled before.
unfoldable pub receipt_of_update : Db → ℕ → Option Receipt
unfolding find
receipt_of_update db update_id = find (λ r. r.telegram_update_id == update_id) db.receipts

-- The order that a receipt may be sent for.
unfoldable pub is_eligible : ReceiptInput → Order → Bool
is_eligible input o =
    o.id == input.order_id
    && o.user_id == input.user_id
    && (is_order_pending o.status || is_order_submitted o.status)
    && o.awaiting_receipt

abbrev pub new_receipt : ℕ → ℕ → ReceiptInput → Receipt
new_receipt id order_id input = record {
  id = id;
  order_id = order_id;
  telegram_file_id = input.telegram_file_id;
  telegram_update_id = input.telegram_update_id;
  status = ReceiptStatus.pending;
  reviewed_at = none;
  rejection_reason = none;
}

abbrev pub under_review : ℕ → Order → Order
under_review now o = record o {
  status = OrderStatus.under_review;
  awaiting_receipt = false;
  updated_at = now;
}

-- The transaction and the audit entry.
unfoldable pub record_receipt : Db → ℕ → ℕ → ReceiptInput → Order → Db
unfolding update_where log
record_receipt db now id input o =
    log ActorType.telegram_bot input.user_id "telegram.receipt.submitted" id (record db {
      receipts = insert (new_receipt id o.id input) db.receipts;
      orders = update_where (has_id o.id) (under_review now) db.orders;
    })

-- submitReceipt
unfoldable pub submit_receipt : Db → ℕ → ℕ → ReceiptInput → Result (Submitted × Db)
submit_receipt db now id input = elim (receipt_of_update db input.telegram_update_id) [
  | some r ↦ ok (record { receipt = r; order = order_of db r.order_id; duplicate = true }, db)
  | none ↦ do
    o ← or_throw (find (is_eligible input) db.orders) no_eligible_order
    ok (
      record {
        receipt = new_receipt id o.id input;
        order = some (under_review now o);
        duplicate = false;
      },
      record_receipt db now id input o,
    )
]
