-- ===== src/Payments/Receipts/Once.antt =====
-- A receipt message that Telegram delivers again.
use ruznamo_backend.Common.{
  arith, ℕ, ◌≡◌, refl, true, none, some, ok, ◌==◌, or_throw, >>=-eq-ok, ok-injective, Option-cases,
  inl, inr, find, ==_refl, no_eligible_order,
}
use ruznamo_backend.Common.Counting.{find-insert}
use ruznamo_backend.Db.{Db, Order, Receipt}
use ruznamo_backend.Payments.Orders.{order_of}
use ruznamo_backend.Payments.Receipts.{
  ReceiptInput, Submitted, receipt_of_update, is_eligible, new_receipt, record_receipt,
  submit_receipt,
}
use mathlib.Core.Path.{sym, subst}

recorded_receipt :
    (db : Db) (now id : ℕ) (input : ReceiptInput) (o : Order)
    → receipt_of_update db input.telegram_update_id ≡ none
    → receipt_of_update (record_receipt db now id input o) input.telegram_update_id
      ≡ some (new_receipt id o.id input)
unfolding receipt_of_update record_receipt
recorded_receipt db now id input o free =
    find-insert (λ r. r.telegram_update_id == input.telegram_update_id) (new_receipt id o.id input)
      db.receipts free (==_refl input.telegram_update_id)

submitted_receipt :
    (db : Db) (now id : ℕ) (input : ReceiptInput) (s : Submitted) (db' : Db)
    → submit_receipt db now id input ≡ ok (s, db')
    → receipt_of_update db' input.telegram_update_id ≡ some s.receipt
unfolding submit_receipt
submitted_receipt db now id input s db' h =
    elim (Option-cases (receipt_of_update db input.telegram_update_id)) [
      | inr (r, there) ↦ ground (arith, there)
      | inl free ↦
          let (o, found, e) =
            >>=-eq-ok (or_throw (find (is_eligible input) db.orders) no_eligible_order) _
              (rw (free, submit_receipt) at h) in
          let stored = recorded_receipt db now id input o free in
          let both = ok-injective e in ground (arith, stored, both)
    ]

submit_known :
    (db : Db) (now id : ℕ) (input : ReceiptInput) (r : Receipt)
    → receipt_of_update db input.telegram_update_id ≡ some r
    → submit_receipt db now id input
      ≡ ok (record { receipt = r; order = order_of db r.order_id; duplicate = true }, db)
unfolding submit_receipt
submit_known db now id input r h = rw (h, submit_receipt) refl

-- After a receipt message was handled, a message with the same update id answers the stored
-- receipt, as a duplicate, and changes nothing.
submit-again :
    (db : Db) (now id : ℕ) (input again : ReceiptInput) (s : Submitted) (db' : Db) (later id' : ℕ)
    → submit_receipt db now id input ≡ ok (s, db')
    → again.telegram_update_id ≡ input.telegram_update_id
    → (s' : Submitted) × (submit_receipt db' later id' again ≡ ok (s', db'))
      × (s'.duplicate ≡ true)
      × (s'.receipt ≡ s.receipt)
submit-again db now id input again s db' later id' h same =
    let stored = submitted_receipt db now id input s db' h in
    (
      record { receipt = s.receipt; order = order_of db' s.receipt.order_id; duplicate = true },
      submit_known db' later id' again s.receipt
          (subst (λ k. receipt_of_update db' k ≡ some s.receipt) (sym same) stored),
      refl,
      refl,
    )
