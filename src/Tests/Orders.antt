-- ===== src/Tests/Orders.antt =====
-- A run of methods on the orders.
use ruznamo_backend.Common.{find, ok, none, true, ◌≡◌, refl, some, codes, count, arith}
use ruznamo_backend.Db.{Db, Order}
use ruznamo_backend.Payments.Refusal.{reject, PaymentRejectionResult}
use ruznamo_backend.Payments.Orders.{order_of}
use ruznamo_backend.Payments.Rejection.{RejectReasonInput}
use ruznamo_backend.Payments.Machine.{Reach, Moves, submits, approves, rejects, here, next, kept}
use ruznamo_backend.Payments.Machine.Allowed.{IdsUnique}
use ruznamo_backend.Payments.Machine.Final.{Step-Moves, final_for_good}
use ruznamo_backend.Payments.Approval.{approve}
use ruznamo_backend.Payments.Receipts.{submit_receipt}
use ruznamo_backend.Tests.Shop.{
  shop, weigh, runs, clerk, pending_order, rejected_order, photo, value,
}
use ruznamo_backend.Payments.Machine.Completed.{completed_licensed, CompletedLicensed}

-- The receipt of order 52 comes in, the order is approved, and order 53 is rejected again.
abbrev received : Db
received = kept shop (submit_receipt shop 1000 62 photo)

abbrev paid : Db
paid = kept received (approve weigh received received 2000 35 (codes "ff01") 52 clerk)

abbrev refused : Db
refused = kept paid (reject paid paid 3000 53 clerk (RejectReasonInput.text (codes "no")))

unique : IdsUnique shop.orders
unfolding count
unique k = ground arith

pending_found : order_of shop 52 ≡ some pending_order
unfolding runs
pending_found = refl

rejected_found : order_of shop 53 ≡ some rejected_order
unfolding runs
rejected_found = refl

Step-Moves_example :
    (o' : Order) × (order_of received 52 ≡ some o') × Moves pending_order.status o'.status
Step-Moves_example =
    Step-Moves weigh shop received 52 pending_order (submits shop 1000 62 photo) unique
      pending_found

reached : Reach weigh shop refused
reached =
    next
      (next (next here (submits shop 1000 62 photo))
        (approves received 2000 35 (codes "ff01") 52 clerk))
      (rejects paid 3000 53 clerk (RejectReasonInput.text (codes "no")))

final_for_good_example :
    ((o' : Order) × (order_of refused 53 ≡ some o') × (o'.status ≡ rejected_order.status))
    × IdsUnique refused.orders
final_for_good_example =
    final_for_good weigh shop refused 53 rejected_order reached unique rejected_found tt

abbrev unanswered : PaymentRejectionResult
unanswered = record {
  order_id = 0;
  already_processed = true;
  reason_code = none;
  reason_text = none;
}

abbrev turned_down : PaymentRejectionResult × Db
turned_down =
    value (unanswered, shop)
      (reject shop shop 1000 52 clerk (RejectReasonInput.text (codes "amount_mismatch")))

turning_down :
    reject shop shop 1000 52 clerk (RejectReasonInput.text (codes "amount_mismatch"))
    ≡ ok (turned_down.0, turned_down.1)
unfolding runs
turning_down = refl

none_completed : CompletedLicensed shop
unfolding order_of find
none_completed id o found done = absurd (ground arith)

completed_licensed_example : CompletedLicensed refused
completed_licensed_example = completed_licensed weigh shop refused reached none_completed
