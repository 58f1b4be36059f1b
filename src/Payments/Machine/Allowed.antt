-- ===== src/Payments/Machine/Allowed.antt =====
-- The statuses that the methods may set, from those that they accept.
use ruznamo_backend.Common.{
  ok, ◌∙◌, ap, not, ℕ, ◌≡◌, ◌≤◌, Bool, true, false, some, List, arith, find, count, update_where,
  ◌==◌, ◌&&◌, ◌||◌, inl, inr, Bool-cases,
}
use ruznamo_backend.Common.Counting.{find-update_where}
use ruznamo_backend.Db.{Db, Order, OrderStatus}
use ruznamo_backend.Db.{
  is_order_pending, is_order_submitted, is_order_under_review, is_order_completed,
  is_order_approved, is_order_rejected,
}
use ruznamo_backend.Payments.Orders.{has_id}
use ruznamo_backend.Payments.Approval.{check_approvable}
use ruznamo_backend.Payments.Machine.{
  Moves, stays, submitted, resubmitted, approved, approved_unreviewed, rejected_pending,
  rejected_submitted, rejected_reviewed, rejected_cancelled,
}

-- The order of an id is still there, and its status moved as it may.
abbrev pub Moved : Order → ℕ → List Order → Type 0
Moved o id orders = (o' : Order) × (find (has_id id) orders ≡ some o') × Moves o.status o'.status

pub Moved-by :
    (q : Order → Bool) (f : Order → Order) (orders : List Order) (id : ℕ) (o : Order)
    → ((x : Order) → (f x).id ≡ x.id)
    → (q o ≡ true → Moves o.status (f o).status)
    → find (has_id id) orders ≡ some o
    → Moved o id (update_where q f orders)
Moved-by q f orders id o same move found =
    let after = find-update_where (has_id id) q f orders (λ x. ap (λ (n : ℕ). n == id) (same x)) in
    elim (Bool-cases (q o)) [
      | inl touched ↦ (f o, after ∙ rw found (rw touched), move touched)
      | inr untouched ↦ (o, after ∙ rw found (rw untouched), stays o.status)
    ]

-- At most one order for each id (the primary key).
abbrev pub IdsUnique : List Order → Type 0
IdsUnique orders = (id : ℕ) → count (has_id id) orders ≤ 1

pub submit_status :
    (s : OrderStatus)
    → (is_order_pending s || is_order_submitted s) ≡ true
    → Moves s OrderStatus.under_review
submit_status OrderStatus.pending h = submitted
submit_status OrderStatus.receipt_submitted h = resubmitted
submit_status _ h = absurd (cc)

pub approve_status :
    (s : OrderStatus)
    → (not (is_order_under_review s) && not (is_order_submitted s)) ≡ false
    → Moves s OrderStatus.completed
approve_status OrderStatus.under_review h = approved
approve_status OrderStatus.receipt_submitted h = approved_unreviewed
approve_status _ h = absurd (cc)

pub reject_status :
    (s : OrderStatus)
    → is_order_rejected s ≡ false
    → (is_order_completed s || is_order_approved s) ≡ false
    → Moves s OrderStatus.rejected
reject_status OrderStatus.pending h k = rejected_pending
reject_status OrderStatus.receipt_submitted h k = rejected_submitted
reject_status OrderStatus.under_review h k = rejected_reviewed
reject_status OrderStatus.cancelled h k = rejected_cancelled
reject_status _ h k = absurd (cc)

pub checked_status :
    (db : Db) (x : Order)
    → check_approvable db x ≡ ok tt
    → (not (is_order_under_review x.status) && not (is_order_submitted x.status)) ≡ false
unfolding check_approvable
checked_status db x h = ground arith
