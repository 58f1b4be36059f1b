-- ===== src/Payments/Machine/Status.antt =====
-- The moves of an order's status, one method at a time.
use ruznamo_backend.Common.{
  ap, not, ℕ, ◌≡◌, refl, true, false, some, List, arith, find, ◌&&◌, ◌||◌, inl, inr, Bool-cases,
  Option-cases, Result-cases, find_sound,
}
use ruznamo_backend.Common.Counting.{find-narrow}
use ruznamo_backend.Db.{Db, Order, OrderStatus}
use ruznamo_backend.Db.{
  is_order_pending, is_order_submitted, is_order_under_review, is_order_completed,
  is_order_approved, is_order_rejected, BillingPeriod,
}
use ruznamo_backend.Payments.Refusal.{reject, write_rejection, reject_order}
use ruznamo_backend.Payments.Orders.{
  has_id, order_of, of_user, attach, cancel, is_stale, cancel_stale_pending_purchases,
  PaymentMethod, attach_payment_method_and_await_receipt, cancel_pending_order,
}
use ruznamo_backend.Licenses.Issuance.{IssuedLicense}
use ruznamo_backend.Payments.Approval.{
  approve_duplicate, PaymentApprovalResult, settle_approval, approve, approval_input,
}
use ruznamo_backend.Payments.Approval.Run.{Ran, duplicate, issued, approve-Ran}
use ruznamo_backend.Licenses.Issuance.Once.{issue-Wrote, Wrote-frame}
use ruznamo_backend.Licenses.Key.{normalize_key}
use ruznamo_backend.Db.{log}
use ruznamo_backend.Payments.Rejection.{RejectReasonInput, RejectReason, normalize_reject_reason}
use ruznamo_backend.Payments.Approval.{PaymentActorContext, complete_order, complete}
use ruznamo_backend.Payments.Receipts.{
  ReceiptInput, is_eligible, record_receipt, submit_receipt, receipt_of_update,
}
use ruznamo_backend.Payments.Receipts
use ruznamo_backend.Payments.Machine.{Moves, stays, cancelled, kept}
use ruznamo_backend.Payments.Machine.Allowed.{
  Moved, Moved-by, IdsUnique, submit_status, approve_status, reject_status, checked_status,
}

module _ (db : Db) (id : ℕ) (o : Order) (found : find (has_id id) db.orders ≡ some o) where
  pub attach_moves :
      (now order_id user_id : ℕ) (m : PaymentMethod)
      → Moved o id
          (kept db (attach_payment_method_and_await_receipt db now order_id user_id m)).orders
  unfolding attach_payment_method_and_await_receipt
  attach_moves now order_id user_id m =
      elim (Option-cases (find (of_user order_id user_id) db.orders)) [
        | inl missing ↦ rw missing (o, found, stays o.status)
        | inr (x, there) ↦ rw there (
            Moved-by (of_user order_id user_id) (attach now m) db.orders id o (λ y. refl)
              (λ _. stays o.status) found)
      ]

  pending_cancels :
      (now : ℕ) → is_order_pending o.status ≡ true → Moves o.status OrderStatus.cancelled
  pending_cancels now h = let e : o.status ≡ OrderStatus.pending = ground arith in rw e cancelled

  pub cancel_moves :
      (now user_id order_id : ℕ) → Moved o id (cancel_pending_order db now user_id order_id).orders
  unfolding cancel_pending_order
  cancel_moves now user_id order_id =
      Moved-by (λ x. of_user order_id user_id x && is_order_pending x.status) (cancel now) db.orders
        id o (λ y. refl) (λ h. pending_cancels now (ground arith)) found

  pub sweep_moves :
      (now user_id plan_id : ℕ) (period : BillingPeriod)
      → Moved o id (cancel_stale_pending_purchases db now user_id plan_id period).orders
  unfolding cancel_stale_pending_purchases
  sweep_moves now user_id plan_id period =
      Moved-by (is_stale db user_id plan_id period) (cancel now) db.orders id o (λ y. refl)
        (λ h. pending_cancels now (stale_pending h)) found
    where
      stale_pending : is_stale db user_id plan_id period o ≡ true → is_order_pending o.status ≡ true
      stale_pending h = ground arith

  submitted_moves :
      (is_order_pending o.status || is_order_submitted o.status) ≡ true
      → Moves o.status OrderStatus.under_review
  submitted_moves h = submit_status o.status h

  -- The eligible order, if it has this id, is this one.
  eligible_status :
      (input : ReceiptInput) (x : Order)
      → IdsUnique db.orders
      → find (is_eligible input) db.orders ≡ some x
      → has_id x.id o ≡ true
      → (is_order_pending o.status || is_order_submitted o.status) ≡ true
  unfolding is_eligible
  eligible_status input x unique there h =
      let at_x : is_eligible input x ≡ true = find_sound (is_eligible input) db.orders there in
      let at_o = find_sound (has_id id) db.orders found in
      let e : input.order_id ≡ id = ground arith in
      let same =
        find-narrow (has_id id) (is_eligible input) db.orders x (unique id) (λ y k. ground arith)
          there in
      let e' : o ≡ x = ground arith in rw e' (ground arith)

  record_moves :
      (now new : ℕ) (input : ReceiptInput) (x : Order)
      → IdsUnique db.orders
      → find (is_eligible input) db.orders ≡ some x
      → Moved o id (record_receipt db now new input x).orders
  unfolding record_receipt
  record_moves now new input x unique there =
      Moved-by (has_id x.id) (Receipts.under_review now) db.orders id o (λ y. refl)
        (λ h. submitted_moves (eligible_status input x unique there h)) found

  pub submit_moves :
      (now new : ℕ) (input : ReceiptInput)
      → IdsUnique db.orders
      → Moved o id (kept db (submit_receipt db now new input)).orders
  unfolding submit_receipt
  submit_moves now new input unique =
      elim (Option-cases (receipt_of_update db input.telegram_update_id)) [
        | inr (r, seen) ↦ rw (seen, kept) (o, found, stays o.status)
        | inl unseen ↦
            rw (unseen, kept)
              (elim (Option-cases (find (is_eligible input) db.orders)) [
                | inl missing ↦ rw missing (o, found, stays o.status)
                | inr (x, there) ↦ rw there (record_moves now new input x unique there)
              ])
      ]

  -- An order that is found by its id, if it has this id, is this one.
  same_order :
      (order_id : ℕ) (x : Order) → order_of db order_id ≡ some x → has_id x.id o ≡ true → o ≡ x
  unfolding order_of
  same_order order_id x there h =
      let at_x = find_sound (has_id order_id) db.orders there in
      let at_o = find_sound (has_id id) db.orders found in
      let e : order_id ≡ id = ground arith in
      ground (arith, ap (λ (n : ℕ). find (has_id n) db.orders) e)

  write_moves :
      (now order_id : ℕ) (x : Order) (reason : RejectReason)
      → order_of db order_id ≡ some x
      → is_order_rejected x.status ≡ false
      → (is_order_completed x.status || is_order_approved x.status) ≡ false
      → Moved o id (write_rejection db now x reason).orders
  unfolding write_rejection
  write_moves now order_id x reason there live open' =
      Moved-by (has_id x.id) (reject_order now reason) db.orders id o (λ y. refl)
        (λ h. let e = same_order order_id x there h in rw e (reject_status x.status live open'))
        found

  pub reject_moves :
      (now order_id : ℕ) (actor : PaymentActorContext) (input : RejectReasonInput)
      → Moved o id (kept db (reject db db now order_id actor input)).orders
  unfolding reject
  reject_moves now order_id actor input = elim (Option-cases (order_of db order_id)) [
    | inl missing ↦ rw missing (o, found, stays o.status)
    | inr (x, there) ↦ rw there (elim (Bool-cases (is_order_rejected x.status)) [
      | inl done ↦ rw done (o, found, stays o.status)
      | inr live ↦
          rw live (elim (Bool-cases (is_order_completed x.status || is_order_approved x.status)) [
            | inl closed ↦ rw closed (o, found, stays o.status)
            | inr open' ↦
                rw open'
                  (write_moves now order_id x (normalize_reject_reason input) there live open')
          ])
    ])
  ]

  complete_moves :
      (now order_id : ℕ) (x : Order) (i : IssuedLicense) (after : Db)
      → order_of db order_id ≡ some x
      → (not (is_order_under_review x.status) && not (is_order_submitted x.status)) ≡ false
      → after.orders ≡ db.orders
      → Moved o id (complete_order after now x i).orders
  unfolding complete_order
  complete_moves now order_id x i after there eligible same = rw same (
      Moved-by (has_id x.id) (complete now) db.orders id o (λ y. refl)
        (λ h. let e = same_order order_id x there h in rw e (approve_status x.status eligible))
        found)

  settle_moves :
      (now order_id : ℕ) (actor : PaymentActorContext) (x : Order) (i : IssuedLicense) (after : Db)
      (r : PaymentApprovalResult) (db' : Db)
      → order_of db order_id ≡ some x
      → (not (is_order_under_review x.status) && not (is_order_submitted x.status)) ≡ false
      → after.orders ≡ db.orders
      → settle_approval after now actor x i ≡ (r, db')
      → Moved o id db'.orders
  unfolding settle_approval log
  settle_moves now order_id actor x i after r db' there eligible same e =
      elim (Bool-cases i.already_existed) [
        | inl old ↦
            let orders : db'.orders ≡ db.orders = ground arith in
            rw orders (o, found, stays o.status)
        | inr new ↦
            let orders : db'.orders ≡ (complete_order after now x i).orders = ground arith in
            rw orders (complete_moves now order_id x i after there eligible same)
      ]

  ran_moves :
      (hash : List ℕ → ℕ) (now new : ℕ) (raw : List ℕ) (order_id : ℕ) (actor : PaymentActorContext)
      (x : Order) (r : PaymentApprovalResult) (db' : Db)
      → order_of db order_id ≡ some x
      → Ran hash db now new raw order_id actor x r db'
      → Moved o id db'.orders
  unfolding approve_duplicate log
  ran_moves hash now new raw order_id actor x r db' there (duplicate l licensed e) =
      let orders : db'.orders ≡ db.orders = ground arith in rw orders (o, found, stays o.status)
  ran_moves hash now new raw order_id actor x r db' there
        (issued plan i after free checked issue e) =
      let wrote = issue-Wrote hash db now new raw (approval_input db x plan) i after issue in
      let (orders, receipts, outbox, plans) =
        Wrote-frame db _ now new (normalize_key raw) (approval_input db x plan) i after wrote in
      settle_moves now order_id actor x i after r db' there (checked_status db x checked) orders e

  pub approve_moves :
      (hash : List ℕ → ℕ) (now new : ℕ) (raw : List ℕ) (order_id : ℕ) (actor : PaymentActorContext)
      → Moved o id (kept db (approve hash db db now new raw order_id actor)).orders
  approve_moves hash now new raw order_id actor =
      elim (Result-cases (approve hash db db now new raw order_id actor)) [
        | inl (e, failed) ↦ rw (failed, kept) (o, found, stays o.status)
        | inr (p, went) ↦
            let (x, there, ran) = approve-Ran hash db now new raw order_id actor p.0 p.1 went in
            rw (went, kept) (ran_moves hash now new raw order_id actor x p.0 p.1 there ran)
      ]
