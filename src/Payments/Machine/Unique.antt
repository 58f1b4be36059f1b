-- ===== src/Payments/Machine/Unique.antt =====
-- One order for each id, under every method.
use ruznamo_backend.Common.{
  ◌==◌, ◌&&◌, ap, ℕ, ◌≡◌, refl, Bool, List, arith, find, update_where, Result-cases, Option-cases,
  Bool-cases, inl, inr, ◌||◌,
}
use ruznamo_backend.Common.Counting.{count-update_same}
use ruznamo_backend.Db.{
  Db, Order, is_order_pending, is_order_rejected, is_order_completed, is_order_approved, log,
}
use ruznamo_backend.Licenses.Key.{normalize_key}
use ruznamo_backend.Licenses.Issuance.{IssuedLicense}
use ruznamo_backend.Licenses.Issuance.Once.{issue-Wrote, Wrote-frame}
use ruznamo_backend.Payments.Refusal.{reject, write_rejection, reject_order}
use ruznamo_backend.Payments.Orders.{
  has_id, order_of, of_user, attach, cancel, PaymentMethod, attach_payment_method_and_await_receipt,
  cancel_pending_order,
}
use ruznamo_backend.Payments.Receipts.{
  ReceiptInput, is_eligible, record_receipt, submit_receipt, receipt_of_update, under_review,
}
use ruznamo_backend.Payments.Rejection.{RejectReasonInput, RejectReason, normalize_reject_reason}
use ruznamo_backend.Payments.Approval.{
  PaymentActorContext, PaymentApprovalResult, approve, approve_duplicate, settle_approval,
  complete_order, complete, approval_input,
}
use ruznamo_backend.Payments.Approval.Run.{Ran, duplicate, issued, approve-Ran}
use ruznamo_backend.Payments.Machine.{
  Step, starts, attaches, cancels, submits, approves, rejects, kept,
}
use ruznamo_backend.Payments.Machine.Allowed.{IdsUnique}
use ruznamo_backend.Payments.Machine.Start.{start-IdsUnique}

updated-IdsUnique :
    (q : Order → Bool) (f : Order → Order) (orders : List Order)
    → ((x : Order) → (f x).id ≡ x.id)
    → IdsUnique orders
    → IdsUnique (update_where q f orders)
updated-IdsUnique q f orders same unique id = omega (
  arith,
  count-update_same (has_id id) q f orders (λ x h. ap (λ (n : ℕ). n == id) (same x)),
  unique id,
)

module _ (db : Db) (unique : IdsUnique db.orders) where
  attach-IdsUnique :
      (now order_id user_id : ℕ) (m : PaymentMethod)
      → IdsUnique
          (kept db (attach_payment_method_and_await_receipt db now order_id user_id m)).orders
  unfolding attach_payment_method_and_await_receipt
  attach-IdsUnique now order_id user_id m =
      elim (Option-cases (find (of_user order_id user_id) db.orders)) [
        | inl missing ↦ rw missing unique
        | inr (x, there) ↦ rw there (
            updated-IdsUnique (of_user order_id user_id) (attach now m) db.orders (λ y. refl)
              unique)
      ]

  cancel-IdsUnique :
      (now user_id order_id : ℕ) → IdsUnique (cancel_pending_order db now user_id order_id).orders
  unfolding cancel_pending_order
  cancel-IdsUnique now user_id order_id =
      updated-IdsUnique (λ x. of_user order_id user_id x && is_order_pending x.status) (cancel now)
        db.orders (λ y. refl) unique

  record-IdsUnique :
      (now new : ℕ) (input : ReceiptInput) (x : Order)
      → IdsUnique (record_receipt db now new input x).orders
  unfolding record_receipt
  record-IdsUnique now new input x =
      updated-IdsUnique (has_id x.id) (under_review now) db.orders (λ y. refl) unique

  submit-IdsUnique :
      (now new : ℕ) (input : ReceiptInput)
      → IdsUnique (kept db (submit_receipt db now new input)).orders
  unfolding submit_receipt
  submit-IdsUnique now new input =
      elim (Option-cases (receipt_of_update db input.telegram_update_id)) [
        | inr (r, seen) ↦ rw (seen, kept) unique
        | inl unseen ↦
            rw (unseen, kept)
              (elim (Option-cases (find (is_eligible input) db.orders)) [
                | inl missing ↦ rw missing unique
                | inr (x, there) ↦ rw there (record-IdsUnique now new input x)
              ])
      ]

  write-IdsUnique :
      (now : ℕ) (x : Order) (reason : RejectReason)
      → IdsUnique (write_rejection db now x reason).orders
  unfolding write_rejection
  write-IdsUnique now x reason =
      updated-IdsUnique (has_id x.id) (reject_order now reason) db.orders (λ y. refl) unique

  reject-IdsUnique :
      (now order_id : ℕ) (actor : PaymentActorContext) (input : RejectReasonInput)
      → IdsUnique (kept db (reject db db now order_id actor input)).orders
  unfolding reject
  reject-IdsUnique now order_id actor input = elim (Option-cases (order_of db order_id)) [
    | inl missing ↦ rw missing unique
    | inr (x, there) ↦ rw there (elim (Bool-cases (is_order_rejected x.status)) [
      | inl done ↦ rw done unique
      | inr live ↦
          rw live (elim (Bool-cases (is_order_completed x.status || is_order_approved x.status)) [
            | inl closed ↦ rw closed unique
            | inr open' ↦ rw open' (write-IdsUnique now x (normalize_reject_reason input))
          ])
    ])
  ]

  settle-IdsUnique :
      (now : ℕ) (actor : PaymentActorContext) (x : Order) (i : IssuedLicense) (after : Db)
      (r : PaymentApprovalResult) (db' : Db)
      → after.orders ≡ db.orders
      → settle_approval after now actor x i ≡ (r, db')
      → IdsUnique db'.orders
  unfolding settle_approval log complete_order
  settle-IdsUnique now actor x i after r db' same e = elim (Bool-cases i.already_existed) [
    | inl old ↦ let orders : db'.orders ≡ db.orders = ground arith in rw orders unique
    | inr new ↦
        let orders : db'.orders ≡ update_where (has_id x.id) (complete now) after.orders =
          ground arith in
        rw (orders, same)
          (updated-IdsUnique (has_id x.id) (complete now) db.orders (λ y. refl) unique)
  ]

  ran-IdsUnique :
      (hash : List ℕ → ℕ) (now new : ℕ) (raw : List ℕ) (order_id : ℕ) (actor : PaymentActorContext)
      (x : Order) (r : PaymentApprovalResult) (db' : Db)
      → Ran hash db now new raw order_id actor x r db'
      → IdsUnique db'.orders
  unfolding approve_duplicate log
  ran-IdsUnique hash now new raw order_id actor x r db' (duplicate l licensed e) =
      let orders : db'.orders ≡ db.orders = ground arith in rw orders unique
  ran-IdsUnique hash now new raw order_id actor x r db' (issued plan i after free checked issue e) =
      let wrote = issue-Wrote hash db now new raw (approval_input db x plan) i after issue in
      let (orders, receipts, outbox, plans) =
        Wrote-frame db _ now new (normalize_key raw) (approval_input db x plan) i after wrote in
      settle-IdsUnique now actor x i after r db' orders e

  approve-IdsUnique :
      (hash : List ℕ → ℕ) (now new : ℕ) (raw : List ℕ) (order_id : ℕ) (actor : PaymentActorContext)
      → IdsUnique (kept db (approve hash db db now new raw order_id actor)).orders
  approve-IdsUnique hash now new raw order_id actor =
      elim (Result-cases (approve hash db db now new raw order_id actor)) [
        | inl (e, failed) ↦ rw (failed, kept) unique
        | inr (p, went) ↦
            let (x, there, ran) = approve-Ran hash db now new raw order_id actor p.0 p.1 went in
            rw (went, kept) (ran-IdsUnique hash now new raw order_id actor x p.0 p.1 ran)
      ]

-- No method gives two orders one id, where no two had one before.
pub Step-IdsUnique :
    (hash : List ℕ → ℕ) (db db' : Db)
    → Step hash db db'
    → IdsUnique db.orders
    → IdsUnique db'.orders
Step-IdsUnique hash db db' (starts db₁ now new user_id plan_id period fresh) unique =
    start-IdsUnique db now new user_id plan_id period fresh unique
Step-IdsUnique hash db db' (attaches db₁ now order_id user_id m) unique =
    attach-IdsUnique db unique now order_id user_id m
Step-IdsUnique hash db db' (cancels db₁ now user_id order_id) unique =
    cancel-IdsUnique db unique now user_id order_id
Step-IdsUnique hash db db' (submits db₁ now new input) unique =
    submit-IdsUnique db unique now new input
Step-IdsUnique hash db db' (approves db₁ now new raw order_id actor) unique =
    approve-IdsUnique db unique hash now new raw order_id actor
Step-IdsUnique hash db db' (rejects db₁ now order_id actor input) unique =
    reject-IdsUnique db unique now order_id actor input
