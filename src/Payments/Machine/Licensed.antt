-- ===== src/Payments/Machine/Licensed.antt =====
-- The license of an order under the methods on orders.
use ruznamo_backend.Common.{
  ℕ, ◌≡◌, refl, some, List, ok, ◌∙◌, ◌==◌, ◌||◌, not, find, is_id, Option-cases, Bool-cases,
  Result-cases, inl, inr, >>=-eq-ok, or_throw, throw_if, ok-injective, plan_not_found,
  plan_not_available,
}
use ruznamo_backend.Common.Counting.{find-insert_old}
use ruznamo_backend.Db.{
  Db, Order, Plan, License, BillingPeriod, is_order_rejected, is_order_completed, is_order_approved,
  log,
}
use ruznamo_backend.Licenses.Key.{normalize_key}
use ruznamo_backend.Licenses.Issuance.{
  IssueLicenseInput, IssuedLicense, license_of_order, new_license,
}
use ruznamo_backend.Licenses.Issuance.Once.{Wrote, nothing, one, issue-Wrote}
use ruznamo_backend.Payments.Prices.{is_plan_available_for_purchase, get_plan_price}
use ruznamo_backend.Payments.Orders.{
  order_of, of_user, existing_pending, create_order, find_or_create_pending_order,
  cancel_stale_pending_purchases, start_payment_flow, PaymentMethod,
  attach_payment_method_and_await_receipt, cancel_pending_order,
}
use ruznamo_backend.Payments.Receipts.{
  ReceiptInput, receipt_of_update, is_eligible, record_receipt, submit_receipt,
}
use ruznamo_backend.Payments.Rejection.{RejectReasonInput}
use ruznamo_backend.Payments.Refusal.{reject, write_rejection}
use ruznamo_backend.Payments.Approval.{
  PaymentActorContext, PaymentApprovalResult, approval_input, approve,
}
use ruznamo_backend.Payments.Approval.Run.{Ran, duplicate, issued, approve-Ran}
use ruznamo_backend.Payments.Approval.Written.{settled_new, duplicate_frame, license_of_order-ext}
use ruznamo_backend.Payments.Machine.{
  Step, starts, attaches, cancels, submits, approves, rejects, Reach, here, next, kept,
}
use mathlib.Core.Path.{sym, ap}

create-licenses :
    (db : Db) (now id user_id plan_id : ℕ) (period : BillingPeriod) (x : Order) (after : Db)
    → create_order db now id user_id plan_id period ≡ ok (x, after)
    → after.licenses ≡ db.licenses
unfolding create_order log
create-licenses db now id user_id plan_id period x after h =
    let (plan, e₁, h₁) =
      >>=-eq-ok (or_throw (find (λ (p : Plan). p.id == plan_id) db.plans) plan_not_found) _ h in
    let (u, e₂, h₂) =
      >>=-eq-ok (throw_if (not (is_plan_available_for_purchase db plan.code)) plan_not_available) _
        h₁ in
    let (quote, e₃, h₃) = >>=-eq-ok (get_plan_price db plan.code period) _ h₂ in
    ap (λ p. p.1.licenses) (sym (ok-injective h₃))

found-licenses :
    (db : Db) (now id user_id plan_id : ℕ) (period : BillingPeriod) (x : Order) (after : Db)
    → find_or_create_pending_order db now id user_id plan_id period ≡ ok (x, after)
    → after.licenses ≡ db.licenses
unfolding find_or_create_pending_order
found-licenses db now id user_id plan_id period x after h =
    elim (Option-cases (existing_pending db user_id plan_id period)) [
      | inr (o, there) ↦
          ap (λ p. p.1.licenses)
            (sym (ok-injective (rw (there, find_or_create_pending_order) at h)))
      | inl missing ↦
          create-licenses db now id user_id plan_id period x after
            (rw (missing, find_or_create_pending_order) at h)
    ]

module _ (db : Db) where
  start-licenses :
      (now id user_id plan_id : ℕ) (period : BillingPeriod)
      → (start_payment_flow now id user_id plan_id period db).1.licenses ≡ db.licenses
  unfolding start_payment_flow cancel_stale_pending_purchases
  start-licenses now id user_id plan_id period =
      let swept = cancel_stale_pending_purchases db now user_id plan_id period in
      elim (Result-cases (find_or_create_pending_order swept now id user_id plan_id period)) [
        | inl (e, failed) ↦ rw (failed, start_payment_flow) refl
        | inr (p, went) ↦
            rw (went, start_payment_flow)
              (found-licenses swept now id user_id plan_id period p.0 p.1 went)
      ]

  attach-licenses :
      (now order_id user_id : ℕ) (m : PaymentMethod)
      → (kept db (attach_payment_method_and_await_receipt db now order_id user_id m)).licenses
        ≡ db.licenses
  unfolding attach_payment_method_and_await_receipt
  attach-licenses now order_id user_id m =
      elim (Option-cases (find (of_user order_id user_id) db.orders)) [
        | inl missing ↦ rw missing refl
        | inr (x, there) ↦ rw there refl
      ]

  submit-licenses :
      (now id : ℕ) (input : ReceiptInput)
      → (kept db (submit_receipt db now id input)).licenses ≡ db.licenses
  unfolding submit_receipt record_receipt log
  submit-licenses now id input =
      elim (Option-cases (receipt_of_update db input.telegram_update_id)) [
        | inr (r, seen) ↦ rw (seen, kept) refl
        | inl unseen ↦
            rw (unseen, kept)
              (elim (Option-cases (find (is_eligible input) db.orders)) [
                | inl missing ↦ rw missing refl
                | inr (x, there) ↦ rw there refl
              ])
      ]

  reject-licenses :
      (now order_id : ℕ) (actor : PaymentActorContext) (input : RejectReasonInput)
      → (kept db (reject db db now order_id actor input)).licenses ≡ db.licenses
  unfolding reject write_rejection log
  reject-licenses now order_id actor input = elim (Option-cases (order_of db order_id)) [
    | inl missing ↦ rw missing refl
    | inr (x, there) ↦ rw there (elim (Bool-cases (is_order_rejected x.status)) [
      | inl done ↦ rw done refl
      | inr live ↦
          rw live (elim (Bool-cases (is_order_completed x.status || is_order_approved x.status)) [
            | inl closed ↦ rw closed refl
            | inr open' ↦ rw open' refl
          ])
    ])
  ]

cancel-licenses :
    (db : Db) (now user_id order_id : ℕ)
    → (cancel_pending_order db now user_id order_id).licenses ≡ db.licenses
unfolding cancel_pending_order
cancel-licenses db now user_id order_id = refl

Wrote-keeps :
    (db : Db) (key_hash now id : ℕ) (key : List ℕ) (input : IssueLicenseInput) (r : IssuedLicense)
    (after : Db) (k : ℕ) (l : License)
    → license_of_order db k ≡ some l
    → Wrote db key_hash now id key input r after
    → license_of_order after k ≡ some l
unfolding license_of_order
Wrote-keeps db key_hash now id key input r after k l there
      (nothing m j at' there' same_id old same) =
    rw same there
Wrote-keeps db key_hash now id key input r after k l there (one fits new_id new same_key written) =
    rw written (
      find-insert_old (λ m. is_id m.order_id k) (new_license now id key_hash key input) db.licenses
        l there)

pub ran-keeps :
    (hash : List ℕ → ℕ) (db : Db) (now id : ℕ) (raw : List ℕ) (order_id : ℕ)
    (actor : PaymentActorContext) (x : Order) (r : PaymentApprovalResult) (db' : Db) (k : ℕ)
    (l : License)
    → license_of_order db k ≡ some l
    → Ran hash db now id raw order_id actor x r db'
    → license_of_order db' k ≡ some l
ran-keeps hash db now id raw order_id actor x r db' k l there (duplicate m licensed e) =
    let (same_id, flag, orders, licenses, receipts, outbox, plans) =
      duplicate_frame db now actor x m r db' e in
    license_of_order-ext db' db k licenses ∙ there
ran-keeps hash db now id raw order_id actor x r db' k l there
      (issued plan i after free checked issue e) =
    let wrote = issue-Wrote hash db now id raw (approval_input db x plan) i after issue in
    let (same_id, same_key, same_flag, licenses, complete_if) =
      settled_new after now actor x i r db' e in
    license_of_order-ext db' after k licenses
    ∙ Wrote-keeps db _ now id (normalize_key raw) (approval_input db x plan) i after k l there wrote

approve-keeps :
    (hash : List ℕ → ℕ) (db : Db) (now id : ℕ) (raw : List ℕ) (order_id : ℕ)
    (actor : PaymentActorContext) (k : ℕ) (l : License)
    → license_of_order db k ≡ some l
    → license_of_order (kept db (approve hash db db now id raw order_id actor)) k ≡ some l
approve-keeps hash db now id raw order_id actor k l there =
    elim (Result-cases (approve hash db db now id raw order_id actor)) [
      | inl (e, failed) ↦ rw (failed, kept) there
      | inr (p, went) ↦
          let (x, found, ran) = approve-Ran hash db now id raw order_id actor p.0 p.1 went in
          rw (went, kept) (ran-keeps hash db now id raw order_id actor x p.0 p.1 k l there ran)
    ]

-- No method takes an order's license away or gives the order another one.
pub Step-keeps_license :
    (hash : List ℕ → ℕ) (db db' : Db) (k : ℕ) (l : License)
    → Step hash db db'
    → license_of_order db k ≡ some l
    → license_of_order db' k ≡ some l
Step-keeps_license hash db db' k l (starts d now id user_id plan_id period fresh) there =
    license_of_order-ext _ d k (start-licenses d now id user_id plan_id period) ∙ there
Step-keeps_license hash db db' k l (attaches d now order_id user_id m) there =
    license_of_order-ext _ d k (attach-licenses d now order_id user_id m) ∙ there
Step-keeps_license hash db db' k l (cancels d now user_id order_id) there =
    license_of_order-ext _ d k (cancel-licenses d now user_id order_id) ∙ there
Step-keeps_license hash db db' k l (submits d now id input) there =
    license_of_order-ext _ d k (submit-licenses d now id input) ∙ there
Step-keeps_license hash db db' k l (approves d now id raw order_id actor) there =
    approve-keeps hash d now id raw order_id actor k l there
Step-keeps_license hash db db' k l (rejects d now order_id actor input) there =
    license_of_order-ext _ d k (reject-licenses d now order_id actor input) ∙ there

-- Whatever methods follow, each run alone, an order that has a license keeps it as its license.
keeps_license :
    (hash : List ℕ → ℕ) (db db' : Db) (k : ℕ) (l : License)
    → Reach hash db db'
    → license_of_order db k ≡ some l
    → license_of_order db' k ≡ some l
keeps_license hash db db' k l here there = there
keeps_license hash db db' k l (next {mid} r st) there =
    Step-keeps_license hash mid db' k l st (keeps_license hash db mid k l r there)
