-- ===== src/Payments/Refusal/Again.antt =====
-- A rejection that is repeated.
use ruznamo_backend.Common.{
  ℕ, ◌≡◌, refl, true, some, ok, ◌∙◌, ◌||◌, Bool-cases, inl, inr, >>=-eq-ok, or_throw,
  or_throw-eq-ok, throw_if, ok-injective, ==_refl, order_not_found, completed_cannot_be_rejected,
}
use ruznamo_backend.Common.Counting.{find-update_where}
use ruznamo_backend.Db.{Db, Order, is_order_rejected, is_order_completed, is_order_approved, log}
use ruznamo_backend.Payments.Orders.{has_id, order_of}
use ruznamo_backend.Payments.Rejection.{RejectReasonInput, RejectReason, normalize_reject_reason}
use ruznamo_backend.Payments.Approval.{PaymentActorContext}
use ruznamo_backend.Payments.Refusal.{PaymentRejectionResult, reject, reject_order, write_rejection}
use mathlib.Core.Path.{subst}

-- The order is stored as rejected, for the reason that was answered.
abbrev pub IsRejected : ℕ → PaymentRejectionResult → Db → Type 0
IsRejected order_id r db =
    (o : Order) × (order_of db order_id ≡ some o)
    × (is_order_rejected o.status ≡ true)
    × (o.rejection_reason_code ≡ r.reason_code)
    × (o.rejection_reason ≡ r.reason_text)
    × (r.order_id ≡ o.id)

order_of-write_rejection :
    (db db' : Db) (now k : ℕ) (o : Order) (reason : RejectReason)
    → order_of db k ≡ some o
    → db'.orders ≡ (write_rejection db now o reason).orders
    → order_of db' k ≡ some (reject_order now reason o)
unfolding order_of write_rejection
order_of-write_rejection db db' now k o reason found same = rw same (
    find-update_where (has_id k) (has_id o.id) (reject_order now reason) db.orders (λ x. refl)
    ∙ rw found (rw (==_refl o.id) refl))

reject-IsRejected :
    (db : Db) (now order_id : ℕ) (actor : PaymentActorContext) (input : RejectReasonInput)
    (r : PaymentRejectionResult) (db' : Db)
    → reject db db now order_id actor input ≡ ok (r, db')
    → IsRejected order_id r db'
unfolding reject log
reject-IsRejected db now order_id actor input r db' h =
    let (o, e, h₁) = >>=-eq-ok (or_throw (order_of db order_id) order_not_found) _ h in
    let found = or_throw-eq-ok _ _ e in
    elim (Bool-cases (is_order_rejected o.status)) [
      | inl already ↦
          let same = ok-injective (rw already at h₁) in
          subst (λ (p : PaymentRejectionResult × Db). IsRejected order_id p.0 p.1) same
            (o, found, already, refl, refl, refl)
      | inr not_yet ↦
          let (u, e₂, h₂) =
            >>=-eq-ok
              (throw_if (is_order_completed o.status || is_order_approved o.status)
                completed_cannot_be_rejected)
              _ (rw not_yet at h₁) in
          let same = ok-injective h₂ in
          subst (λ (p : PaymentRejectionResult × Db). IsRejected order_id p.0 p.1) same
            (
              reject_order now (normalize_reject_reason input) o,
              order_of-write_rejection db _ now order_id o (normalize_reject_reason input) found
                  refl,
              refl,
              refl,
              refl,
              refl,
            )
    ]

reject_known :
    (db : Db) (now order_id : ℕ) (actor : PaymentActorContext) (input : RejectReasonInput)
    (o : Order)
    → order_of db order_id ≡ some o
    → is_order_rejected o.status ≡ true
    → reject db db now order_id actor input
      ≡ ok (
        record {
          order_id = o.id;
          already_processed = true;
          reason_code = o.rejection_reason_code;
          reason_text = o.rejection_reason;
        },
        db,
      )
unfolding reject
reject_known db now order_id actor input o found already = rw found (rw already refl)

-- Rejecting again, for whatever reason, changes nothing and answers the first reason as processed before.
reject-again :
    (db : Db) (now order_id : ℕ) (actor other : PaymentActorContext)
    (input input' : RejectReasonInput) (r : PaymentRejectionResult) (db' : Db) (later : ℕ)
    → reject db db now order_id actor input ≡ ok (r, db')
    → reject db' db' later order_id other input'
      ≡ ok (
        record {
          order_id = r.order_id;
          already_processed = true;
          reason_code = r.reason_code;
          reason_text = r.reason_text;
        },
        db',
      )
reject-again db now order_id actor other input input' r db' later h =
    let (o, found, already, code, text, same_id) =
      reject-IsRejected db now order_id actor input r db' h in
    reject_known db' later order_id other input' o found already ∙ rw (code, text, same_id) refl
