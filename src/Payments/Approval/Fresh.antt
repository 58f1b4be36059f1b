-- ===== src/Payments/Approval/Fresh.antt =====
-- An approval that issues a license.
use ruznamo_backend.Common.{◌∙◌, ℕ, ◌≡◌, refl, false, some, none, List, arith, ok}
use ruznamo_backend.Db.{Db, Order, OrderStatus, License}
use ruznamo_backend.Licenses.Key.{normalize_key}
use ruznamo_backend.Licenses.Issuance.{license_of_order, new_license}
use ruznamo_backend.Licenses.Issuance.Once.{issue-Wrote, Wrote-license, Wrote-frame, Wrote-new}
use ruznamo_backend.Payments.Orders.{order_of}
use ruznamo_backend.Payments.Approval.{
  PaymentActorContext, PaymentApprovalResult, approve, approve_duplicate, complete_order, complete,
  approval_input, check_approvable,
}
use ruznamo_backend.Payments.Approval.Run.{Ran, duplicate, issued, approve-Ran}
use mathlib.Core.Path.{sym, ap, subst}
use ruznamo_backend.Payments.Approval.Written.{
  order_id-found, order_of-complete, settled_new, license_of_order-ext, order_of-ext,
}

-- The order and the license that a fresh approval leaves.
abbrev Completed : (List ℕ → ℕ) → Db → ℕ → ℕ → PaymentApprovalResult → Db → Type 0
Completed hash db now order_id r db' =
    ((o : Order) × (order_of db order_id ≡ some o)
      × (license_of_order db o.id ≡ none)
      × (check_approvable db o ≡ ok tt))
    × ((o' : Order) × (order_of db' order_id ≡ some o')
        × (o'.status ≡ OrderStatus.completed)
        × (o'.paid_at ≡ some now))
    × ((l : License) × (license_of_order db' order_id ≡ some l)
        × (l.id ≡ r.license_id)
        × (l.key_hash ≡ hash r.license_key))

fresh_run :
    (hash : List ℕ → ℕ) (db : Db) (now id : ℕ) (raw : List ℕ) (order_id : ℕ)
    (actor : PaymentActorContext) (r : PaymentApprovalResult) (db' : Db) (o : Order)
    → order_of db order_id ≡ some o
    → Ran hash db now id raw order_id actor o r db'
    → r.already_processed ≡ false
    → Completed hash db now order_id r db'
unfolding approve_duplicate
fresh_run hash db now id raw order_id actor r db' o found (duplicate l licensed e) new =
    absurd (ground arith)
fresh_run hash db now id raw order_id actor r db' o found (issued plan i after free checked issue e)
      new =
    let key = normalize_key raw in
    let input = approval_input db o plan in
    let wrote = issue-Wrote hash db now id raw input i after issue in
    let (orders, receipts, outbox, plans) =
      Wrote-frame db (hash key) now id key input i after wrote in
    let (same_id, same_key, same_flag, licenses, complete_if) =
      settled_new after now actor o i r db' e in
    let at' = order_id-found db order_id o found in
    let new_rows = Wrote-new db (hash key) now id key input i after o.id refl free wrote in
    let stored = Wrote-license db (hash key) now id key input i after o.id refl free wrote in
    (
      (o, found, free, checked),
      (
        complete now o,
        order_of-ext db' (complete_order after now o i) order_id (complete_if (cc))
            ∙ order_of-complete after now order_id o i
                (order_of-ext after db order_id orders ∙ found),
        refl,
        refl,
      ),
      (
        new_license now id (hash key) key input,
        license_of_order-ext db' after order_id licenses
            ∙ subst (λ k. license_of_order after k ≡ some (new_license now id (hash key) key input))
                at' stored,
        cc (same_id, new_rows.0),
        ap hash (sym (same_key ∙ new_rows.1)),
      ),
    )

-- Where no other transaction commits in between, an approval that is not a repeat leaves the order
-- completed and paid now, with a license of the order whose id and key it answers; before, the
-- order was under review or submitted, with a receipt and no license.
pub approve-fresh :
    (hash : List ℕ → ℕ) (db : Db) (now id : ℕ) (raw : List ℕ) (order_id : ℕ)
    (actor : PaymentActorContext) (r : PaymentApprovalResult) (db' : Db)
    → approve hash db db now id raw order_id actor ≡ ok (r, db')
    → r.already_processed ≡ false
    → ((o : Order) × (order_of db order_id ≡ some o)
        × (license_of_order db o.id ≡ none)
        × (check_approvable db o ≡ ok tt))
      × ((o' : Order) × (order_of db' order_id ≡ some o')
          × (o'.status ≡ OrderStatus.completed)
          × (o'.paid_at ≡ some now))
      × ((l : License) × (license_of_order db' order_id ≡ some l)
          × (l.id ≡ r.license_id)
          × (l.key_hash ≡ hash r.license_key))
approve-fresh hash db now id raw order_id actor r db' h new =
    let (o, found, ran) = approve-Ran hash db now id raw order_id actor r db' h in
    fresh_run hash db now id raw order_id actor r db' o found ran new
