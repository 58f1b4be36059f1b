-- ===== src/Payments/Approval/Again.antt =====
-- An approval that is repeated.
use ruznamo_backend.Common.{◌∙◌, ℕ, ◌≡◌, refl, true, some, List, ok}
use ruznamo_backend.Db.{Plan, Db, Order, License}
use ruznamo_backend.Licenses.Key.{normalize_key}
use ruznamo_backend.Licenses.Issuance.{license_of_order, new_license}
use ruznamo_backend.Licenses.Issuance.Once.{issue-Wrote, Wrote-license, Wrote-frame, Wrote-new}
use ruznamo_backend.Payments.Orders.{order_of}
use ruznamo_backend.Payments.Approval.{
  PaymentActorContext, PaymentApprovalResult, approve, approve_duplicate, complete_order, complete,
  approval_input, plan_of, approve_order,
}
use ruznamo_backend.Payments.Approval.Run.{approve-plan, Ran, duplicate, issued, approve-Ran}
use mathlib.Core.Path.{sym}
use ruznamo_backend.Payments.Approval.Written.{
  order_of-complete, settled_new, license_of_order-ext, order_of-ext, plan_of-ext, duplicate_frame,
  settled_plans,
}

-- The tables that an approval leaves have the order, its plan and the license that was answered.
abbrev Answered : ℕ → PaymentApprovalResult → Db → Plan → Type 0
Answered order_id r db' plan =
    (o' : Order) × (order_of db' order_id ≡ some o')
    × ((l : License) × (license_of_order db' o'.id ≡ some l) × (l.id ≡ r.license_id))
    × (plan_of db' o' ≡ some plan)

Answered-run :
    (hash : List ℕ → ℕ) (db : Db) (now id : ℕ) (raw : List ℕ) (order_id : ℕ)
    (actor : PaymentActorContext) (r : PaymentApprovalResult) (db' : Db) (o : Order) (plan : Plan)
    → order_of db order_id ≡ some o
    → plan_of db o ≡ some plan
    → Ran hash db now id raw order_id actor o r db'
    → Answered order_id r db' plan
Answered-run hash db now id raw order_id actor r db' o plan found planned (duplicate l licensed e) =
    let (same_id, flag, orders, licenses, receipts, outbox, plans) =
      duplicate_frame db now actor o l r db' e in
    (
      o,
      order_of-ext db' db order_id orders ∙ found,
      (l, license_of_order-ext db' db o.id licenses ∙ licensed, sym same_id),
      plan_of-ext db' db o o plans refl ∙ planned,
    )
Answered-run hash db now id raw order_id actor r db' o plan found planned
      (issued plan' i after free checked issue e) =
    let key = normalize_key raw in
    let input = approval_input db o plan' in
    let wrote = issue-Wrote hash db now id raw input i after issue in
    let (orders, receipts, outbox, plans) =
      Wrote-frame db (hash key) now id key input i after wrote in
    let (same_id, same_key, same_flag, licenses, complete_if) =
      settled_new after now actor o i r db' e in
    let (new_id, new_key, new) =
      Wrote-new db (hash key) now id key input i after o.id refl free wrote in
    let stored = Wrote-license db (hash key) now id key input i after o.id refl free wrote in
    (
      complete now o,
      order_of-ext db' (complete_order after now o i) order_id (complete_if new)
          ∙ order_of-complete after now order_id o i
              (order_of-ext after db order_id orders ∙ found),
      (
        new_license now id (hash key) key input,
        license_of_order-ext db' after o.id licenses ∙ stored,
        cc (same_id, new_id),
      ),
      plan_of-ext db' db (complete now o) o (settled_plans after now actor o i r db' e ∙ plans) refl
          ∙ planned,
    )

-- An approval of an order that has a license.
approve_repeat :
    (hash : List ℕ → ℕ) (db met : Db) (now id : ℕ) (raw : List ℕ) (order_id : ℕ)
    (actor : PaymentActorContext) (o : Order) (plan : Plan) (l : License)
    → order_of db order_id ≡ some o
    → plan_of db o ≡ some plan
    → license_of_order db o.id ≡ some l
    → approve hash db met now id raw order_id actor ≡ ok (approve_duplicate db now actor o l)
unfolding approve approve_order
approve_repeat hash db met now id raw order_id actor o plan l found planned licensed =
    rw found (rw planned (rw (licensed, approve_order) refl))

-- Approving again answers the same license as processed before, and changes no order, no license, no
-- receipt and no delivery.
pub approve-again :
    (hash : List ℕ → ℕ) (db : Db) (now id : ℕ) (raw : List ℕ) (order_id : ℕ)
    (actor other : PaymentActorContext) (r : PaymentApprovalResult) (db' met : Db) (later id' : ℕ)
    (raw' : List ℕ)
    → approve hash db db now id raw order_id actor ≡ ok (r, db')
    → (again : PaymentApprovalResult) × (db'' : Db) × (approve hash db' met later id' raw' order_id
          other
        ≡ ok (again, db''))
      × (again.license_id ≡ r.license_id)
      × (again.already_processed ≡ true)
      × (db''.orders ≡ db'.orders)
      × (db''.licenses ≡ db'.licenses)
      × (db''.receipts ≡ db'.receipts)
      × (db''.outbox ≡ db'.outbox)
approve-again hash db now id raw order_id actor other r db' met later id' raw' h =
    let (o, found, ran) = approve-Ran hash db now id raw order_id actor r db' h in
    let (plan, planned) = approve-plan hash db now id raw order_id actor r db' o h found in
    let (o', found', has, planned') =
      Answered-run hash db now id raw order_id actor r db' o plan found planned ran in
    let (l, licensed, same_license) = has in
    let (same_id, flag, orders, licenses, receipts, outbox, plans) =
      duplicate_frame db' later other o' l _ _ refl in
    (
      (approve_duplicate db' later other o' l).0,
      (approve_duplicate db' later other o' l).1,
      approve_repeat hash db' met later id' raw' order_id other o' plan l found' planned' licensed,
      same_id ∙ same_license,
      flag,
      orders,
      licenses,
      receipts,
      outbox,
    )
