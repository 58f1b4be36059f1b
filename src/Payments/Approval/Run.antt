-- ===== src/Payments/Approval/Run.antt =====
-- What an approval that went through has checked and written.
use ruznamo_backend.Common.{
  arith, ℕ, ◌≡◌, none, some, List, ok, or_throw, or_throw-eq-ok, >>=-eq-ok, Option-cases,
  ok-injective, inl, inr, order_not_found, plan_not_found,
}
use ruznamo_backend.Db.{Db, Order, Plan, License}
use ruznamo_backend.Licenses.Issuance.{IssuedLicense, issue_license, license_of_order}
use ruznamo_backend.Payments.Orders.{order_of}
use ruznamo_backend.Payments.Approval.{
  PaymentActorContext, PaymentApprovalResult, approve_duplicate, check_approvable, approval_input,
  settle_approval, approve, approve_fresh, approve_order, plan_of,
}

module _ (hash : List ℕ → ℕ) (db : Db) (now id : ℕ) (raw : List ℕ) (order_id : ℕ)
    (actor : PaymentActorContext) where
  pub data Ran (o : Order) (r : PaymentApprovalResult) (db' : Db) : Type 0 where
    duplicate :
        (l : License)
        → license_of_order db o.id ≡ some l
        → approve_duplicate db now actor o l ≡ (r, db')
        → Ran o r db'
    issued :
        (plan : Plan) (i : IssuedLicense) (after : Db)
        → license_of_order db o.id ≡ none
        → check_approvable db o ≡ ok tt
        → issue_license hash db db now id raw (approval_input db o plan) ≡ ok (i, after)
        → settle_approval after now actor o i ≡ (r, db')
        → Ran o r db'

  fresh-Ran :
      (o : Order) (plan : Plan) (r : PaymentApprovalResult) (db' : Db)
      → license_of_order db o.id ≡ none
      → approve_fresh hash db db now id raw actor o plan ≡ ok (r, db')
      → Ran o r db'
  unfolding approve_fresh
  fresh-Ran o plan r db' free h =
      let (u, checked, h₂) = >>=-eq-ok (check_approvable db o) _ h in
      let (i, issue, h₃) =
        >>=-eq-ok (issue_license hash db db now id raw (approval_input db o plan)) _ h₂ in
      issued plan i.0 i.1 free checked issue (ok-injective h₃)

  order-Ran :
      (o : Order) (plan : Plan) (r : PaymentApprovalResult) (db' : Db)
      → approve_order hash db db now id raw actor o plan ≡ ok (r, db')
      → Ran o r db'
  unfolding approve_order
  order-Ran o plan r db' h = elim (Option-cases (license_of_order db o.id)) [
    | inr (l, there) ↦ duplicate l there (ok-injective (rw (there, approve_order) at h))
    | inl free ↦ fresh-Ran o plan r db' free (rw (free, approve_order) at h)
  ]

  pub approve-Ran :
      (r : PaymentApprovalResult) (db' : Db)
      → approve hash db db now id raw order_id actor ≡ ok (r, db')
      → (o : Order) × (order_of db order_id ≡ some o) × Ran o r db'
  unfolding approve
  approve-Ran r db' h =
      let (o, found, h₁) = >>=-eq-ok (or_throw (order_of db order_id) order_not_found) _ h in
      let (plan, planned, h₂) = >>=-eq-ok (or_throw (plan_of db o) plan_not_found) _ h₁ in
      (o, or_throw-eq-ok _ _ found, order-Ran o plan r db' h₂)

  pub approve-plan :
      (r : PaymentApprovalResult) (db' : Db) (o : Order)
      → approve hash db db now id raw order_id actor ≡ ok (r, db')
      → order_of db order_id ≡ some o
      → (plan : Plan) × (plan_of db o ≡ some plan)
  unfolding approve
  approve-plan r db' o h found = elim (Option-cases (plan_of db o)) [
    | inr p ↦ p
    | inl missing ↦ absurd (ground arith)
  ]
