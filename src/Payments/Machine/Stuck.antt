-- ===== src/Payments/Machine/Stuck.antt =====
-- An order whose approval stopped after its license was issued.
use ruznamo_backend.Common.{
  ℕ, ◌≡◌, ◌≢◌, ◌∙◌, sym, ap, some, List, inl, inr, Result-cases, none, ok, refl,
}
use ruznamo_backend.Db.{Plan, Db, Order, OrderStatus, License}
use ruznamo_backend.Payments.Orders.{order_of}
use ruznamo_backend.Payments.Machine.{
  Step, Reach, here, next, starts, attaches, cancels, submits, approves, rejects, kept, approve,
  PaymentActorContext,
}
use ruznamo_backend.Payments.Machine.Allowed.{IdsUnique}
use ruznamo_backend.Payments.Machine.Unique.{Step-IdsUnique}
use ruznamo_backend.Payments.Machine.Final.{Step-Moves}
use ruznamo_backend.Payments.Machine.Licensed.{Step-keeps_license}
use ruznamo_backend.Payments.Machine.Before.{
  attach_from, cancel_from, submit_from, reject_from, start_from,
}
use ruznamo_backend.Payments.Machine.Completed.{completed_or_from, settled_orders}
use ruznamo_backend.Payments.Approval.{PaymentApprovalResult, approval_input}
use ruznamo_backend.Payments.Approval.Run.{issued, duplicate, Ran, approve-Ran}
use ruznamo_backend.Payments.Approval.Written.{duplicate_frame, order_of-ext}
use ruznamo_backend.Licenses.Issuance.{license_of_order, issue_license, IssuedLicense, new_license}
use ruznamo_backend.Licenses.Issuance.Once.{Wrote-frame, issue-Wrote, Wrote-license}
use ruznamo_backend.Licenses.Key.{normalize_key}

-- The order was completed before.
abbrev Was : Db → ℕ → Type 0
Was db k = (o : Order) × (order_of db k ≡ some o) × (o.status ≡ OrderStatus.completed)

ran-Was :
    (hash : List ℕ → ℕ) (db : Db) (now id : ℕ) (raw : List ℕ) (order_id : ℕ)
    (actor : PaymentActorContext) (x : Order) (r : PaymentApprovalResult) (db' : Db) (k : ℕ)
    (l : License) (o' : Order)
    → Ran hash db now id raw order_id actor x r db'
    → license_of_order db k ≡ some l
    → order_of db' k ≡ some o'
    → o'.status ≡ OrderStatus.completed
    → Was db k
unfolding order_of
ran-Was hash db now id raw order_id actor x r db' k l o' (duplicate m has e) licensed found done =
    let (same_id, flag, orders, licenses, receipts, outbox, plans) =
      duplicate_frame db now actor x m r db' e in
    (o', rw orders at found, done)
ran-Was hash db now id raw order_id actor x r db' k l o' (issued plan i after free checked issue e)
      licensed found done =
    let (orders, receipts, outbox, plans) =
      Wrote-frame db _ now id (normalize_key raw) (approval_input db x plan) i after
        (issue-Wrote hash db now id raw (approval_input db x plan) i after issue) in
    elim (settled_orders after now actor x i r db' e) [
      | inl (old, same) ↦ (o', rw (same, orders) at found, done)
      | inr (new, grown) ↦
          elim (completed_or_from now x.id db.orders k o' (let f = rw (grown, orders) at found in f)
            done) [
              | inr was ↦ was
              | inl this ↦
                  absurd (let taken : license_of_order db x.id ≡ some l = rw this licensed in cc)
            ]
    ]

approve-Was :
    (hash : List ℕ → ℕ) (db : Db) (now id : ℕ) (raw : List ℕ) (order_id : ℕ)
    (actor : PaymentActorContext) (k : ℕ) (l : License) (o' : Order)
    → license_of_order db k ≡ some l
    → order_of (kept db (approve hash db db now id raw order_id actor)) k ≡ some o'
    → o'.status ≡ OrderStatus.completed
    → Was db k
approve-Was hash db now id raw order_id actor k l o' licensed found done =
    elim (Result-cases (approve hash db db now id raw order_id actor)) [
      | inl (e, failed) ↦ (o', rw (failed, kept) at found, done)
      | inr (p, went) ↦
          let (x, there, ran) = approve-Ran hash db now id raw order_id actor p.0 p.1 went in
          ran-Was hash db now id raw order_id actor x p.0 p.1 k l o' ran licensed
            (rw (went, kept) at found) done
    ]

-- No method completes an order that has its license.
Step-Was :
    (hash : List ℕ → ℕ) (db db' : Db) (k : ℕ) (l : License) (o' : Order)
    → Step hash db db'
    → license_of_order db k ≡ some l
    → order_of db' k ≡ some o'
    → o'.status ≡ OrderStatus.completed
    → Was db k
unfolding order_of
Step-Was hash db db' k l o' (starts d now id user_id plan_id period fresh) licensed found done =
    start_from d now id user_id plan_id period k o' found done
Step-Was hash db db' k l o' (attaches d now order_id user_id m) licensed found done =
    attach_from d now order_id user_id m k o' found done
Step-Was hash db db' k l o' (cancels d now user_id order_id) licensed found done =
    cancel_from d now user_id order_id k o' found done
Step-Was hash db db' k l o' (submits d now id input) licensed found done =
    submit_from d now id input k o' found done
Step-Was hash db db' k l o' (approves d now id raw order_id actor) licensed found done =
    approve-Was hash d now id raw order_id actor k l o' licensed found done
Step-Was hash db db' k l o' (rejects d now order_id actor input) licensed found done =
    reject_from d now order_id actor input k o' found done

-- The order is there, not completed, and its license is stored.
abbrev pub CutShort : Db → ℕ → License → Type 0
CutShort db k l =
    (o : Order) × (order_of db k ≡ some o)
    × (o.status ≢ OrderStatus.completed)
    × (license_of_order db k ≡ some l)

-- The first transaction of an approval leaves its order so, until the second one completes it.
issue-CutShort :
    (hash : List ℕ → ℕ) (db : Db) (now id : ℕ) (raw : List ℕ) (o : Order) (plan : Plan)
    (i : IssuedLicense) (after : Db)
    → order_of db o.id ≡ some o
    → o.status ≢ OrderStatus.completed
    → license_of_order db o.id ≡ none
    → issue_license hash db db now id raw (approval_input db o plan) ≡ ok (i, after)
    → CutShort after o.id (
        new_license now id
          (hash (normalize_key raw))
          (normalize_key raw)
          (approval_input db o plan))
issue-CutShort hash db now id raw o plan i after found open_order free issue =
    let key = normalize_key raw in
    let input = approval_input db o plan in
    let wrote = issue-Wrote hash db now id raw input i after issue in
    let (orders, receipts, outbox, plans) =
      Wrote-frame db (hash key) now id key input i after wrote in
    (
      o,
      order_of-ext after db o.id orders ∙ found,
      open_order,
      Wrote-license db (hash key) now id key input i after o.id refl free wrote,
    )

Step-CutShort :
    (hash : List ℕ → ℕ) (db db' : Db) (k : ℕ) (l : License)
    → Step hash db db'
    → IdsUnique db.orders
    → CutShort db k l
    → CutShort db' k l
Step-CutShort hash db db' k l st unique (o, found, open_order, licensed) =
    let (o', found', moves) = Step-Moves hash db db' k o st unique found in
    (
      o',
      found',
      (λ done.
          let (p, there, was) = Step-Was hash db db' k l o' st licensed found' done in
          let same : p ≡ o = cc in open_order (sym (ap (λ (z : Order). z.status) same) ∙ was)),
      Step-keeps_license hash db db' k l st licensed,
    )

-- Where ids of orders are unique, an order that is not completed although its license is stored, as the
-- issuance of an approval leaves it that goes no further, stays so: whatever methods on orders follow, each run alone,
-- approvals of it among them, the order is there, not completed, and has the same license.
pub Reach-CutShort :
    (hash : List ℕ → ℕ) (db db' : Db) (k : ℕ) (l : License)
    → Reach hash db db'
    → IdsUnique db.orders
    → CutShort db k l
    → CutShort db' k l × IdsUnique db'.orders
Reach-CutShort hash db db' k l here unique cut = (cut, unique)
Reach-CutShort hash db db' k l (next {mid} r st) unique cut =
    let (kept_cut, unique') = Reach-CutShort hash db mid k l r unique cut in
    (Step-CutShort hash mid db' k l st unique' kept_cut, Step-IdsUnique hash mid db' st unique')
