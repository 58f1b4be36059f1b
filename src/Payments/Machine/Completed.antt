-- ===== src/Payments/Machine/Completed.antt =====
-- An order that is completed has its license, under the methods on orders.
use ruznamo_backend.Common.{
  find_sound, Result-cases, ◌⊎◌, ok, ℕ, ◌≡◌, refl, true, false, some, none, List, ◌∙◌, sym, ap,
  find, update_where, arith, Option-cases, Bool-cases, inl, inr,
}
use ruznamo_backend.Common.Counting.{find-update_where}
use ruznamo_backend.Db.{License, Db, Order, OrderStatus, log}
use ruznamo_backend.Payments.Orders.{has_id, order_of}
use ruznamo_backend.Licenses.Issuance.Once.{Wrote-frame, issue-Wrote}
use ruznamo_backend.Payments.Machine.Before.{
  CompletedFrom, unchanged, attach_from, cancel_from, submit_from, reject_from, start_from,
}
use ruznamo_backend.Payments.Approval.Fresh.{approve-fresh}
use ruznamo_backend.Payments.Machine.{
  here, rejects, approves, submits, cancels, attaches, next, starts, Step, Reach, approve,
  PaymentActorContext, kept,
}
use ruznamo_backend.Licenses.Issuance.{IssuedLicense, license_of_order}
use ruznamo_backend.Payments.Approval.{
  approval_input, complete_order, settle_approval, PaymentApprovalResult, complete,
}
use ruznamo_backend.Payments.Approval.Run.{issued, duplicate, Ran, approve-Ran}
use ruznamo_backend.Payments.Machine.Licensed.{ran-keeps, Step-keeps_license}
use ruznamo_backend.Payments.Approval.Written.{order_id-found, duplicate_frame}
use ruznamo_backend.Licenses.Issuance.Once.{Wrote-frame}
use ruznamo_backend.Licenses.Key.{normalize_key}

-- Every completed order has its license.
abbrev pub CompletedLicensed : Db → Type 0
CompletedLicensed db =
    (id : ℕ) (o : Order)
    → order_of db id ≡ some o
    → o.status ≡ OrderStatus.completed
    → (l : License) × (license_of_order db id ≡ some l)

-- A method that completes no order, and keeps licenses.
from-CompletedLicensed :
    (db db' : Db)
    → CompletedFrom db.orders db'.orders
    → ((k : ℕ) (l : License) → license_of_order db k ≡ some l → license_of_order db' k ≡ some l)
    → CompletedLicensed db
    → CompletedLicensed db'
unfolding order_of
from-CompletedLicensed db db' from keeps licensed id o' found done =
    let (o, there, was) = from id o' found done in
    let (l, has) = licensed id o there was in (l, keeps id l has)

-- The order that is completed now, or one that was.
pub completed_or_from :
    (now y : ℕ) (orders : List Order) (id : ℕ) (o' : Order)
    → find (has_id id) (update_where (has_id y) (complete now) orders) ≡ some o'
    → o'.status ≡ OrderStatus.completed
    → (y ≡ id)
      ⊎ ((o : Order) × (find (has_id id) orders ≡ some o) × (o.status ≡ OrderStatus.completed))
completed_or_from now y orders id o' found done =
    let step = find-update_where (has_id id) (has_id y) (complete now) orders (λ x. refl) in
    elim (Option-cases (find (has_id id) orders)) [
      | inl missing ↦ absurd (let e : some o' ≡ none = sym found ∙ step ∙ rw missing refl in cc)
      | inr (o, there) ↦ elim (Bool-cases (has_id y o)) [
        | inl hit ↦ let at_id = find_sound (has_id id) orders {x = o} there in inl (ground arith)
        | inr miss ↦
            let e : some o' ≡ some o = sym found ∙ step ∙ rw (there, miss) refl in
            let o'_o : o' ≡ o = cc in inr (o, there, sym (ap (λ (z : Order). z.status) o'_o) ∙ done)
      ]
    ]

pub settled_orders :
    (after : Db) (now : ℕ) (actor : PaymentActorContext) (o : Order) (i : IssuedLicense)
    (r : PaymentApprovalResult) (db' : Db)
    → settle_approval after now actor o i ≡ (r, db')
    → ((r.already_processed ≡ true) × (db'.orders ≡ after.orders))
      ⊎ ((r.already_processed ≡ false)
          × (db'.orders ≡ update_where (has_id o.id) (complete now) after.orders))
unfolding settle_approval complete_order log
settled_orders after now actor o i r db' e = elim (Bool-cases i.already_existed) [
  | inl old ↦ inl (ground arith, ground arith)
  | inr new ↦ inr (ground arith, ground arith)
]

ran-CompletedLicensed :
    (hash : List ℕ → ℕ) (db : Db) (now id : ℕ) (raw : List ℕ) (order_id : ℕ)
    (actor : PaymentActorContext) (x : Order) (r : PaymentApprovalResult) (db' : Db)
    → approve hash db db now id raw order_id actor ≡ ok (r, db')
    → order_of db order_id ≡ some x
    → Ran hash db now id raw order_id actor x r db'
    → CompletedLicensed db
    → CompletedLicensed db'
unfolding order_of
ran-CompletedLicensed hash db now id raw order_id actor x r db' went there (duplicate l has e)
      licensed =
    let (same_id, flag, orders, licenses, receipts, outbox, plans) =
      duplicate_frame db now actor x l r db' e in
    from-CompletedLicensed db db' (rw orders (unchanged db.orders))
      (λ k m was. ran-keeps hash db now id raw order_id actor x r db' k m was (duplicate l has e))
      licensed
ran-CompletedLicensed hash db now id raw order_id actor x r db' went there
      (issued plan i after free checked issue e) licensed =
    let run : Ran hash db now id raw order_id actor x r db' =
      issued plan i after free checked issue e in
    let keeps : (k : ℕ) (m : License)
        → license_of_order db k ≡ some m
        → license_of_order db' k ≡ some m =
      (λ k m was. ran-keeps hash db now id raw order_id actor x r db' k m was run) in
    let (orders, receipts, outbox, plans) =
      Wrote-frame db _ now id (normalize_key raw) (approval_input db x plan) i after
        (issue-Wrote hash db now id raw (approval_input db x plan) i after issue) in
    elim (settled_orders after now actor x i r db' e) [
      | inl (old, same) ↦
          from-CompletedLicensed db db' (rw (same, orders) (unchanged db.orders)) keeps licensed
      | inr (new, grown) ↦ λ k o' found done.
          elim (completed_or_from now x.id db.orders k o' (let f = rw (grown, orders) at found in f)
            done) [
              | inr (o, was, done_before) ↦
                  let (l, has) = licensed k o was done_before in (l, keeps k l has)
              | inl this ↦
                  let (before, after_order, (l, has, same_l, same_key)) =
                    approve-fresh hash db now id raw order_id actor r db' went new in
                  let same_id = order_id-found db order_id x there in
                  let k_id : order_id ≡ k = cc in (l, rw (← k_id) has)
            ]
    ]

approve-CompletedLicensed :
    (hash : List ℕ → ℕ) (db : Db) (now id : ℕ) (raw : List ℕ) (order_id : ℕ)
    (actor : PaymentActorContext)
    → CompletedLicensed db
    → CompletedLicensed (kept db (approve hash db db now id raw order_id actor))
approve-CompletedLicensed hash db now id raw order_id actor licensed =
    elim (Result-cases (approve hash db db now id raw order_id actor)) [
      | inl (e, failed) ↦ rw (failed, kept) licensed
      | inr (p, went) ↦
          let (x, there, ran) = approve-Ran hash db now id raw order_id actor p.0 p.1 went in
          rw (went, kept)
            (ran-CompletedLicensed hash db now id raw order_id actor x p.0 p.1 went there ran
              licensed)
    ]

Step-CompletedLicensed :
    (hash : List ℕ → ℕ) (db db' : Db)
    → Step hash db db'
    → CompletedLicensed db
    → CompletedLicensed db'
Step-CompletedLicensed hash db db' (starts d now id user_id plan_id period fresh) licensed =
    from-CompletedLicensed d _ (start_from d now id user_id plan_id period)
      (λ k l. Step-keeps_license hash d _ k l (starts d now id user_id plan_id period fresh))
      licensed
Step-CompletedLicensed hash db db' (attaches d now order_id user_id m) licensed =
    from-CompletedLicensed d _ (attach_from d now order_id user_id m)
      (λ k l. Step-keeps_license hash d _ k l (attaches d now order_id user_id m)) licensed
Step-CompletedLicensed hash db db' (cancels d now user_id order_id) licensed =
    from-CompletedLicensed d _ (cancel_from d now user_id order_id)
      (λ k l. Step-keeps_license hash d _ k l (cancels d now user_id order_id)) licensed
Step-CompletedLicensed hash db db' (submits d now id input) licensed =
    from-CompletedLicensed d _ (submit_from d now id input)
      (λ k l. Step-keeps_license hash d _ k l (submits d now id input)) licensed
Step-CompletedLicensed hash db db' (approves d now id raw order_id actor) licensed =
    approve-CompletedLicensed hash d now id raw order_id actor licensed
Step-CompletedLicensed hash db db' (rejects d now order_id actor input) licensed =
    from-CompletedLicensed d _ (reject_from d now order_id actor input)
      (λ k l. Step-keeps_license hash d _ k l (rejects d now order_id actor input)) licensed

-- An order becomes completed only with a license: where every completed order has one, this still holds
-- after any methods on orders, each run alone.
pub completed_licensed :
    (hash : List ℕ → ℕ) (db db' : Db)
    → Reach hash db db'
    → CompletedLicensed db
    → CompletedLicensed db'
completed_licensed hash db db' here licensed = licensed
completed_licensed hash db db' (next {mid} r st) licensed =
    Step-CompletedLicensed hash mid db' st (completed_licensed hash db mid r licensed)
