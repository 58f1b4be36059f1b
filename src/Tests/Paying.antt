-- ===== src/Tests/Paying.antt =====
-- The approval of an order under review, and a receipt.
use ruznamo_backend.Common.{◌≡◌, refl, true, false, none, some, [], ok, arith, codes, count}
use ruznamo_backend.Db.{Db, Order, License, OrderStatus}
use ruznamo_backend.Licenses.Issuance.{new_license, IssuedLicense, issue_license, license_of_order}
use ruznamo_backend.Licenses.Issuance.Once.{OncePerOrder, issue-once}
use ruznamo_backend.Licenses.Key.{normalize_key}
use ruznamo_backend.Payments.Orders.{order_of}
use ruznamo_backend.Payments.Approval.{
  PaymentApprovalResult, approve, approval_input, check_approvable,
}
use ruznamo_backend.Payments.Approval.Fresh.{approve-fresh}
use ruznamo_backend.Payments.Approval.Again.{approve-again}
use ruznamo_backend.Payments.Machine.{Reach, here, next, approves, kept}
use ruznamo_backend.Payments.Machine.Allowed.{IdsUnique}
use ruznamo_backend.Payments.Machine.Stuck.{CutShort, Reach-CutShort}
use ruznamo_backend.Tests.Shop.{shop, weigh, value, runs, clerk, reviewed_order, pro_plan}

abbrev unapproved : PaymentApprovalResult
unapproved = record {
  order_id = 0;
  user_id = 0;
  license_id = 0;
  license_key = [];
  expires_at = 0;
  already_processed = true;
}

abbrev approved : PaymentApprovalResult × Db
approved = value (unapproved, shop) (approve weigh shop shop 1000 35 (codes "ff01") 51 clerk)

approval : approve weigh shop shop 1000 35 (codes "ff01") 51 clerk ≡ ok (approved.0, approved.1)
unfolding runs
approval = refl

first : approved.0.already_processed ≡ false
unfolding runs
first = refl

approve-fresh_example :
    ((o : Order) × (order_of shop 51 ≡ some o)
      × (license_of_order shop o.id ≡ none)
      × (check_approvable shop o ≡ ok tt))
    × ((o' : Order) × (order_of approved.1 51 ≡ some o')
        × (o'.status ≡ OrderStatus.completed)
        × (o'.paid_at ≡ some 1000))
    × ((l : License) × (license_of_order approved.1 51 ≡ some l)
        × (l.id ≡ approved.0.license_id)
        × (l.key_hash ≡ weigh approved.0.license_key))
approve-fresh_example =
    approve-fresh weigh shop 1000 35 (codes "ff01") 51 clerk approved.0 approved.1 approval first

approve-again_example :
    (again : PaymentApprovalResult) × (db'' : Db) × (approve weigh approved.1 shop 2000 36
        (codes "ff02")
        51
        clerk
      ≡ ok (again, db''))
    × (again.license_id ≡ approved.0.license_id)
    × (again.already_processed ≡ true)
    × (db''.orders ≡ approved.1.orders)
    × (db''.licenses ≡ approved.1.licenses)
    × (db''.receipts ≡ approved.1.receipts)
    × (db''.outbox ≡ approved.1.outbox)
approve-again_example =
    approve-again weigh shop 1000 35 (codes "ff01") 51 clerk clerk approved.0 approved.1 shop 2000
      36 (codes "ff02") approval

abbrev unissued : IssuedLicense
unissued = record {
  license_id = 0;
  license_key = [];
  key_prefix = [];
  expires_at = 0;
  already_existed = true;
}

abbrev issued : IssuedLicense × Db
issued =
    value (unissued, shop)
      (issue_license weigh shop shop 1000 35 (codes "ff01")
        (approval_input shop reviewed_order pro_plan))

issuing :
    issue_license weigh shop shop 1000 35
      (codes "ff01")
      (approval_input shop reviewed_order pro_plan)
    ≡ ok (issued.0, issued.1)
unfolding runs
issuing = refl

no_orders : OncePerOrder shop.licenses
unfolding count
no_orders k = omega arith

issue-once_example :
    OncePerOrder issued.1.licenses
    × ((l : License) × (license_of_order issued.1 51 ≡ some l) × (l.id ≡ issued.0.license_id))
issue-once_example =
    issue-once weigh shop 1000 35 (codes "ff01") (approval_input shop reviewed_order pro_plan)
      issued.0 issued.1 51 no_orders refl issuing

-- The process stopped between the license and the order.
abbrev cut : Db
cut = issued.1

abbrev issued_license : License
issued_license =
    new_license 1000 35 (weigh (normalize_key (codes "ff01"))) (normalize_key (codes "ff01"))
      (approval_input shop reviewed_order pro_plan)

abbrev approved_again : Db
approved_again = kept cut (approve weigh cut cut 2000 36 (codes "ff02") 51 clerk)

unique : IdsUnique cut.orders
unfolding runs
unique k = ground arith

cut_short : CutShort cut 51 issued_license
unfolding runs
cut_short = (reviewed_order, refl, (λ e. ground arith), refl)

reached : Reach weigh cut approved_again
reached = next here (approves cut 2000 36 (codes "ff02") 51 clerk)

Reach-CutShort_example : CutShort approved_again 51 issued_license × IdsUnique approved_again.orders
Reach-CutShort_example =
    Reach-CutShort weigh cut approved_again 51 issued_license reached unique cut_short
