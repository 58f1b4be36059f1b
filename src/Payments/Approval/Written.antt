-- ===== src/Payments/Approval/Written.antt =====
-- The tables that an approval leaves, read by the order's id.
use ruznamo_backend.Common.{
  ==_refl, ◌∙◌, ℕ, ◌≡◌, refl, true, false, some, arith, Bool-cases, inl, inr, find_sound,
}
use ruznamo_backend.Common.Counting.{find-update_where}
use ruznamo_backend.Db.{Db, Order, License, log}
use ruznamo_backend.Licenses.Issuance.{IssuedLicense, license_of_order}
use ruznamo_backend.Payments.Orders.{has_id, order_of}
use ruznamo_backend.Payments.Approval.{
  PaymentActorContext, PaymentApprovalResult, approve_duplicate, settle_approval, complete_order,
  complete, plan_of,
}

pub order_id-found : (db : Db) (k : ℕ) (o : Order) → order_of db k ≡ some o → o.id ≡ k
unfolding order_of
order_id-found db k o h = let at' = find_sound (has_id k) db.orders {x = o} h in ground arith

pub order_of-complete :
    (db : Db) (now k : ℕ) (o : Order) (i : IssuedLicense)
    → order_of db k ≡ some o
    → order_of (complete_order db now o i) k ≡ some (complete now o)
unfolding order_of complete_order
order_of-complete db now k o i found =
    find-update_where (has_id k) (has_id o.id) (complete now) db.orders (λ x. refl)
    ∙ rw found (rw (==_refl o.id))

-- What is written after the license is issued.
pub settled_new :
    (after : Db) (now : ℕ) (actor : PaymentActorContext) (o : Order) (i : IssuedLicense)
    (r : PaymentApprovalResult) (db' : Db)
    → settle_approval after now actor o i ≡ (r, db')
    → (r.license_id ≡ i.license_id)
      × (r.license_key ≡ i.license_key)
      × (r.already_processed ≡ i.already_existed)
      × (db'.licenses ≡ after.licenses)
      × (i.already_existed ≡ false → db'.orders ≡ (complete_order after now o i).orders)
unfolding settle_approval log complete_order
settled_new after now actor o i r db' e = elim (Bool-cases i.already_existed) [
  | inl old ↦ (ground arith, ground arith, ground arith, ground arith, λ new. absurd (cc))
  | inr new ↦ (ground arith, ground arith, ground arith, ground arith, λ _. ground arith)
]

pub license_of_order-ext :
    (a b : Db) (k : ℕ) → a.licenses ≡ b.licenses → license_of_order a k ≡ license_of_order b k
unfolding license_of_order
license_of_order-ext a b k h = rw h

pub order_of-ext : (a b : Db) (k : ℕ) → a.orders ≡ b.orders → order_of a k ≡ order_of b k
unfolding order_of
order_of-ext a b k h = rw h

pub plan_of-ext :
    (a b : Db) (o o' : Order)
    → a.plans ≡ b.plans
    → o.plan_id ≡ o'.plan_id
    → plan_of a o ≡ plan_of b o'
unfolding plan_of
plan_of-ext a b o o' h k = rw (h, k) refl

pub duplicate_frame :
    (db : Db) (now : ℕ) (actor : PaymentActorContext) (o : Order) (l : License)
    (r : PaymentApprovalResult) (db' : Db)
    → approve_duplicate db now actor o l ≡ (r, db')
    → (r.license_id ≡ l.id)
      × (r.already_processed ≡ true)
      × (db'.orders ≡ db.orders)
      × (db'.licenses ≡ db.licenses)
      × (db'.receipts ≡ db.receipts)
      × (db'.outbox ≡ db.outbox)
      × (db'.plans ≡ db.plans)
unfolding approve_duplicate log
duplicate_frame db now actor o l r db' e = ground arith

pub settled_plans :
    (after : Db) (now : ℕ) (actor : PaymentActorContext) (o : Order) (i : IssuedLicense)
    (r : PaymentApprovalResult) (db' : Db)
    → settle_approval after now actor o i ≡ (r, db')
    → db'.plans ≡ after.plans
unfolding settle_approval log complete_order
settled_plans after now actor o i r db' e = ground arith
