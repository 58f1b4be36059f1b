-- ===== src/Payments/Machine/Before.antt =====
-- The methods on orders that complete none.
use ruznamo_backend.Common.{
  ok, ℕ, ◌≡◌, refl, true, false, Bool, some, none, List, [], ◌∷◌, ◌∙◌, ◌==◌, ◌||◌, ◌&&◌, sym, ap,
  find, insert, update_where, arith, Option-cases, Bool-cases, inl, inr,
}
use ruznamo_backend.Common.Counting.{find-insert, find-insert_old, find-update_where}
use ruznamo_backend.Db.{
  Db, Order, OrderStatus, BillingPeriod, is_order_pending, is_order_rejected, is_order_completed,
  is_order_approved, log,
}
use ruznamo_backend.Payments.Orders.{
  existing_pending, clear_payment_method, find_or_create_pending_order, create_order, has_id,
  order_of, of_user, attach, cancel, is_stale, cancel_stale_pending_purchases, PaymentMethod,
  attach_payment_method_and_await_receipt, cancel_pending_order,
}
use ruznamo_backend.Payments.Receipts
use ruznamo_backend.Payments.Receipts.{
  ReceiptInput, receipt_of_update, is_eligible, record_receipt, submit_receipt,
}
use ruznamo_backend.Payments.Rejection.{RejectReasonInput, normalize_reject_reason}
use ruznamo_backend.Payments.Refusal.{reject, write_rejection, reject_order}
use ruznamo_backend.Payments.Machine.{start_payment_flow, PaymentActorContext, kept}
use ruznamo_backend.Payments.Machine.Start.{flow_orders}

-- Whatever is completed in the second list was completed in the first.
abbrev pub CompletedFrom : List Order → List Order → Type 0
CompletedFrom before after =
    (id : ℕ) (o' : Order)
    → find (has_id id) after ≡ some o'
    → o'.status ≡ OrderStatus.completed
    → (o : Order) × (find (has_id id) before ≡ some o) × (o.status ≡ OrderStatus.completed)

pub unchanged : (orders : List Order) → CompletedFrom orders orders
unchanged orders id o' found done = (o', found, done)

pub update-from :
    (q : Order → Bool) (f : Order → Order) (orders : List Order)
    → ((x : Order) → (f x).id ≡ x.id)
    → ((x : Order) → (f x).status ≡ OrderStatus.completed → x.status ≡ OrderStatus.completed)
    → CompletedFrom orders (update_where q f orders)
update-from q f orders same keeps id o' found done =
    let step = find-update_where (has_id id) q f orders (λ x. ap (λ (n : ℕ). n == id) (same x)) in
    elim (Option-cases (find (has_id id) orders)) [
      | inl missing ↦ absurd (let e : some o' ≡ none = sym found ∙ step ∙ rw missing refl in cc)
      | inr (o, there) ↦ (
        o,
        there,
        elim (Bool-cases (q o)) [
          | inl hit ↦
              let e : some o' ≡ some (f o) = sym found ∙ step ∙ rw (there, hit) refl in
              let o'_f : o' ≡ f o = cc in keeps o (sym (ap (λ (x : Order). x.status) o'_f) ∙ done)
          | inr miss ↦
              let e : some o' ≡ some o = sym found ∙ step ∙ rw (there, miss) refl in
              let o'_o : o' ≡ o = cc in sym (ap (λ (x : Order). x.status) o'_o) ∙ done
        ],
      )
    ]

find-insert-none :
    (p : Order → Bool) (y : Order) (xs : List Order)
    → find p xs ≡ none
    → p y ≡ false
    → find p (insert y xs) ≡ none
unfolding find
find-insert-none p y [] h miss = ground arith
find-insert-none p y (x ∷ xs) h miss = ground (arith, find-insert-none p y xs)

pending_not_completed :
    (s : OrderStatus) → is_order_pending s ≡ true → s ≡ OrderStatus.completed → ⊥
pending_not_completed s h e = ground arith

insert-from :
    (y : Order) (orders : List Order)
    → is_order_pending y.status ≡ true
    → CompletedFrom orders (insert y orders)
insert-from y orders h id o' found done = elim (Option-cases (find (has_id id) orders)) [
  | inr (x, there) ↦
      let e : some o' ≡ some x = sym found ∙ find-insert_old (has_id id) y orders x there in
      let o'_x : o' ≡ x = cc in (x, there, sym (ap (λ (z : Order). z.status) o'_x) ∙ done)
  | inl missing ↦ elim (Bool-cases (has_id id y)) [
    | inl hit ↦
        let e : some o' ≡ some y = sym found ∙ find-insert (has_id id) y orders missing hit in
        let o'_y : o' ≡ y = cc in
        absurd (pending_not_completed y.status h (sym (ap (λ (z : Order). z.status) o'_y) ∙ done))
    | inr miss ↦ absurd (
        let e : some o' ≡ none = sym found ∙ find-insert-none (has_id id) y orders missing miss in
        cc)
  ]
]

via : (a b c : List Order) → CompletedFrom a b → CompletedFrom b c → CompletedFrom a c
via a b c first second id o' found done =
    let (o, there, was) = second id o' found done in first id o there was

module _ (db : Db) where
  pub attach_from :
      (now order_id user_id : ℕ) (m : PaymentMethod)
      → CompletedFrom db.orders
          (kept db (attach_payment_method_and_await_receipt db now order_id user_id m)).orders
  unfolding attach_payment_method_and_await_receipt
  attach_from now order_id user_id m =
      elim (Option-cases (find (of_user order_id user_id) db.orders)) [
        | inl missing ↦ rw missing (unchanged db.orders)
        | inr (x, there) ↦
            rw there (
              update-from (of_user order_id user_id) (attach now m) db.orders (λ y. refl)
                (λ y h. h))
      ]

  pub cancel_from :
      (now user_id order_id : ℕ)
      → CompletedFrom db.orders (cancel_pending_order db now user_id order_id).orders
  unfolding cancel_pending_order
  cancel_from now user_id order_id =
      update-from (λ x. of_user order_id user_id x && is_order_pending x.status) (cancel now)
        db.orders (λ y. refl) (λ y h. absurd (cc))

  sweep_from :
      (now user_id plan_id : ℕ) (period : BillingPeriod)
      → CompletedFrom db.orders
          (cancel_stale_pending_purchases db now user_id plan_id period).orders
  unfolding cancel_stale_pending_purchases
  sweep_from now user_id plan_id period =
      update-from (is_stale db user_id plan_id period) (cancel now) db.orders (λ y. refl)
        (λ y h. absurd (cc))

  pub submit_from :
      (now new : ℕ) (input : ReceiptInput)
      → CompletedFrom db.orders (kept db (submit_receipt db now new input)).orders
  unfolding submit_receipt record_receipt log
  submit_from now new input = elim (Option-cases (receipt_of_update db input.telegram_update_id)) [
    | inr (r, seen) ↦ rw (seen, kept) (unchanged db.orders)
    | inl unseen ↦
        rw (unseen, kept)
          (elim (Option-cases (find (is_eligible input) db.orders)) [
            | inl missing ↦ rw missing (unchanged db.orders)
            | inr (x, there) ↦ rw there (
                update-from (has_id x.id) (Receipts.under_review now) db.orders (λ y. refl)
                  (λ y h. absurd (cc)))
          ])
  ]

  pub reject_from :
      (now order_id : ℕ) (actor : PaymentActorContext) (input : RejectReasonInput)
      → CompletedFrom db.orders (kept db (reject db db now order_id actor input)).orders
  unfolding reject write_rejection log
  reject_from now order_id actor input = elim (Option-cases (order_of db order_id)) [
    | inl missing ↦ rw missing (unchanged db.orders)
    | inr (x, there) ↦ rw there (elim (Bool-cases (is_order_rejected x.status)) [
      | inl done ↦ rw done (unchanged db.orders)
      | inr live ↦
          rw live (elim (Bool-cases (is_order_completed x.status || is_order_approved x.status)) [
            | inl closed ↦ rw closed (unchanged db.orders)
            | inr open' ↦ rw open' (
                update-from (has_id x.id) (reject_order now (normalize_reject_reason input))
                  db.orders (λ y. refl) (λ y h. absurd (cc)))
          ])
    ])
  ]

pending_new :
    (db : Db) (now id user_id plan_id : ℕ) (period : BillingPeriod) (x : Order) (after : Db)
    → create_order db now id user_id plan_id period ≡ ok (x, after)
    → (is_order_pending x.status ≡ true) × (after.orders ≡ insert x db.orders)
unfolding create_order log
pending_new db now id user_id plan_id period x after h = (ground arith, ground arith)

created_from :
    (db : Db) (now id user_id plan_id : ℕ) (period : BillingPeriod) (x : Order) (after : Db)
    → find_or_create_pending_order db now id user_id plan_id period ≡ ok (x, after)
    → CompletedFrom db.orders after.orders
unfolding find_or_create_pending_order
created_from db now id user_id plan_id period x after h =
    elim (Option-cases (existing_pending db user_id plan_id period)) [
      | inr (o, there) ↦
          let same : after.orders ≡ db.orders = ground arith in rw same (unchanged db.orders)
      | inl missing ↦
          let (pending, grown) =
            pending_new db now id user_id plan_id period x after (ground arith) in
          rw grown (insert-from x db.orders pending)
    ]

pub start_from :
    (db : Db) (now new user_id plan_id : ℕ) (period : BillingPeriod)
    → CompletedFrom db.orders (start_payment_flow now new user_id plan_id period db).1.orders
start_from db now new user_id plan_id period =
    let swept = cancel_stale_pending_purchases db now user_id plan_id period in
    let first = sweep_from db now user_id plan_id period in
    elim (flow_orders db now new user_id plan_id period) [
      | inl same ↦ rw same first
      | inr (x, after, went, reset) ↦ rw reset (
          via db.orders after.orders
            (update_where (has_id x.id) (clear_payment_method now) after.orders)
            (via db.orders swept.orders after.orders first
              (created_from swept now new user_id plan_id period x after went))
            (update-from (has_id x.id) (clear_payment_method now) after.orders (λ y. refl)
              (λ y h. h)))
    ]
