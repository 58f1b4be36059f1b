-- ===== src/Payments/Machine/Start.antt =====
-- `startPaymentFlow` and the orders that are there: their moves, and one order for each id.
use ruznamo_backend.Common.{
  ◌∙◌, Bool-cases, ap, ◌⊎◌, ℕ, ◌≡◌, refl, none, some, List, arith, ok, find, count, update_where,
  insert, inl, inr, Option-cases, Result-cases,
}
use ruznamo_backend.Common.Counting.{
  find-update_where, find-insert_old, count-insert, count-update_same, count-find-none,
}
use ruznamo_backend.Db.{log, Db, Order, BillingPeriod}
use ruznamo_backend.Payments.Orders.{
  has_id, order_of, clear_payment_method, cancel, is_stale, cancel_stale_pending_purchases,
  create_order, existing_pending, find_or_create_pending_order, start_payment_flow,
}
use ruznamo_backend.Payments.Machine.Status.{sweep_moves}
use ruznamo_backend.Payments.Machine.Allowed.{Moved, IdsUnique}

created_new :
    (db : Db) (now id user_id plan_id : ℕ) (period : BillingPeriod) (x : Order) (after : Db)
    → create_order db now id user_id plan_id period ≡ ok (x, after)
    → (x.id ≡ id) × (after.orders ≡ insert x db.orders)
unfolding create_order log
created_new db now id user_id plan_id period x after h = ground arith

-- Orders are left as they are, or one is created with the given id.
created :
    (db : Db) (now id user_id plan_id : ℕ) (period : BillingPeriod) (x : Order) (after : Db)
    → find_or_create_pending_order db now id user_id plan_id period ≡ ok (x, after)
    → (after.orders ≡ db.orders) ⊎ ((x.id ≡ id) × (after.orders ≡ insert x db.orders))
unfolding find_or_create_pending_order
created db now id user_id plan_id period x after h =
    elim (Option-cases (existing_pending db user_id plan_id period)) [
      | inr (o, there) ↦ inl (ground arith)
      | inl missing ↦ inr (created_new db now id user_id plan_id period x after (ground arith))
    ]

module _ (db : Db) (now new user_id plan_id : ℕ) (period : BillingPeriod) where
  abbrev swept : Db
  swept = cancel_stale_pending_purchases db now user_id plan_id period

  -- What the flow leaves: the sweep alone, or the sweep, at most one new order, and one order reset.
  pub flow_orders :
      ((start_payment_flow now new user_id plan_id period db).1.orders ≡ swept.orders)
      ⊎ ((x : Order) × (after : Db) × (find_or_create_pending_order swept now new user_id plan_id
              period
            ≡ ok (x, after))
          × ((start_payment_flow now new user_id plan_id period db).1.orders
              ≡ update_where (has_id x.id) (clear_payment_method now) after.orders))
  unfolding start_payment_flow
  flow_orders =
      elim (Result-cases (find_or_create_pending_order swept now new user_id plan_id period)) [
        | inl (e, failed) ↦ inl (rw (failed, start_payment_flow))
        | inr (p, went) ↦ inr (p.0, p.1, went, rw (went, start_payment_flow))
      ]

  -- An order keeps its place and status past the creation and the reset.
  past_creation :
      (id : ℕ) (o x : Order) (after : Db)
      → find_or_create_pending_order swept now new user_id plan_id period ≡ ok (x, after)
      → find (has_id id) swept.orders ≡ some o
      → find (has_id id) after.orders ≡ some o
  past_creation id o x after went found =
      elim (created swept now new user_id plan_id period x after went) [
        | inl same ↦ rw same found
        | inr (new_id, grown) ↦ rw grown (find-insert_old (has_id id) x swept.orders o found)
      ]

  past_reset :
      (id y : ℕ) (o : Order) (orders : List Order)
      → find (has_id id) orders ≡ some o
      → (o' : Order) × (find (has_id id) (update_where (has_id y) (clear_payment_method now) orders)
          ≡ some o')
        × (o'.status ≡ o.status)
  past_reset id y o orders found =
      let after =
        find-update_where (has_id id) (has_id y) (clear_payment_method now) orders (λ x. refl) in
      elim (Bool-cases (has_id y o)) [
        | inl touched ↦ (clear_payment_method now o, after ∙ rw found (rw touched), refl)
        | inr untouched ↦ (o, after ∙ rw found (rw untouched), refl)
      ]

  pub start_moves :
      (id : ℕ) (o : Order)
      → find (has_id id) db.orders ≡ some o
      → Moved o id (start_payment_flow now new user_id plan_id period db).1.orders
  start_moves id o found =
      let (o₁, found₁, moves) = sweep_moves db id o found now user_id plan_id period in
      elim flow_orders [
        | inl alone ↦ rw alone (o₁, found₁, moves)
        | inr (x, after, went, orders) ↦
            let (o₂, found₂, same) =
              past_reset id x.id o₁ after.orders (past_creation id o₁ x after went found₁) in
            rw orders (o₂, found₂, rw same moves)
      ]

  -- A new order gets a new id.
  pub start-IdsUnique :
      order_of db new ≡ none
      → IdsUnique db.orders
      → IdsUnique (start_payment_flow now new user_id plan_id period db).1.orders
  unfolding order_of cancel_stale_pending_purchases
  start-IdsUnique fresh unique id =
      let sweep =
        count-update_same (has_id id) (is_stale db user_id plan_id period) (cancel now) db.orders
          (λ x h. refl) in
      elim flow_orders [
        | inl alone ↦ rw alone (omega (arith, sweep, unique id))
        | inr (x, after, went, orders) ↦
            let reset =
              count-update_same (has_id id) (has_id x.id) (clear_payment_method now) after.orders
                (λ y h. refl) in
            elim (created swept now new user_id plan_id period x after went) [
              | inl same ↦
                  rw orders (omega (arith, reset, ap (count (has_id id)) same, sweep, unique id))
              | inr (new_id, grown) ↦ rw orders (
                  ground (
                    arith,
                    reset,
                    ap (count (has_id id)) grown,
                    count-insert (has_id id) x swept.orders,
                    sweep,
                    unique id,
                    count-find-none (has_id new) db.orders fresh,
                  ))
            ]
      ]
