-- ===== src/Payments/Orders.antt =====
-- payments/order.service.ts. A new row's `id` is given; `updatedAt` is written by every update.
use ruznamo_backend.Common.{
  ℕ, ltb, Bool, true, false, not, Option, none, some, List, ◌&&◌, ◌||◌, ◌==◌, find, any, insert,
  select, update_where, first, sort_by, Result, ok, err, ◌>>=◌, ◌>>◌, throw_if, or_throw,
  plan_not_found, plan_not_available, record_not_found,
}
use ruznamo_backend.Db.{
  Db, Order, OrderStatus, BillingPeriod, ActorType, same_period, is_order_pending, Action, log,
}
use ruznamo_backend.Payments.Prices.{is_plan_available_for_purchase, get_plan_price, PlanPriceQuote}

-- `where: { id }`
abbrev pub has_id : ℕ → Order → Bool
has_id id o = o.id == id

unfoldable pub order_of : Db → ℕ → Option Order
unfolding find
order_of db id = find (has_id id) db.orders

abbrev newest : Order → Order → Bool
newest a b = ltb b.created_at a.created_at

abbrev last_updated : Order → Order → Bool
last_updated a b = ltb b.updated_at a.updated_at

abbrev new_order : ℕ → ℕ → ℕ → PlanPriceQuote → BillingPeriod → Order
new_order now id user_id quote period = record {
  id = id;
  user_id = user_id;
  plan_id = quote.plan_id;
  billing_period = period;
  amount = quote.amount;
  status = OrderStatus.pending;
  awaiting_receipt = false;
  paid_at = none;
  approved_at = none;
  rejected_at = none;
  rejection_reason = none;
  rejection_reason_code = none;
  payment_method_id = none;
  payment_method_name = none;
  payment_method_value = none;
  payment_method_recipient = none;
  created_at = now;
  updated_at = now;
}

-- The query of findOrCreatePendingOrder, newest first.
unfoldable pub existing_pending : Db → ℕ → ℕ → BillingPeriod → Option Order
unfolding select sort_by
existing_pending db user_id plan_id period = first (
    sort_by newest (
      select
        (λ o.
          o.user_id == user_id
          && is_order_pending o.status
          && o.plan_id == plan_id
          && same_period o.billing_period period)
        db.orders))

-- The part of findOrCreatePendingOrder that creates an order.
unfoldable pub create_order : Db → ℕ → ℕ → ℕ → ℕ → BillingPeriod → Result (Order × Db)
create_order db now id user_id plan_id period = do
  plan ← or_throw (find (λ p. p.id == plan_id) db.plans) plan_not_found
  throw_if (not (is_plan_available_for_purchase db plan.code)) plan_not_available
  quote ← get_plan_price db plan.code period
  let order = new_order now id user_id quote period
  ok (
    order,
    log ActorType.telegram_bot user_id "telegram.order.created" id
        (record db { orders = insert order db.orders }),
  )

-- findOrCreatePendingOrder
unfoldable pub find_or_create_pending_order :
    Db → ℕ → ℕ → ℕ → ℕ → BillingPeriod → Result (Order × Db)
find_or_create_pending_order db now id user_id plan_id period =
    elim (existing_pending db user_id plan_id period) [
      | some o ↦ ok (o, db)
      | none ↦ create_order db now id user_id plan_id period
    ]

abbrev pub cancel : ℕ → Order → Order
cancel now o = record o {
  status = OrderStatus.cancelled;
  awaiting_receipt = false;
  updated_at = now;
}

-- The where clause of cancelStalePendingPurchases.
unfoldable pub is_stale : Db → ℕ → ℕ → BillingPeriod → Order → Bool
unfolding any
is_stale db user_id keep_plan keep_period o =
    o.user_id == user_id
    && is_order_pending o.status
    && not (any (λ r. r.order_id == o.id) db.receipts)
    && (not (o.plan_id == keep_plan) || not (same_period o.billing_period keep_period))

-- cancelStalePendingPurchases
unfoldable pub cancel_stale_pending_purchases : Db → ℕ → ℕ → ℕ → BillingPeriod → Db
unfolding update_where is_stale
cancel_stale_pending_purchases db now user_id keep_plan keep_period = record db {
  orders = update_where (is_stale db user_id keep_plan keep_period) (cancel now) db.orders;
}

abbrev pub clear_payment_method : ℕ → Order → Order
clear_payment_method now o = record o {
  awaiting_receipt = false;
  payment_method_id = none;
  payment_method_name = none;
  payment_method_value = none;
  payment_method_recipient = none;
  updated_at = now;
}

-- startPaymentFlow: three steps, each committed by itself.
unfoldable pub start_payment_flow : ℕ → ℕ → ℕ → ℕ → BillingPeriod → Action Order
start_payment_flow now id user_id plan_id period db =
    let swept = cancel_stale_pending_purchases db now user_id plan_id period in
    elim (find_or_create_pending_order swept now id user_id plan_id period) [
      | err e ↦ (err e, swept)
      | ok (o, after) ↦ (
        ok (clear_payment_method now o),
        record after {
          orders = update_where (has_id o.id) (clear_payment_method now) after.orders;
        },
      )
    ]

pub record PaymentMethod : Type 0 where
  pub id : Option ℕ
  pub name : List ℕ
  pub payment_value : List ℕ
  pub recipient_name : List ℕ

abbrev pub attach : ℕ → PaymentMethod → Order → Order
attach now m o = record o {
  awaiting_receipt = true;
  payment_method_id = m.id;
  payment_method_name = some m.name;
  payment_method_value = some m.payment_value;
  payment_method_recipient = some m.recipient_name;
  updated_at = now;
}

abbrev pub of_user : ℕ → ℕ → Order → Bool
of_user id user_id o = o.id == id && o.user_id == user_id

-- attachPaymentMethodAndAwaitReceipt: `update` throws where no row fits.
unfoldable pub attach_payment_method_and_await_receipt :
    Db → ℕ → ℕ → ℕ → PaymentMethod → Result (Order × Db)
unfolding find update_where
attach_payment_method_and_await_receipt db now order_id user_id m = do
  o ← or_throw (find (of_user order_id user_id) db.orders) record_not_found
  ok (
    attach now m o,
    record db { orders = update_where (of_user order_id user_id) (attach now m) db.orders },
  )

-- getCurrentPendingOrder
unfoldable pub get_current_pending_order : Db → ℕ → Option Order
unfolding select sort_by
get_current_pending_order db user_id = first (
    sort_by last_updated
      (select (λ o. o.user_id == user_id && is_order_pending o.status) db.orders))

-- findAwaitingReceiptOrder
unfoldable pub find_awaiting_receipt_order : Db → ℕ → Option Order
unfolding select sort_by
find_awaiting_receipt_order db user_id = first (
    sort_by last_updated (
      select (λ o. o.user_id == user_id && is_order_pending o.status && o.awaiting_receipt)
        db.orders))

-- findAwaitingReceiptOrderById
unfoldable pub find_awaiting_receipt_order_by_id : Db → ℕ → ℕ → Option Order
unfolding find
find_awaiting_receipt_order_by_id db user_id order_id =
    find (λ o. of_user order_id user_id o && is_order_pending o.status && o.awaiting_receipt)
      db.orders

-- cancelPendingOrder
unfoldable pub cancel_pending_order : Db → ℕ → ℕ → ℕ → Db
unfolding update_where
cancel_pending_order db now user_id order_id = record db {
  orders =
      update_where (λ o. of_user order_id user_id o && is_order_pending o.status) (cancel now)
        db.orders;
}
