-- ===== src/Payments/Prices.antt =====
-- payments/payment-config.service.ts: which plans are for sale, and at what price.
use ruznamo_backend.Common.{
  if◌then◌else◌, ℕ, Bool, false, Option, none, some, ◌&&◌, ◌==◌, any, find, Result, ok, err,
  plan_not_found, plan_not_available, or_throw, ◌>>=◌,
}
use ruznamo_backend.Db.{Db, Plan, Price, PlanCode, BillingPeriod, plan_code_rank, same_period}

unfoldable pub plan_of_code : Db → PlanCode → Option Plan
unfolding find
plan_of_code db code = find (λ p. plan_code_rank p.code == plan_code_rank code) db.plans

abbrev sells : (Price → Bool) → Option Plan → Bool
sells test none = false
sells test (some p) = p.is_active && any test p.prices

-- isPlanAvailableForPurchase
unfoldable pub is_plan_available_for_purchase : Db → PlanCode → Bool
unfolding plan_of_code any
is_plan_available_for_purchase db code = sells (λ r. r.is_active) (plan_of_code db code)

-- isPlanPeriodAvailableForPurchase
unfoldable pub is_plan_period_available_for_purchase : Db → PlanCode → BillingPeriod → Bool
unfolding plan_of_code any
is_plan_period_available_for_purchase db code period =
    sells (λ r. same_period r.billing_period period && r.is_active) (plan_of_code db code)

pub record PlanPriceQuote : Type 0 where
  pub plan_id : ℕ
  pub billing_period : BillingPeriod
  pub amount : ℕ

-- getPlanPrice: the plan need not be active.
unfoldable pub get_plan_price : Db → PlanCode → BillingPeriod → Result PlanPriceQuote
unfolding plan_of_code find
get_plan_price db code period = do
  plan ← or_throw (plan_of_code db code) plan_not_found
  price ←
      or_throw (find (λ r. same_period r.billing_period period && r.is_active) plan.prices)
        plan_not_found
  ok (record { plan_id = plan.id; billing_period = price.billing_period; amount = price.amount })

-- getPlanPriceForPurchase
unfoldable pub get_plan_price_for_purchase : Db → PlanCode → BillingPeriod → Result PlanPriceQuote
unfolding plan_of_code find
get_plan_price_for_purchase db code period = elim (plan_of_code db code) [
  | none ↦ err plan_not_available
  | some plan ↦ elim (find (λ r. same_period r.billing_period period && r.is_active) plan.prices) [
    | none ↦ err plan_not_available
    | some price ↦
        if plan.is_active
        then ok (record {
          plan_id = plan.id;
          billing_period = price.billing_period;
          amount = price.amount;
        })
        else err plan_not_available
  ]
]
