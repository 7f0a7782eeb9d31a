-- ===== src/Plans/Service.antt =====
-- `create`, `update`, `addPrice` and `get` of apps/api/src/modules/plans/plans.service.ts.
use gatway_pagamento_escrito.Prelude.{ℕ, not, Option, none, some, List, ◌==◌, if◌then◌else◌}
use gatway_pagamento_escrito.Failure.{
  Failure, bad_request, conflict, not_found, unique_violation, check_violation, Result, ok, err, Tx,
  pure, modify, lift, or_throw, ◌>>=◌, ◌>>◌, run_transaction, map_results,
}
use gatway_pagamento_escrito.Idempotency.{Idempotent, execute}
use gatway_pagamento_escrito.Admin.{
  Interval, PlanStatus, PlanRow, PlanPriceRow, PriceResponse, PlanPriceItem, Feature, PlanResponse,
  Value, Aggregate, EventType, Tables, Scope, Scope-discrete, AdminDb,
}
use gatway_pagamento_escrito.Common.{
  User, is_platform, to_safe_integer, on_unique_violation, record_mutation,
}
use gatway_pagamento_escrito.Plans.Repository.{
  PlanDetails, create_plan, find_plan, update_plan, Series, add_price,
}

abbrev with_price : PlanPriceRow → Result ℕ → Result PriceResponse
with_price row (err e) = err e
with_price row (ok amount_cents) = ok (record {
  id = row.id;
  plan_id = row.plan_id;
  currency = row.currency;
  billing_interval = row.billing_interval;
  amount_cents = amount_cents;
  effective_from = row.effective_from;
  effective_to = row.effective_to;
})

-- The answer of `addPrice`
unfoldable pub price_response : PlanPriceRow → Result PriceResponse
unfolding to_safe_integer
price_response row = with_price row (to_safe_integer row.amount_cents "plan price")

abbrev with_item : PlanPriceRow → Result ℕ → Result PlanPriceItem
with_item row (err e) = err e
with_item row (ok amount_cents) = ok (record {
  id = row.id;
  currency = row.currency;
  billing_interval = row.billing_interval;
  amount_cents = amount_cents;
  effective_from = row.effective_from;
  effective_to = row.effective_to;
})

-- A price of the answer that `response` makes
unfoldable pub price_item : PlanPriceRow → Result PlanPriceItem
unfolding to_safe_integer
price_item row = with_item row (to_safe_integer row.amount_cents "plan price")

abbrev with_prices : PlanDetails → Result (List PlanPriceItem) → Result PlanResponse
with_prices d (err e) = err e
with_prices d (ok prices) = ok (record {
  id = d.plan.id;
  name = d.plan.name;
  slug = d.plan.slug;
  description = d.plan.description;
  status = d.plan.status;
  trial_days = d.plan.trial_days;
  created_at = d.plan.created_at;
  updated_at = d.plan.updated_at;
  prices = prices;
  features = d.features;
})

-- `response`
unfoldable pub plan_response : PlanDetails → Result PlanResponse
unfolding price_item
plan_response d = with_prices d (map_results price_item d.prices)

pub record PriceRequest : Type 0 where
  pub currency : ℕ
  pub billing_interval : Interval
  pub amount_cents : ℕ

pub record CreatePlanRequest : Type 0 where
  pub name : ℕ
  pub slug : ℕ
  pub description : Option ℕ
  pub trial_days : ℕ
  pub price : PriceRequest
  pub features : List Feature

-- The description can be set to null.
pub record UpdatePlanRequest : Type 0 where
  pub name : Option ℕ
  pub description : Option (Option ℕ)
  pub trial_days : Option ℕ
  pub status : Option PlanStatus

pub record CreatePlanPriceRequest : Type 0 where
  pub currency : ℕ
  pub billing_interval : Interval
  pub amount_cents : ℕ
  pub effective_from : Option ℕ

abbrev pub or_kept : {A : Type 0} → Option A → A → A
or_kept none old = old
or_kept (some new) old = new

abbrev pub plan_changes : UpdatePlanRequest → PlanRow → PlanRow
plan_changes input plan = record plan {
  name = or_kept input.name plan.name;
  description = or_kept input.description plan.description;
  trial_days = or_kept input.trial_days plan.trial_days;
  status = or_kept input.status plan.status;
}

abbrev pub no_plan : Failure
no_plan = not_found "Plan not found"

abbrev pub record_plan_mutation : (now actor : ℕ) → EventType → ℕ → Value → Tables → Tables
record_plan_mutation now actor event plan_id payload =
    record_mutation now actor none event Aggregate.plan plan_id payload

-- `input.description ? …`: the empty text, which is 0 here, is no description.
abbrev pub nonempty : Option ℕ → Option ℕ
nonempty none = none
nonempty (some text) = if text == 0 then none else some text

-- The callback of `create`
unfoldable pub create_plan_tx :
    User → CreatePlanRequest → (plan_id price_id started : ℕ) → Tx Tables Value
create_plan_tx user input plan_id price_id started t =
    (do
      details ←
          create_plan
            (record {
              name = input.name;
              slug = input.slug;
              description = nonempty input.description;
              trial_days = input.trial_days;
              currency = input.price.currency;
              billing_interval = input.price.billing_interval;
              amount_cents = input.price.amount_cents;
              features = input.features;
            })
            plan_id price_id started
      modify (
          record_plan_mutation started user.user_id EventType.plan_created details.plan.id
            (Value.plan_slug details.plan.slug))
      response ← lift (plan_response details)
      pure (Value.plan response))
      t

-- The end of `update`, once the row is changed
abbrev pub show_plan : User → (started : ℕ) → PlanRow → Tx Tables Value
show_plan user started plan t =
    (do
      modify (
          record_plan_mutation started user.user_id EventType.plan_updated plan.id
            (Value.plan_status plan.status))
      details ← (λ t. or_throw (find_plan plan.id t) no_plan t)
      response ← lift (plan_response details)
      pure (Value.plan response))
      t

-- The callback of `update`
unfoldable pub update_plan_tx :
    User → (plan_id : ℕ) → UpdatePlanRequest → (started : ℕ) → Tx Tables Value
update_plan_tx user plan_id input started t =
    (do
      found ← (λ t. ok (update_plan plan_id (plan_changes input) started t))
      plan ← or_throw found no_plan
      show_plan user started plan)
      t

-- What `addPrice` makes of the database's errors
abbrev pub price_failure : Failure → Failure
price_failure unique_violation =
    conflict "Active price already exists for this plan/currency/interval"
price_failure check_violation =
    bad_request "effectiveFrom must be after the existing active price start"
price_failure e = e

abbrev pub caught : {A : Type 0} → Result A → Result A
caught (ok a) = ok a
caught (err e) = err (price_failure e)

abbrev pub series_of : ℕ → CreatePlanPriceRequest → Series
series_of plan_id input = record {
  plan_id = plan_id;
  currency = input.currency;
  billing_interval = input.billing_interval;
}

-- The callback of `addPrice`
unfoldable pub add_price_tx :
    User → (plan_id : ℕ) → CreatePlanPriceRequest → (price_id started now : ℕ) → Tx Tables Value
add_price_tx user plan_id input price_id started now t =
    (do
      existing ← or_throw (find_plan plan_id t) no_plan
      price ← (λ t. caught (
          add_price (series_of plan_id input) input.amount_cents input.effective_from price_id
            started now t))
      value ← lift (price_response price)
      modify (
          record_plan_mutation started user.user_id EventType.plan_price_created plan_id
            (Value.plan_price value))
      pure (Value.plan_price value))
      t

abbrev pub Answer : Type 0
Answer = Result (Idempotent Value) × AdminDb

abbrev pub invalid_caller : Failure
invalid_caller = conflict "Invalid realm"

-- `get`
unfoldable pub get_plan : ℕ → Tables → Result PlanResponse
unfolding find_plan plan_response
get_plan plan_id t = elim (find_plan plan_id t) [
  | none ↦ err no_plan
  | some details ↦ plan_response details
]

-- The three handlers; the transaction starts at `started`, and the service's clock reads `now`.
unfoldable pub create_plan_call :
    (CreatePlanRequest → ℕ)
    → User
    → (key : ℕ) → CreatePlanRequest
    → (plan_id price_id started : ℕ) → AdminDb
    → Answer
create_plan_call hash user key input plan_id price_id started db =
    if not (is_platform user.realm)
    then (err invalid_caller, db)
    else let (r, db') =
        run_transaction
          (execute Scope-discrete hash
            (record {
              scope = Scope.plans_create;
              key = key;
              actor_identity_id = user.user_id;
              request = input;
            })
            (create_plan_tx user input plan_id price_id started) started)
          db in
      (on_unique_violation "Plan slug already exists" r, db')

unfoldable pub update_plan_call :
    (UpdatePlanRequest → ℕ)
    → User
    → (plan_id key : ℕ) → UpdatePlanRequest
    → (started : ℕ) → AdminDb
    → Answer
update_plan_call hash user plan_id key input started db =
    if not (is_platform user.realm)
    then (err invalid_caller, db)
    else run_transaction
        (execute Scope-discrete hash
          (record {
            scope = Scope.plans_update plan_id;
            key = key;
            actor_identity_id = user.user_id;
            request = input;
          })
          (update_plan_tx user plan_id input started) started)
        db

unfoldable pub add_price_call :
    (CreatePlanPriceRequest → ℕ)
    → User
    → (plan_id key : ℕ) → CreatePlanPriceRequest
    → (price_id started now : ℕ) → AdminDb
    → Answer
add_price_call hash user plan_id key input price_id started now db =
    if not (is_platform user.realm)
    then (err invalid_caller, db)
    else run_transaction
        (execute Scope-discrete hash
          (record {
            scope = Scope.plans_price_create plan_id;
            key = key;
            actor_identity_id = user.user_id;
            request = input;
          })
          (add_price_tx user plan_id input price_id started now) started)
        db
