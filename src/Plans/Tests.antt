-- ===== src/Plans/Tests.antt =====
-- A plan in use whose price is raised, now and from a later day on.
use gatway_pagamento_escrito.Prelude.{
  arith, ℕ, ◌≡◌, ◌≤◌, refl, Option, none, some, List, [], ◌∷◌, Bool-cases, inl, inr,
}
use gatway_pagamento_escrito.Failure.{◌>>=◌}
use gatway_pagamento_escrito.Idempotency.{execute}
use gatway_pagamento_escrito.Admin.{
  Realm, Interval, PlanStatus, PlanRow, PlanPriceRow, AdminDb, Scope-discrete,
}
use gatway_pagamento_escrito.Common.{User, record_mutation, to_safe_integer}
use gatway_pagamento_escrito.Plans.Repository.{Series, in_series, find_plan, update_plan, add_price}
use gatway_pagamento_escrito.Plans.Service.{
  UpdatePlanRequest, CreatePlanPriceRequest, price_response, price_item, plan_response,
  update_plan_tx, add_price_tx, update_plan_call, add_price_call,
}
use gatway_pagamento_escrito.Plans.Timeline.{IsPriced, effective_count}
use gatway_pagamento_escrito.Plans.History.{Call, IsSold, apply, run, run-effective}

abbrev plan : PlanRow
plan = record {
  id = 1;
  name = 10;
  slug = 11;
  status = PlanStatus.draft;
  trial_days = 7;
  description = none;
  created_at = 0;
  updated_at = 0;
  deleted_at = none;
}

abbrev first_price : PlanPriceRow
first_price = record {
  id = 2;
  plan_id = 1;
  currency = 986;
  billing_interval = Interval.monthly;
  amount_cents = 2500;
  effective_from = 0;
  effective_to = none;
}

abbrev start : AdminDb
start = record {
  keys = [];
  next_id = 0;
  tables = record {
    identities = [];
    tenants = [];
    plans = plan ∷ [];
    plan_prices = first_price ∷ [];
    subscriptions = [];
    invoices = [];
    invoice_items = [];
    payments = [];
    plan_features = [];
    provisioning_attempts = [];
    outbox = [];
    next_outbox_id = 0;
    audit_logs = [];
  };
}

abbrev owner : User
owner = record { realm = Realm.platform; user_id = 3 }

abbrev monthly : (amount : ℕ) → Option ℕ → CreatePlanPriceRequest
monthly amount effective_from = record {
  currency = 986;
  billing_interval = Interval.monthly;
  amount_cents = amount;
  effective_from = effective_from;
}

abbrev activate : UpdatePlanRequest
activate = record {
  name = none;
  description = none;
  trial_days = none;
  status = some PlanStatus.active;
}

abbrev calls : List Call
calls =
    Call.update owner 1 100 activate 500
    ∷ Call.price owner 1 101 (monthly 2900 none) 20 1000 1000
    ∷ Call.price owner 1 102 (monthly 3500 (some 9000)) 21 2000 2003
    ∷ []

abbrev hash_update : UpdatePlanRequest → ℕ
hash_update input = 0

abbrev hash_price : CreatePlanPriceRequest → ℕ
hash_price input = input.amount_cents

abbrev series : Series
series = record { plan_id = 1; currency = 986; billing_interval = Interval.monthly }

after-count :
    effective_count series 5000 (run hash_update hash_price calls start).tables.plan_prices ≡ 1
unfolding run apply execute update_plan_call add_price_call update_plan_tx add_price_tx find_plan
    update_plan add_price price_response price_item plan_response to_safe_integer record_mutation
    ◌>>=◌ Scope-discrete
after-count = refl

start-IsPriced : IsPriced (first_price ∷ [])
start-IsPriced s = elim (Bool-cases (in_series s first_price)) [
  | inl inside ↦ rw inside (refl, tt)
  | inr outside ↦ rw outside tt
]

start-IsSold : IsSold start
start-IsSold = record { keys = tt; prices = start-IsPriced }

run-effective_example :
    effective_count series 5000 (run hash_update hash_price calls start).tables.plan_prices ≤ 1
run-effective_example =
    run-effective hash_update hash_price calls start series 5000
      (tt, (omega arith, (omega arith, tt))) start-IsSold
