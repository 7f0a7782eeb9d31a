-- ===== src/Plans/Repository.antt =====
-- `PlansRepository` of apps/api/src/modules/plans/plans.repository.ts, with the constraints of
-- database/migrations/admin/004_create_plans.ts. That no two calls add a price to one series at once is
-- the work of the index `uq_plan_prices_active` of 008_add_reporting_indexes.ts. `started` is the time of the transaction, which
-- `now()` of PostgreSQL answers; `now` is the clock of the service.
use gatway_pagamento_escrito.Prelude.{
  ℕ, Bool, true, false, ◌&&◌, ◌||◌, Option, none, some, List, [], ◌∷◌, ◌++◌, map, leb, ◌==◌,
  if◌then◌else◌, is_some, find, select, update_where,
}
use gatway_pagamento_escrito.Failure.{unique_violation, check_violation, ok, err, Tx}
use gatway_pagamento_escrito.Admin.{
  Interval, PlanStatus, PlanRow, PlanPriceRow, PlanFeatureRow, Feature, Tables,
}
use gatway_pagamento_escrito.Common.{is_null}
use gatway_pagamento_escrito.Tenants.Repository.{is_live_plan}

pub record PlanDetails : Type 0 where
  pub plan : PlanRow
  pub prices : List PlanPriceRow
  pub features : List Feature

pub record NewPlan : Type 0 where
  pub name : ℕ
  pub slug : ℕ
  pub description : Option ℕ
  pub trial_days : ℕ
  pub currency : ℕ
  pub billing_interval : Interval
  pub amount_cents : ℕ
  pub features : List Feature

abbrev pub same_interval : Interval → Interval → Bool
same_interval Interval.monthly Interval.monthly = true
same_interval Interval.yearly Interval.yearly = true
same_interval _ _ = false

-- The primary key and the unique `slug`
abbrev pub plan_clashes : ℕ → ℕ → PlanRow → Bool
plan_clashes id slug plan = plan.id == id || plan.slug == slug

-- A new plan is a draft.
abbrev pub plan_row : NewPlan → (id started : ℕ) → PlanRow
plan_row new id started = record {
  id = id;
  name = new.name;
  slug = new.slug;
  status = PlanStatus.draft;
  trial_days = new.trial_days;
  description = new.description;
  created_at = started;
  updated_at = started;
  deleted_at = none;
}

abbrev pub first_price : NewPlan → (id price_id started : ℕ) → PlanPriceRow
first_price new id price_id started = record {
  id = price_id;
  plan_id = id;
  currency = new.currency;
  billing_interval = new.billing_interval;
  amount_cents = new.amount_cents;
  effective_from = started;
  effective_to = none;
}

abbrev pub feature_row : ℕ → Feature → PlanFeatureRow
feature_row id feature = record { plan_id = id; key = feature.key; value = feature.value }

-- `create`
unfoldable pub create_plan : NewPlan → (id price_id started : ℕ) → Tx Tables PlanDetails
create_plan new id price_id started t =
    if is_some (find (plan_clashes id new.slug) t.plans)
    then err unique_violation
    else ok (
      record {
        plan = plan_row new id started;
        prices = first_price new id price_id started ∷ [];
        features = new.features;
      },
      record t {
        plans = plan_row new id started ∷ t.plans;
        plan_prices = first_price new id price_id started ∷ t.plan_prices;
        plan_features = map (feature_row id) new.features ++ t.plan_features;
      },
    )

-- `orderBy("effective_from", "desc")`
abbrev pub place_price : PlanPriceRow → List PlanPriceRow → List PlanPriceRow
place_price x [] = x ∷ []
place_price x (y ∷ ys) =
    let rest = place_price x ys in
    if leb y.effective_from x.effective_from then x ∷ y ∷ ys else y ∷ rest

abbrev pub by_start : List PlanPriceRow → List PlanPriceRow
by_start [] = []
by_start (x ∷ xs) = place_price x (by_start xs)

abbrev pub feature_of : PlanFeatureRow → Feature
feature_of row = record { key = row.key; value = row.value }

abbrev pub plan_details : ℕ → Tables → PlanRow → PlanDetails
plan_details plan_id t plan = record {
  plan = plan;
  prices = by_start (select (λ (p : PlanPriceRow). p.plan_id == plan_id) t.plan_prices);
  features = map feature_of (select (λ (f : PlanFeatureRow). f.plan_id == plan_id) t.plan_features);
}

abbrev pub details_of : ℕ → Tables → Option PlanRow → Option PlanDetails
details_of plan_id t none = none
details_of plan_id t (some plan) = some (plan_details plan_id t plan)

-- `findById`
unfoldable pub find_plan : ℕ → Tables → Option PlanDetails
find_plan plan_id t = details_of plan_id t (find (is_live_plan plan_id) t.plans)

-- `update`; the trigger on `plans` sets `updated_at`.
unfoldable pub update_plan :
    ℕ → (PlanRow → PlanRow) → (started : ℕ) → Tables → Option PlanRow × Tables
update_plan plan_id changes started t =
    let touched : PlanRow → PlanRow = λ plan. record (changes plan) { updated_at = started } in
    let t' = record t { plans = update_where (is_live_plan plan_id) touched t.plans } in
    elim (find (is_live_plan plan_id) t.plans) [
      | none ↦ (none, t')
      | some plan ↦ (some (touched plan), t')
    ]

pub record Series : Type 0 where
  pub plan_id : ℕ
  pub currency : ℕ
  pub billing_interval : Interval

abbrev pub in_series : Series → PlanPriceRow → Bool
in_series s p =
    p.plan_id == s.plan_id
    && p.currency == s.currency
    && same_interval p.billing_interval s.billing_interval

-- The price of a plan, currency and interval that has no end
abbrev pub is_open_price : Series → PlanPriceRow → Bool
is_open_price s p = in_series s p && is_null p.effective_to

abbrev pub closed_at : ℕ → PlanPriceRow → PlanPriceRow
closed_at time p = record p { effective_to = some time }

-- `chk_plan_prices_period`
abbrev pub bad_end : ℕ → PlanPriceRow → Bool
bad_end time p = leb time p.effective_from

abbrev pub or_else : Option ℕ → ℕ → ℕ
or_else none time = time
or_else (some x) time = x

abbrev pub price_row : Series → (amount_cents id : ℕ) → (effective_from : ℕ) → PlanPriceRow
price_row s amount_cents id effective_from = record {
  id = id;
  plan_id = s.plan_id;
  currency = s.currency;
  billing_interval = s.billing_interval;
  amount_cents = amount_cents;
  effective_from = effective_from;
  effective_to = none;
}

-- `uq_plan_prices_version`
abbrev pub starts_at : Series → ℕ → PlanPriceRow → Bool
starts_at s time p = in_series s p && p.effective_from == time

-- `addPrice`
unfoldable pub add_price :
    Series
    → (amount_cents : ℕ) → (effective_from : Option ℕ) → (id started now : ℕ)
    → Tx Tables PlanPriceRow
add_price s amount_cents effective_from id started now t =
    let until = or_else effective_from now in
    let from = or_else effective_from started in
    if is_some (find (λ p. is_open_price s p && bad_end until p) t.plan_prices)
    then err check_violation
    else if is_some (find (starts_at s from) t.plan_prices)
    then err unique_violation
    else ok (
      price_row s amount_cents id from,
      record t {
        plan_prices =
            price_row s amount_cents id from
            ∷ update_where (is_open_price s) (closed_at until) t.plan_prices;
      },
    )
