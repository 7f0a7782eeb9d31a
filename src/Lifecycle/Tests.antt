-- ===== src/Lifecycle/Tests.antt =====
-- A tenant from its creation to its suspension, with a cut-off job, a failure and a retry.
use gatway_pagamento_escrito.Prelude.{
  ℕ, ◌+◌, ◌≡◌, refl, true, Option, none, some, List, [], ◌∷◌, zero, suc,
}
use gatway_pagamento_escrito.Failure.{◌>>=◌}
use gatway_pagamento_escrito.Idempotency.{execute}
use gatway_pagamento_escrito.Common.{User, record_mutation, to_safe_integer}
use gatway_pagamento_escrito.Auth.Password.{Chars, validate_password_policy, hash_password}
use gatway_pagamento_escrito.Admin.{
  Realm, TenantStatus, PlanStatus, PlanRow, PlanPriceRow, Interval, Scope-discrete,
}
use gatway_pagamento_escrito.Tenants.Repository.{
  get_plan_selection, create_tenant, find_tenant, has_tenant_identity, update_tenant,
  create_admin_identity,
}
use gatway_pagamento_escrito.Tenants.Changes.{
  CreateTenantRequest, CreateTenantAdminRequest, RequestedStatus, create_tenant_tx,
  create_administrator_tx, update_status_tx, retry_provisioning_tx,
}
use gatway_pagamento_escrito.Tenants.Service.{
  create_tenant_call, create_administrator_call, update_status_call, retry_provisioning_call,
}
use gatway_pagamento_escrito.Worker.Provisioning.{
  upsert_attempt, begin_provisioning, finish_provisioning, fail_provisioning, begin_administrator,
  activate_tenant,
}
use gatway_pagamento_escrito.Lifecycle.Phases.{Lock}
use gatway_pagamento_escrito.Lifecycle.Jobs.{
  World, begin_database_job, finish_database_job, fail_database_job, begin_administrator_job,
  finish_administrator_job, end_job,
}
use gatway_pagamento_escrito.Lifecycle.System.{Outside, Event, IsSettled, apply, run, unraced}
use gatway_pagamento_escrito.Lifecycle.History.{run-IsSettled}
use gatway_pagamento_escrito.Lifecycle.Progress.{tenant}

abbrev plan : PlanRow
plan = record {
  id = 1;
  name = 10;
  slug = 11;
  status = PlanStatus.active;
  trial_days = 7;
  description = none;
  created_at = 0;
  updated_at = 0;
  deleted_at = none;
}

abbrev price : PlanPriceRow
price = record {
  id = 2;
  plan_id = 1;
  currency = 986;
  billing_interval = Interval.monthly;
  amount_cents = 2500;
  effective_from = 0;
  effective_to = none;
}

abbrev pub start : World
start = record {
  db = record {
    keys = [];
    next_id = 0;
    tables = record {
      identities = [];
      tenants = [];
      plans = plan ∷ [];
      plan_prices = price ∷ [];
      subscriptions = [];
      invoices = [];
      invoice_items = [];
      payments = [];
      plan_features = [];
      provisioning_attempts = [];
      outbox = [];
      next_outbox_id = 0;
      audit_logs = [];
    };
  };
  locks = λ _. Lock.free;
  reads = λ _ _. none;
}

abbrev thirty_days : Interval → ℕ → ℕ
thirty_days interval now = now + 2_592_000_000

abbrev pub outside : Outside
outside = record {
  hash_create = λ input. input.slug;
  hash_administrator = λ input. input.email;
  hash_status = λ input. input.tenant_id;
  hash_retry = λ tenant_id. tenant_id;
  lower = λ text. text;
  trim_lower = λ text. text;
  to_lower_case = λ text. text;
  period_end = thirty_days;
  argon2_hash = λ salt password. salt;
}

abbrev pub owner : User
owner = record { realm = Realm.platform; user_id = 3 }

abbrev office : CreateTenantRequest
office = record {
  name = 20;
  slug = 21;
  legal_name = none;
  trade_name = none;
  tax_id = some 22;
  contact_email = 23;
  plan_id = 1;
  plan_price_id = 2;
}

abbrev letters : ℕ → Chars
letters zero = []
letters (suc n) = (65 + n) ∷ letters n

abbrev administrator : CreateTenantAdminRequest
administrator = record { email = 30; temporary_password = letters 16; display_name = 31 }

-- The first job is cut off, the second one fails.
abbrev creation : List Event
creation =
    Event.create_tenant owner 100 office 5 6 1000
    ∷ Event.begin_database 5 1100
    ∷ Event.end_of_job 5
    ∷ Event.begin_database 5 1200
    ∷ Event.fail_database 5 77 1300
    ∷ Event.read_for_retry 1 5
    ∷ Event.retry_provisioning 1 owner 5 101 1400
    ∷ []

abbrev created : World
created = run outside creation start

abbrev later : List Event
later =
    Event.begin_database 5 1500
    ∷ Event.finish_database 5 50 5432 none 1600
    ∷ Event.create_administrator owner 5 102 administrator 8 9 1700
    ∷ Event.begin_administrator 5 9
    ∷ Event.finish_administrator 5 9 none 1800
    ∷ Event.update_status owner 5 103 RequestedStatus.suspended 1900
    ∷ []

abbrev status : World → Option TenantStatus
status w = elim (tenant 5 w) [ none ↦ none | some row ↦ some row.status ]

run_creation : status created ≡ some TenantStatus.provisioning
unfolding run apply execute create_tenant_call retry_provisioning_call create_tenant_tx
    retry_provisioning_tx get_plan_selection create_tenant find_tenant update_tenant
    begin_database_job fail_database_job end_job begin_provisioning fail_provisioning upsert_attempt
    record_mutation to_safe_integer ◌>>=◌ Scope-discrete
run_creation = refl

run_life : status (run outside later created) ≡ some TenantStatus.suspended
unfolding run apply execute create_tenant_call retry_provisioning_call create_tenant_tx
    retry_provisioning_tx get_plan_selection create_tenant find_tenant update_tenant
    begin_database_job fail_database_job end_job begin_provisioning fail_provisioning upsert_attempt
    record_mutation to_safe_integer ◌>>=◌ Scope-discrete finish_database_job finish_provisioning
    create_administrator_call create_administrator_tx validate_password_policy hash_password
    has_tenant_identity create_admin_identity begin_administrator_job begin_administrator
    finish_administrator_job activate_tenant update_status_call update_status_tx
run_life = refl

start-IsSettled : IsSettled start
start-IsSettled = record {
  keys = tt;
  tenants = record { phases = tt; distinct = tt; held = λ _ _. refl };
}

creation_is_unraced : unraced outside creation start ≡ true
unfolding unraced run apply execute create_tenant_call retry_provisioning_call create_tenant_tx
    retry_provisioning_tx get_plan_selection create_tenant find_tenant update_tenant
    begin_database_job fail_database_job end_job begin_provisioning fail_provisioning upsert_attempt
    record_mutation to_safe_integer ◌>>=◌ Scope-discrete
creation_is_unraced = refl

run-IsSettled_example : IsSettled created
run-IsSettled_example = run-IsSettled outside creation start creation_is_unraced start-IsSettled
