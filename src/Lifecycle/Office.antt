-- ===== src/Lifecycle/Office.antt =====
-- A tenant with its administrator and a pending subscription: the theorems on jobs applied.
use gatway_pagamento_escrito.Prelude.{ℕ, ◌≡◌, refl, Option, none, some, [], ◌∷◌, true}
use native.Mathlib.Omega.{arith}
use gatway_pagamento_escrito.Admin.{
  Realm, IdentityStatus, IdentityRow, TenantStatus, ProvisioningStatus, TenantRow, Interval,
  SubscriptionStatus, SubscriptionRow,
}
use gatway_pagamento_escrito.Lifecycle.Phases.{Lock}
use gatway_pagamento_escrito.Lifecycle.Jobs.{World}
use gatway_pagamento_escrito.Lifecycle.System.{Event, run}
use gatway_pagamento_escrito.Lifecycle.Tests.{start, outside}
use gatway_pagamento_escrito.Lifecycle.Progress.{tenant, run-provisions, run-expired}

-- The first period of the tenant ends at 3000.
abbrev office_row : TenantStatus → ProvisioningStatus → Option ℕ → TenantRow
office_row s p database = record {
  id = 5;
  name = 20;
  slug = 21;
  legal_name = none;
  trade_name = none;
  tax_id = none;
  contact_email = 23;
  database_name = database;
  database_host = database;
  database_port = database;
  status = s;
  plan = 11;
  plan_id = some 1;
  provisioning_status = p;
  created_by_identity_id = some 3;
  activated_at = none;
  suspended_at = none;
  last_error_code = none;
  created_at = 1000;
  updated_at = 1000;
}

abbrev pending : SubscriptionRow
pending = record {
  id = 6;
  tenant_id = 5;
  plan_id = 1;
  plan_price_id = 2;
  status = SubscriptionStatus.pending;
  currency = 986;
  billing_interval = Interval.monthly;
  amount_cents = 2500;
  current_period_start = 1000;
  current_period_end = 3000;
  trial_ends_at = none;
  canceled_at = none;
  deleted_at = none;
  created_at = 1000;
  updated_at = 1000;
}

abbrev identity : IdentityRow
identity = record {
  id = 9;
  email = 30;
  display_name = some 31;
  normalized_email = 30;
  password_hash = 8;
  realm = Realm.tenant;
  tenant_id = some 5;
  status = IdentityStatus.pending;
  must_change_password = true;
  mfa_required = true;
  password_changed_at = none;
  last_login_at = none;
  locked_until = none;
  deleted_at = none;
}

abbrev office_world : TenantRow → World
office_world row = record {
  db = record start.db {
    tables = record start.db.tables {
      identities = identity ∷ [];
      tenants = row ∷ [];
      subscriptions = pending ∷ [];
    };
  };
  locks = λ _. Lock.free;
  reads = λ _ _. none;
}

abbrev waiting_row : TenantRow
waiting_row = office_row TenantStatus.provisioning ProvisioningStatus.running none

abbrev ready_row : TenantRow
ready_row = office_row TenantStatus.suspended ProvisioningStatus.completed (some 5)

run-provisions_example :
    tenant 5 (
      run outside
        (Event.end_of_job 5
          ∷ Event.begin_database 5 1500
          ∷ Event.finish_database 5 50 5432 none 1600
          ∷ [])
        (office_world waiting_row))
    ≡ some (record waiting_row {
      database_name = some 5;
      database_host = some 50;
      database_port = some 5432;
      status = TenantStatus.pending_admin;
      provisioning_status = ProvisioningStatus.completed;
      last_error_code = none;
      updated_at = 1600;
    })
run-provisions_example =
    run-provisions outside (office_world waiting_row) 5 50 5432 none 1500 1600 waiting_row refl refl

run-expired_example :
    (run outside
      (Event.begin_administrator 5 9 ∷ Event.finish_administrator 5 9 none 3000 ∷ [])
      (office_world ready_row)).db
    ≡ (office_world ready_row).db
run-expired_example =
    run-expired outside (office_world ready_row) 5 9 none 3000 pending refl (omega arith)

abbrev failed_row : TenantRow
failed_row = office_row TenantStatus.failed ProvisioningStatus.failed none
