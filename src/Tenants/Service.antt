-- ===== src/Tenants/Service.antt =====
-- `create`, `createAdministrator`, `updateStatus` and `retryProvisioning` of
-- apps/api/src/modules/tenants/tenants.service.ts. The clock is read once for a call.
use gatway_pagamento_escrito.Prelude.{ℕ, not, Option, none, some, if◌then◌else◌}
use gatway_pagamento_escrito.Failure.{Failure, conflict, Result, err, run_transaction}
use gatway_pagamento_escrito.Idempotency.{Idempotent, execute}
use gatway_pagamento_escrito.Admin.{Interval, Value, Scope, Scope-discrete, TenantRow, AdminDb}
use gatway_pagamento_escrito.Common.{User, is_platform, on_unique_violation}
use gatway_pagamento_escrito.Auth.Password.{Chars, validate_password_policy}
use gatway_pagamento_escrito.Tenants.Changes.{
  CreateTenantRequest, CreateTenantAdminRequest, AdministratorKey, RequestedStatus, StatusRequest,
  create_tenant_tx, create_administrator_tx, update_status_tx, retry_provisioning_tx,
}

abbrev pub Answer : Type 0
Answer = Result (Idempotent Value) × AdminDb

abbrev pub invalid_realm : Failure
invalid_realm = conflict "Invalid realm"

module _ (hash : CreateTenantRequest → ℕ) (lower : ℕ → ℕ) (period_end : Interval → ℕ → ℕ) where
  -- `create`
  unfoldable pub create_tenant_call :
      User
      → (key : ℕ) → CreateTenantRequest
      → (new_tenant_id new_subscription_id now : ℕ) → AdminDb
      → Answer
  create_tenant_call user key input new_tenant_id new_subscription_id now db =
      if not (is_platform user.realm)
      then (err invalid_realm, db)
      else let (r, db') =
          run_transaction
            (execute Scope-discrete hash
              (record {
                scope = Scope.tenants_create;
                key = key;
                actor_identity_id = user.user_id;
                request = input;
              })
              (create_tenant_tx lower period_end user input new_tenant_id new_subscription_id now)
              now)
            db in
        (on_unique_violation "Tenant slug, tax ID, or identity already exists" r, db')

module _ (hash : AdministratorKey → ℕ) (lower trim_lower : ℕ → ℕ) (to_lower_case : Chars → Chars)
    (argon2_hash : ℕ → Chars → ℕ) where
  abbrev pub administrator_key : ℕ → CreateTenantAdminRequest → AdministratorKey
  administrator_key tenant_id input = record {
    tenant_id = tenant_id;
    email = lower input.email;
    display_name = input.display_name;
  }

  abbrev pub create_administrator_checked :
      User
      → (tenant_id key : ℕ) → CreateTenantAdminRequest
      → (salt new_identity_id now : ℕ) → Option Failure
      → AdminDb
      → Answer
  create_administrator_checked user tenant_id key input salt new_identity_id now (some e) db =
      (err e, db)
  create_administrator_checked user tenant_id key input salt new_identity_id now none db =
      let (r, db') =
        run_transaction
          (execute Scope-discrete hash
            (record {
              scope = Scope.tenants_admin_create tenant_id;
              key = key;
              actor_identity_id = user.user_id;
              request = administrator_key tenant_id input;
            })
            (create_administrator_tx lower trim_lower argon2_hash user tenant_id input salt
              new_identity_id now)
            now)
          db in
      (on_unique_violation "Administrator email already exists" r, db')

  -- `createAdministrator`
  unfoldable pub create_administrator_call :
      User
      → (tenant_id key : ℕ) → CreateTenantAdminRequest
      → (salt new_identity_id now : ℕ) → AdminDb
      → Answer
  create_administrator_call user tenant_id key input salt new_identity_id now db =
      if not (is_platform user.realm)
      then (err invalid_realm, db)
      else create_administrator_checked user tenant_id key input salt new_identity_id now
          (validate_password_policy to_lower_case input.temporary_password) db

module _ (hash : StatusRequest → ℕ) where
  -- `updateStatus`
  unfoldable pub update_status_call :
      User → (tenant_id key : ℕ) → RequestedStatus → (now : ℕ) → AdminDb → Answer
  update_status_call user tenant_id key status now db =
      if not (is_platform user.realm)
      then (err invalid_realm, db)
      else run_transaction
          (execute Scope-discrete hash
            (record {
              scope = Scope.tenants_status_update tenant_id;
              key = key;
              actor_identity_id = user.user_id;
              request = record { tenant_id = tenant_id; status = status };
            })
            (update_status_tx user tenant_id status now) now)
          db

module _ (hash : ℕ → ℕ) where
  -- `retryProvisioning`
  unfoldable pub retry_provisioning_call :
      User → (tenant_id key : ℕ) → (seen : Option TenantRow) → (now : ℕ) → AdminDb → Answer
  retry_provisioning_call user tenant_id key seen now db =
      if not (is_platform user.realm)
      then (err invalid_realm, db)
      else run_transaction
          (execute Scope-discrete hash
            (record {
              scope = Scope.tenants_provisioning_retry tenant_id;
              key = key;
              actor_identity_id = user.user_id;
              request = tenant_id;
            })
            (retry_provisioning_tx user tenant_id seen now) now)
          db
