-- ===== src/Tenants/Changes.antt =====
-- The callbacks of `create`, `createAdministrator`, `updateStatus` and `retryProvisioning` of
-- apps/api/src/modules/tenants/tenants.service.ts, over requests that the schemas of
-- packages/contracts/src/platform.ts have accepted.
use gatway_pagamento_escrito.Prelude.{ℕ, Bool, true, false, not, Option, none, some, if◌then◌else◌}
use gatway_pagamento_escrito.Failure.{
  Failure, bad_request, conflict, not_found, Tx, pure, modify, lift, throw_if, or_throw, ◌>>=◌,
  ◌>>◌,
}
use gatway_pagamento_escrito.Admin.{
  TenantStatus, ProvisioningStatus, TenantRow, TenantResponse, PlanStatus, Interval, Value,
  Aggregate, EventType, Tables,
}
use gatway_pagamento_escrito.Common.{User, record_mutation}
use gatway_pagamento_escrito.Auth.Password.{Chars, hash_password}
use gatway_pagamento_escrito.Tenants.Repository.{
  PlanSelection, get_plan_selection, create_tenant, find_tenant, has_tenant_identity, update_tenant,
  create_admin_identity,
}

-- `tenantResponse`
abbrev pub tenant_response : TenantRow → TenantResponse
tenant_response row = record {
  id = row.id;
  name = row.name;
  slug = row.slug;
  legal_name = row.legal_name;
  trade_name = row.trade_name;
  tax_id = row.tax_id;
  contact_email = row.contact_email;
  status = row.status;
  provisioning_status = row.provisioning_status;
  plan_id = row.plan_id;
  activated_at = row.activated_at;
  suspended_at = row.suspended_at;
  last_error_code = row.last_error_code;
  created_at = row.created_at;
  updated_at = row.updated_at;
}

pub record CreateTenantRequest : Type 0 where
  pub name : ℕ
  pub slug : ℕ
  pub legal_name : Option ℕ
  pub trade_name : Option ℕ
  pub tax_id : Option ℕ
  pub contact_email : ℕ
  pub plan_id : ℕ
  pub plan_price_id : ℕ

pub record CreateTenantAdminRequest : Type 0 where
  pub email : ℕ
  pub temporary_password : Chars
  pub display_name : ℕ

-- The request that `createAdministrator` hashes; it leaves the password out.
pub record AdministratorKey : Type 0 where
  pub tenant_id : ℕ
  pub email : ℕ
  pub display_name : ℕ

-- `updateTenantStatusRequestSchema` accepts these two statuses.
pub data RequestedStatus : Type 0 where
  active suspended : RequestedStatus

pub record StatusRequest : Type 0 where
  pub tenant_id : ℕ
  pub status : RequestedStatus

abbrev pub status_of : RequestedStatus → TenantStatus
status_of RequestedStatus.active = TenantStatus.active
status_of RequestedStatus.suspended = TenantStatus.suspended

-- `plan?.planStatus !== "active"`
abbrev pub active_plan : Option PlanSelection → Option PlanSelection
active_plan none = none
active_plan (some plan) = elim plan.plan_status [ PlanStatus.active ↦ some plan | _ ↦ none ]

-- `recordMutation`, whose payload also is the metadata
abbrev pub record_tenant_mutation :
    (now actor : ℕ) → EventType → (tenant_id : ℕ) → Value → Tables → Tables
record_tenant_mutation now actor event tenant_id payload =
    record_mutation now actor (some tenant_id) event Aggregate.tenant tenant_id payload

-- The callback of `create`
unfoldable pub create_tenant_tx :
    (ℕ → ℕ)
    → (Interval → ℕ → ℕ)
    → User
    → CreateTenantRequest
    → (new_tenant_id new_subscription_id now : ℕ) → Tx Tables Value
create_tenant_tx lower period_end user input new_tenant_id new_subscription_id now t =
    (do
      found ← lift (get_plan_selection input.plan_id input.plan_price_id now t)
      plan ← or_throw (active_plan found) (bad_request "Active plan and price are required")
      tenant ←
          create_tenant lower period_end
            (record {
              id = new_tenant_id;
              subscription_id = new_subscription_id;
              name = input.name;
              slug = input.slug;
              legal_name = input.legal_name;
              trade_name = input.trade_name;
              tax_id = input.tax_id;
              contact_email = input.contact_email;
              created_by_identity_id = user.user_id;
              plan = plan;
            })
            now
      modify (
          record_tenant_mutation now user.user_id EventType.tenant_provisioning_requested tenant.id
            (Value.tenant_ref tenant.id))
      pure (Value.tenant (tenant_response tenant)))
      t

-- `tenant?.status === "pending_admin" && tenant.provisioning_status === "completed"`
abbrev pub awaits_admin : Option TenantRow → Bool
awaits_admin none = false
awaits_admin (some row) = elim row.status [
  | TenantStatus.pending_admin ↦ elim row.provisioning_status [
    | ProvisioningStatus.completed ↦ true
    | _ ↦ false
  ]
  | _ ↦ false
]

module _ (lower trim_lower : ℕ → ℕ) (argon2_hash : ℕ → Chars → ℕ) where
  -- The callback of `createAdministrator`
  unfoldable pub create_administrator_tx :
      User
      → (tenant_id : ℕ) → CreateTenantAdminRequest
      → (salt new_identity_id now : ℕ) → Tx Tables Value
  create_administrator_tx user tenant_id input salt new_identity_id now t =
      (do
        throw_if (not (awaits_admin (find_tenant tenant_id t)))
            (conflict "Tenant must complete database provisioning first")
        throw_if (has_tenant_identity tenant_id t)
            (conflict "Tenant initial administrator already exists")
        password_hash ← lift (hash_password argon2_hash salt input.temporary_password)
        identity_id ←
            create_admin_identity lower
              (record {
                tenant_id = tenant_id;
                email = trim_lower input.email;
                display_name = input.display_name;
                password_hash = password_hash;
              })
              new_identity_id
        modify (
            record_tenant_mutation now user.user_id EventType.tenant_admin_provisioning_requested
              tenant_id (Value.tenant_identity tenant_id identity_id))
        pure (Value.admin_created tenant_id identity_id))
        t

-- `tenant.status === status`
abbrev pub has_status : RequestedStatus → TenantStatus → Bool
has_status RequestedStatus.active TenantStatus.active = true
has_status RequestedStatus.suspended TenantStatus.suspended = true
has_status _ _ = false

-- `allowedTransition`
abbrev pub allowed_transition : TenantStatus → RequestedStatus → Bool
allowed_transition TenantStatus.active RequestedStatus.suspended = true
allowed_transition TenantStatus.suspended RequestedStatus.active = true
allowed_transition _ _ = false

abbrev pub suspension : RequestedStatus → ℕ → Option ℕ
suspension RequestedStatus.suspended now = some now
suspension RequestedStatus.active now = none

abbrev pub status_event : RequestedStatus → EventType
status_event RequestedStatus.suspended = EventType.tenant_suspended
status_event RequestedStatus.active = EventType.tenant_reactivated

abbrev pub set_status : RequestedStatus → (now : ℕ) → TenantRow → TenantRow
set_status status now row = record row {
  status = status_of status;
  suspended_at = suspension status now;
}

abbrev pub no_tenant : Failure
no_tenant = not_found "Tenant not found"

-- What the callback does when the status is another one.
abbrev pub change_status :
    User → (tenant_id : ℕ) → RequestedStatus → (now : ℕ) → TenantRow → Tx Tables Value
change_status user tenant_id status now tenant t =
    (do
      throw_if (not (allowed_transition tenant.status status))
          (conflict "Invalid tenant status transition")
      found ← update_tenant tenant_id (set_status status now) now
      updated ← or_throw found no_tenant
      modify (
          record_tenant_mutation now user.user_id (status_event status) tenant_id
            (Value.tenant_status tenant_id (status_of status)))
      pure (Value.tenant (tenant_response updated)))
      t

-- The callback of `updateStatus`
unfoldable pub update_status_tx :
    User → (tenant_id : ℕ) → RequestedStatus → (now : ℕ) → Tx Tables Value
update_status_tx user tenant_id status now t =
    (do
      tenant ← or_throw (find_tenant tenant_id t) no_tenant
      (if has_status status tenant.status
          then pure (Value.tenant (tenant_response tenant))
          else change_status user tenant_id status now tenant))
      t

abbrev pub is_failed : TenantStatus → Bool
is_failed TenantStatus.failed = true
is_failed _ = false

abbrev pub requeue : TenantRow → TenantRow
requeue row = record row {
  status = TenantStatus.provisioning;
  provisioning_status = ProvisioningStatus.queued;
  last_error_code = none;
}

-- The callback of `retryProvisioning` from its update on: `seen` is the row that its `findById` read
-- earlier, without a lock, and the update does not look at the row again.
unfoldable pub retry_provisioning_tx :
    User → (tenant_id : ℕ) → (seen : Option TenantRow) → (now : ℕ) → Tx Tables Value
retry_provisioning_tx user tenant_id seen now t =
    (do
      tenant ← or_throw seen no_tenant
      throw_if (not (is_failed tenant.status)) (conflict "Only failed provisioning can be retried")
      found ← update_tenant tenant_id requeue now
      updated ← or_throw found no_tenant
      modify (
          record_tenant_mutation now user.user_id EventType.tenant_provisioning_requested tenant_id
            (Value.tenant_ref tenant_id))
      pure (Value.tenant (tenant_response updated)))
      t
