-- ===== src/Worker/Provisioning.antt =====
-- `TenantProvisioningWorker` of apps/worker/src/workers/tenant-provisioning.worker.ts: what a job reads
-- and writes in the administration database. Each function is one statement or transaction, or the
-- statements before the work outside; what that work (creating the database, its grants, migrations
-- and rows) answers is an argument. A database is named after its tenant, so its name is the id.
use gatway_pagamento_escrito.Prelude.{
  ℕ, ◌+◌, Bool, true, false, ◌&&◌, Option, none, some, List, ◌∷◌, ltb, ◌==◌, if◌then◌else◌, is_some,
  find, update_where,
}
use gatway_pagamento_escrito.Failure.{Failure, error, check_violation, Result, ok, err, Tx}
use gatway_pagamento_escrito.Admin.{
  TenantStatus, ProvisioningStatus, TenantRow, IdentityRow, AttemptStatus, AttemptRow,
  SubscriptionStatus, SubscriptionRow, EventType, Value, Tables,
}
use gatway_pagamento_escrito.Common.{is_null}
use gatway_pagamento_escrito.Tenants.Repository.{find_tenant, change_tenant, bad_period}

-- What `executeTakeFirstOrThrow` throws
abbrev pub no_result : Failure
no_result = error "no result"

abbrev pub is_provisioned : ProvisioningStatus → Bool
is_provisioned ProvisioningStatus.completed = true
is_provisioned _ = false

abbrev pub is_attempt_of : ℕ → AttemptRow → Bool
is_attempt_of tenant_id row = row.tenant_id == tenant_id

abbrev pub restarted : (now : ℕ) → AttemptRow → AttemptRow
restarted now row = record row {
  status = AttemptStatus.running;
  attempt = row.attempt + 1;
  error_code = none;
  error_detail = none;
  started_at = some now;
  completed_at = none;
}

abbrev pub first_attempt : (tenant_id now : ℕ) → AttemptRow
first_attempt tenant_id now = record {
  tenant_id = tenant_id;
  status = AttemptStatus.running;
  attempt = 1;
  error_code = none;
  error_detail = none;
  started_at = some now;
  completed_at = none;
}

-- The insertion with `onConflict … doUpdateSet`
unfoldable pub upsert_attempt : (tenant_id now : ℕ) → List AttemptRow → List AttemptRow
upsert_attempt tenant_id now rows =
    if is_some (find (is_attempt_of tenant_id) rows)
    then update_where (is_attempt_of tenant_id) (restarted now) rows
    else first_attempt tenant_id now ∷ rows

abbrev pub set_running : TenantRow → TenantRow
set_running row = record row {
  status = TenantStatus.provisioning;
  provisioning_status = ProvisioningStatus.running;
  last_error_code = none;
}

abbrev pub start_attempt : (tenant_id now : ℕ) → Tables → Tables
start_attempt tenant_id now t = record (change_tenant tenant_id set_running now t) {
  provisioning_attempts = upsert_attempt tenant_id now t.provisioning_attempts;
}

-- The start of `provisionDatabase`; the answer says whether there is work left. Its three statements are
-- taken as one step: under the lock, only a retry can write the row in between, and the update that
-- follows sets what the retry sets. A process that ends between them is `cut_database_job`.
unfoldable pub begin_provisioning : (tenant_id now : ℕ) → Tx Tables Bool
begin_provisioning tenant_id now t = elim (find_tenant tenant_id t) [
  | none ↦ err no_result
  | some row ↦
      if is_provisioned row.provisioning_status
      then ok (false, t)
      else ok (true, start_attempt tenant_id now t)
]

abbrev pub set_provisioned : (tenant_id host port : ℕ) → TenantRow → TenantRow
set_provisioned tenant_id host port row = record row {
  database_name = some tenant_id;
  database_host = some host;
  database_port = some port;
  status = TenantStatus.pending_admin;
  provisioning_status = ProvisioningStatus.completed;
  last_error_code = none;
}

abbrev pub completed_attempt : (now : ℕ) → AttemptRow → AttemptRow
completed_attempt now row = record row { status = AttemptStatus.completed; completed_at = some now }

-- The transaction of `provisionDatabase` after the database is ready
unfoldable pub finish_provisioning :
    (tenant_id host port : ℕ) → (job_id : Option ℕ) → (now : ℕ) → Tables → Tables
finish_provisioning tenant_id host port job_id now t =
    record (change_tenant tenant_id (set_provisioned tenant_id host port) now t) {
      provisioning_attempts =
          update_where (is_attempt_of tenant_id) (completed_attempt now) t.provisioning_attempts;
      audit_logs =
          record {
            actor_identity_id = none;
            action = EventType.tenant_provisioning_completed;
            resource_id = some tenant_id;
            tenant_id = some tenant_id;
            metadata = Value.job job_id;
            created_at = now;
          }
          ∷ t.audit_logs;
    }

-- "PROVISIONING_FAILED"
abbrev pub provisioning_failed : ℕ
provisioning_failed = 1

abbrev pub set_failed : TenantRow → TenantRow
set_failed row = record row {
  status = TenantStatus.failed;
  provisioning_status = ProvisioningStatus.failed;
  last_error_code = some provisioning_failed;
}

abbrev pub failed_attempt : (error_detail now : ℕ) → AttemptRow → AttemptRow
failed_attempt error_detail now row = record row {
  status = AttemptStatus.failed;
  error_code = some provisioning_failed;
  error_detail = some error_detail;
  completed_at = some now;
}

-- The transaction of `provisionDatabase` after an error
unfoldable pub fail_provisioning : (tenant_id error_detail now : ℕ) → Tables → Tables
fail_provisioning tenant_id error_detail now t = record (change_tenant tenant_id set_failed now t) {
  provisioning_attempts =
      update_where (is_attempt_of tenant_id) (failed_attempt error_detail now)
        t.provisioning_attempts;
}

-- The join of `provisionAdministrator`
abbrev pub is_administrator : ℕ → ℕ → IdentityRow → Bool
is_administrator tenant_id identity_id i =
    i.id == identity_id
    && elim i.tenant_id [ none ↦ false | some id ↦ id == tenant_id ]
    && is_null i.deleted_at

abbrev pub is_active : TenantStatus → Bool
is_active TenantStatus.active = true
is_active _ = false

abbrev pub has_profile : TenantRow → IdentityRow → Bool
has_profile tenant i = is_some tenant.database_name && is_some i.display_name

-- The start of `provisionAdministrator`; the answer says whether there is work left.
unfoldable pub begin_administrator : (tenant_id identity_id : ℕ) → Tables → Result Bool
begin_administrator tenant_id identity_id t = elim (find_tenant tenant_id t) [
  | none ↦ err no_result
  | some tenant ↦ elim (find (is_administrator tenant_id identity_id) t.identities) [
    | none ↦ err no_result
    | some i ↦
        if is_active tenant.status
        then ok false
        else if has_profile tenant i
        then ok true
        else err (error "Tenant database and administrator profile are required")
  ]
]

abbrev pub set_active : (now : ℕ) → TenantRow → TenantRow
set_active now row = record row {
  status = TenantStatus.active;
  activated_at = some now;
  last_error_code = none;
}

abbrev pub is_pending : SubscriptionStatus → Bool
is_pending SubscriptionStatus.pending = true
is_pending _ = false

abbrev pub is_pending_of : ℕ → SubscriptionRow → Bool
is_pending_of tenant_id row =
    row.tenant_id == tenant_id && is_pending row.status && is_null row.deleted_at

-- `trial_ends_at && trial_ends_at > new Date()`
abbrev pub started_status : Option ℕ → ℕ → SubscriptionStatus
started_status none now = SubscriptionStatus.active
started_status (some trial_ends_at) now =
    if ltb now trial_ends_at then SubscriptionStatus.trialing else SubscriptionStatus.active

abbrev pub start_subscription : (now : ℕ) → SubscriptionRow → SubscriptionRow
start_subscription now row = record row {
  status = started_status row.trial_ends_at now;
  current_period_start = now;
  updated_at = now;
}

abbrev pub is_live_subscription : ℕ → SubscriptionRow → Bool
is_live_subscription id row = row.id == id && is_null row.deleted_at

-- The update of the pending subscription, under `chk_subscriptions_period`
abbrev pub started_subscriptions :
    (now : ℕ) → Option SubscriptionRow → List SubscriptionRow → Result (List SubscriptionRow)
started_subscriptions now none rows = ok rows
started_subscriptions now (some row) rows =
    if bad_period (start_subscription now row)
    then err check_violation
    else ok (update_where (is_live_subscription row.id) (start_subscription now) rows)

-- The last transaction of `provisionAdministrator`
unfoldable pub activate_tenant :
    (tenant_id identity_id : ℕ) → (job_id : Option ℕ) → (now : ℕ) → Tx Tables (Unit {0})
activate_tenant tenant_id identity_id job_id now t =
    elim (started_subscriptions now (find (is_pending_of tenant_id) t.subscriptions)
      t.subscriptions) [
        | err e ↦ err e
        | ok subscriptions ↦ ok (
          tt,
          record (change_tenant tenant_id (set_active now) now t) {
            subscriptions = subscriptions;
            audit_logs =
                record {
                  actor_identity_id = some identity_id;
                  action = EventType.tenant_admin_provisioning_completed;
                  resource_id = some tenant_id;
                  tenant_id = some tenant_id;
                  metadata = Value.job job_id;
                  created_at = now;
                }
                ∷ t.audit_logs;
          },
        )
      ]
