-- ===== src/Admin.antt =====
-- apps/api/src/common/admin-database.ts: the tables of the administration database that the
-- platform services read and write, with the values of their JSON columns.
-- Ids are the 128 bits of a UUID as a number; texts that are only stored or compared are numbers;
-- times are milliseconds and dates are days since the epoch; `bigint` amounts are natural numbers.
mod Billing
mod Tenancy
mod Responses
pub use Billing.*
pub use Tenancy.*
pub use Responses.*
use gatway_pagamento_escrito.Prelude.{ℕ, Option, List}
use native.Mathlib.Decide.{ℕ_discrete}
use gatway_pagamento_escrito.Idempotency.{Db}

-- A row of `platform_outbox`.
pub record OutboxRow : Type 0 where
  pub id : ℕ
  pub aggregate_type : Aggregate
  pub aggregate_id : ℕ
  pub event_type : EventType
  pub payload : Value
  pub attempts : ℕ
  pub created_at : ℕ
  pub processed_at : Option ℕ

-- A row of `platform_audit_logs`, as the services fill it.
pub record AuditRow : Type 0 where
  pub actor_identity_id : Option ℕ
  pub action : EventType
  pub resource_id : Option ℕ
  pub tenant_id : Option ℕ
  pub metadata : Value
  pub created_at : ℕ

pub record Tables : Type 0 where
  pub identities : List IdentityRow
  pub tenants : List TenantRow
  pub plans : List PlanRow
  pub plan_prices : List PlanPriceRow
  pub subscriptions : List SubscriptionRow
  pub invoices : List InvoiceRow
  pub invoice_items : List InvoiceItemRow
  pub payments : List PaymentRow
  pub plan_features : List PlanFeatureRow
  pub provisioning_attempts : List AttemptRow
  pub outbox : List OutboxRow
  pub next_outbox_id : ℕ
  pub audit_logs : List AuditRow

-- The scopes of idempotency keys; a scope that ends in an id carries it.
pub data Scope : Type 0 where
  invoice_create payment_create tenants_create : Scope
  plans_create : Scope
  tenants_admin_create tenants_status_update tenants_provisioning_retry : ℕ → Scope
  plans_update plans_price_create : ℕ → Scope

unfoldable pub Scope-discrete : Discrete Scope
unfolding ℕ_discrete
Scope-discrete = hlevel ℕ_discrete

abbrev pub AdminDb : Type 0
AdminDb = Db Scope Value Tables
