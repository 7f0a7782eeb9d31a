-- ===== src/Admin/Tenancy.antt =====
-- The rows of identities, tenants, plans and plan prices.
use gatway_pagamento_escrito.Prelude.{ℕ, Bool, Option}
use gatway_pagamento_escrito.Admin.Billing.{Interval}

pub data Realm : Type 0 where
  platform tenant : Realm

pub data IdentityStatus : Type 0 where
  pending active locked disabled : IdentityStatus

pub record IdentityRow : Type 0 where
  pub id : ℕ
  pub email : ℕ
  pub display_name : Option ℕ
  pub normalized_email : ℕ
  pub password_hash : ℕ
  pub realm : Realm
  pub tenant_id : Option ℕ
  pub status : IdentityStatus
  pub must_change_password : Bool
  pub mfa_required : Bool
  pub password_changed_at : Option ℕ
  pub last_login_at : Option ℕ
  pub locked_until : Option ℕ
  pub deleted_at : Option ℕ

pub data TenantStatus : Type 0 where
  draft provisioning pending_admin active suspended failed archived : TenantStatus

pub data ProvisioningStatus : Type 0 where
  not_started queued running completed failed : ProvisioningStatus

pub record TenantRow : Type 0 where
  pub id : ℕ
  pub name : ℕ
  pub slug : ℕ
  pub legal_name : Option ℕ
  pub trade_name : Option ℕ
  pub tax_id : Option ℕ
  pub contact_email : ℕ
  pub database_name : Option ℕ
  pub database_host : Option ℕ
  pub database_port : Option ℕ
  pub status : TenantStatus
  pub plan : ℕ
  pub plan_id : Option ℕ
  pub provisioning_status : ProvisioningStatus
  pub created_by_identity_id : Option ℕ
  pub activated_at : Option ℕ
  pub suspended_at : Option ℕ
  pub last_error_code : Option ℕ
  pub created_at : ℕ
  pub updated_at : ℕ

pub data PlanStatus : Type 0 where
  draft active archived : PlanStatus

pub record PlanRow : Type 0 where
  pub id : ℕ
  pub name : ℕ
  pub slug : ℕ
  pub status : PlanStatus
  pub trial_days : ℕ
  pub description : Option ℕ
  pub created_at : ℕ
  pub updated_at : ℕ
  pub deleted_at : Option ℕ

pub record PlanPriceRow : Type 0 where
  pub id : ℕ
  pub plan_id : ℕ
  pub currency : ℕ
  pub billing_interval : Interval
  pub amount_cents : ℕ
  pub effective_from : ℕ
  pub effective_to : Option ℕ

pub record PlanFeatureRow : Type 0 where
  pub plan_id : ℕ
  pub key : ℕ
  pub value : ℕ

-- A row of `tenant_provisioning_attempts`; its `job_key` is "tenant-provision-" and the tenant's id.
pub data AttemptStatus : Type 0 where
  queued running completed failed : AttemptStatus

pub record AttemptRow : Type 0 where
  pub tenant_id : ℕ
  pub status : AttemptStatus
  pub attempt : ℕ
  pub error_code : Option ℕ
  pub error_detail : Option ℕ
  pub started_at : Option ℕ
  pub completed_at : Option ℕ
