-- ===== src/Admin/Responses.antt =====
-- The answers of the services, which are also the payloads of the events that they record.
use gatway_pagamento_escrito.Prelude.{ℕ, Option, List}
use gatway_pagamento_escrito.Admin.Billing.{
  Interval, InvoiceStatus, InvoiceNumber, PaymentMethod, PaymentStatus,
}
use gatway_pagamento_escrito.Admin.Tenancy.{TenantStatus, ProvisioningStatus, PlanStatus}

pub record InvoiceResponse : Type 0 where
  pub id : ℕ
  pub tenant_id : ℕ
  pub subscription_id : ℕ
  pub number : InvoiceNumber
  pub status : InvoiceStatus
  pub currency : ℕ
  pub subtotal_cents : ℕ
  pub discount_cents : ℕ
  pub tax_cents : ℕ
  pub total_cents : ℕ
  pub due_date : ℕ
  pub issued_at : Option ℕ
  pub paid_at : Option ℕ
  pub voided_at : Option ℕ
  pub created_at : ℕ
  pub updated_at : ℕ

pub record PaymentResponse : Type 0 where
  pub id : ℕ
  pub tenant_id : ℕ
  pub invoice_id : ℕ
  pub provider : ℕ
  pub external_reference : Option ℕ
  pub method : PaymentMethod
  pub status : PaymentStatus
  pub currency : ℕ
  pub amount_cents : ℕ
  pub failure_code : Option ℕ
  pub paid_at : Option ℕ
  pub failed_at : Option ℕ
  pub refunded_at : Option ℕ
  pub created_at : ℕ
  pub updated_at : ℕ

pub record TenantResponse : Type 0 where
  pub id : ℕ
  pub name : ℕ
  pub slug : ℕ
  pub legal_name : Option ℕ
  pub trade_name : Option ℕ
  pub tax_id : Option ℕ
  pub contact_email : ℕ
  pub status : TenantStatus
  pub provisioning_status : ProvisioningStatus
  pub plan_id : Option ℕ
  pub activated_at : Option ℕ
  pub suspended_at : Option ℕ
  pub last_error_code : Option ℕ
  pub created_at : ℕ
  pub updated_at : ℕ

pub record PriceResponse : Type 0 where
  pub id : ℕ
  pub plan_id : ℕ
  pub currency : ℕ
  pub billing_interval : Interval
  pub amount_cents : ℕ
  pub effective_from : ℕ
  pub effective_to : Option ℕ

-- A price in the answer for its plan
pub record PlanPriceItem : Type 0 where
  pub id : ℕ
  pub currency : ℕ
  pub billing_interval : Interval
  pub amount_cents : ℕ
  pub effective_from : ℕ
  pub effective_to : Option ℕ

pub record Feature : Type 0 where
  pub key : ℕ
  pub value : ℕ

pub record PlanResponse : Type 0 where
  pub id : ℕ
  pub name : ℕ
  pub slug : ℕ
  pub description : Option ℕ
  pub status : PlanStatus
  pub trial_days : ℕ
  pub created_at : ℕ
  pub updated_at : ℕ
  pub prices : List PlanPriceItem
  pub features : List Feature

-- JSON values: `tenant_ref`, `tenant_status` and `tenant_identity` are the payloads `{ tenantId }`,
-- `{ tenantId, status }` and `{ tenantId, identityId }`; `admin_created` is the answer of
-- `createAdministrator`, whose status is always "pending_activation".
pub data Value : Type 0 where
  invoice : InvoiceResponse → Value
  payment : PaymentResponse → Value
  tenant : TenantResponse → Value
  tenant_ref : ℕ → Value
  tenant_status : ℕ → TenantStatus → Value
  tenant_identity admin_created : ℕ → ℕ → Value
  plan : PlanResponse → Value
  plan_price : PriceResponse → Value
  plan_slug : ℕ → Value
  plan_status : PlanStatus → Value
  job : Option ℕ → Value

pub data Aggregate : Type 0 where
  invoice payment tenant plan : Aggregate

pub data EventType : Type 0 where
  invoice_created payment_recorded : EventType
  tenant_provisioning_requested tenant_admin_provisioning_requested : EventType
  tenant_suspended tenant_reactivated : EventType
  tenant_provisioning_completed tenant_admin_provisioning_completed : EventType
  plan_created plan_updated plan_price_created : EventType
