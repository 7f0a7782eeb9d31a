-- ===== src/Listing/Filters.antt =====
-- The conditions of the queries of `list` in the repositories of tenants and plans, and of
-- `listInvoices`, `listPayments` and `listSubscriptions` in BillingRepository, all of
-- apps/api/src/modules. `ilike` is a parameter.
use gatway_pagamento_escrito.Prelude.{
  ℕ, ◌/◌, Bool, true, false, not, ◌&&◌, ◌||◌, Option, none, some, List, [], ◌∷◌, ltb, leb, ◌==◌,
}
use gatway_pagamento_escrito.Idempotency.{day_ms}
use gatway_pagamento_escrito.Admin.{
  TenantStatus, TenantRow, PlanStatus, PlanRow, SubscriptionStatus, SubscriptionRow, InvoiceStatus,
  opened, overdue, InvoiceRow, PaymentStatus, PaymentRow,
}
use gatway_pagamento_escrito.Common.{is_null}

-- The text of a status in a query: none, one that is no status, or a status
pub data Choice (Status : Type 0) : Type 0 where
  any unknown : Choice Status
  only : Status → Choice Status

abbrev pub is_unknown : {Status : Type 0} → Choice Status → Bool
is_unknown Choice.unknown = true
is_unknown _ = false

abbrev pub fits : {Status : Type 0} → (Status → Status → Bool) → Choice Status → Status → Bool
fits same (Choice.only s) status = same status s
fits same _ status = true

abbrev pub tenant_code : TenantStatus → ℕ
tenant_code TenantStatus.draft = 0
tenant_code TenantStatus.provisioning = 1
tenant_code TenantStatus.pending_admin = 2
tenant_code TenantStatus.active = 3
tenant_code TenantStatus.suspended = 4
tenant_code TenantStatus.failed = 5
tenant_code TenantStatus.archived = 6

abbrev pub plan_code : PlanStatus → ℕ
plan_code PlanStatus.draft = 0
plan_code PlanStatus.active = 1
plan_code PlanStatus.archived = 2

abbrev pub invoice_code : InvoiceStatus → ℕ
invoice_code InvoiceStatus.draft = 0
invoice_code opened = 1
invoice_code InvoiceStatus.paid = 2
invoice_code overdue = 3
invoice_code InvoiceStatus.void = 4

abbrev pub payment_code : PaymentStatus → ℕ
payment_code PaymentStatus.pending = 0
payment_code PaymentStatus.paid = 1
payment_code PaymentStatus.failed = 2
payment_code PaymentStatus.refunded = 3
payment_code PaymentStatus.canceled = 4

abbrev pub subscription_code : SubscriptionStatus → ℕ
subscription_code SubscriptionStatus.pending = 0
subscription_code SubscriptionStatus.trialing = 1
subscription_code SubscriptionStatus.active = 2
subscription_code SubscriptionStatus.past_due = 3
subscription_code SubscriptionStatus.suspended = 4
subscription_code SubscriptionStatus.canceled = 5

-- The conditions of the queries
abbrev pub sought : (ℕ → ℕ → Bool) → Option ℕ → List ℕ → Bool
sought contains none texts = true
sought contains (some search) [] = false
sought contains (some search) (x ∷ xs) = contains search x || sought contains (some search) xs

abbrev pub tenant_matches : (ℕ → ℕ → Bool) → Option ℕ → Choice TenantStatus → TenantRow → Bool
tenant_matches contains search status row =
    sought contains search (row.name ∷ row.slug ∷ row.contact_email ∷ [])
    && fits (λ a b. tenant_code a == tenant_code b) status row.status

abbrev pub plan_matches : (ℕ → ℕ → Bool) → Option ℕ → Choice PlanStatus → PlanRow → Bool
plan_matches contains search status row =
    is_null row.deleted_at
    && sought contains search (row.name ∷ row.slug ∷ [])
    && fits (λ a b. plan_code a == plan_code b) status row.status

abbrev pub of_tenant : Option ℕ → ℕ → Bool
of_tenant none id = true
of_tenant (some tenant_id) id = id == tenant_id

abbrev pub has_invoice_status : InvoiceStatus → InvoiceStatus → Bool
has_invoice_status a b = invoice_code a == invoice_code b

-- `due_date < today` in the query
abbrev pub is_past : ℕ → InvoiceRow → Bool
is_past now row = ltb row.due_date (now / day_ms)

abbrev pub invoice_fits : ℕ → Choice InvoiceStatus → InvoiceRow → Bool
invoice_fits now (Choice.only overdue) row =
    has_invoice_status row.status overdue
    || (has_invoice_status row.status opened && is_past now row)
invoice_fits now (Choice.only opened) row =
    has_invoice_status row.status opened && not (is_past now row)
invoice_fits now status row = fits has_invoice_status status row.status

abbrev pub from_day : Option ℕ → ℕ → Bool
from_day none day = true
from_day (some from) day = leb from day

abbrev pub to_day : Option ℕ → ℕ → Bool
to_day none day = true
to_day (some to) day = leb day to

-- `BillingListQuery`, its cursor and limit apart
pub record BillingQuery (Status : Type 0) : Type 0 where
  pub tenant_id : Option ℕ
  pub status : Choice Status
  pub from : Option ℕ
  pub to : Option ℕ

abbrev pub invoice_matches : ℕ → BillingQuery InvoiceStatus → InvoiceRow → Bool
invoice_matches now q row =
    is_null row.deleted_at
    && of_tenant q.tenant_id row.tenant_id
    && invoice_fits now q.status row
    && from_day q.from row.due_date
    && to_day q.to row.due_date

abbrev pub payment_matches : BillingQuery PaymentStatus → PaymentRow → Bool
payment_matches q row =
    is_null row.deleted_at
    && of_tenant q.tenant_id row.tenant_id
    && fits (λ a b. payment_code a == payment_code b) q.status row.status

abbrev pub subscription_matches : BillingQuery SubscriptionStatus → SubscriptionRow → Bool
subscription_matches q row =
    is_null row.deleted_at
    && of_tenant q.tenant_id row.tenant_id
    && fits (λ a b. subscription_code a == subscription_code b) q.status row.status
