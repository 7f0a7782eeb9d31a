-- ===== src/Listing/Services.antt =====
-- `list` of TenantsService and PlansService, and `listInvoices`, `listPayments` and
-- `listSubscriptions` of BillingService, of
-- apps/api/src/modules. A joined tenant is there for every row; its name is left out of the answers.
-- The time of a row in microseconds is a parameter.
use gatway_pagamento_escrito.Prelude.{ℕ, Bool, Option, none, some, List, if◌then◌else◌, String}
use gatway_pagamento_escrito.Failure.{bad_request, Result, ok, err, map_results}
use gatway_pagamento_escrito.Auth.Password.{Chars}
use gatway_pagamento_escrito.Admin.{
  TenantStatus, TenantRow, TenantResponse, PlanStatus, PlanRow, SubscriptionStatus, SubscriptionRow,
  InvoiceStatus, InvoiceRow, InvoiceResponse, PaymentStatus, PaymentRow, PaymentResponse, Interval,
  Tables,
}
use gatway_pagamento_escrito.Common.{to_safe_integer}
use gatway_pagamento_escrito.Tenants.Changes.{tenant_response}
use gatway_pagamento_escrito.Billing.Response.{invoice_response, payment_response}
use gatway_pagamento_escrito.Listing.{Cursor, Page, fetch}
use gatway_pagamento_escrito.Listing.Cursors.{Codec, encode_cursor, decode_cursor}
use gatway_pagamento_escrito.Listing.Filters.{
  Choice, is_unknown, BillingQuery, tenant_matches, plan_matches, invoice_matches, payment_matches,
  subscription_matches,
}

pub record SubscriptionResponse : Type 0 where
  pub id : ℕ
  pub tenant_id : ℕ
  pub plan_id : ℕ
  pub plan_price_id : ℕ
  pub status : SubscriptionStatus
  pub currency : ℕ
  pub billing_interval : Interval
  pub amount_cents : ℕ
  pub current_period_start : ℕ
  pub current_period_end : ℕ
  pub trial_ends_at : Option ℕ
  pub canceled_at : Option ℕ
  pub created_at : ℕ
  pub updated_at : ℕ

abbrev with_amount : SubscriptionRow → Result ℕ → Result SubscriptionResponse
with_amount row (err e) = err e
with_amount row (ok amount_cents) = ok (record {
  id = row.id;
  tenant_id = row.tenant_id;
  plan_id = row.plan_id;
  plan_price_id = row.plan_price_id;
  status = row.status;
  currency = row.currency;
  billing_interval = row.billing_interval;
  amount_cents = amount_cents;
  current_period_start = row.current_period_start;
  current_period_end = row.current_period_end;
  trial_ends_at = row.trial_ends_at;
  canceled_at = row.canceled_at;
  created_at = row.created_at;
  updated_at = row.updated_at;
})

-- `subscriptionResponse`
unfoldable pub subscription_response : SubscriptionRow → Result SubscriptionResponse
unfolding to_safe_integer
subscription_response row = with_amount row (to_safe_integer row.amount_cents "subscription amount")

-- What `PlansService.list` shows of a plan
pub record PlanSummary : Type 0 where
  pub id : ℕ
  pub name : ℕ
  pub slug : ℕ
  pub description : Option ℕ
  pub status : PlanStatus
  pub trial_days : ℕ
  pub created_at : ℕ
  pub updated_at : ℕ

abbrev pub plan_summary : PlanRow → PlanSummary
plan_summary row = record {
  id = row.id;
  name = row.name;
  slug = row.slug;
  description = row.description;
  status = row.status;
  trial_days = row.trial_days;
  created_at = row.created_at;
  updated_at = row.updated_at;
}

pub record Answered (Item : Type 0) : Type 0 where
  pub items : List Item
  pub next_cursor : Option Chars

module _ (codec : Codec) where
  abbrev pub next_text : Option Cursor → Option Chars
  next_text none = none
  next_text (some c) = some (encode_cursor codec c)

  abbrev pub answer_items :
      {Item : Type 0} → Option Cursor → Result (List Item) → Result (Answered Item)
  answer_items next (ok items) = ok (record { items = items; next_cursor = next_text next })
  answer_items next (err e) = err e

  module _ {Row Item : Type 0} (created_us id : Row → ℕ) (mapper : Row → Result Item) where
    abbrev pub answer_page : Page Row → Result (Answered Item)
    answer_page p = answer_items p.next_cursor (map_results mapper p.items)

    abbrev pub answer_from :
        (Row → Bool) → ℕ → List Row → Result (Option Cursor) → Result (Answered Item)
    answer_from matches limit rows (ok before) =
        answer_page (fetch created_us id matches limit rows before)
    answer_from matches limit rows (err e) = err e

    -- A list handler: the status is checked, then the cursor is read.
    unfoldable pub list_page :
        String → Bool → (Row → Bool) → ℕ → Option Chars → List Row → Result (Answered Item)
    unfolding decode_cursor
    list_page message bad matches limit cursor rows =
        if bad
        then err (bad_request message)
        else answer_from matches limit rows (decode_cursor codec cursor)

  -- `TenantsService.list`
  unfoldable pub list_tenants :
      (ℕ → ℕ → Bool)
      → (TenantRow → ℕ)
      → (search : Option ℕ) → Choice TenantStatus
      → (limit : ℕ) → Option Chars
      → Tables
      → Result (Answered TenantResponse)
  unfolding list_page
  list_tenants contains created_us search status limit cursor t =
      list_page created_us (λ row. row.id) (λ row. ok (tenant_response row)) "Invalid tenant status"
        (is_unknown status) (tenant_matches contains search status) limit cursor t.tenants

  -- `BillingService.listInvoices`: the repository reads the clock for its query, and
  -- `invoiceResponse` reads it for each row.
  unfoldable pub list_invoices :
      (InvoiceRow → ℕ)
      → (now : ℕ) → (clock : InvoiceRow → ℕ) → BillingQuery InvoiceStatus
      → (limit : ℕ) → Option Chars
      → Tables
      → Result (Answered InvoiceResponse)
  unfolding list_page invoice_response
  list_invoices created_us now clock q limit cursor t =
      list_page created_us (λ row. row.id) (λ row. invoice_response (clock row) row)
        "Invalid invoice status" (is_unknown q.status) (invoice_matches now q) limit cursor
        t.invoices

  -- `BillingService.listPayments`
  unfoldable pub list_payments :
      (PaymentRow → ℕ)
      → BillingQuery PaymentStatus
      → (limit : ℕ) → Option Chars
      → Tables
      → Result (Answered PaymentResponse)
  unfolding list_page payment_response
  list_payments created_us q limit cursor t =
      list_page created_us (λ row. row.id) payment_response "Invalid payment status"
        (is_unknown q.status) (payment_matches q) limit cursor t.payments

  -- `BillingService.listSubscriptions`
  unfoldable pub list_subscriptions :
      (SubscriptionRow → ℕ)
      → BillingQuery SubscriptionStatus
      → (limit : ℕ) → Option Chars
      → Tables
      → Result (Answered SubscriptionResponse)
  unfolding list_page subscription_response
  list_subscriptions created_us q limit cursor t =
      list_page created_us (λ row. row.id) subscription_response "Invalid subscription status"
        (is_unknown q.status) (subscription_matches q) limit cursor t.subscriptions

  -- `PlansService.list`
  unfoldable pub list_plans :
      (ℕ → ℕ → Bool)
      → (PlanRow → ℕ)
      → (search : Option ℕ) → Choice PlanStatus
      → (limit : ℕ) → Option Chars
      → Tables
      → Result (Answered PlanSummary)
  unfolding list_page
  list_plans contains created_us search status limit cursor t =
      list_page created_us (λ row. row.id) (λ row. ok (plan_summary row)) "Invalid plan status"
        (is_unknown status) (plan_matches contains search status) limit cursor t.plans
