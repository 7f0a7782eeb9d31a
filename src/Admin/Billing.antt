-- ===== src/Admin/Billing.antt =====
-- The rows of subscriptions, invoices, invoice items and payments.
use gatway_pagamento_escrito.Prelude.{ℕ, Option}

pub data Interval : Type 0 where
  monthly yearly : Interval

pub data SubscriptionStatus : Type 0 where
  pending trialing active past_due suspended canceled : SubscriptionStatus

pub record SubscriptionRow : Type 0 where
  pub id : ℕ
  pub tenant_id : ℕ
  pub plan_id : ℕ
  pub plan_price_id : ℕ
  pub status : SubscriptionStatus
  pub currency : ℕ
  pub billing_interval : Interval
  pub amount_cents : ℕ
  pub current_period_start : ℕ
  pub current_period_end : ℕ
  pub trial_ends_at : Option ℕ
  pub canceled_at : Option ℕ
  pub deleted_at : Option ℕ
  pub created_at : ℕ
  pub updated_at : ℕ

-- `opened` is the status "open".
pub data InvoiceStatus : Type 0 where
  draft opened paid overdue void : InvoiceStatus

-- "BLP-<year>-<first eight hexadecimal digits of the id>"
pub record InvoiceNumber : Type 0 where
  pub year : ℕ
  pub prefix : ℕ

pub record InvoiceRow : Type 0 where
  pub id : ℕ
  pub tenant_id : ℕ
  pub subscription_id : ℕ
  pub number : InvoiceNumber
  pub status : InvoiceStatus
  pub currency : ℕ
  pub subtotal_cents : ℕ
  pub discount_cents : ℕ
  pub tax_cents : ℕ
  pub total_cents : ℕ
  pub due_date : ℕ
  pub issued_at : Option ℕ
  pub paid_at : Option ℕ
  pub voided_at : Option ℕ
  pub deleted_at : Option ℕ
  pub created_at : ℕ
  pub updated_at : ℕ

pub record InvoiceItemRow : Type 0 where
  pub tenant_id : ℕ
  pub invoice_id : ℕ
  pub description : ℕ
  pub quantity : ℕ
  pub unit_amount_cents : ℕ
  pub total_cents : ℕ

pub data PaymentMethod : Type 0 where
  manual bank_transfer pix card other : PaymentMethod

pub data PaymentStatus : Type 0 where
  pending paid failed refunded canceled : PaymentStatus

pub record PaymentRow : Type 0 where
  pub id : ℕ
  pub tenant_id : ℕ
  pub invoice_id : ℕ
  pub provider : ℕ
  pub external_reference : Option ℕ
  pub method : PaymentMethod
  pub status : PaymentStatus
  pub currency : ℕ
  pub amount_cents : ℕ
  pub failure_code : Option ℕ
  pub paid_at : Option ℕ
  pub failed_at : Option ℕ
  pub refunded_at : Option ℕ
  pub deleted_at : Option ℕ
  pub created_at : ℕ
  pub updated_at : ℕ
