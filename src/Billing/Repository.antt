-- ===== src/Billing/Repository.antt =====
-- `BillingRepository` of apps/api/src/modules/billing/billing.repository.ts: the statements inside
-- a transaction, with the constraints that database/migrations/admin/006 and 010 put on the tables.
-- Ids that the source draws (`randomUUID`, `gen_random_uuid`) are arguments; transactions are
-- serial, which `SELECT … FOR UPDATE` gives for the payments of one invoice.
use gatway_pagamento_escrito.Prelude.{
  ℕ, ◌+◌, ◌*◌, Bool, true, false, not, ◌&&◌, ◌||◌, Option, none, some, List, [], ◌∷◌, ◌++◌, map,
  ◌==◌, if◌then◌else◌, is_some, find, update_where,
}
use gatway_pagamento_escrito.Failure.{unique_violation, check_violation, Result, ok, err, Tx}
use gatway_pagamento_escrito.Admin.{
  InvoiceNumber, InvoiceStatus, opened, InvoiceRow, InvoiceItemRow, PaymentMethod, PaymentRow,
  PaymentStatus, SubscriptionRow, Tables,
}
use gatway_pagamento_escrito.Common.{to_safe_integer, is_null}

-- `transaction.selectFrom(table).where("id", …).where("tenant_id", …).where("deleted_at" is null)`
abbrev pub is_subscription : ℕ → ℕ → SubscriptionRow → Bool
is_subscription id tenant_id row =
    row.id == id && row.tenant_id == tenant_id && is_null row.deleted_at

unfoldable pub find_subscription : ℕ → ℕ → Tables → Option SubscriptionRow
find_subscription id tenant_id t = find (is_subscription id tenant_id) t.subscriptions

abbrev pub is_invoice : ℕ → ℕ → InvoiceRow → Bool
is_invoice id tenant_id row = row.id == id && row.tenant_id == tenant_id && is_null row.deleted_at

unfoldable pub find_invoice_for_update : ℕ → ℕ → Tables → Option InvoiceRow
find_invoice_for_update id tenant_id t = find (is_invoice id tenant_id) t.invoices

pub record NewItem : Type 0 where
  pub description : ℕ
  pub quantity : ℕ
  pub unit_amount_cents : ℕ
  pub total_cents : ℕ

pub record NewInvoice : Type 0 where
  pub id : ℕ
  pub tenant_id : ℕ
  pub subscription_id : ℕ
  pub number : InvoiceNumber
  pub currency : ℕ
  pub subtotal_cents : ℕ
  pub discount_cents : ℕ
  pub tax_cents : ℕ
  pub total_cents : ℕ
  pub due_date : ℕ
  pub items : List NewItem

abbrev pub same_number : InvoiceNumber → InvoiceNumber → Bool
same_number a b = a.year == b.year && a.prefix == b.prefix

-- The primary key and `uq_invoices_tenant_number`.
abbrev pub clashes : NewInvoice → InvoiceRow → Bool
clashes new row =
    row.id == new.id || (row.tenant_id == new.tenant_id && same_number row.number new.number)

abbrev pub invoice_row : NewInvoice → ℕ → InvoiceRow
invoice_row new now = record {
  id = new.id;
  tenant_id = new.tenant_id;
  subscription_id = new.subscription_id;
  number = new.number;
  status = opened;
  currency = new.currency;
  subtotal_cents = new.subtotal_cents;
  discount_cents = new.discount_cents;
  tax_cents = new.tax_cents;
  total_cents = new.total_cents;
  due_date = new.due_date;
  issued_at = some now;
  paid_at = none;
  voided_at = none;
  deleted_at = none;
  created_at = now;
  updated_at = now;
}

abbrev pub item_row : ℕ → ℕ → NewItem → InvoiceItemRow
item_row tenant_id invoice_id item = record {
  tenant_id = tenant_id;
  invoice_id = invoice_id;
  description = item.description;
  quantity = item.quantity;
  unit_amount_cents = item.unit_amount_cents;
  total_cents = item.total_cents;
}

-- `chk_invoice_items_quantity` and `chk_invoice_items_amounts`
abbrev pub bad_item : NewItem → Bool
bad_item item =
    item.quantity == 0 || not (item.total_cents == item.unit_amount_cents * item.quantity)

unfoldable pub create_invoice : NewInvoice → ℕ → Tx Tables InvoiceRow
create_invoice new now t =
    if is_some (find (clashes new) t.invoices)
    then err unique_violation
    else if not (new.total_cents + new.discount_cents == new.subtotal_cents + new.tax_cents)
    then err check_violation
    else if is_some (find bad_item new.items)
    then err check_violation
    else ok (
      invoice_row new now,
      record t {
        invoices = invoice_row new now ∷ t.invoices;
        invoice_items = map (item_row new.tenant_id new.id) new.items ++ t.invoice_items;
      },
    )

abbrev pub is_paid : PaymentStatus → Bool
is_paid PaymentStatus.paid = true
is_paid _ = false

abbrev pub is_failed : PaymentStatus → Bool
is_failed PaymentStatus.failed = true
is_failed _ = false

-- The rows that `paidAmountCents` sums.
abbrev pub counts_for : ℕ → ℕ → PaymentRow → Bool
counts_for invoice_id tenant_id row =
    row.tenant_id == tenant_id
    && row.invoice_id == invoice_id
    && is_paid row.status
    && is_null row.deleted_at

unfoldable pub sum_paid : ℕ → ℕ → List PaymentRow → ℕ
sum_paid invoice_id tenant_id [] = 0
sum_paid invoice_id tenant_id (row ∷ rows) =
    (if counts_for invoice_id tenant_id row then row.amount_cents else 0)
    + sum_paid invoice_id tenant_id rows

unfoldable pub paid_amount_cents : ℕ → ℕ → Tables → Result ℕ
paid_amount_cents invoice_id tenant_id t =
    to_safe_integer (sum_paid invoice_id tenant_id t.payments) "paid amount"

pub record NewPayment : Type 0 where
  pub tenant_id : ℕ
  pub invoice_id : ℕ
  pub method : PaymentMethod
  pub status : PaymentStatus
  pub amount_cents : ℕ
  pub external_reference : Option ℕ
  pub failure_code : Option ℕ
  pub occurred_at : ℕ

-- The column default "internal" and the literal "BRL".
abbrev pub internal : ℕ
internal = 0

abbrev pub brl : ℕ
brl = 986

abbrev pub payment_row : NewPayment → ℕ → ℕ → PaymentRow
payment_row new id now = record {
  id = id;
  tenant_id = new.tenant_id;
  invoice_id = new.invoice_id;
  provider = internal;
  external_reference = new.external_reference;
  method = new.method;
  status = new.status;
  currency = brl;
  amount_cents = new.amount_cents;
  failure_code = new.failure_code;
  paid_at = if is_paid new.status then some new.occurred_at else none;
  failed_at = if is_failed new.status then some new.occurred_at else none;
  refunded_at = none;
  deleted_at = none;
  created_at = now;
  updated_at = now;
}

-- The reference of a live payment of the same tenant and provider, or the primary key.
abbrev pub same_reference : Option ℕ → Option ℕ → Bool
same_reference (some a) (some b) = a == b
same_reference _ _ = false

abbrev pub duplicates : NewPayment → ℕ → PaymentRow → Bool
duplicates new id row =
    row.id == id
    || (row.tenant_id == new.tenant_id
        && row.provider == internal
        && same_reference row.external_reference new.external_reference
        && is_null row.deleted_at)

unfoldable pub create_payment : NewPayment → ℕ → ℕ → Tx Tables PaymentRow
create_payment new id now t =
    if is_some (find (duplicates new id) t.payments)
    then err unique_violation
    else if new.amount_cents == 0
    then err check_violation
    else ok (payment_row new id now, record t { payments = payment_row new id now ∷ t.payments })

-- The trigger on `invoices` sets `updated_at`.
abbrev pub set_paid : ℕ → ℕ → InvoiceRow → InvoiceRow
set_paid paid_at now row = record row {
  status = InvoiceStatus.paid;
  paid_at = some paid_at;
  updated_at = now;
}

unfoldable pub mark_invoice_paid : ℕ → ℕ → ℕ → ℕ → Tables → Tables
mark_invoice_paid id tenant_id paid_at now t = record t {
  invoices = update_where (is_invoice id tenant_id) (set_paid paid_at now) t.invoices;
}
