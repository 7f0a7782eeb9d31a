-- ===== src/Billing/Response.antt =====
-- `invoiceResponse` and `paymentResponse` of apps/api/src/modules/billing/billing.service.ts.
-- A response of a list also holds the tenant's name, which is left out here.
use gatway_pagamento_escrito.Prelude.{
  arith, ◌≡◌, sym, ℕ, ◌*◌, ◌/◌, Bool, true, false, ltb, if◌then◌else◌, ◌&&◌,
}
use gatway_pagamento_escrito.Failure.{Result, ok, err, err≢ok}
use gatway_pagamento_escrito.Idempotency.{day_ms}
use gatway_pagamento_escrito.Admin.{
  InvoiceStatus, opened, overdue, InvoiceRow, PaymentRow, InvoiceResponse, PaymentResponse,
}
use gatway_pagamento_escrito.Common.{to_safe_integer}

infixl 5 ◌>>=◌
abbrev ◌>>=◌ : {A B : Type 0} → Result A → (A → Result B) → Result B
ok a >>= f = f a
err e >>= f = err e

abbrev pub is_opened : InvoiceStatus → Bool
is_opened opened = true
is_opened _ = false

-- An open invoice whose due date lies before today, at midnight UTC, is shown as overdue.
unfoldable pub shown_status : ℕ → InvoiceRow → InvoiceStatus
shown_status now row =
    if is_opened row.status && ltb (row.due_date * day_ms) (now / day_ms * day_ms)
    then overdue
    else row.status

unfoldable pub invoice_response : ℕ → InvoiceRow → Result InvoiceResponse
unfolding shown_status to_safe_integer
invoice_response now row = do
  subtotal ← to_safe_integer row.subtotal_cents "invoice subtotal"
  discount ← to_safe_integer row.discount_cents "invoice discount"
  tax ← to_safe_integer row.tax_cents "invoice tax"
  total ← to_safe_integer row.total_cents "invoice total"
  ok (record {
    id = row.id;
    tenant_id = row.tenant_id;
    subscription_id = row.subscription_id;
    number = row.number;
    status = shown_status now row;
    currency = row.currency;
    subtotal_cents = subtotal;
    discount_cents = discount;
    tax_cents = tax;
    total_cents = total;
    due_date = row.due_date;
    issued_at = row.issued_at;
    paid_at = row.paid_at;
    voided_at = row.voided_at;
    created_at = row.created_at;
    updated_at = row.updated_at;
  })

unfoldable pub payment_response : PaymentRow → Result PaymentResponse
unfolding to_safe_integer
payment_response row = do
  amount ← to_safe_integer row.amount_cents "payment amount"
  ok (record {
    id = row.id;
    tenant_id = row.tenant_id;
    invoice_id = row.invoice_id;
    provider = row.provider;
    external_reference = row.external_reference;
    method = row.method;
    status = row.status;
    currency = row.currency;
    amount_cents = amount;
    failure_code = row.failure_code;
    paid_at = row.paid_at;
    failed_at = row.failed_at;
    refunded_at = row.refunded_at;
    created_at = row.created_at;
    updated_at = row.updated_at;
  })

-- Inversion of a successful step.
>>=-eq-ok :
    {A B : Type 0} (r : Result A) (f : A → Result B) {b : B}
    → (r >>= f) ≡ ok b
    → (a : A) × (f a ≡ ok b)
>>=-eq-ok (ok a) f e = (a, e)
>>=-eq-ok (err x) f e = absurd (err≢ok e)

equal_status : {r r' : InvoiceResponse} → ok r ≡ ok r' → r.status ≡ r'.status
equal_status {r} {r'} e = ground arith

pub invoice_response-status :
    (now : ℕ) (row : InvoiceRow) {r : InvoiceResponse}
    → invoice_response now row ≡ ok r
    → r.status ≡ shown_status now row
unfolding invoice_response
invoice_response-status now row {r} e =
    let (subtotal, e) = >>=-eq-ok (to_safe_integer row.subtotal_cents "invoice subtotal") _ e in
    let (discount, e) = >>=-eq-ok (to_safe_integer row.discount_cents "invoice discount") _ e in
    let (tax, e) = >>=-eq-ok (to_safe_integer row.tax_cents "invoice tax") _ e in
    let (total, e) = >>=-eq-ok (to_safe_integer row.total_cents "invoice total") _ e in
    sym (equal_status e)
