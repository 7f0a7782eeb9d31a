-- ===== src/Billing/Payments.antt =====
-- What a committed `BillingService.recordPayment` has done to the tables.
use gatway_pagamento_escrito.Prelude.{
  ℕ, ◌+◌, ◌≤◌, ◌≡◌, Bool, true, false, ◌&&◌, Option, none, some, List, [], ◌∷◌, arith, ltb, ◌==◌,
  if◌then◌else◌, find, sym,
}
use gatway_pagamento_escrito.Failure.{
  ok, >>=-eq-ok, or_throw-eq-ok, lift-eq-ok, throw_if-eq-ok, modify-eq-ok, pure-eq-ok,
}
use gatway_pagamento_escrito.Admin.{InvoiceRow, PaymentRow, Value, EventType, Aggregate, Tables}
use gatway_pagamento_escrito.Common.{record_mutation, User, to_safe_integer-eq-ok}
use gatway_pagamento_escrito.Billing.Repository.{
  is_invoice, find_invoice_for_update, NewPayment, is_paid, sum_paid, paid_amount_cents,
  payment_row, create_payment, mark_invoice_paid,
}
use gatway_pagamento_escrito.Billing.Service.{
  RecordPaymentRequest, takes_no_payment, payable, or_now, record_payment_tx,
}

payable-eq-some :
    (o : Option InvoiceRow) {row : InvoiceRow}
    → payable o ≡ some row
    → (o ≡ some row) × (takes_no_payment row.status ≡ false)
payable-eq-some none e = cc
payable-eq-some (some row) e = ground arith

paid_amount_cents-eq-ok :
    (id tenant_id : ℕ) (t : Tables) {n : ℕ}
    → paid_amount_cents id tenant_id t ≡ ok n
    → n ≡ sum_paid id tenant_id t.payments
unfolding paid_amount_cents
paid_amount_cents-eq-ok id tenant_id t e = to_safe_integer-eq-ok _ _ e

create_payment-eq-ok :
    (new : NewPayment) (id now : ℕ) (t : Tables) {row : PaymentRow} {t' : Tables}
    → create_payment new id now t ≡ ok (row, t')
    → (row ≡ payment_row new id now)
      × (t' ≡ record t { payments = payment_row new id now ∷ t.payments })
unfolding create_payment
create_payment-eq-ok new id now t e = ground arith

find-is_invoice :
    (id tenant_id : ℕ) (rows : List InvoiceRow) {row : InvoiceRow}
    → find (is_invoice id tenant_id) rows ≡ some row
    → (row.id ≡ id) × (row.tenant_id ≡ tenant_id)
find-is_invoice id tenant_id [] e = cc
find-is_invoice id tenant_id (r ∷ rows) {row} e =
    ground (arith, find-is_invoice id tenant_id rows {row = row})

-- The row that the request asks for.
abbrev pub charge : RecordPaymentRequest → ℕ → NewPayment
charge input now = record {
  tenant_id = input.tenant_id;
  invoice_id = input.invoice_id;
  method = input.method;
  status = input.status;
  amount_cents = input.amount_cents;
  external_reference = input.external_reference;
  failure_code = input.failure_code;
  occurred_at = or_now input.occurred_at now;
}

abbrev pub completes : RecordPaymentRequest → List PaymentRow → InvoiceRow → Bool
completes input payments row =
    is_paid input.status
    && sum_paid input.invoice_id input.tenant_id payments + input.amount_cents == row.total_cents

abbrev pub marked : RecordPaymentRequest → ℕ → Bool → Tables → Tables
marked input now full t =
    if full
    then mark_invoice_paid input.invoice_id input.tenant_id (or_now input.occurred_at now) now t
    else t

pub record IsRecorded (user : User) (input : RecordPaymentRequest) (payment_id now : ℕ) (t : Tables)
    (value : Value) (t' : Tables) : Type 0 where
  pub invoice : InvoiceRow
  pub found : find (is_invoice input.invoice_id input.tenant_id) t.invoices ≡ some invoice
  pub takes_payment : takes_no_payment invoice.status ≡ false
  pub fits :
      is_paid input.status ≡ true
      → sum_paid input.invoice_id input.tenant_id t.payments + input.amount_cents
        ≤ invoice.total_cents
  pub left :
      t'
      ≡ record_mutation now user.user_id
          (some input.tenant_id)
          EventType.payment_recorded
          Aggregate.payment
          payment_id
          value
          (marked input now
            (completes input t.payments invoice)
            (record t { payments = payment_row (charge input now) payment_id now ∷ t.payments }))

fits_of_test :
    (b : Bool) (before amount total : ℕ)
    → (b && ltb total (before + amount)) ≡ false
    → b ≡ true
    → before + amount ≤ total
fits_of_test b before amount total h e = ground arith

-- The facts of the steps of `recordPayment`, put together.
record_payment_steps :
    (user : User) (input : RecordPaymentRequest) (payment_id now : ℕ) (t : Tables)
    {invoice : InvoiceRow} {total before : ℕ} {payment : PaymentRow} {t1 t' : Tables}
    {value : Value}
    → find (is_invoice input.invoice_id input.tenant_id) t.invoices ≡ some invoice
    → takes_no_payment invoice.status ≡ false
    → total ≡ invoice.total_cents
    → before ≡ sum_paid invoice.id invoice.tenant_id t.payments
    → (is_paid input.status && ltb total (before + input.amount_cents)) ≡ false
    → payment ≡ payment_row (charge input now) payment_id now
    → t1 ≡ record t { payments = payment_row (charge input now) payment_id now ∷ t.payments }
    → record_mutation now user.user_id
        (some input.tenant_id)
        EventType.payment_recorded
        Aggregate.payment
        payment.id
        value
        (if is_paid input.status && before + input.amount_cents == total
          then mark_invoice_paid invoice.id invoice.tenant_id (or_now input.occurred_at now) now t1
          else t1)
      ≡ t'
    → IsRecorded user input payment_id now t value t'
record_payment_steps user input payment_id now t {invoice} found takes same_total same_before fits
      same_payment same_t1 left =
    let (same_id, same_tenant) = find-is_invoice _ _ t.invoices found in
    record {
      invoice = invoice;
      found = found;
      takes_payment = takes;
      fits =
          fits_of_test (is_paid input.status) _ _ _
            (rw (same_total, same_before, same_id, same_tenant) at fits);
      left =
          sym (rw (same_payment, same_t1, same_before, same_id, same_tenant, same_total) at left);
    }

pub record_payment_tx-eq-ok :
    (user : User) (input : RecordPaymentRequest) (payment_id now : ℕ) (t : Tables) {value : Value}
    {t' : Tables}
    → record_payment_tx user input payment_id now t ≡ ok (value, t')
    → IsRecorded user input payment_id now t value t'
unfolding record_payment_tx find_invoice_for_update
record_payment_tx-eq-ok user input payment_id now t {value} {t'} e =
    let (invoice, opened, e1) = or_throw-eq-ok _ _ _ t e in
    let (total, totalled, e2) = lift-eq-ok _ _ t e1 in
    let (before, summed, e3) = lift-eq-ok _ _ t e2 in
    let (fits, e4) = throw_if-eq-ok _ _ _ t e3 in
    let (payment, t1, created, e5) = >>=-eq-ok _ _ t e4 in
    let e6 = modify-eq-ok _ _ t1 e5 in
    let (response, answered, e7) = lift-eq-ok _ _ _ e6 in
    let (same_value, same_tables) = pure-eq-ok _ _ (modify-eq-ok _ _ _ e7) in
    let (found, takes_payment) = payable-eq-some _ opened in
    let (same_payment, same_t1) = create_payment-eq-ok _ _ _ t created in
    record_payment_steps user input payment_id now t found takes_payment
      (to_safe_integer-eq-ok _ _ totalled) (paid_amount_cents-eq-ok _ _ t summed) fits same_payment
      same_t1 (rw same_value at same_tables)
