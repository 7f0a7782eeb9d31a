-- ===== src/Billing/Books.antt =====
-- The callbacks of `BillingService.createInvoice` and `BillingService.recordPayment` keep the books.
use gatway_pagamento_escrito.Prelude.{
  ℕ, ◌≤◌, ◌<◌, ◌≡◌, refl, ◌≢◌, Bool, true, false, ◌&&◌, none, some, List, [], ◌∷◌, arith, ◌==◌, inl,
  inr, Bool-cases, find, update_where, All,
}
use gatway_pagamento_escrito.Failure.{ok}
use gatway_pagamento_escrito.Admin.{InvoiceRow, PaymentRow, Value, Tables}
use gatway_pagamento_escrito.Common.{record_mutation, User}
use gatway_pagamento_escrito.Billing.Repository.{
  is_invoice, is_paid, set_paid, payment_row, mark_invoice_paid,
}
use gatway_pagamento_escrito.Billing.Service.{RecordPaymentRequest, or_now, record_payment_tx}
use gatway_pagamento_escrito.Billing.Invariant.{
  has_id, Distinct, IsBalanced, settled-completed, settled-open,
}
use gatway_pagamento_escrito.Billing.Payments.{
  IsRecorded, charge, completes, record_payment_tx-eq-ok,
}

module _ (q : InvoiceRow → Bool) (paid_at now : ℕ) where
  find-set_paid-none :
      (k : ℕ) (rows : List InvoiceRow)
      → find (has_id k) rows ≡ none
      → find (has_id k) (update_where q (set_paid paid_at now) rows) ≡ none
  find-set_paid-none k [] e = refl
  find-set_paid-none k (row ∷ rows) e = ground (arith, find-set_paid-none k rows)

  find-set_paid-ne :
      (k : ℕ) (rows : List InvoiceRow)
      → find (has_id k) rows ≢ none
      → find (has_id k) (update_where q (set_paid paid_at now) rows) ≢ none
  find-set_paid-ne k [] e = e
  find-set_paid-ne k (row ∷ rows) e = ground (arith, find-set_paid-ne k rows)

  Distinct-set_paid :
      (rows : List InvoiceRow)
      → Distinct rows
      → Distinct (update_where q (set_paid paid_at now) rows)
  Distinct-set_paid [] d = tt
  Distinct-set_paid (row ∷ rows) (once, d) =
      let rest = Distinct-set_paid rows d in
      let once' = find-set_paid-none row.id rows once in
      elim (Bool-cases (q row)) [
        | inl hit ↦ rw hit (once', rest)
        | inr miss ↦ rw miss (once', rest)
      ]

  linked-set_paid :
      (rows : List InvoiceRow) (payments : List PaymentRow)
      → All (λ p. find (has_id p.invoice_id) rows ≢ none) payments
      → All
          (λ p. find (has_id p.invoice_id) (update_where q (set_paid paid_at now) rows) ≢ none)
          payments
  linked-set_paid rows [] h = tt
  linked-set_paid rows (p ∷ payments) (link, h) =
      (find-set_paid-ne p.invoice_id rows link, linked-set_paid rows payments h)

find-has_id :
    (id tenant_id : ℕ) (rows : List InvoiceRow) {row : InvoiceRow}
    → find (is_invoice id tenant_id) rows ≡ some row
    → find (has_id id) rows ≢ none
find-has_id id tenant_id [] e = cc
find-has_id id tenant_id (r ∷ rows) {row} e =
    ground (arith, find-has_id id tenant_id rows {row = row})

completes-eq-true :
    (b : Bool) (sum total : ℕ) → (b && sum == total) ≡ true → (b ≡ true) × (sum ≡ total)
completes-eq-true b sum total e = ground arith

short_of_test :
    (b : Bool) (sum total : ℕ)
    → (b && sum == total) ≡ false
    → (b ≡ true → sum ≤ total)
    → b ≡ true
    → sum < total
short_of_test b sum total e fits h = ground arith

record_payment-completes :
    (user : User) (input : RecordPaymentRequest) (payment_id now : ℕ) (t t' : Tables)
    (value : Value)
    → IsBalanced t
    → (r : IsRecorded user input payment_id now t value t')
    → completes input t.payments r.invoice ≡ true
    → IsBalanced t'
unfolding record_mutation mark_invoice_paid
record_payment-completes user input payment_id now t t' value h r full =
    let (counted, sum) = completes-eq-true _ _ _ full in
    let paid_at = or_now input.occurred_at now in
    let p = payment_row (charge input now) payment_id now in
    let links = find-has_id _ _ t.invoices r.found in
    rw (r.left, full)
      (record {
        settled =
            settled-completed input.invoice_id input.tenant_id paid_at now p t.payments t.invoices
              (refl, refl) refl counted h.distinct r.found sum h.settled;
        distinct = Distinct-set_paid _ paid_at now t.invoices h.distinct;
        linked =
            linked-set_paid (is_invoice input.invoice_id input.tenant_id) paid_at now t.invoices
              (p ∷ t.payments) (links, h.linked);
      })

record_payment-open :
    (user : User) (input : RecordPaymentRequest) (payment_id now : ℕ) (t t' : Tables)
    (value : Value)
    → IsBalanced t
    → (r : IsRecorded user input payment_id now t value t')
    → completes input t.payments r.invoice ≡ false
    → IsBalanced t'
unfolding record_mutation mark_invoice_paid
record_payment-open user input payment_id now t t' value h r partial =
    let p = payment_row (charge input now) payment_id now in
    let links = find-has_id _ _ t.invoices r.found in
    rw (r.left, partial)
      (record {
        settled =
            settled-open input.invoice_id input.tenant_id 0 now p t.payments t.invoices (refl, refl)
              refl h.distinct r.found r.takes_payment
              (short_of_test (is_paid input.status) _ _ partial r.fits) h.settled;
        distinct = h.distinct;
        linked = (links, h.linked);
      })

pub record_payment_tx-IsBalanced :
    (user : User) (input : RecordPaymentRequest) (payment_id now : ℕ) (t t' : Tables)
    (value : Value)
    → IsBalanced t
    → record_payment_tx user input payment_id now t ≡ ok (value, t')
    → IsBalanced t'
record_payment_tx-IsBalanced user input payment_id now t t' value h e =
    let r = record_payment_tx-eq-ok user input payment_id now t e in
    elim (Bool-cases (completes input t.payments r.invoice)) [
      | inl full ↦ record_payment-completes user input payment_id now t t' value h r full
      | inr partial ↦ record_payment-open user input payment_id now t t' value h r partial
    ]
