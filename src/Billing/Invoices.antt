-- ===== src/Billing/Invoices.antt =====
-- What a committed `BillingService.createInvoice` has done to the tables, and that it keeps the books.
use gatway_pagamento_escrito.Prelude.{
  some, ℕ, ◌+◌, ◌<◌, ◌≡◌, refl, ◌≢◌, false, none, List, [], ◌∷◌, ◌++◌, map, arith, ◌==◌, inl, inr,
  Bool-cases, find, All,
}
use gatway_pagamento_escrito.Failure.{
  ok, >>=-eq-ok, or_throw-eq-ok, lift-eq-ok, modify-eq-ok, pure-eq-ok,
}
use gatway_pagamento_escrito.Admin.{InvoiceRow, PaymentRow, Value, EventType, Aggregate, Tables}
use gatway_pagamento_escrito.Common.{record_mutation, User}
use gatway_pagamento_escrito.Billing.Repository.{
  NewInvoice, clashes, invoice_row, item_row, counts_for, sum_paid, create_invoice,
}
use gatway_pagamento_escrito.Billing.Service.{
  CreateInvoiceRequest, priced, invoice_total, bad_total, create_invoice_tx,
}
use gatway_pagamento_escrito.Billing.Invariant.{IsSettled?, has_id, Distinct, IsBalanced}

create_invoice-eq-ok :
    (new : NewInvoice) (now : ℕ) (t : Tables) {row : InvoiceRow} {t' : Tables}
    → create_invoice new now t ≡ ok (row, t')
    → (row ≡ invoice_row new now)
      × (find (clashes new) t.invoices ≡ none)
      × (new.total_cents + new.discount_cents ≡ new.subtotal_cents + new.tax_cents)
      × (t' ≡ record t {
        invoices = invoice_row new now ∷ t.invoices;
        invoice_items = map (item_row new.tenant_id new.id) new.items ++ t.invoice_items;
      })
unfolding create_invoice
create_invoice-eq-ok new now t e = ground arith

-- No row clashes, so none has the id.
find-has_id-fresh :
    (new : NewInvoice) (rows : List InvoiceRow)
    → find (clashes new) rows ≡ none
    → find (has_id new.id) rows ≡ none
find-has_id-fresh new [] e = refl
find-has_id-fresh new (row ∷ rows) e = ground (arith, find-has_id-fresh new rows)

-- Payments of recorded invoices do not count for a new one.
sum_paid-fresh :
    (id tenant_id : ℕ) (rows : List InvoiceRow) (payments : List PaymentRow)
    → find (has_id id) rows ≡ none
    → All (λ p. find (has_id p.invoice_id) rows ≢ none) payments
    → sum_paid id tenant_id payments ≡ 0
unfolding sum_paid
sum_paid-fresh id tenant_id rows [] fresh h = refl
sum_paid-fresh id tenant_id rows (p ∷ payments) fresh (link, h) =
    elim (Bool-cases (p.invoice_id == id)) [
      | inl same_id ↦ let e : p.invoice_id ≡ id = ground arith in absurd (link (rw e fresh))
      | inr other ↦
          let skipped : counts_for id tenant_id p ≡ false = ground arith in
          rw skipped (omega (arith, sum_paid-fresh id tenant_id rows payments fresh h))
    ]

linked-cons :
    (row : InvoiceRow) (rows : List InvoiceRow) (payments : List PaymentRow)
    → All (λ p. find (has_id p.invoice_id) rows ≢ none) payments
    → All (λ p. find (has_id p.invoice_id) (row ∷ rows) ≢ none) payments
linked-cons row rows [] h = tt
linked-cons row rows (p ∷ payments) (link, h) = (ground arith, linked-cons row rows payments h)

pub record IsIssued (input : CreateInvoiceRequest) (invoice_id now : ℕ) (t t' : Tables)
    : Type 0 where
  pub new : NewInvoice
  pub same_id : new.id ≡ invoice_id
  pub same_tenant : new.tenant_id ≡ input.tenant_id
  pub same_total : new.total_cents ≡ invoice_total input
  pub same_items : new.items ≡ map priced input.items
  pub adds_up : new.total_cents + new.discount_cents ≡ new.subtotal_cents + new.tax_cents
  pub fresh : find (clashes new) t.invoices ≡ none
  pub invoices : t'.invoices ≡ invoice_row new now ∷ t.invoices
  pub items : t'.invoice_items ≡ map (item_row new.tenant_id new.id) new.items ++ t.invoice_items
  pub payments : t'.payments ≡ t.payments

create_invoice_steps :
    (user : User) (input : CreateInvoiceRequest) (new : NewInvoice) (now : ℕ) (t t1 t' : Tables)
    (invoice : InvoiceRow) (value : Value)
    → new.tenant_id ≡ input.tenant_id
    → new.total_cents ≡ invoice_total input
    → new.items ≡ map priced input.items
    → create_invoice new now t ≡ ok (invoice, t1)
    → record_mutation now user.user_id
        (some input.tenant_id)
        EventType.invoice_created
        Aggregate.invoice
        invoice.id
        value
        t1
      ≡ t'
    → IsIssued input new.id now t t'
unfolding record_mutation
create_invoice_steps user input new now t t1 t' invoice value same_tenant same_total same_items
      created left =
    let (_, fresh, adds_up, same_t1) = create_invoice-eq-ok new now t created in
    record {
      new = new;
      same_id = refl;
      same_tenant = same_tenant;
      same_total = same_total;
      same_items = same_items;
      adds_up = adds_up;
      fresh = fresh;
      invoices = rw (← left, same_t1);
      items = rw (← left, same_t1);
      payments = rw (← left, same_t1);
    }

pub create_invoice_tx-eq-ok :
    (utc_year : ℕ → ℕ) (user : User) (input : CreateInvoiceRequest) (invoice_id now : ℕ)
    (t t' : Tables) (value : Value)
    → create_invoice_tx utc_year user input invoice_id now t ≡ ok (value, t')
    → IsIssued input invoice_id now t t'
unfolding create_invoice_tx
create_invoice_tx-eq-ok utc_year user input invoice_id now t t' value e =
    let (subscription, _, e1) = or_throw-eq-ok _ _ _ t e in
    let (invoice, t1, created, e2) = >>=-eq-ok _ _ t e1 in
    let (response, _, e3) = lift-eq-ok _ _ t1 e2 in
    let (_, left) = pure-eq-ok _ _ (modify-eq-ok _ _ t1 e3) in
    create_invoice_steps user input _ now t t1 t' invoice _ refl refl refl created left

-- A new invoice with a positive total and a fresh id keeps the books.
module _ (new : NewInvoice) (now : ℕ) (invoices : List InvoiceRow)
    (payments : List PaymentRow) where
  issued-books :
      (invoices' : List InvoiceRow) (payments' : List PaymentRow)
      → invoices' ≡ invoice_row new now ∷ invoices
      → payments' ≡ payments
      → 0 < new.total_cents
      → find (has_id new.id) invoices ≡ none
      → All (IsSettled? payments) invoices
      → Distinct invoices
      → All (λ p. find (has_id p.invoice_id) invoices ≢ none) payments
      → All (IsSettled? payments') invoices'
        × Distinct invoices'
        × All (λ p. find (has_id p.invoice_id) invoices' ≢ none) payments'
  issued-books invoices' payments' e e' due fresh settled distinct linked =
      let none_paid = sum_paid-fresh new.id new.tenant_id invoices payments fresh linked in
      rw (e', e)
        (
          (
            λ _. record {
              within = omega (arith, none_paid);
              reached = λ paid. cc;
              due = λ _. omega (arith, none_paid);
            },
            settled,
          ),
          (fresh, distinct),
          linked-cons (invoice_row new now) invoices payments linked,
        )

positive_total : (input : CreateInvoiceRequest) → bad_total input ≡ false → 0 < invoice_total input
unfolding bad_total
positive_total input good = ground arith

pub create_invoice_tx-IsBalanced :
    (utc_year : ℕ → ℕ) (user : User) (input : CreateInvoiceRequest) (invoice_id now : ℕ)
    (t t' : Tables) (value : Value)
    → bad_total input ≡ false
    → IsBalanced t
    → create_invoice_tx utc_year user input invoice_id now t ≡ ok (value, t')
    → IsBalanced t'
create_invoice_tx-IsBalanced utc_year user input invoice_id now t t' value good h e =
    let r = create_invoice_tx-eq-ok utc_year user input invoice_id now t t' value e in
    let (settled, distinct, linked) =
      issued-books r.new now t.invoices t.payments t'.invoices t'.payments r.invoices r.payments
        (omega (arith, r.same_total, positive_total input good))
        (find-has_id-fresh r.new t.invoices r.fresh) h.settled h.distinct h.linked in
    record { settled = settled; distinct = distinct; linked = linked }
