-- ===== src/Billing/Invariant.antt =====
-- The books of the billing tables: what the payments of an invoice add up to, and its status.
use gatway_pagamento_escrito.Prelude.{
  ℕ, ◌+◌, ◌≤◌, ◌<◌, ◌≡◌, refl, ap, ◌∙◌, ◌≢◌, Bool, true, false, none, some, List, [], ◌∷◌, arith,
  ◌==◌, inl, inr, Bool-cases, find, find-hit, find-miss, update_where, All,
}
use gatway_pagamento_escrito.Admin.{InvoiceStatus, InvoiceRow, PaymentRow, Tables}
use gatway_pagamento_escrito.Billing.Repository.{
  is_invoice, is_paid, counts_for, sum_paid, set_paid,
}
use gatway_pagamento_escrito.Billing.Service.{takes_no_payment}

-- The payments of an invoice never exceed its total; they reach it if it is paid, and stay below it
-- while it takes payments.
pub record IsSettled (payments : List PaymentRow) (row : InvoiceRow) : Type 0 where
  pub within : sum_paid row.id row.tenant_id payments ≤ row.total_cents
  pub reached :
      row.status ≡ InvoiceStatus.paid → sum_paid row.id row.tenant_id payments ≡ row.total_cents
  pub due :
      takes_no_payment row.status ≡ false → sum_paid row.id row.tenant_id payments < row.total_cents

-- Deleted invoices are not considered.
abbrev pub IsSettled? : List PaymentRow → InvoiceRow → Type 0
IsSettled? payments row = row.deleted_at ≡ none → IsSettled payments row

abbrev pub has_id : ℕ → InvoiceRow → Bool
has_id id row = row.id == id

-- The primary key of `invoices`.
abbrev pub Distinct : List InvoiceRow → Type 0
Distinct [] = Unit
Distinct (row ∷ rows) = (find (has_id row.id) rows ≡ none) × Distinct rows

pub record IsBalanced (t : Tables) : Type 0 where
  pub settled : All (IsSettled? t.payments) t.invoices
  pub distinct : Distinct t.invoices
  -- the foreign key `fk_payments_tenant_invoice`
  pub linked : All (λ p. find (has_id p.invoice_id) t.invoices ≢ none) t.payments

-- A payment counts for no invoice but its own.
sum_paid-other :
    (id tenant_id : ℕ) (p : PaymentRow) (payments : List PaymentRow)
    → counts_for id tenant_id p ≡ false
    → sum_paid id tenant_id (p ∷ payments) ≡ sum_paid id tenant_id payments
unfolding sum_paid
sum_paid-other id tenant_id p payments e = rw e (omega arith)

sum_paid-counted :
    (id tenant_id : ℕ) (p : PaymentRow) (payments : List PaymentRow)
    → counts_for id tenant_id p ≡ true
    → sum_paid id tenant_id (p ∷ payments) ≡ p.amount_cents + sum_paid id tenant_id payments
unfolding sum_paid
sum_paid-counted id tenant_id p payments e = rw e

IsSettled-same :
    (p : PaymentRow) (payments : List PaymentRow) (row : InvoiceRow)
    → counts_for row.id row.tenant_id p ≡ false
    → IsSettled payments row
    → IsSettled (p ∷ payments) row
IsSettled-same p payments row e h = ground (arith, sum_paid-other row.id row.tenant_id p payments e)

-- A payment that names the invoice `id` of `tenant_id`, recorded at `paid_at`.
module _ (id tenant_id paid_at now : ℕ) (p : PaymentRow) (payments : List PaymentRow) where
  abbrev pub Names : Type 0
  Names = (p.invoice_id ≡ id) × (p.tenant_id ≡ tenant_id)

  counts_for-miss :
      (row : InvoiceRow)
      → Names
      → row.deleted_at ≡ none
      → is_invoice id tenant_id row ≡ false
      → counts_for row.id row.tenant_id p ≡ false
  counts_for-miss row (same_id, same_tenant) live miss = ground arith

  IsSettled?-miss :
      (row : InvoiceRow)
      → Names
      → is_invoice id tenant_id row ≡ false
      → IsSettled? payments row
      → IsSettled? (p ∷ payments) row
  IsSettled?-miss row names miss h live =
      IsSettled-same p payments row (counts_for-miss row names live miss) (h live)

  is_invoice-other :
      (row other : InvoiceRow)
      → row.id ≡ id
      → has_id row.id other ≡ false
      → is_invoice id tenant_id other ≡ false
  is_invoice-other row other same_id differs = ground arith

  -- Invoices with other ids keep their standing, and are not marked.
  settled-others :
      (row : InvoiceRow) (rows : List InvoiceRow)
      → Names
      → row.id ≡ id
      → find (has_id row.id) rows ≡ none
      → All (IsSettled? payments) rows
      → All (IsSettled? (p ∷ payments)) rows
  settled-others row [] names same_id once h = tt
  settled-others row (other ∷ rows) names same_id once (settled, h) =
      let differs : has_id row.id other ≡ false = ground arith in
      (
        IsSettled?-miss other names (is_invoice-other row other same_id differs) settled,
        settled-others row rows names same_id (ground arith) h,
      )

  update_where-others :
      (row : InvoiceRow) (rows : List InvoiceRow)
      → row.id ≡ id
      → find (has_id row.id) rows ≡ none
      → update_where (is_invoice id tenant_id) (set_paid paid_at now) rows ≡ rows
  update_where-others row [] same_id once = refl
  update_where-others row (other ∷ rows) same_id once =
      let differs : has_id row.id other ≡ false = ground arith in
      rw (is_invoice-other row other same_id differs)
        (ap (λ rs. other ∷ rs) (update_where-others row rows same_id (ground arith)))

  IsSettled-marked :
      (row : InvoiceRow)
      → counts_for row.id row.tenant_id p ≡ true
      → sum_paid row.id row.tenant_id payments + p.amount_cents ≡ row.total_cents
      → IsSettled (p ∷ payments) (set_paid paid_at now row)
  IsSettled-marked row counts full =
      ground (arith, sum_paid-counted row.id row.tenant_id p payments counts)

  IsSettled-partial :
      (row : InvoiceRow)
      → takes_no_payment row.status ≡ false
      → counts_for row.id row.tenant_id p ≡ true
      → sum_paid row.id row.tenant_id payments + p.amount_cents < row.total_cents
      → IsSettled (p ∷ payments) row
  IsSettled-partial row open_status counts partial =
      ground (arith, sum_paid-counted row.id row.tenant_id p payments counts)

  counts_for-hit :
      (row : InvoiceRow)
      → Names
      → p.deleted_at ≡ none
      → is_invoice id tenant_id row ≡ true
      → counts_for row.id row.tenant_id p ≡ is_paid p.status
  counts_for-hit row names live hit = ground arith

  eq_of_is_invoice :
      (row : InvoiceRow)
      → is_invoice id tenant_id row ≡ true
      → (row.id ≡ id) × (row.tenant_id ≡ tenant_id)
  eq_of_is_invoice row hit = ground arith

  -- Marking the invoice that the payment completes keeps the books.
  pub settled-completed :
      (rows : List InvoiceRow) {found : InvoiceRow}
      → Names
      → p.deleted_at ≡ none
      → is_paid p.status ≡ true
      → Distinct rows
      → find (is_invoice id tenant_id) rows ≡ some found
      → sum_paid id tenant_id payments + p.amount_cents ≡ found.total_cents
      → All (IsSettled? payments) rows
      → All
          (IsSettled? (p ∷ payments))
          (update_where (is_invoice id tenant_id) (set_paid paid_at now) rows)
  settled-completed [] names live counted d e full h = cc
  settled-completed (row ∷ rows) {found} names live counted (once, d) e full (settled, h) =
      elim (Bool-cases (is_invoice id tenant_id row)) [
        | inl hit ↦
            let (same_id, same_tenant) = eq_of_is_invoice row hit in
            let same_row : row ≡ found = find-hit (is_invoice id tenant_id) row rows hit e in
            rw (hit, update_where-others row rows same_id once)
              (
                λ _.
                    IsSettled-marked row (counts_for-hit row names live hit ∙ counted)
                      (rw (same_id, same_tenant, same_row) full),
                settled-others row rows names same_id once h,
              )
        | inr miss ↦ rw miss (
          IsSettled?-miss row names miss settled,
          settled-completed rows names live counted d
              (find-miss (is_invoice id tenant_id) row rows miss e) full h,
        )
      ]

  -- A payment that does not complete the invoice keeps the books as they are.
  pub settled-open :
      (rows : List InvoiceRow) {found : InvoiceRow}
      → Names
      → p.deleted_at ≡ none
      → Distinct rows
      → find (is_invoice id tenant_id) rows ≡ some found
      → takes_no_payment found.status ≡ false
      → (is_paid p.status ≡ true
          → sum_paid id tenant_id payments + p.amount_cents < found.total_cents)
      → All (IsSettled? payments) rows
      → All (IsSettled? (p ∷ payments)) rows
  settled-open [] names live d e open_status short h = cc
  settled-open (row ∷ rows) {found} names live (once, d) e open_status short (settled, h) =
      elim (Bool-cases (is_invoice id tenant_id row)) [
        | inl hit ↦
            let (same_id, same_tenant) = eq_of_is_invoice row hit in
            let same_row : row ≡ found = find-hit (is_invoice id tenant_id) row rows hit e in
            let counts = counts_for-hit row names live hit in
            (
              λ not_deleted. elim (Bool-cases (is_paid p.status)) [
                | inl counted ↦
                    IsSettled-partial row (rw same_row open_status) (counts ∙ counted)
                      (rw (same_id, same_tenant, same_row) (short counted))
                | inr other ↦ IsSettled-same p payments row (counts ∙ other) (settled not_deleted)
              ],
              settled-others row rows names same_id once h,
            )
        | inr miss ↦ (
          IsSettled?-miss row names miss settled,
          settled-open rows names live d (find-miss (is_invoice id tenant_id) row rows miss e)
              open_status short h,
        )
      ]
