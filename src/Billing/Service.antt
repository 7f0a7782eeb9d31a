-- ===== src/Billing/Service.antt =====
-- `BillingService.createInvoice` and `BillingService.recordPayment` of
-- apps/api/src/modules/billing/billing.service.ts, over requests that the schemas of
-- packages/contracts/src/billing.ts have accepted, so amounts and quantities are natural numbers.
-- Parameters: the hash of a request, and the UTC year of a time. The clock is read once for a call.
use gatway_pagamento_escrito.Prelude.{
  ℕ, ◌+◌, ◌-◌, ◌*◌, ◌/◌, ◌^◌, Bool, true, false, not, ◌&&◌, ◌||◌, Option, none, some, List, [], ◌∷◌,
  map, ltb, ◌==◌, if◌then◌else◌,
}
use gatway_pagamento_escrito.Failure.{
  bad_request, conflict, Result, err, Tx, pure, modify, lift, throw_if, or_throw, ◌>>=◌, ◌>>◌,
  run_transaction,
}
use gatway_pagamento_escrito.Idempotency.{Idempotent, execute}
use gatway_pagamento_escrito.Admin.{
  SubscriptionStatus, SubscriptionRow, InvoiceStatus, InvoiceRow, PaymentMethod, PaymentStatus,
  Value, Aggregate, EventType, Tables, Scope, Scope-discrete, AdminDb,
}
use gatway_pagamento_escrito.Common.{
  User, is_platform, max_safe_integer, to_safe_integer, on_unique_violation, record_mutation,
}
use gatway_pagamento_escrito.Billing.Repository.{
  find_subscription, find_invoice_for_update, NewItem, create_invoice, is_paid, paid_amount_cents,
  create_payment, mark_invoice_paid,
}
use gatway_pagamento_escrito.Billing.Response.{invoice_response, payment_response}

pub record Item : Type 0 where
  pub description : ℕ
  pub quantity : ℕ
  pub unit_amount_cents : ℕ

pub record CreateInvoiceRequest : Type 0 where
  pub tenant_id : ℕ
  pub subscription_id : ℕ
  pub due_date : ℕ
  pub discount_cents : ℕ
  pub tax_cents : ℕ
  pub items : List Item

pub record RecordPaymentRequest : Type 0 where
  pub tenant_id : ℕ
  pub invoice_id : ℕ
  pub method : PaymentMethod
  pub status : PaymentStatus
  pub amount_cents : ℕ
  pub external_reference : Option ℕ
  pub occurred_at : Option ℕ
  pub failure_code : Option ℕ

abbrev pub priced : Item → NewItem
priced item = record {
  description = item.description;
  quantity = item.quantity;
  unit_amount_cents = item.unit_amount_cents;
  total_cents = item.quantity * item.unit_amount_cents;
}

-- `items.reduce((total, item) => total + item.totalCents, 0)`
unfoldable pub subtotal_from : ℕ → List NewItem → ℕ
subtotal_from total [] = total
subtotal_from total (item ∷ items) = subtotal_from (total + item.total_cents) items

-- `subtotalCents - discountCents + taxCents`. A negative total is refused below like zero, which is
-- what the truncated difference gives for it.
unfoldable pub invoice_total : CreateInvoiceRequest → ℕ
unfolding subtotal_from
invoice_total input =
    subtotal_from 0 (map priced input.items) + input.tax_cents - input.discount_cents

abbrev pub max_total_cents : ℕ
max_total_cents = 1_000_000_000_000

unfoldable pub bad_total : CreateInvoiceRequest → Bool
unfolding invoice_total
bad_total input =
    ltb max_safe_integer (subtotal_from 0 (map priced input.items))
    || ltb max_safe_integer (invoice_total input)
    || invoice_total input == 0
    || ltb max_total_cents (invoice_total input)

abbrev pub is_canceled : SubscriptionStatus → Bool
is_canceled SubscriptionStatus.canceled = true
is_canceled _ = false

abbrev pub billable : Option SubscriptionRow → Option SubscriptionRow
billable none = none
billable (some row) = if is_canceled row.status then none else some row

-- `["draft", "paid", "void"].includes(status)`
abbrev pub takes_no_payment : InvoiceStatus → Bool
takes_no_payment InvoiceStatus.draft = true
takes_no_payment InvoiceStatus.paid = true
takes_no_payment InvoiceStatus.void = true
takes_no_payment _ = false

abbrev pub payable : Option InvoiceRow → Option InvoiceRow
payable none = none
payable (some row) = if takes_no_payment row.status then none else some row

abbrev pub or_now : Option ℕ → ℕ → ℕ
or_now none now = now
or_now (some time) now = time

-- The callback of `createInvoice`.
unfoldable pub create_invoice_tx :
    (ℕ → ℕ) → User → CreateInvoiceRequest → (invoice_id now : ℕ) → Tx Tables Value
create_invoice_tx utc_year user input invoice_id now t =
    (do
      subscription ←
          or_throw (billable (find_subscription input.subscription_id input.tenant_id t))
            (bad_request "Active subscription is required")
      invoice ←
          create_invoice
            (record {
              id = invoice_id;
              tenant_id = input.tenant_id;
              subscription_id = input.subscription_id;
              number = record { year = utc_year now; prefix = invoice_id / 2 ^ 96 };
              currency = subscription.currency;
              subtotal_cents = subtotal_from 0 (map priced input.items);
              discount_cents = input.discount_cents;
              tax_cents = input.tax_cents;
              total_cents = invoice_total input;
              due_date = input.due_date;
              items = map priced input.items;
            })
            now
      response ← lift (invoice_response now invoice)
      modify (
          record_mutation now user.user_id (some input.tenant_id) EventType.invoice_created
            Aggregate.invoice invoice.id (Value.invoice response))
      pure (Value.invoice response))
      t

-- The callback of `recordPayment`.
unfoldable pub record_payment_tx :
    User → RecordPaymentRequest → (payment_id now : ℕ) → Tx Tables Value
record_payment_tx user input payment_id now t =
    (do
      invoice ←
          or_throw (payable (find_invoice_for_update input.invoice_id input.tenant_id t))
            (bad_request "Open invoice is required")
      total ← lift (to_safe_integer invoice.total_cents "invoice total")
      paid_before ← lift (paid_amount_cents invoice.id invoice.tenant_id t)
      throw_if (is_paid input.status && ltb total (paid_before + input.amount_cents))
          (bad_request "Payment exceeds invoice balance")
      payment ←
          create_payment
            (record {
              tenant_id = input.tenant_id;
              invoice_id = input.invoice_id;
              method = input.method;
              status = input.status;
              amount_cents = input.amount_cents;
              external_reference = input.external_reference;
              failure_code = input.failure_code;
              occurred_at = or_now input.occurred_at now;
            })
            payment_id now
      modify (λ t'.
          if is_paid input.status && paid_before + input.amount_cents == total
          then mark_invoice_paid invoice.id invoice.tenant_id (or_now input.occurred_at now) now t'
          else t')
      response ← lift (payment_response payment)
      modify (
          record_mutation now user.user_id (some input.tenant_id) EventType.payment_recorded
            Aggregate.payment payment.id (Value.payment response))
      pure (Value.payment response))
      t

module _ (hash : CreateInvoiceRequest → ℕ) (utc_year : ℕ → ℕ) where
  unfoldable pub create_invoice_call :
      User
      → ℕ
      → CreateInvoiceRequest
      → (invoice_id now : ℕ) → AdminDb
      → Result (Idempotent Value) × AdminDb
  create_invoice_call user key input invoice_id now db =
      if not (is_platform user.realm)
      then (err (conflict "Invalid realm"), db)
      else if bad_total input
      then (err (bad_request "Invoice total is invalid"), db)
      else let (r, db') =
          run_transaction
            (execute Scope-discrete hash
              (record {
                scope = Scope.invoice_create;
                key = key;
                actor_identity_id = user.user_id;
                request = input;
              })
              (create_invoice_tx utc_year user input invoice_id now) now)
            db in
        (on_unique_violation "Invoice already exists" r, db')

module _ (hash : RecordPaymentRequest → ℕ) where
  unfoldable pub record_payment_call :
      User
      → ℕ
      → RecordPaymentRequest
      → (payment_id now : ℕ) → AdminDb
      → Result (Idempotent Value) × AdminDb
  record_payment_call user key input payment_id now db =
      if not (is_platform user.realm)
      then (err (conflict "Invalid realm"), db)
      else let (r, db') =
          run_transaction
            (execute Scope-discrete hash
              (record {
                scope = Scope.payment_create;
                key = key;
                actor_identity_id = user.user_id;
                request = input;
              })
              (record_payment_tx user input payment_id now) now)
            db in
        (on_unique_violation "Payment reference already exists" r, db')
