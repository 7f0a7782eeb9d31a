-- ===== src/Billing/Tests.antt =====
-- A subscription of 2 500 cents: an invoice, two payments that settle it, a replay and a refusal.
use gatway_pagamento_escrito.Prelude.{ℕ, ◌^◌, ◌≡◌, refl, none, List, [], ◌∷◌, map}
use gatway_pagamento_escrito.Failure.{◌>>=◌}
use gatway_pagamento_escrito.Billing.Repository.{
  find_subscription, find_invoice_for_update, create_invoice, paid_amount_cents, create_payment,
  mark_invoice_paid, sum_paid,
}
use gatway_pagamento_escrito.Billing.Response.{invoice_response, payment_response}
use gatway_pagamento_escrito.Idempotency.{execute}
use gatway_pagamento_escrito.Admin.{
  Interval, SubscriptionStatus, SubscriptionRow, InvoiceStatus, InvoiceRow, PaymentMethod,
  PaymentStatus, PaymentRow, Realm, AdminDb, Scope-discrete,
}
use gatway_pagamento_escrito.Common.{record_mutation, User}
use gatway_pagamento_escrito.Billing.Service.{
  CreateInvoiceRequest, RecordPaymentRequest, bad_total, create_invoice_tx, record_payment_tx,
}
use gatway_pagamento_escrito.Billing.History.{IsSound, Call, run, run-IsSound}

abbrev subscription : SubscriptionRow
subscription = record {
  id = 8;
  tenant_id = 5;
  plan_id = 1;
  plan_price_id = 2;
  status = SubscriptionStatus.active;
  currency = 986;
  billing_interval = Interval.monthly;
  amount_cents = 2500;
  current_period_start = 0;
  current_period_end = 2_592_000_000;
  trial_ends_at = none;
  canceled_at = none;
  deleted_at = none;
  created_at = 0;
  updated_at = 0;
}

abbrev start : AdminDb
start = record {
  keys = [];
  next_id = 0;
  tables = record {
    identities = [];
    tenants = [];
    plans = [];
    plan_prices = [];
    subscriptions = subscription ∷ [];
    invoices = [];
    invoice_items = [];
    payments = [];
    plan_features = [];
    provisioning_attempts = [];
    outbox = [];
    next_outbox_id = 0;
    audit_logs = [];
  };
}

abbrev owner : User
owner = record { realm = Realm.platform; user_id = 3 }

abbrev invoice_id : ℕ
invoice_id = 2 ^ 100

abbrev bill : CreateInvoiceRequest
bill = record {
  tenant_id = 5;
  subscription_id = 8;
  due_date = 30;
  discount_cents = 500;
  tax_cents = 100;
  items = record { description = 1; quantity = 2; unit_amount_cents = 1450 } ∷ [];
}

abbrev pay : ℕ → RecordPaymentRequest
pay amount = record {
  tenant_id = 5;
  invoice_id = invoice_id;
  method = PaymentMethod.pix;
  status = PaymentStatus.paid;
  amount_cents = amount;
  external_reference = none;
  occurred_at = none;
  failure_code = none;
}

abbrev calls : List Call
calls =
    Call.create_invoice owner 100 bill invoice_id 1000
    ∷ Call.record_payment owner 101 (pay 1000) 71 2000
    ∷ Call.record_payment owner 101 (pay 1000) 72 3000
    ∷ Call.record_payment owner 102 (pay 1501) 73 4000
    ∷ Call.record_payment owner 103 (pay 1500) 74 5000
    ∷ []

abbrev hash_invoice : CreateInvoiceRequest → ℕ
hash_invoice input = input.due_date

abbrev hash_payment : RecordPaymentRequest → ℕ
hash_payment input = input.amount_cents

abbrev year_1970 : ℕ → ℕ
year_1970 now = 1970

abbrev after : AdminDb
after = run hash_invoice hash_payment year_1970 calls start

run_calls :
    (map (λ (p : PaymentRow). p.amount_cents) after.tables.payments ≡ 1500 ∷ 1000 ∷ [])
    × (map (λ (i : InvoiceRow). i.status) after.tables.invoices ≡ InvoiceStatus.paid ∷ [])
    × (map (λ (i : InvoiceRow). i.total_cents) after.tables.invoices ≡ 2500 ∷ [])
unfolding run execute create_invoice_tx record_payment_tx find_subscription find_invoice_for_update
    bad_total create_invoice paid_amount_cents create_payment mark_invoice_paid invoice_response
    payment_response record_mutation sum_paid ◌>>=◌ Scope-discrete
run_calls = (refl, refl, refl)

start-IsSound : IsSound start
start-IsSound = record { keys = tt; books = record { settled = tt; distinct = tt; linked = tt } }

run-IsSound_example : IsSound after
run-IsSound_example = run-IsSound hash_invoice hash_payment year_1970 calls start start-IsSound
