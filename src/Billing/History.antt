-- ===== src/Billing/History.antt =====
-- Any history of billing calls, each in its transaction and under its idempotency key, keeps the
-- books and the table of keys.
use gatway_pagamento_escrito.Prelude.{ℕ, List, [], ◌∷◌, if_elim, not}
use gatway_pagamento_escrito.Failure.{Result}
use gatway_pagamento_escrito.Idempotency.{Idempotent}
use gatway_pagamento_escrito.Idempotency.Laws.{IsValid}
use gatway_pagamento_escrito.Idempotency.Retries.{execute-keeps}
use gatway_pagamento_escrito.Admin.{Value, Scope, Scope-discrete, AdminDb}
use gatway_pagamento_escrito.Common.{User, is_platform}
use gatway_pagamento_escrito.Billing.Service.{
  CreateInvoiceRequest, RecordPaymentRequest, bad_total, create_invoice_tx, record_payment_tx,
  create_invoice_call, record_payment_call,
}
use gatway_pagamento_escrito.Billing.Invariant.{IsBalanced}
use gatway_pagamento_escrito.Billing.Books.{record_payment_tx-IsBalanced}
use gatway_pagamento_escrito.Billing.Invoices.{create_invoice_tx-IsBalanced}

pub record IsSound (db : AdminDb) : Type 0 where
  pub keys : IsValid Scope-discrete db
  pub books : IsBalanced db.tables

abbrev Sound : Result (Idempotent Value) × AdminDb → Type 0
Sound r = IsSound r.1

-- A request as it reaches the service: who calls, the idempotency key, the id that would be drawn
-- for a new row, and the time.
pub data Call : Type 0 where
  create_invoice : User → ℕ → CreateInvoiceRequest → (invoice_id now : ℕ) → Call
  record_payment : User → ℕ → RecordPaymentRequest → (payment_id now : ℕ) → Call

module _ (hash_invoice : CreateInvoiceRequest → ℕ) (hash_payment : RecordPaymentRequest → ℕ)
    (utc_year : ℕ → ℕ) where
  unfoldable pub apply : Call → AdminDb → AdminDb
  unfolding create_invoice_call record_payment_call
  apply (create_invoice user key input invoice_id now) db =
      (create_invoice_call hash_invoice utc_year user key input invoice_id now db).1
  apply (record_payment user key input payment_id now) db =
      (record_payment_call hash_payment user key input payment_id now db).1

  unfoldable pub run : List Call → AdminDb → AdminDb
  unfolding apply
  run [] db = db
  run (call ∷ calls) db = run calls (apply call db)

  apply-IsSound : (call : Call) (db : AdminDb) → IsSound db → IsSound (apply call db)
  unfolding apply
  apply-IsSound (create_invoice user key input invoice_id now) db h =
      if_elim Sound (not (is_platform user.realm)) (λ _. h)
        (λ _.
          if_elim Sound (bad_total input) (λ _. h)
            (λ good.
              let (keys, books) =
                execute-keeps Scope-discrete hash_invoice IsBalanced
                  (record {
                    scope = Scope.invoice_create;
                    key = key;
                    actor_identity_id = user.user_id;
                    request = input;
                  })
                  (create_invoice_tx utc_year user input invoice_id now) now db h.keys h.books
                  (λ value t'.
                    create_invoice_tx-IsBalanced utc_year user input invoice_id now db.tables t'
                      value good h.books) in
              record { keys = keys; books = books }))
  apply-IsSound (record_payment user key input payment_id now) db h =
      if_elim Sound (not (is_platform user.realm)) (λ _. h)
        (λ _.
          let (keys, books) =
            execute-keeps Scope-discrete hash_payment IsBalanced
              (record {
                scope = Scope.payment_create;
                key = key;
                actor_identity_id = user.user_id;
                request = input;
              })
              (record_payment_tx user input payment_id now) now db h.keys h.books
              (λ value t'.
                record_payment_tx-IsBalanced user input payment_id now db.tables t' value
                  h.books) in
          record { keys = keys; books = books })

  run-IsSound_lem : (calls : List Call) (db : AdminDb) → IsSound db → IsSound (run calls db)
  unfolding run
  run-IsSound_lem [] db h = h
  run-IsSound_lem (call ∷ calls) db h =
      run-IsSound_lem calls (apply call db) (apply-IsSound call db h)

-- From a database in order, any sequence of `createInvoice` and `recordPayment` requests, accepted,
-- refused or replayed, leaves one: the paid payments of every invoice stay within its total, reach
-- it exactly if the invoice is marked paid, and stay below it while the invoice takes payments;
-- invoice ids stay distinct, payments refer to invoices, and the idempotency keys stay in order.
pub run-IsSound :
    (hash_invoice : CreateInvoiceRequest → ℕ) (hash_payment : RecordPaymentRequest → ℕ)
    (utc_year : ℕ → ℕ) (calls : List Call) (db : AdminDb)
    → IsSound db
    → IsSound (run hash_invoice hash_payment utc_year calls db)
run-IsSound hash_invoice hash_payment utc_year calls db h =
    run-IsSound_lem hash_invoice hash_payment utc_year calls db h
