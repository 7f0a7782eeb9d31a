-- ===== src/Listing/Tests.antt =====
-- Three rows in pages of one, a row that no page shows, and overdue invoices.
use gatway_pagamento_escrito.Prelude.{
  arith, ℕ, ◌+◌, ◌*◌, ◌≡◌, refl, Bool, true, Option, none, some, List, [], ◌∷◌, All,
}
use gatway_pagamento_escrito.Failure.{Result, ok, err, error}
use gatway_pagamento_escrito.Auth.Password.{Chars}
use gatway_pagamento_escrito.Admin.{
  InvoiceStatus, opened, overdue, InvoiceRow, InvoiceResponse, Tables,
}
use gatway_pagamento_escrito.Common.{to_safe_integer}
use gatway_pagamento_escrito.Billing.Response.{shown_status, invoice_response}
use gatway_pagamento_escrito.Listing.{order_rows, list_rows, page, walk}
use gatway_pagamento_escrito.Listing.Walk.{matching, walk-matching}
use gatway_pagamento_escrito.Listing.Missed.{shown_on, shown_on-misses}
use gatway_pagamento_escrito.Listing.Cursors.{Json, Field, string, Codec, decode_cursor}
use gatway_pagamento_escrito.Listing.Filters.{Choice, BillingQuery}
use gatway_pagamento_escrito.Listing.Services.{Answered, list_page, list_invoices}

record Entry : Type 0 where
  us : ℕ
  key : ℕ

abbrev entries : List Entry
entries =
    record { us = 7000; key = 1 }
    ∷ record { us = 9000; key = 2 }
    ∷ record { us = 7000; key = 3 }
    ∷ []

abbrev all_rows : Entry → Bool
all_rows row = true

abbrev us_of : Entry → ℕ
us_of row = row.us

abbrev key_of : Entry → ℕ
key_of row = row.key

walk-matching_example :
    walk us_of key_of all_rows 1 entries 4 none ≡ some (matching us_of key_of all_rows entries)
unfolding order_rows
walk-matching_example =
    walk-matching us_of key_of all_rows 1 entries ((refl, (refl, tt)), ((refl, tt), (tt, tt)))
      (refl, (refl, (refl, tt))) (omega arith)

-- Two rows of one millisecond: the walk never shows the older one.
abbrev close : List Entry
close = record { us = 7900; key = 1 } ∷ record { us = 7400; key = 2 } ∷ []

walk-close : walk us_of key_of all_rows 1 close 9 none ≡ some (record { us = 7900; key = 1 } ∷ [])
unfolding walk page list_rows order_rows
walk-close = refl

shown_on-misses_example :
    All
      (λ (row : Entry). ¬ (row ≡ record { us = 7400; key = 2 }))
      (shown_on us_of key_of all_rows 1 close 9 none)
unfolding order_rows
shown_on-misses_example =
    shown_on-misses us_of key_of all_rows close [] (record { us = 7900; key = 1 })
      (record { us = 7400; key = 2 }) [] 9 ((refl, tt), (tt, tt)) refl (omega arith)

abbrev written : Field → Chars
written (string (x ∷ xs)) = x ∷ xs
written _ = []

abbrev json_text : Json → Chars
json_text (Json.object created_at id) = 1 ∷ written created_at
json_text Json.other = []

abbrev uuid : ℕ → Chars
uuid id =
    48
    ∷ 48
    ∷ 48
    ∷ 48
    ∷ 48
    ∷ 48
    ∷ 48
    ∷ 48
    ∷ 45
    ∷ 48
    ∷ 48
    ∷ 48
    ∷ 48
    ∷ 45
    ∷ 52
    ∷ 48
    ∷ 48
    ∷ 48
    ∷ 45
    ∷ 56
    ∷ 48
    ∷ 48
    ∷ 48
    ∷ 45
    ∷ 48
    ∷ 48
    ∷ 48
    ∷ 48
    ∷ 48
    ∷ 48
    ∷ 48
    ∷ 48
    ∷ 48
    ∷ 48
    ∷ 48
    ∷ (48 + id)
    ∷ []

abbrev parsed : Chars → Result Json
parsed [] = err (error "Unexpected end of JSON input")
parsed (x ∷ xs) = ok (Json.object (string xs) (string (uuid 5)))

abbrev first_char : Chars → Option ℕ
first_char [] = none
first_char (x ∷ xs) = some x

abbrev codec : Codec
codec = record {
  to_base64url = λ text. text;
  from_base64url = λ text. text;
  stringify = json_text;
  parse = parsed;
  to_iso = λ time. time ∷ [];
  parse_date = first_char;
  uuid_text = uuid;
  uuid_value = λ text. 5;
}

abbrev late : InvoiceRow
late = record {
  id = 5;
  tenant_id = 1;
  subscription_id = 2;
  number = record { year = 1970; prefix = 0 };
  status = opened;
  currency = 986;
  subtotal_cents = 100;
  discount_cents = 0;
  tax_cents = 0;
  total_cents = 100;
  due_date = 3;
  issued_at = none;
  paid_at = none;
  voided_at = none;
  deleted_at = none;
  created_at = 7;
  updated_at = 7;
}

abbrev tables : Tables
tables = record {
  identities = [];
  tenants = [];
  plans = [];
  plan_prices = [];
  subscriptions = [];
  invoices = late ∷ [];
  invoice_items = [];
  payments = [];
  plan_features = [];
  provisioning_attempts = [];
  outbox = [];
  next_outbox_id = 0;
  audit_logs = [];
}

abbrev query : BillingQuery InvoiceStatus
query = record { tenant_id = none; status = Choice.only overdue; from = none; to = none }

abbrev late_response : InvoiceResponse
late_response = record {
  id = 5;
  tenant_id = 1;
  subscription_id = 2;
  number = record { year = 1970; prefix = 0 };
  status = overdue;
  currency = 986;
  subtotal_cents = 100;
  discount_cents = 0;
  tax_cents = 0;
  total_cents = 100;
  due_date = 3;
  issued_at = none;
  paid_at = none;
  voided_at = none;
  created_at = 7;
  updated_at = 7;
}

abbrev answer : Answered InvoiceResponse
answer = record { items = late_response ∷ []; next_cursor = none }

-- The invoice is due on the day 3, and the list is made on the day 4, in two moments of it.
list_late :
    list_invoices codec
      (λ row. 1000 * row.created_at)
      345_600_000
      (λ row. 345_600_999)
      query
      10
      none
      tables
    ≡ ok answer
unfolding list_invoices list_page decode_cursor page list_rows order_rows invoice_response
    shown_status to_safe_integer
list_late = refl
