-- ===== src/Listing/Statuses.antt =====
-- A list of invoices under a status is the list of the invoices that are shown with that status.
use gatway_pagamento_escrito.Prelude.{ℕ, Bool, true, false, ◌&&◌}
use gatway_pagamento_escrito.Admin.{InvoiceStatus, opened, overdue, InvoiceRow}
use gatway_pagamento_escrito.Common.{is_null}
use gatway_pagamento_escrito.Billing.Response.{shown_status}
use gatway_pagamento_escrito.Listing.Filters.{
  BillingQuery, has_invoice_status, of_tenant, from_day, to_day,
}

-- A status that is neither of the two
abbrev is_settled_status : InvoiceStatus → Bool
is_settled_status opened = false
is_settled_status overdue = false
is_settled_status _ = true

-- The invoices that a list under a status is to show: those that would be shown with it.
abbrev pub shown_with :
    (clock : InvoiceRow → ℕ) → BillingQuery InvoiceStatus → InvoiceStatus → InvoiceRow → Bool
shown_with clock q s row =
    is_null row.deleted_at
    && of_tenant q.tenant_id row.tenant_id
    && has_invoice_status (shown_status (clock row) row) s
    && from_day q.from row.due_date
    && to_day q.to row.due_date
