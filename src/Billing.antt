-- ===== src/Billing.antt =====
-- apps/api/src/modules/billing: `BillingRepository` in Billing/Repository, `BillingService` in
-- Billing/Service with its answers in Billing/Response, and their proofs in the other children.
pub mod Repository
pub mod Response
pub mod Service
pub mod Invariant
pub mod Payments
pub mod Books
pub mod Invoices
pub mod History
mod Tests
