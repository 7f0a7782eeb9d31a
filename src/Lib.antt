-- ===== src/Lib.antt =====
-- Verification of the payment gateway's platform.
--
-- The platform serves tenants. Administrators and tenant users sign in through the authentication
-- service; the billing service issues invoices and records payments; each change runs under an
-- idempotency key, in one transaction that also writes the outbox and the audit log.
--
-- Files, by the part of the program that each one models (paths from the root of the repository):
-- - Prelude, Prelude/Tests, Prelude/Lists: Boolean tests on native numbers, lists and searches.
-- - Failure: the exceptions of NestJS with their messages, the two PostgreSQL error codes that the
--   services read, and transactions: a throw rolls back (`run_transaction`).
-- - Idempotency (Table, Laws, Spec, Retries, Tests):
--   apps/api/src/common/platform-idempotency.service.ts, `PlatformIdempotencyService.execute` as
--   `execute`, over any other tables and any callback. Spec holds the abstract specification.
-- - Admin (Billing, Tenancy, Responses): the rows of apps/api/src/common/admin-database.ts and the
--   JSON values written to them.
-- - Common: apps/api/src/common/safe-integer.ts and what the services share, `recordMutation` among it.
-- - Billing (Repository, Response, Service): apps/api/src/modules/billing/billing.repository.ts and
--   billing.service.ts, `createInvoice` as `create_invoice_call` and `recordPayment` as
--   `record_payment_call`. Invariant, Payments, Invoices, Books and History hold the proofs: what a
--   committed call has done, the books that it keeps, and any sequence of calls.
-- - Sessions (Redis, Store): apps/api/src/modules/auth/auth-session.store.ts and
--   packages/auth/src/refresh-token.ts, `AuthSessionStore` over the keys of Redis, with its scripts.
--   Challenge, Reuse and Lockout hold the proofs.
-- - Auth (Rows, Flow, Repository, Service and its children, Password, Totp):
--   apps/api/src/modules/auth/auth.service.ts and auth.repository.ts, with
--   packages/auth/src/password.ts, password-policy.ts and totp.ts. Admission, Replay and Recovery hold
--   the proofs.
-- - Tenants (Repository, Changes, Service): apps/api/src/modules/tenants/tenants.repository.ts and
--   tenants.service.ts, each handler that changes state as `…_call` around its callback `…_tx`.
-- - Plans (Repository, Service, Timeline, History): apps/api/src/modules/plans/plans.repository.ts and
--   plans.service.ts; the last two hold the proofs on the prices of a plan.
-- - Worker (Provisioning): apps/worker/src/workers/tenant-provisioning.worker.ts, what both jobs read
--   and write in the administration database.
-- - Worker (Relay, Relay/Handover): apps/worker/src/workers/platform-outbox.relay.ts, `poll`.
-- - Lifecycle (Phases, Jobs, Requests, Held, Moves, System, History, Progress, Race): the tenants service
--   and the worker together. A job is two steps under the lock of its tenant, between which anything
--   else may happen; `end_of_job` is a process that ends in between. `retryProvisioning` is two steps
--   too, the read without a lock and the rest of its transaction.
-- - Listing (Cursors, Filters, Services, Order, Walk, Missed, Statuses): the lists of the platform services,
--   their queries in the repositories, and apps/api/src/common/cursor.ts. `page` is the method of that
--   name in apps/api/src/modules/billing/billing.service.ts; `walk` is a client that follows cursors.
-- - Tokens (Trust): packages/auth/src/jwt.ts and packages/auth/src/types.ts, `issue` and `verify`, and
--   apps/api/src/modules/auth/auth.guard.ts, `guard` as a realm's guard before `PermissionGuard`.
-- - Throttle (Block, Window): apps/api/src/common/redis-throttler.storage.ts,
--   `RedisThrottlerStorage.increment`.
-- - Qa (Contract): packages/qa-agent/src/state-machine.ts, `QaStateMachine`, and the table of docs/factory/agents/qa/AGENT_CONTRACT.md.
--
-- How the program is represented. Ids are the 128 bits of a UUID as a number; texts that the code
-- only stores or compares are numbers, and other texts keep what the code reads of them (a length,
-- or their code units). Times are milliseconds since the epoch, dates are days. A handler reads the
-- clock once; only the plans tell the clock of the service from the start of the transaction, and
-- the list of invoices tells the clock of its query from the clock of each answer.
-- Amounts are natural numbers: the schemas of the requests refuse negative ones, and the test
-- against the greatest safe integer is written where the code has it. Ids that the database draws
-- are counters; tokens and ids that the code draws are arguments. A transaction is one step: the
-- locks that the statements take make concurrent ones serial, and the unique indexes refuse the
-- rest; `retryProvisioning`, whose read takes no lock, is two steps. A handler of the authentication
-- service has no transaction, so `Flow` keeps what it wrote before it threw. An operation of the
-- session store is one step, although `recordLoginFailure` (INCR, EXPIRE) and the rotation of a
-- refresh token (its script, the revocation of a family, the new session) send several commands to
-- Redis: what a process that dies between them leaves behind is not modelled. The first statements
-- of a provisioning job are one step, or end before the last of them (`cut_database_job`).
-- Loops are structural recursion over a list; only `walk` and `shown_on` have fuel, the number of
-- pages that a client asks for at most, and the theorem on `walk` says how many are enough.
--
-- Parameters stand for code that is not in the repository: SHA-256, Argon2, jose, BullMQ's queue,
-- base64, JSON and dates in cursors, PostgreSQL's `ilike`, the one-time password of a secret, the
-- case of a string, and the year of a time. The fields of `Environment` also stand for the queries
-- that load roles and for packages/auth/src/secret-encryption.ts.
--
-- Not modelled: the user interfaces, controllers, connections, configuration and DDL (glue and input
-- or output), and, so far, the outbox package, webhooks, the HTTP client and reporting.
pub mod Prelude
pub mod Failure
pub mod Idempotency
pub mod Admin
pub mod Common
pub mod Billing
pub mod Sessions
pub mod Auth
pub mod Lifecycle
pub mod Listing
pub mod Plans
pub mod Qa
pub mod Tenants
pub mod Throttle
pub mod Tokens
pub mod Worker
