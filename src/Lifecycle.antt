-- ===== src/Lifecycle.antt =====
-- The life of tenants in the whole system: requests to `TenantsService` and the steps of
-- `TenantProvisioningWorker`, interleaved. The advisory lock that a job holds on its tenant is a map
-- of its own; a crash releases it.
pub mod Phases
pub mod Jobs
mod Held
pub mod Moves
pub mod Requests
pub mod System
pub mod History
pub mod Progress
mod Race
mod Tests
mod Office
