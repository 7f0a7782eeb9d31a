-- ===== src/Plans.antt =====
-- Plans and their prices: the repository, the service and what the prices promise.
pub mod Repository
pub mod Service
mod Timeline
mod History
mod Tests
