-- ===== src/Worker.antt =====
-- apps/worker/src/workers: the relay of the platform outbox and the provisioning of tenants.
pub mod Provisioning
pub mod Relay
