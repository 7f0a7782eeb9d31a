-- ===== src/Tenants.antt =====
-- apps/api/src/modules/tenants: `TenantsRepository` in Tenants/Repository and `TenantsService` in
-- Tenants/Changes and Tenants/Service; the children prove what the life of a tenant keeps to.
-- Parameters: the hash of a request, the lower case and the trimmed lower case of a text, the end of a
-- billing period that starts at a time, and the primitives of the password hasher.
pub mod Repository
pub mod Changes
pub mod Service
