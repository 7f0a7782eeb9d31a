-- ===== src/Auth.antt =====
-- apps/api/src/modules/auth/auth.service.ts and auth.repository.ts over the sessions of Redis, with
-- packages/auth/src/password.ts, password-policy.ts and totp.ts.
-- A call reads the clock once, in milliseconds. Parameters: the cryptographic primitives and the
-- roles that the platform and the tenant databases give an identity.
pub mod Password
pub mod Totp
pub mod Flow
pub mod Rows
pub mod Repository
pub mod Service
mod Admission
mod Replay
mod Recovery
mod Tests
