-- ===== src/Sessions.antt =====
-- apps/api/src/modules/auth/auth-session.store.ts: `AuthSessionStore` over Redis, and
-- packages/auth/src/refresh-token.ts. Each kind of Redis key is a map of its own from the variable
-- part of the key; an entry holds its value and the time at which it expires. Each call is one
-- step at one time. Random tokens and ids are arguments; a text is known by its length and its
-- identity. Parameters: the SHA-256 digest of a text.
-- The JSON of a stored session or challenge is written only here, so `parseStored` reads it back.
pub mod Redis
pub mod Store
pub mod Challenge
pub mod Lockout
pub mod Reuse
pub mod Tests
