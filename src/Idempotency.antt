-- ===== src/Idempotency.antt =====
-- apps/api/src/common/platform-idempotency.service.ts: `PlatformIdempotencyService.execute` over
-- the table `platform_idempotency_keys` (database/migrations/admin/003).
-- Parameters: the type of scopes (strings in the source, only compared), of requests, of responses
-- and of the other tables; `request_hash` stands for SHA-256 of the canonical JSON of the request.
-- The clock is read once for a call. The order of a table's rows means nothing: new rows come first.
-- A row's id (`gen_random_uuid()`) is drawn from a counter.
pub mod Table
pub mod Laws
pub mod Spec
pub mod Retries
mod Tests
use gatway_pagamento_escrito.Prelude.{
  ℕ, ◌+◌, ◌*◌, Bool, true, false, not, ◌&&◌, Option, none, some, List, ◌∷◌, ltb, ◌==◌,
  if◌then◌else◌, is_some, same, find, update_where, count_where, delete_where,
}
use gatway_pagamento_escrito.Failure.{
  Failure, conflict, error, unique_violation, Result, ok, err, Tx, pure, throw, get, throw_if,
  ◌>>=◌, ◌>>◌,
}

pub data KeyStatus : Type 0 where
  pending completed failed : KeyStatus

pub record KeyRow (Scope Value : Type 0) : Type 0 where
  pub id : ℕ
  pub actor_identity_id : Option ℕ
  pub scope : Scope
  pub key : ℕ
  pub request_hash : ℕ
  pub status : KeyStatus
  pub response_status : Option ℕ
  pub response : Option Value
  pub expires_at : ℕ

pub record Db (Scope Value World : Type 0) : Type 0 where
  pub keys : List (KeyRow Scope Value)
  pub next_id : ℕ
  pub tables : World

pub record Input (Scope Request : Type 0) : Type 0 where
  pub scope : Scope
  pub key : ℕ
  pub actor_identity_id : ℕ
  pub request : Request

pub record Idempotent (Value : Type 0) : Type 0 where
  pub value : Value
  pub replayed : Bool

abbrev pub day_ms : ℕ
day_ms = 24 * 60 * 60 * 1000

abbrev pub is_completed : KeyStatus → Bool
is_completed completed = true
is_completed _ = false

abbrev pub holds {ℓ} : {P : Type ℓ} → Dec P → Bool
holds (yes _) = true
holds (no _) = false

abbrev pub is_key : {Scope Value : Type 0} → Discrete Scope → Scope → ℕ → KeyRow Scope Value → Bool
is_key scopes scope key row = holds (scopes row.scope scope) && row.key == key

abbrev pub set_completed : {Scope Value : Type 0} → Value → KeyRow Scope Value → KeyRow Scope Value
set_completed value row = record row {
  status = completed;
  response_status = some 200;
  response = some value;
}

module _ {Scope Request Value : Type 0} (hash : Request → ℕ) where
  -- The row that both `INSERT`s write.
  abbrev pub pending_row : Input Scope Request → ℕ → ℕ → KeyRow Scope Value
  pending_row input now id = record {
    id = id;
    actor_identity_id = some input.actor_identity_id;
    scope = input.scope;
    key = input.key;
    request_hash = hash input.request;
    status = pending;
    response_status = none;
    response = none;
    expires_at = now + day_ms;
  }

  -- the answer from a row that has not expired
  pub replay : Input Scope Request → KeyRow Scope Value → Result (Idempotent Value)
  replay input existing =
      if not (same existing.actor_identity_id (some input.actor_identity_id))
      then err (conflict "Idempotency key belongs to a different actor")
      else if not (existing.request_hash == hash input.request)
      then err (conflict "Idempotency key was already used for a different request")
      else if not (is_completed existing.status)
      then err (conflict "Idempotent request is still pending")
      else elim existing.response [
        | none ↦ err (conflict "Idempotent request is still pending")
        | some value ↦ ok (record { value = value; replayed = true })
      ]

module _ {Scope Value World : Type 0} where
  -- the callback, which gets the transaction for the other tables
  abbrev pub on_tables : Tx World Value → Tx (Db Scope Value World) Value
  on_tables callback db = elim (callback db.tables) [
    | ok (value, tables) ↦ ok (value, record db { tables = tables })
    | err e ↦ err e
  ]

  -- `UPDATE … SET status = 'completed' … WHERE id = …`, with the number of rows
  unfoldable pub mark_completed : ℕ → Value → Tx (Db Scope Value World) ℕ
  mark_completed id value db = ok (
    count_where (λ row. row.id == id) db.keys,
    record db { keys = update_where (λ row. row.id == id) (set_completed value) db.keys },
  )

  -- the end of `execute`, once the key is claimed
  pub complete : Tx World Value → ℕ → Tx (Db Scope Value World) (Idempotent Value)
  unfolding ◌>>=◌
  complete callback id = do
    value ← on_tables callback
    updated ← mark_completed id value
    throw_if (not (updated == 1)) (error "Idempotency record was not completed")
    pure (record { value = value; replayed = false })

module _ {Scope Request Value World : Type 0} (scopes : Discrete Scope) (hash : Request → ℕ) where
  -- `INSERT … ON CONFLICT (scope, key) DO NOTHING RETURNING id`
  pub claim : Input Scope Request → ℕ → Tx (Db Scope Value World) (Option ℕ)
  claim input now db =
      if is_some (find (is_key scopes input.scope input.key) db.keys)
      then ok (none, db)
      else ok (
        some db.next_id,
        record db {
          keys = pending_row hash input now db.next_id ∷ db.keys;
          next_id = db.next_id + 1;
        },
      )

  -- `INSERT … RETURNING id`, under the constraint `uq_platform_idempotency_scope_key`
  pub insert : Input Scope Request → ℕ → Tx (Db Scope Value World) ℕ
  unfolding claim ◌>>=◌
  insert input now = do
    claimed ← claim input now
    elim claimed [ none ↦ throw unique_violation | some id ↦ pure id ]

  -- the branch `!claimed`
  pub resume :
      Input Scope Request → Tx World Value → ℕ → Tx (Db Scope Value World) (Idempotent Value)
  unfolding insert complete replay ◌>>=◌
  resume input callback now db = elim (find (is_key scopes input.scope input.key) db.keys) [
    | none ↦ err (error "no result")
    | some existing ↦
        if ltb existing.expires_at now
        then (insert input now >>= complete callback)
            (record db { keys = delete_where (λ row. row.id == existing.id) db.keys })
        else elim (replay hash input existing) [ ok answer ↦ ok (answer, db) | err e ↦ err e ]
  ]

  unfoldable pub execute :
      Input Scope Request → Tx World Value → ℕ → Tx (Db Scope Value World) (Idempotent Value)
  unfolding claim complete resume mark_completed ◌>>=◌
  execute input callback now = do
    claimed ← claim input now
    elim claimed [ some id ↦ complete callback id | none ↦ resume input callback now ]
