-- ===== src/Idempotency/Spec.antt =====
-- What `PlatformIdempotencyService.execute` promises, and that it keeps the promise.
use gatway_pagamento_escrito.Prelude.{
  ℕ, ◌≡◌, refl, true, false, not, Option, none, some, arith, ltb, ◌==◌, if◌then◌else◌, inl, inr,
  Option-cases, Bool-cases, find, same,
}
use gatway_pagamento_escrito.Failure.{conflict, error, Result, ok, err, Tx}
use gatway_pagamento_escrito.Idempotency.{KeyRow, Db, Input, Idempotent, is_key, replay, execute}
use gatway_pagamento_escrito.Idempotency.Table.{IsAnswered, find-IsAnswered}
use gatway_pagamento_escrito.Idempotency.Laws.{
  IsValid, finished, without, execute-new, execute-expired, execute-recorded,
}

abbrev pub unexpired :
    {Scope Value : Type 0} → ℕ → Option (KeyRow Scope Value) → Option (KeyRow Scope Value)
unexpired now none = none
unexpired now (some row) = if ltb row.expires_at now then none else some row

module _ {Scope Request Value World : Type 0} (scopes : Discrete Scope) where
  -- The row that still holds a key at a time.
  abbrev pub recorded : Input Scope Request → ℕ → Db Scope Value World → Option (KeyRow Scope Value)
  recorded input now db = unexpired now (find (is_key scopes input.scope input.key) db.keys)

module _ {Scope Request Value World : Type 0} (hash : Request → ℕ) where
  -- The promise: a key that is held answers its own actor and request with the stored response and
  -- refuses every other; a key that is free runs the callback on the other tables.
  abbrev pub promised :
      Input Scope Request
      → Tx World Value
      → World
      → Option (KeyRow Scope Value)
      → Result (Idempotent Value × World)
  promised input callback tables none = elim (callback tables) [
    | ok (value, tables') ↦ ok (record { value = value; replayed = false }, tables')
    | err e ↦ err e
  ]
  promised input callback tables (some row) =
      if not (same row.actor_identity_id (some input.actor_identity_id))
      then err (conflict "Idempotency key belongs to a different actor")
      else if not (row.request_hash == hash input.request)
      then err (conflict "Idempotency key was already used for a different request")
      else elim row.response [
        | none ↦ err (error "no stored response")
        | some value ↦ ok (record { value = value; replayed = true }, tables)
      ]

module _ {Scope Value World : Type 0} where
  -- What a caller sees of a result: the answer and the other tables.
  abbrev pub seen :
      Result (Idempotent Value × Db Scope Value World) → Result (Idempotent Value × World)
  seen (ok (answer, db)) = ok (answer, db.tables)
  seen (err e) = err e

module _ {Scope Request Value World : Type 0} (scopes : Discrete Scope) (hash : Request → ℕ) where
  seen-finished :
      (input : Input Scope Request) (callback : Tx World Value) (now : ℕ)
      (db : Db Scope Value World) (r : Result (Value × World))
      → seen (finished hash input now db r) ≡ elim r [
        | ok (value, tables') ↦ ok (record { value = value; replayed = false }, tables')
        | err e ↦ err e
      ]
  seen-finished input callback now db (ok (value, tables)) = refl
  seen-finished input callback now db (err e) = refl

  seen-replay :
      (input : Input Scope Request) (callback : Tx World Value) (db : Db Scope Value World)
      (row : KeyRow Scope Value)
      → IsAnswered scopes row
      → seen (elim (replay hash input row) [ ok answer ↦ ok (answer, db) | err e ↦ err e ])
        ≡ promised hash input callback db.tables (some row)
  unfolding replay
  seen-replay input callback db row (done, answered) = ground arith

-- On a table in order, a call answers exactly as promised, whatever the callback does. In
-- particular it never answers that the request is pending, nor that the record was not completed.
pub execute-promised :
    {Scope Request Value World : Type 0} (scopes : Discrete Scope) (hash : Request → ℕ)
    (input : Input Scope Request) (callback : Tx World Value) (now : ℕ) (db : Db Scope Value World)
    → IsValid scopes db
    → seen (execute scopes hash input callback now db)
      ≡ promised hash input callback db.tables (recorded scopes input now db)
execute-promised scopes hash input callback now db h =
    elim (Option-cases (find (is_key scopes input.scope input.key) db.keys)) [
      | inl missing ↦
          rw (missing, execute-new scopes hash input callback now db h missing)
            (seen-finished scopes hash input callback now db (callback db.tables))
      | inr (row, found) ↦ elim (Bool-cases (ltb row.expires_at now)) [
        | inl expired ↦
            rw
              (
                found,
                expired,
                execute-expired scopes hash input callback now db row h found expired,
              )
              (seen-finished scopes hash input callback now (without row db) (callback db.tables))
        | inr live ↦
            rw (found, live, execute-recorded scopes hash input callback now db row found live)
              (seen-replay scopes hash input callback db row
                (find-IsAnswered scopes _ _ _ db.keys row h found))
      ]
    ]
