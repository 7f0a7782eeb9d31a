-- ===== src/Idempotency/Laws.antt =====
-- What one call of `PlatformIdempotencyService.execute` does to a table in order.
use gatway_pagamento_escrito.Prelude.{
  ℕ, ◌+◌, ◌≡◌, true, false, none, some, ◌∷◌, ltb, ◌==◌, inl, inr, ==_refl, delete_where, find,
}
use gatway_pagamento_escrito.Failure.{Result, ok, err, Tx, Result-cases, ◌>>=◌}
use gatway_pagamento_escrito.Idempotency.{
  KeyRow, Db, Input, Idempotent, set_completed, is_key, pending_row, replay, claim, insert,
  mark_completed, complete, resume, execute,
}
use gatway_pagamento_escrito.Idempotency.Table.{
  IsTable, IsTable-delete_where, find-delete_where_self, count_where-fresh, update_where-fresh,
}

module _ {Scope Request Value : Type 0} (hash : Request → ℕ) where
  -- The row that a successful call leaves.
  abbrev pub completed_row : Input Scope Request → ℕ → ℕ → Value → KeyRow Scope Value
  completed_row input now id value = set_completed value (pending_row hash input now id)

module _ {Scope Value World : Type 0} where
  -- The database once the expired row is deleted.
  abbrev pub without : KeyRow Scope Value → Db Scope Value World → Db Scope Value World
  without row db = record db { keys = delete_where (λ other. other.id == row.id) db.keys }

module _ {Scope Value World : Type 0} (scopes : Discrete Scope) where
  abbrev pub IsValid : Db Scope Value World → Type 0
  IsValid db = IsTable scopes db.next_id db.keys

module _ {Scope Request Value World : Type 0} (hash : Request → ℕ) where
  -- The database after a call that ran its callback.
  abbrev pub stored :
      Input Scope Request → ℕ → Value → World → Db Scope Value World → Db Scope Value World
  stored input now value tables db = record {
    keys = completed_row hash input now db.next_id value ∷ db.keys;
    next_id = db.next_id + 1;
    tables = tables;
  }

  -- What a claimed call answers, from the result of its callback.
  abbrev pub finished :
      Input Scope Request
      → ℕ
      → Db Scope Value World
      → Result (Value × World)
      → Result (Idempotent Value × Db Scope Value World)
  finished input now db (ok (value, tables)) =
      ok (record { value = value; replayed = false }, stored input now value tables db)
  finished input now db (err e) = err e

module _ {Scope Request Value World : Type 0} (scopes : Discrete Scope) (hash : Request → ℕ) where
  mark_completed-claimed :
      (input : Input Scope Request) (now : ℕ) (value : Value) (tables : World)
      (db : Db Scope Value World)
      → IsValid scopes db
      → mark_completed db.next_id value (record {
        keys = pending_row hash input now db.next_id ∷ db.keys;
        next_id = db.next_id + 1;
        tables = tables;
      })
        ≡ ok (1, stored hash input now value tables db)
  unfolding mark_completed
  mark_completed-claimed input now value tables db h = rw (
    ==_refl db.next_id,
    count_where-fresh scopes db.next_id db.keys h,
    update_where-fresh scopes db.next_id (set_completed value) db.keys h,
  )

  -- `complete` on the row that was just claimed.
  complete-claimed :
      (input : Input Scope Request) (callback : Tx World Value) (now : ℕ)
      (db : Db Scope Value World)
      → IsValid scopes db
      → complete callback db.next_id (record db {
        keys = pending_row hash input now db.next_id ∷ db.keys;
        next_id = db.next_id + 1;
      })
        ≡ finished hash input now db (callback db.tables)
  unfolding complete
  complete-claimed input callback now db h = elim (Result-cases (callback db.tables)) [
    | inl ((value, tables), e) ↦
        rw (e, ◌>>=◌) (rw (mark_completed-claimed input now value tables db h, ◌>>=◌))
    | inr (e, failed) ↦ rw (failed, ◌>>=◌)
  ]

  -- No row under the scope and key: the callback runs.
  pub execute-new :
      (input : Input Scope Request) (callback : Tx World Value) (now : ℕ)
      (db : Db Scope Value World)
      → IsValid scopes db
      → find (is_key scopes input.scope input.key) db.keys ≡ none
      → execute scopes hash input callback now db ≡ finished hash input now db (callback db.tables)
  unfolding execute claim
  execute-new input callback now db h e = rw (e, ◌>>=◌) (complete-claimed input callback now db h)

  -- An expired row is replaced, and the callback runs.
  pub execute-expired :
      (input : Input Scope Request) (callback : Tx World Value) (now : ℕ)
      (db : Db Scope Value World) (existing : KeyRow Scope Value)
      → IsValid scopes db
      → find (is_key scopes input.scope input.key) db.keys ≡ some existing
      → ltb existing.expires_at now ≡ true
      → execute scopes hash input callback now db
        ≡ finished hash input now (without existing db) (callback db.tables)
  unfolding execute claim resume insert
  execute-expired input callback now db existing h e expired =
      rw (e, ◌>>=◌)
        (rw (e, resume, expired)
          (rw (find-delete_where_self scopes _ _ _ db.keys existing h e, ◌>>=◌)
            (complete-claimed input callback now (without existing db)
              (IsTable-delete_where scopes _ _ db.keys h))))

  -- A row that has not expired answers the call, which changes nothing.
  pub execute-recorded :
      (input : Input Scope Request) (callback : Tx World Value) (now : ℕ)
      (db : Db Scope Value World) (existing : KeyRow Scope Value)
      → find (is_key scopes input.scope input.key) db.keys ≡ some existing
      → ltb existing.expires_at now ≡ false
      → execute scopes hash input callback now db
        ≡ elim (replay hash input existing) [ ok answer ↦ ok (answer, db) | err e ↦ err e ]
  unfolding execute claim resume
  execute-recorded input callback now db existing e live = rw (e, ◌>>=◌) (rw (e, resume) (rw live))
