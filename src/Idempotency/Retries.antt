-- ===== src/Idempotency/Retries.antt =====
-- The table of `PlatformIdempotencyService` over many calls: it stays in order, and the retries of
-- a request find its stored answer.
use gatway_pagamento_escrito.Prelude.{
  ℕ, ◌+◌, ◌≤◌, ◌≡◌, refl, true, false, none, List, [], ◌∷◌, arith, ltb, inl, inr, Option-cases,
  Bool-cases, ==_refl, find, All, map, sym, ◌∙◌,
}
use mathlib.Core.Bool.{false≢true}
use gatway_pagamento_escrito.Failure.{Result, ok, err, Tx, Result-cases, run_transaction}
use gatway_pagamento_escrito.Idempotency.{
  KeyRow, Db, Input, Idempotent, day_ms, is_key, replay, execute,
}
use gatway_pagamento_escrito.Idempotency.Table.{
  IsTable-suc, IsTable-delete_where, find-delete_where_self,
}
use gatway_pagamento_escrito.Idempotency.Laws.{
  IsValid, completed_row, stored, finished, without, execute-new, execute-expired, execute-recorded,
}

replay-replayed :
    {Scope Request Value : Type 0} (hash : Request → ℕ) (input : Input Scope Request)
    (row : KeyRow Scope Value) {answer : Idempotent Value}
    → replay hash input row ≡ ok answer
    → answer.replayed ≡ true
unfolding replay
replay-replayed hash input row e = ground arith

is_key_self :
    {Scope Value : Type 0} (scopes : Discrete Scope) (row : KeyRow Scope Value)
    → is_key scopes row.scope row.key row ≡ true
is_key_self scopes row = ground (arith, ==_refl row.key)

ok_inv :
    {Scope Value World : Type 0} (db : Db Scope Value World) (r : Result (Idempotent Value))
    {answer : Idempotent Value} {db' : Db Scope Value World}
    → ◌≡◌ {A = Result (Idempotent Value × Db Scope Value World)}
        (elim r [ ok a ↦ ok (a, db) | err e ↦ err e ])
        (ok (answer, db'))
    → (r ≡ ok answer) × (db' ≡ db)
ok_inv db (ok a) e = ground arith
ok_inv db (err f) e = cc

module _ {Scope Request Value World : Type 0} (scopes : Discrete Scope) (hash : Request → ℕ) where
  stored-IsValid :
      (input : Input Scope Request) (now : ℕ) (value : Value) (tables : World)
      (db : Db Scope Value World)
      → IsValid scopes db
      → find (is_key scopes input.scope input.key) db.keys ≡ none
      → IsValid scopes (stored hash input now value tables db)
  stored-IsValid input now value tables db h free =
      (omega arith, free, (refl, cc), IsTable-suc scopes db.next_id db.keys h)

  -- What a call leaves: the same tables, or a new row on a free key and the callback's tables.
  data Leaves (input : Input Scope Request) (callback : Tx World Value) (now : ℕ)
      (db : Db Scope Value World) (answer : Idempotent Value) (db' : Db Scope Value World)
      : Type 0 where
    same_tables : db' ≡ db → answer.replayed ≡ true → Leaves input callback now db answer db'
    new_row :
        (base : Db Scope Value World) (tables : World)
        → IsValid scopes base
        → find (is_key scopes input.scope input.key) base.keys ≡ none
        → answer.replayed ≡ false
        → callback db.tables ≡ ok (answer.value, tables)
        → db' ≡ stored hash input now answer.value tables base
        → Leaves input callback now db answer db'

  finished-Leaves :
      (input : Input Scope Request) (callback : Tx World Value) (now : ℕ)
      (db base : Db Scope Value World) (r : Result (Value × World)) {answer : Idempotent Value}
      {db' : Db Scope Value World}
      → callback db.tables ≡ r
      → IsValid scopes base
      → find (is_key scopes input.scope input.key) base.keys ≡ none
      → finished hash input now base r ≡ ok (answer, db')
      → Leaves input callback now db answer db'
  finished-Leaves input callback now db base (ok (value, tables)) ran h free e =
      new_row base tables h free (ground arith) (ground arith) (ground arith)
  finished-Leaves input callback now db base (err f) ran h free e = cc

  execute-Leaves :
      (input : Input Scope Request) (callback : Tx World Value) (now : ℕ)
      (db : Db Scope Value World) {answer : Idempotent Value} {db' : Db Scope Value World}
      → IsValid scopes db
      → execute scopes hash input callback now db ≡ ok (answer, db')
      → Leaves input callback now db answer db'
  execute-Leaves input callback now db h e =
      elim (Option-cases (find (is_key scopes input.scope input.key) db.keys)) [
        | inl free ↦
            finished-Leaves input callback now db db (callback db.tables) refl h free
              (rw (execute-new scopes hash input callback now db h free) at e)
        | inr (row, found) ↦ elim (Bool-cases (ltb row.expires_at now)) [
          | inl expired ↦
              finished-Leaves input callback now db (without row db) (callback db.tables) refl
                (IsTable-delete_where scopes _ _ db.keys h)
                (find-delete_where_self scopes _ _ _ db.keys row h found)
                (rw (execute-expired scopes hash input callback now db row h found expired) at e)
          | inr live ↦
              let (answered, same_db) =
                ok_inv db (replay hash input row)
                  (rw (execute-recorded scopes hash input callback now db row found live) at e) in
              same_tables same_db (replay-replayed hash input row answered)
        ]
      ]

  Leaves-IsValid :
      (input : Input Scope Request) (callback : Tx World Value) (now : ℕ)
      (db db' : Db Scope Value World) (answer : Idempotent Value)
      → IsValid scopes db
      → Leaves input callback now db answer db'
      → IsValid scopes db'
  Leaves-IsValid input callback now db db' answer h (same_tables e _) = rw e h
  Leaves-IsValid input callback now db db' answer h (new_row base tables valid free _ _ e) =
      rw e (stored-IsValid input now answer.value tables base valid free)

  -- The answer that a stored row gives to its own request until it expires.
  stored-answers :
      (input : Input Scope Request) (callback : Tx World Value) (start now : ℕ) (value : Value)
      (tables : World) (base : Db Scope Value World)
      → now ≤ start + day_ms
      → execute scopes hash input callback now (stored hash input start value tables base)
        ≡ ok (record { value = value; replayed = true }, stored hash input start value tables base)
  unfolding replay
  stored-answers input callback start now value tables base soon =
      let row = completed_row hash input start base.next_id value in
      rw
        (execute-recorded scopes hash input callback now (stored hash input start value tables base)
          row (rw (is_key_self scopes row)) (ground arith))
        (rw (==_refl input.actor_identity_id, ==_refl (hash input.request)))

  -- One request sent again and again, each attempt with its callback and its time, in transactions.
  pub attempts :
      Input Scope Request
      → List (Tx World Value × ℕ)
      → Db Scope Value World
      → List (Result (Idempotent Value)) × Db Scope Value World
  attempts input [] db = ([], db)
  attempts input ((callback, now) ∷ more) db =
      let (r, db') = run_transaction (execute scopes hash input callback now) db in
      let (rs, db'') = attempts input more db' in (r ∷ rs, db'')

  attempts-stored :
      (input : Input Scope Request) (start : ℕ) (value : Value) (tables : World)
      (base : Db Scope Value World) (retries : List (Tx World Value × ℕ))
      → All (λ a. a.1 ≤ start + day_ms) retries
      → attempts input retries (stored hash input start value tables base) ≡ (
        map (λ _. ok (record { value = value; replayed = true })) retries,
        stored hash input start value tables base,
      )
  unfolding attempts
  attempts-stored input start value tables base [] soon = refl
  attempts-stored input start value tables base ((callback, now) ∷ more) (soon, later) =
      rw (stored-answers input callback start now value tables base soon)
        (rw (attempts-stored input start value tables base more later))

-- Once a call has run its callback and committed, every retry of the same request within 24 hours
-- answers with the value of that call, marked as replayed; no callback runs again and the database
-- stays exactly as the first call left it. The ids and keys of the table are in order before.
pub execute-retries :
    {Scope Request Value World : Type 0} (scopes : Discrete Scope) (hash : Request → ℕ)
    (input : Input Scope Request) (callback : Tx World Value) (start : ℕ)
    (db db' : Db Scope Value World) (answer : Idempotent Value)
    (retries : List (Tx World Value × ℕ))
    → IsValid scopes db
    → execute scopes hash input callback start db ≡ ok (answer, db')
    → answer.replayed ≡ false
    → All (λ a. a.1 ≤ start + day_ms) retries
    → attempts scopes hash input retries db'
      ≡ (map (λ _. ok (record { value = answer.value; replayed = true })) retries, db')
execute-retries scopes hash input callback start db db' answer retries h e ran soon =
    replays (execute-Leaves scopes hash input callback start db h e)
  where
    replays :
        Leaves scopes hash input callback start db answer db'
        → attempts scopes hash input retries db'
          ≡ (map (λ _. ok (record { value = answer.value; replayed = true })) retries, db')
    replays (same_tables _ replayed) = absurd (false≢true (sym ran ∙ replayed))
    replays (new_row base tables _ _ _ _ left) =
        rw left (attempts-stored scopes hash input start answer.value tables base retries soon)

-- A successful call keeps the table in order: ids below the counter, one row for each scope and
-- key, and every row completed with its response.
pub execute-IsValid :
    {Scope Request Value World : Type 0} (scopes : Discrete Scope) (hash : Request → ℕ)
    (input : Input Scope Request) (callback : Tx World Value) (now : ℕ)
    (db db' : Db Scope Value World) (answer : Idempotent Value)
    → IsValid scopes db
    → execute scopes hash input callback now db ≡ ok (answer, db')
    → IsValid scopes db'
execute-IsValid scopes hash input callback now db db' answer h e =
    Leaves-IsValid scopes hash input callback now db db' answer h
      (execute-Leaves scopes hash input callback now db h e)

-- A property of the other tables that the callback keeps is kept by a committed call.
pub execute-keeps :
    {Scope Request Value World : Type 0} (scopes : Discrete Scope) (hash : Request → ℕ)
    (P : World → Type 0) (input : Input Scope Request) (callback : Tx World Value) (now : ℕ)
    (db : Db Scope Value World)
    → IsValid scopes db
    → P db.tables
    → ((value : Value) (tables : World) → callback db.tables ≡ ok (value, tables) → P tables)
    → let (_, db') = run_transaction (execute scopes hash input callback now) db in
      IsValid scopes db' × P db'.tables
execute-keeps {Scope} {Value = Value} {World} scopes hash P input callback now db h p keep =
    elim (Result-cases (execute scopes hash input callback now db)) [
      | inl ((answer, db'), e) ↦ rw e (
        execute-IsValid scopes hash input callback now db db' answer h e,
        left answer db' (execute-Leaves scopes hash input callback now db h e),
      )
      | inr (_, e) ↦ rw e (h, p)
    ]
  where
    left :
        (answer : Idempotent Value) (db' : Db Scope Value World)
        → Leaves scopes hash input callback now db answer db'
        → P db'.tables
    left answer db' (same_tables e _) = rw e p
    left answer db' (new_row base tables _ _ _ ran e) = rw e (keep answer.value tables ran)
