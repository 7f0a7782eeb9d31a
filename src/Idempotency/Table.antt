-- ===== src/Idempotency/Table.antt =====
-- The table `platform_idempotency_keys` between transactions, and how the statements of
-- platform-idempotency.service.ts act on it.
use gatway_pagamento_escrito.Prelude.{
  ℕ, ◌+◌, ◌<◌, ◌≡◌, refl, ◌≢◌, Bool, true, false, none, some, List, [], ◌∷◌, arith, ◌==◌,
  if◌then◌else◌, ◌⊎◌, inl, inr, Bool-cases, ==_refl, find, update_where, count_where, delete_where,
}
use gatway_pagamento_escrito.Idempotency.{completed, KeyRow, is_key}

module _ {Scope Value : Type 0} (scopes : Discrete Scope) where
  -- A stored row is answered: its transaction has committed with the response.
  abbrev pub IsAnswered : KeyRow Scope Value → Type 0
  IsAnswered row = (row.status ≡ completed) × (row.response ≢ none)

  -- Ids lie below the counter, a scope and key occur once, and every row is answered.
  abbrev pub IsTable : ℕ → List (KeyRow Scope Value) → Type 0
  IsTable n [] = Unit
  IsTable n (row ∷ rows) =
      (row.id < n)
      × (find (is_key scopes row.scope row.key) rows ≡ none)
      × IsAnswered row
      × IsTable n rows

  pub eq_of_is_key :
      (s : Scope) (k : ℕ) (row : KeyRow Scope Value)
      → is_key scopes s k row ≡ true
      → (row.scope ≡ s) × (row.key ≡ k)
  eq_of_is_key s k row h = ground arith

  -- What `find` returns is the row at the head, or is found in the tail.
  find-cons_cases :
      (s : Scope) (k : ℕ) (row found : KeyRow Scope Value) (rows : List (KeyRow Scope Value))
      → find (is_key scopes s k) (row ∷ rows) ≡ some found
      → ((row ≡ found) × (row.scope ≡ s) × (row.key ≡ k))
        ⊎ ((is_key scopes s k row ≡ false) × (find (is_key scopes s k) rows ≡ some found))
  find-cons_cases s k row found rows e = elim (Bool-cases (is_key scopes s k row)) [
    | inl hit ↦ inl (cc, (eq_of_is_key s k row hit).0, (eq_of_is_key s k row hit).1)
    | inr miss ↦ inr (miss, cc)
  ]

  pub find-delete_where :
      (s : Scope) (k : ℕ) (q : KeyRow Scope Value → Bool) (rows : List (KeyRow Scope Value))
      → find (is_key scopes s k) rows ≡ none
      → find (is_key scopes s k) (delete_where q rows) ≡ none
  find-delete_where s k q [] e = refl
  find-delete_where s k q (row ∷ rows) e = ground (arith, find-delete_where s k q rows)

  pub IsTable-suc :
      (n : ℕ) (rows : List (KeyRow Scope Value)) → IsTable n rows → IsTable (n + 1) rows
  IsTable-suc n [] h = tt
  IsTable-suc n (row ∷ rows) (lt, once, done, h) = (omega arith, once, done, IsTable-suc n rows h)

  pub IsTable-delete_where :
      (n : ℕ) (q : KeyRow Scope Value → Bool) (rows : List (KeyRow Scope Value))
      → IsTable n rows
      → IsTable n (delete_where q rows)
  IsTable-delete_where n q [] h = tt
  IsTable-delete_where n q (row ∷ rows) (lt, once, done, h) =
      let kept = IsTable-delete_where n q rows h in
      let once' = find-delete_where row.scope row.key q rows once in
      keep (q row) kept (lt, once', done, kept)
    where
      keep :
          (b : Bool)
          → IsTable n (delete_where q rows)
          → IsTable n (row ∷ delete_where q rows)
          → IsTable n (if b then delete_where q rows else row ∷ delete_where q rows)
      keep true a c = a
      keep false a c = c

  -- Deleting the row found under a scope and key leaves none under them.
  pub find-delete_where_self :
      (n : ℕ) (s : Scope) (k : ℕ) (rows : List (KeyRow Scope Value)) (found : KeyRow Scope Value)
      → IsTable n rows
      → find (is_key scopes s k) rows ≡ some found
      → find (is_key scopes s k) (delete_where (λ row. row.id == found.id) rows) ≡ none
  find-delete_where_self n s k [] found h e = cc
  find-delete_where_self n s k (row ∷ rows) found (lt, once, done, h) e =
      elim (find-cons_cases s k row found rows e) [
        | inl (same, scope, key) ↦
            rw (← same, ==_refl row.id) (rw (← scope, ← key) (find-delete_where _ _ _ rows once))
        | inr (miss, later) ↦
            let ih = find-delete_where_self n s k rows found h later in
            elim (Bool-cases (row.id == found.id)) [
              | inl hit ↦ rw hit ih
              | inr other ↦ rw (other, miss) ih
            ]
      ]

  pub count_where-fresh :
      (n : ℕ) (rows : List (KeyRow Scope Value))
      → IsTable n rows
      → count_where (λ row. row.id == n) rows ≡ 0
  count_where-fresh n [] h = refl
  count_where-fresh n (row ∷ rows) (lt, once, done, h) = ground (arith, count_where-fresh n rows h)

  pub update_where-fresh :
      (n : ℕ) (f : KeyRow Scope Value → KeyRow Scope Value) (rows : List (KeyRow Scope Value))
      → IsTable n rows
      → update_where (λ row. row.id == n) f rows ≡ rows
  update_where-fresh n f [] h = refl
  update_where-fresh n f (row ∷ rows) (lt, once, done, h) =
      ground (arith, update_where-fresh n f rows h)

  pub find-IsAnswered :
      (n : ℕ) (s : Scope) (k : ℕ) (rows : List (KeyRow Scope Value)) (found : KeyRow Scope Value)
      → IsTable n rows
      → find (is_key scopes s k) rows ≡ some found
      → IsAnswered found
  find-IsAnswered n s k [] found h e = cc
  find-IsAnswered n s k (row ∷ rows) found (lt, once, done, h) e =
      elim (find-cons_cases s k row found rows e) [
        | inl (same, _, _) ↦ rw (← same) done
        | inr (_, later) ↦ find-IsAnswered n s k rows found h later
      ]
