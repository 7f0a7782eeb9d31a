-- ===== src/Listing.antt =====
-- The lists of the platform services: a query in descending order of creation from a cursor on, a
-- page of what it found and the cursor of the next page, as `page` of
-- apps/api/src/modules/billing/billing.service.ts and the `list` methods of the other services have
-- it. PostgreSQL keeps the time of a row in microseconds; a `Date`, and with it a cursor, holds
-- milliseconds.
mod Order
pub mod Walk
mod Missed
pub mod Filters
pub mod Services
mod Statuses
pub mod Cursors
mod Tests
use gatway_pagamento_escrito.Prelude.{
  ℕ, zero, suc, ◌+◌, ◌*◌, ◌/◌, Bool, true, false, ◌&&◌, ◌||◌, Option, none, some, List, [], ◌∷◌,
  ◌++◌, ltb, ◌==◌, if◌then◌else◌, length, take, select,
}

pub record Cursor : Type 0 where
  pub created_at : ℕ
  pub id : ℕ

pub record Page (Item : Type 0) : Type 0 where
  pub items : List Item
  pub next_cursor : Option Cursor

-- `page.at(-1)`
abbrev pub last_of : {A : Type 0} → List A → Option A
last_of [] = none
last_of (x ∷ []) = some x
last_of (x ∷ y ∷ ys) = last_of (y ∷ ys)

module _ {Row : Type 0} (created_us id : Row → ℕ) where
  -- `orderBy("created_at", "desc").orderBy("id", "desc")`: `a` comes before `b`.
  abbrev pub comes_first : Row → Row → Bool
  comes_first a b =
      ltb (created_us b) (created_us a) || (created_us b == created_us a && ltb (id b) (id a))

  abbrev pub place : Row → List Row → List Row
  place x [] = x ∷ []
  place x (y ∷ ys) = let rest = place x ys in if comes_first x y then x ∷ y ∷ ys else y ∷ rest

  unfoldable pub order_rows : List Row → List Row
  order_rows [] = []
  order_rows (x ∷ xs) = place x (order_rows xs)

  -- The condition that a cursor adds to the query
  abbrev pub is_after : Cursor → Row → Bool
  is_after c row =
      ltb (created_us row) (1000 * c.created_at)
      || (created_us row == 1000 * c.created_at && ltb (id row) c.id)

  abbrev pub from_cursor : Option Cursor → Row → Bool
  from_cursor none row = true
  from_cursor (some c) row = is_after c row

  -- The query of a repository, with one row more than the page; `WHERE` keeps the order.
  unfoldable pub list_rows : (Row → Bool) → ℕ → Option Cursor → List Row → List Row
  unfolding order_rows
  list_rows matches limit before rows =
      take (suc limit) (select (λ row. matches row && from_cursor before row) (order_rows rows))

  -- `{ createdAt: last.created_at, id: last.id }`
  abbrev pub cursor_of : Option Row → Option Cursor
  cursor_of none = none
  cursor_of (some row) = some (record { created_at = created_us row / 1000; id = id row })

  -- `page`, before the rows are mapped
  unfoldable pub page : List Row → ℕ → Page Row
  page rows limit = record {
    items = take limit rows;
    next_cursor = if ltb limit (length rows) then cursor_of (last_of (take limit rows)) else none;
  }

  abbrev pub fetch : (Row → Bool) → ℕ → List Row → Option Cursor → Page Row
  fetch matches limit rows before = page (list_rows matches limit before rows) limit

  abbrev pub prepend : List Row → Option (List Row) → Option (List Row)
  prepend xs none = none
  prepend xs (some ys) = some (xs ++ ys)

  -- A client that follows the cursors, for at most so many pages
  unfoldable pub walk : (Row → Bool) → ℕ → List Row → ℕ → Option Cursor → Option (List Row)
  unfolding page list_rows
  walk matches limit rows zero before = none
  walk matches limit rows (suc n) before =
      let p = fetch matches limit rows before in
      elim p.next_cursor [
        | none ↦ some p.items
        | some c ↦ prepend p.items (walk matches limit rows n (some c))
      ]
