-- ===== src/Listing/Walk.antt =====
-- A client that follows the cursors sees every row once, in order, if the times are whole
-- milliseconds.
use gatway_pagamento_escrito.Prelude.{
  All-select, arith, ℕ, zero, suc, ◌+◌, ◌≤◌, ◌<◌, ◌≡◌, refl, sym, ap, ◌∙◌, subst, Bool, Option,
  none, some, List, [], ◌∷◌, ◌++◌, ltb, if◌then◌else◌, length, take, select, All, inl, inr,
  Bool-cases,
}
use gatway_pagamento_escrito.Listing.{
  Cursor, Page, last_of, order_rows, is_after, from_cursor, list_rows, cursor_of, page, fetch,
  prepend, walk,
}
use gatway_pagamento_escrito.Listing.Order.{
  drop, take-take, length-take-suc, take-all, All-middle, ++-assoc, select-and, select-true, cut,
  IsWhole, Ordered, at, after-edge, DistinctIds, All-order, order-Ordered, select-Ordered,
}

-- The rows that the query would find without a limit
abbrev pub matching : {Row : Type 0} (created_us id : Row → ℕ) → (Row → Bool) → List Row → List Row
matching created_us id matches rows = select matches (order_rows created_us id rows)

module _ {Row : Type 0} (created_us id : Row → ℕ) (matches : Row → Bool) (limit : ℕ)
    (rows : List Row) where
  abbrev pub listed : List Row
  listed = matching created_us id matches rows

  -- The page that shows the first rows of what is left
  abbrev pub shown : List Row → Page Row
  shown left = record {
    items = take (suc limit) left;
    next_cursor =
        if ltb (suc limit) (length left)
        then cursor_of created_us id (last_of (take (suc limit) left))
        else none;
  }

  pub fetch-shown :
      (before : Option Cursor) (left : List Row)
      → select (from_cursor created_us id before) listed ≡ left
      → fetch created_us id matches (suc limit) rows before ≡ shown left
  unfolding page list_rows
  fetch-shown before left e =
      let found : list_rows created_us id matches (suc limit) before rows
          ≡ take (suc (suc limit)) left =
        ap (take (suc (suc limit))) (
          select-and matches (from_cursor created_us id before) (order_rows created_us id rows)
          ∙ e) in
      ap (λ rows. page created_us id rows (suc limit)) found
      ∙ rw (take-take (suc limit) left, length-take-suc (suc limit) left) refl

  abbrev followed : ℕ → Page Row → Option (List Row)
  followed n p = elim p.next_cursor [
    | none ↦ some p.items
    | some c ↦
        prepend created_us id p.items (walk created_us id matches (suc limit) rows n (some c))
  ]

  abbrev rest_of : List Row → List Row
  rest_of left = drop (suc limit) left

  walk-left :
      (n : ℕ) (before : Option Cursor) (front left : List Row)
      → Ordered created_us id listed
      → All (IsWhole created_us id) listed
      → listed ≡ front ++ left
      → select (from_cursor created_us id before) listed ≡ left
      → length left < n
      → walk created_us id matches (suc limit) rows n before ≡ some left
  unfolding walk
  walk-left zero before front left o w split e lt = ground arith
  walk-left (suc n) before front left o w split e lt =
      ap (followed n) (fetch-shown before left e)
      ∙ elim (Bool-cases (ltb (suc limit) (length left))) [
        | inl more ↦
            let c = cut limit left more in
            let ahead = front ++ c.front in
            let middle : listed ≡ ahead ++ c.edge ∷ rest_of left =
              split ∙ ap (λ l. front ++ l) c.whole ∙ sym (++-assoc front c.front _) in
            let whole : IsWhole created_us id c.edge =
              All-middle (IsWhole created_us id) ahead c.edge (rest_of left)
                (subst (All (IsWhole created_us id)) middle w) in
            let rest =
              walk-left n (some (at created_us id c.edge)) (ahead ++ c.edge ∷ []) (rest_of left) o w
                (middle ∙ sym (++-assoc ahead (c.edge ∷ []) (rest_of left)))
                (ap (select (is_after created_us id (at created_us id c.edge))) middle
                  ∙ after-edge created_us id ahead c.edge (rest_of left) whole
                      (subst (Ordered created_us id) middle o))
                (omega (arith, c.shorter)) in
            rw (more, c.last, rest)
              (ap (λ l. some l)
                (ap (λ l. l ++ rest_of left) c.page
                  ∙ ++-assoc c.front (c.edge ∷ []) (rest_of left)
                  ∙ sym c.whole))
        | inr last ↦ rw last (ap (λ l. some l) (take-all (suc limit) left last))
      ]

-- A client that follows the cursors of any list, from the first page on, gets each row that matches
-- once, in descending order of creation, in finitely many pages, if ids are distinct, a page may hold
-- a row and all times are whole milliseconds.
pub walk-matching :
    {Row : Type 0} (created_us id : Row → ℕ) (matches : Row → Bool) (limit : ℕ) (rows : List Row)
    → DistinctIds created_us id rows
    → All (IsWhole created_us id) rows
    → 1 ≤ limit
    → walk created_us id matches limit rows (length (matching created_us id matches rows) + 1) none
      ≡ some (matching created_us id matches rows)
walk-matching created_us id matches zero rows d w l = ground arith
walk-matching created_us id matches (suc limit) rows d w l =
    let left = matching created_us id matches rows in
    walk-left created_us id matches limit rows (length left + 1) none [] left
      (select-Ordered created_us id matches _ (order-Ordered created_us id rows d))
      (All-select (IsWhole created_us id) matches _
        (All-order created_us id (IsWhole created_us id) rows w))
      refl (select-true left) (omega arith)
