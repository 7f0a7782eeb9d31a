-- ===== src/Listing/Missed.antt =====
-- Rows of one millisecond: a cursor is cut to milliseconds and the query is not, so that a row can be
-- on no page.
use gatway_pagamento_escrito.Prelude.{
  All-map, if-cases, Option-cases, All-passes, All-take, arith, ℕ, zero, suc, ◌*◌, ◌/◌, ◌≤◌, ◌<◌,
  ◌≡◌, refl, sym, ap, ◌∙◌, subst, Bool, true, ◌&&◌, Option, none, some, List, [], ◌∷◌, ◌++◌, ltb,
  length, take, All, inl, inr,
}
use gatway_pagamento_escrito.Listing.{
  Cursor, Page, last_of, order_rows, is_after, list_rows, cursor_of, page, fetch, comes_first,
}
use gatway_pagamento_escrito.Listing.Order.{
  select-true, Ordered, DistinctIds, First, at, order-Ordered, select-Ordered,
}
use gatway_pagamento_escrito.Listing.Walk.{matching, shown, fetch-shown}

module _ {Row : Type 0} (created_us id : Row → ℕ) (matches : Row → Bool) (limit : ℕ)
    (rows : List Row) where
  -- The rows on the first so many pages from a cursor on
  unfoldable pub shown_on : ℕ → Option Cursor → List Row
  shown_on zero before = []
  shown_on (suc n) before =
      let p = fetch created_us id matches limit rows before in
      elim p.next_cursor [ none ↦ p.items | some c ↦ p.items ++ shown_on n (some c) ]

  -- A row on the page of a cursor was not created after the start of the cursor's millisecond.
  fetch-old :
      (c : Cursor)
      → All
          (λ row. created_us row ≤ 1000 * c.created_at)
          (fetch created_us id matches limit rows (some c)).items
  unfolding page list_rows
  fetch-old c =
      let Old : Row → Type 0 = λ row. created_us row ≤ 1000 * c.created_at in
      All-take Old limit _ (
        All-take Old (suc limit) _ (
          All-passes Old (λ row. matches row && is_after created_us id c row) behind
            (order_rows created_us id rows)))
    where
      behind :
          (row : Row)
          → (matches row && is_after created_us id c row) ≡ true
          → created_us row ≤ 1000 * c.created_at
      behind row e = ground arith

  last_of-All : (P : Row → Type 0) (xs : List Row) {x : Row} → All P xs → last_of xs ≡ some x → P x
  last_of-All P [] h e = absurd (cc)
  last_of-All P (y ∷ []) (p, h) e = subst P (some_injective e) p
    where
      some_injective : {a b : Row} → some a ≡ some b → a ≡ b
      some_injective e = cc
  last_of-All P (y ∷ z ∷ zs) (p, h) e = last_of-All P (z ∷ zs) h e

  append-All : (P : Row → Type 0) (xs ys : List Row) → All P xs → All P ys → All P (xs ++ ys)
  append-All P [] ys h k = k
  append-All P (x ∷ xs) ys (p, h) k = (p, append-All P xs ys h k)

  cursor_of-old :
      (bound : ℕ) (o : Option Row) {c : Cursor}
      → ((row : Row) → o ≡ some row → created_us row ≤ bound)
      → cursor_of created_us id o ≡ some c
      → 1000 * c.created_at ≤ bound
  cursor_of-old bound none old e = absurd (cc)
  cursor_of-old bound (some row) old e = start_of (created_us row) (old row refl) e
    where
      start_of :
          (us : ℕ) {c : Cursor} {key : ℕ}
          → us ≤ bound
          → some (record { created_at = us / 1000; id = key }) ≡ some c
          → 1000 * c.created_at ≤ bound
      start_of us h e = ground arith

  -- The cursor behind a page of old rows is old.
  page-old :
      (bound : ℕ) (found : List Row) {c : Cursor}
      → All (λ row. created_us row ≤ bound) (page created_us id found limit).items
      → (page created_us id found limit).next_cursor ≡ some c
      → 1000 * c.created_at ≤ bound
  unfolding page
  page-old bound found {c} h e = elim (if-cases (ltb limit (length found)) _ _ e) [
    | inl (_, e) ↦
        cursor_of-old bound (last_of (take limit found))
          (λ row last. last_of-All (λ row. created_us row ≤ bound) (take limit found) h last) e
    | inr (_, e) ↦ absurd (cc)
  ]

  abbrev with_next : Page Row → (Cursor → List Row) → List Row
  with_next p next = elim p.next_cursor [ none ↦ p.items | some c ↦ p.items ++ next c ]

  with_next-All :
      (P : Row → Type 0) (p : Page Row) (next : Cursor → List Row)
      → All P p.items
      → ((c : Cursor) → p.next_cursor ≡ some c → All P (next c))
      → All P (with_next p next)
  with_next-All P p next h k = elim (Option-cases p.next_cursor) [
    | inl last ↦ subst (λ o. All P (with_next (record p { next_cursor = o }) next)) (sym last) h
    | inr (c, more) ↦
        subst (λ o. All P (with_next (record p { next_cursor = o }) next)) (sym more)
          (append-All P p.items (next c) h (k c more))
  ]

  shown_on-old :
      (n bound : ℕ) (c : Cursor)
      → 1000 * c.created_at ≤ bound
      → All (λ row. created_us row ≤ bound) (shown_on n (some c))
  unfolding shown_on page
  shown_on-old zero bound c h = tt
  shown_on-old (suc n) bound c h =
      let old = All-map {A = Row} older _ (fetch-old c) in
      with_next-All (λ row. created_us row ≤ bound)
        (fetch created_us id matches limit rows (some c)) (λ c'. shown_on n (some c')) old
        (λ c' more. shown_on-old n bound c' (page-old bound _ old more))
    where
      older : (row : Row) → created_us row ≤ 1000 * c.created_at → created_us row ≤ bound
      older row le = omega (arith, h)

-- The first page, up to the row before the missed one
module _ {Row : Type 0} (created_us id : Row → ℕ) where
  missed-All :
      (P : Row → Type 0) (front : List Row) (edge missed : Row) (rest : List Row)
      → All P (front ++ edge ∷ missed ∷ rest)
      → P missed
  missed-All P [] edge missed rest (_, (p, _)) = p
  missed-All P (x ∷ front) edge missed rest (_, h) = missed-All P front edge missed rest h

  not-First : (a b : Row) → First created_us id a b → ¬ (a ≡ b)
  not-First a b first e = itself b (ap (λ x. comes_first created_us id x b) (sym e) ∙ first)
    where
      itself : (b : Row) → ¬ (comes_first created_us id b b ≡ true)
      itself b h = ground arith

  front-other :
      (front : List Row) (edge missed : Row) (rest : List Row)
      → Ordered created_us id (front ++ edge ∷ missed ∷ rest)
      → All (λ row. ¬ (row ≡ missed)) (front ++ edge ∷ [])
  front-other [] edge missed rest ((first, _), _) = (not-First edge missed first, tt)
  front-other (x ∷ front) edge missed rest (h, o) = (
    not-First x missed (missed-All (First created_us id x) front edge missed rest h),
    front-other front edge missed rest o,
  )

take-front :
    {A : Type 0} (front : List A) (edge : A) (more : List A)
    → take (suc (length front)) (front ++ edge ∷ more) ≡ front ++ edge ∷ []
take-front [] edge more = refl
take-front (x ∷ front) edge more = ap (λ l. x ∷ l) (take-front front edge more)

last_of-end : {A : Type 0} (front : List A) (edge : A) → last_of (front ++ edge ∷ []) ≡ some edge
last_of-end [] edge = refl
last_of-end (x ∷ []) edge = refl
last_of-end (x ∷ y ∷ front) edge = last_of-end (y ∷ front) edge

longer :
    {A : Type 0} (front : List A) (edge missed : A) (rest : List A)
    → ltb (suc (length front)) (length (front ++ edge ∷ missed ∷ rest)) ≡ true
longer [] edge missed rest = ground arith
longer (x ∷ front) edge missed rest = ground (arith, longer front edge missed rest)

module _ {Row : Type 0} (created_us id : Row → ℕ) (matches : Row → Bool) (rows : List Row)
    (front : List Row) (edge missed : Row) (rest : List Row)
    (split : matching created_us id matches rows ≡ front ++ edge ∷ missed ∷ rest) where
  abbrev first_page : Page Row
  first_page = fetch created_us id matches (suc (length front)) rows none

  first_page-shown :
      first_page ≡ shown created_us id matches (length front) rows (front ++ edge ∷ missed ∷ rest)
  first_page-shown =
      fetch-shown created_us id matches (length front) rows none _
        (select-true (matching created_us id matches rows) ∙ split)

  first_page-items : first_page.items ≡ front ++ edge ∷ []
  first_page-items =
      ap (λ (p : Page Row). p.items) first_page-shown ∙ take-front front edge (missed ∷ rest)

  first_page-next_cursor : first_page.next_cursor ≡ some (at created_us id edge)
  first_page-next_cursor =
      ap (λ (p : Page Row). p.next_cursor) first_page-shown
      ∙ rw (longer front edge missed rest) (
          ap (λ l. cursor_of created_us id (last_of l)) (take-front front edge (missed ∷ rest))
          ∙ ap (cursor_of created_us id) (last_of-end front edge))

same_start :
    (c c' : Cursor)
    → ◌≡◌ {A = Option Cursor} (some c) (some c')
    → 1000 * c.created_at ≤ 1000 * c'.created_at
same_start c c' e = ground arith

-- A row that comes just behind the last row of the first page, and that was created in the same
-- millisecond, after its start, is on none of the pages that a client gets who follows the cursors,
-- however many it asks for, if ids are distinct: `front` and `edge` are the first page, and `missed`
-- matches like they do.
pub shown_on-misses :
    {Row : Type 0} (created_us id : Row → ℕ) (matches : Row → Bool) (rows : List Row)
    (front : List Row) (edge missed : Row) (rest : List Row) (pages : ℕ)
    → DistinctIds created_us id rows
    → matching created_us id matches rows ≡ front ++ edge ∷ missed ∷ rest
    → 1000 * (created_us edge / 1000) < created_us missed
    → All
        (λ row. ¬ (row ≡ missed))
        (shown_on created_us id matches (suc (length front)) rows pages none)
unfolding shown_on
shown_on-misses created_us id matches rows front edge missed rest zero d split late = tt
shown_on-misses {Row} created_us id matches rows front edge missed rest (suc pages) d split late =
    let Other : Row → Type 0 = λ row. ¬ (row ≡ missed) in
    let ordered =
      subst (Ordered created_us id) split
        (select-Ordered created_us id matches _ (order-Ordered created_us id rows d)) in
    with_next-All created_us id matches (suc (length front)) rows Other
      (first_page created_us id matches rows front edge missed rest split)
      (λ c. shown_on created_us id matches (suc (length front)) rows pages (some c))
      (subst (All Other)
        (sym (first_page-items created_us id matches rows front edge missed rest split))
        (front-other created_us id front edge missed rest ordered))
      (λ c more. All-map {A = Row} older _ (
        shown_on-old created_us id matches (suc (length front)) rows pages
          (1000 * (created_us edge / 1000)) c
          (start_of c (
            sym more
            ∙ first_page-next_cursor created_us id matches rows front edge missed rest split))))
  where
    older : (row : Row) → created_us row ≤ 1000 * (created_us edge / 1000) → ¬ (row ≡ missed)
    older row le e = let same = ap created_us e in absurd (omega (arith, same, le, late))

    start_of :
        (c : Cursor)
        → some c ≡ some (at created_us id edge)
        → 1000 * c.created_at ≤ 1000 * (created_us edge / 1000)
    start_of c e = same_start c (at created_us id edge) e
