-- ===== src/Listing/Order.antt =====
-- Lists cut into pages, the order of a query, and what a cursor selects.
use gatway_pagamento_escrito.Prelude.{
  arith, ℕ, zero, suc, ◌*◌, ◌/◌, ◌<◌, ◌≡◌, refl, sym, ap, ◌∙◌, Bool, true, false, ◌&&◌, some, List,
  [], ◌∷◌, ◌++◌, ltb, ◌==◌, length, take, select, All, All-map, All-select, if_elim, inl, inr,
  Bool-cases,
}
use gatway_pagamento_escrito.Listing.{Cursor, last_of, comes_first, place, order_rows, is_after}

abbrev pub drop : {A : Type 0} → ℕ → List A → List A
drop zero xs = xs
drop (suc n) [] = []
drop (suc n) (x ∷ xs) = drop n xs

ltb-suc : (a b : ℕ) → ltb (suc a) (suc b) ≡ ltb a b
ltb-suc a b = ground arith

module _ {A : Type 0} where
  pub take-take : (n : ℕ) (xs : List A) → take n (take (suc n) xs) ≡ take n xs
  take-take zero xs = refl
  take-take (suc n) [] = refl
  take-take (suc n) (x ∷ xs) = ap (λ ys. x ∷ ys) (take-take n xs)

  pub length-take-suc : (n : ℕ) (xs : List A) → ltb n (length (take (suc n) xs)) ≡ ltb n (length xs)
  length-take-suc zero [] = refl
  length-take-suc zero (x ∷ xs) = ground arith
  length-take-suc (suc n) [] = refl
  length-take-suc (suc n) (x ∷ xs) =
      ltb-suc n (length (take (suc n) xs)) ∙ length-take-suc n xs ∙ sym (ltb-suc n (length xs))

  pub take-all : (n : ℕ) (xs : List A) → ltb n (length xs) ≡ false → take n xs ≡ xs
  take-all zero [] e = refl
  take-all zero (x ∷ xs) e = ground arith
  take-all (suc n) [] e = refl
  take-all (suc n) (x ∷ xs) e = ap (λ ys. x ∷ ys) (take-all n xs (sym (ltb-suc n (length xs)) ∙ e))

  -- A list longer than a page: the page ends in a row, and the rest follows.
  pub record Cut (n : ℕ) (xs : List A) : Type 0 where
    pub front : List A
    pub edge : A
    pub page : take n xs ≡ front ++ edge ∷ []
    pub whole : xs ≡ front ++ edge ∷ drop n xs
    pub last : last_of (take n xs) ≡ some edge
    pub shorter : length (drop n xs) < length xs

  pub cut : (n : ℕ) (xs : List A) → ltb (suc n) (length xs) ≡ true → Cut (suc n) xs
  cut n [] e = ground arith
  cut zero (x ∷ xs) e = record {
    front = [];
    edge = x;
    page = refl;
    whole = refl;
    last = refl;
    shorter = omega arith;
  }
  cut (suc n) (x ∷ []) e = ground arith
  cut (suc n) (x ∷ y ∷ xs) e =
      let c = cut n (y ∷ xs) (sym (ltb-suc (suc n) (suc (length xs))) ∙ e) in
      record {
        front = x ∷ c.front;
        edge = c.edge;
        page = ap (λ ys. x ∷ ys) c.page;
        whole = ap (λ ys. x ∷ ys) c.whole;
        last = c.last;
        shorter = omega (arith, c.shorter);
      }

  pub All-middle :
      (P : A → Type 0) (front : List A) (x : A) (rest : List A) → All P (front ++ x ∷ rest) → P x
  All-middle P [] x rest (p, _) = p
  All-middle P (y ∷ front) x rest (_, h) = All-middle P front x rest h

  pub ++-assoc : (xs ys zs : List A) → (xs ++ ys) ++ zs ≡ xs ++ (ys ++ zs)
  ++-assoc [] ys zs = refl
  ++-assoc (x ∷ xs) ys zs = ap (λ rest. x ∷ rest) (++-assoc xs ys zs)

  pub select-and :
      (p q : A → Bool) (xs : List A) → select (λ x. p x && q x) xs ≡ select q (select p xs)
  select-and p q [] = refl
  select-and p q (x ∷ xs) = ground (arith, select-and p q xs)

  select-All : (p : A → Bool) (xs : List A) → All (λ x. p x ≡ true) xs → select p xs ≡ xs
  select-All p [] h = refl
  select-All p (x ∷ xs) (e, h) = rw e (ap (λ ys. x ∷ ys) (select-All p xs h))

  pub select-true : (xs : List A) → select (λ _. true) xs ≡ xs
  select-true [] = refl
  select-true (x ∷ xs) = ap (λ ys. x ∷ ys) (select-true xs)

module _ {Row : Type 0} (created_us id : Row → ℕ) where
  -- A time that a `Date` holds
  abbrev pub IsWhole : Row → Type 0
  IsWhole row = created_us row ≡ 1000 * (created_us row / 1000)

  abbrev pub First : Row → Row → Type 0
  First a b = comes_first created_us id a b ≡ true

  -- In order, no two rows with the same time and id
  abbrev pub Ordered : List Row → Type 0
  Ordered [] = Unit
  Ordered (x ∷ xs) = All (First x) xs × Ordered xs

  abbrev pub at : Row → Cursor
  at row = record { created_at = created_us row / 1000; id = id row }

  after-First : (a b : Row) → IsWhole a → First a b → is_after created_us id (at a) b ≡ true
  after-First a b w h = ground arith

  not_after_self : (a : Row) → IsWhole a → is_after created_us id (at a) a ≡ false
  not_after_self a w = ground arith

  not_after_later : (a b : Row) → IsWhole b → First a b → is_after created_us id (at b) a ≡ false
  not_after_later a b w h = ground arith

  -- Behind a row of an ordered list, the cursor selects the rest.
  pub after-edge :
      (front : List Row) (edge : Row) (rest : List Row)
      → IsWhole edge
      → Ordered (front ++ edge ∷ rest)
      → select (is_after created_us id (at edge)) (front ++ edge ∷ rest) ≡ rest
  after-edge [] edge rest w (h, _) = rw (not_after_self edge w) (
      select-All (is_after created_us id (at edge)) rest
        (All-map (λ row p. after-First edge row w p) rest h))
  after-edge (x ∷ front) edge rest w (h, o) =
      rw (not_after_later x edge w (All-middle (First x) front edge rest h))
        (after-edge front edge rest w o)

  First-trans : (a b c : Row) → First a b → First b c → First a c
  First-trans a b c h h' = ground arith

  abbrev pub DistinctIds : List Row → Type 0
  DistinctIds [] = Unit
  DistinctIds (x ∷ xs) = All (λ y. (id x == id y) ≡ false) xs × DistinctIds xs

  All-place :
      (P : Row → Type 0) (x : Row) (ys : List Row)
      → P x
      → All P ys
      → All P (place created_us id x ys)
  All-place P x [] p h = (p, tt)
  All-place P x (y ∷ ys) p (q, h) =
      if_elim (All P) (comes_first created_us id x y) (λ _. (p, (q, h)))
        (λ _. (q, All-place P x ys p h))

  pub All-order :
      (P : Row → Type 0) (xs : List Row) → All P xs → All P (order_rows created_us id xs)
  unfolding order_rows
  All-order P [] h = tt
  All-order P (x ∷ xs) (p, h) = All-place P x (order_rows created_us id xs) p (All-order P xs h)

  other-First :
      (a b : Row) → (id a == id b) ≡ false → comes_first created_us id a b ≡ false → First b a
  other-First a b e h = ground arith

  place-Ordered :
      (x : Row) (ys : List Row)
      → All (λ y. (id x == id y) ≡ false) ys
      → Ordered ys
      → Ordered (place created_us id x ys)
  place-Ordered x [] d o = (tt, tt)
  place-Ordered x (y ∷ ys) (e, d) (h, o) = elim (Bool-cases (comes_first created_us id x y)) [
    | inl first ↦ rw first ((first, All-map (λ z p. First-trans x y z first p) ys h), (h, o))
    | inr second ↦
        rw second (All-place (First y) x ys (other-First x y e second) h, place-Ordered x ys d o)
  ]

  pub order-Ordered : (xs : List Row) → DistinctIds xs → Ordered (order_rows created_us id xs)
  unfolding order_rows
  order-Ordered [] d = tt
  order-Ordered (x ∷ xs) (e, d) =
      place-Ordered x (order_rows created_us id xs) (All-order (λ y. (id x == id y) ≡ false) xs e)
        (order-Ordered xs d)

  pub select-Ordered : (p : Row → Bool) (xs : List Row) → Ordered xs → Ordered (select p xs)
  select-Ordered p [] o = tt
  select-Ordered p (x ∷ xs) (h, o) =
      if_elim Ordered (p x) (λ _. (All-select (First x) p xs h, select-Ordered p xs o))
        (λ _. select-Ordered p xs o)
