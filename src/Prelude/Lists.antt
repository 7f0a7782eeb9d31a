-- ===== src/Prelude/Lists.antt =====
-- Lists measured and cut by native numbers, with Boolean searches that run.
use Prim.Native.Nat.{ℕ, zero, suc, ◌+◌}
use mathlib.Core.Path.{◌≡◌}
use mathlib.Core.Bool.{Bool, true, false}
use mathlib.Core.List.{List, [], ◌∷◌}
use mathlib.Core.Option.{Option, none, some}
use native.Mathlib.Omega.{arith}
use gatway_pagamento_escrito.Prelude.Tests.{if◌then◌else◌, if_elim}

module _ {ℓ} {A : Type ℓ} where
  abbrev pub length : List A → ℕ
  length [] = 0
  length (x ∷ xs) = suc (length xs)

  abbrev pub take : ℕ → List A → List A
  take zero xs = []
  take (suc n) [] = []
  take (suc n) (x ∷ xs) = x ∷ take n xs

  -- The first element that passes, as `find` and SQL's `LIMIT 1` return it.
  abbrev pub find : (A → Bool) → List A → Option A
  find p [] = none
  find p (x ∷ xs) = if p x then some x else find p xs

  -- The elements that pass, in order.
  abbrev pub select : (A → Bool) → List A → List A
  select p [] = []
  select p (x ∷ xs) = let rest = select p xs in if p x then x ∷ rest else rest

  -- `UPDATE … SET … WHERE`.
  abbrev pub update_where : (A → Bool) → (A → A) → List A → List A
  update_where p f [] = []
  update_where p f (x ∷ xs) = (if p x then f x else x) ∷ update_where p f xs

  -- The number of elements that pass.
  abbrev pub count_where : (A → Bool) → List A → ℕ
  count_where p [] = 0
  count_where p (x ∷ xs) = (if p x then 1 else 0) + count_where p xs

  -- `DELETE … WHERE`.
  abbrev pub delete_where : (A → Bool) → List A → List A
  delete_where p [] = []
  delete_where p (x ∷ xs) = let rest = delete_where p xs in if p x then rest else x ∷ rest

module _ {ℓ κ} {A : Type ℓ} (P : A → Type κ) where
  abbrev pub All : List A → Type κ
  All [] = Unit
  All (x ∷ xs) = P x × All xs

  pub All-find : (p : A → Bool) (xs : List A) {x : A} → All xs → find p xs ≡ some x → P x
  All-find p [] h e = cc
  All-find p (y ∷ xs) {x} h e = ground (arith, All-find p xs {x = x} h.1)

pub All-map {ℓ κ μ} :
    {A : Type ℓ} {P : A → Type κ} {Q : A → Type μ} (f : (x : A) → P x → Q x) (xs : List A)
    → All P xs
    → All Q xs
All-map f [] h = tt
All-map f (x ∷ xs) (p, h) = (f x p, All-map f xs h)

-- What holds of all elements, or of those that pass, holds of those that are selected or taken.
module _ {A : Type 0} (P : A → Type 0) where
  pub All-select : (p : A → Bool) (xs : List A) → All P xs → All P (select p xs)
  All-select p [] h = tt
  All-select p (x ∷ xs) (q, h) =
      if_elim (All P) (p x) (λ _. (q, All-select p xs h)) (λ _. All-select p xs h)

  pub All-passes :
      (p : A → Bool) → ((x : A) → p x ≡ true → P x) → (xs : List A) → All P (select p xs)
  All-passes p f [] = tt
  All-passes p f (x ∷ xs) =
      if_elim (All P) (p x) (λ e. (f x e, All-passes p f xs)) (λ _. All-passes p f xs)

  pub All-take : (n : ℕ) (xs : List A) → All P xs → All P (take n xs)
  All-take zero xs h = tt
  All-take (suc n) [] h = tt
  All-take (suc n) (x ∷ xs) (p, h) = (p, All-take n xs h)

pub find-passes {ℓ} :
    {A : Type ℓ} (p : A → Bool) (xs : List A) {x : A} → find p xs ≡ some x → p x ≡ true
find-passes p [] e = cc
find-passes p (y ∷ xs) {x} e = ground (arith, find-passes p xs {x = x})

module _ {ℓ} {A : Type ℓ} (p : A → Bool) where
  pub find-hit : (x : A) (xs : List A) {y : A} → p x ≡ true → find p (x ∷ xs) ≡ some y → x ≡ y
  find-hit x xs h e = ground arith

  pub find-miss :
      (x : A) (xs : List A) {y : A} → p x ≡ false → find p (x ∷ xs) ≡ some y → find p xs ≡ some y
  find-miss x xs h e = ground arith
