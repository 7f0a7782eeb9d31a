-- ===== src/Plans/Timeline.antt =====
-- The prices of a plan in one currency and interval follow each other without overlap.
use gatway_pagamento_escrito.Prelude.{
  arith, ℕ, ◌≡◌, refl, sym, ap, subst, ◌≤◌, Bool, true, false, ◌&&◌, Option, none, some, List, [],
  ◌∷◌, leb, is_some, ◌⊎◌, inl, inr, Bool-cases, find, select, update_where, count_where, All,
  All-select, All-passes,
}
use gatway_pagamento_escrito.Failure.{
  unique_violation, check_violation, ok, if-err-ok, ok-injective,
}
use gatway_pagamento_escrito.Admin.{PlanPriceRow, Tables}
use gatway_pagamento_escrito.Tenants.Repository.{is_effective, ends_after}
use gatway_pagamento_escrito.Plans.Repository.{
  Series, in_series, is_open_price, closed_at, bad_end, or_else, price_row, starts_at, add_price,
}

-- A period that began before it ended, and ended by the given time
abbrev pub ended_by : ℕ → ℕ → Option ℕ → Bool
ended_by from start none = false
ended_by from start (some time) = leb start time && leb time from

-- Newest first: each price ended by the start of the one before it in the list.
abbrev pub IsOlder : ℕ → List PlanPriceRow → Type 0
IsOlder from [] = Unit
IsOlder from (p ∷ ps) =
    (ended_by from p.effective_from p.effective_to ≡ true) × IsOlder p.effective_from ps

-- The newest price is open.
abbrev pub IsChain : List PlanPriceRow → Type 0
IsChain [] = Unit
IsChain (p ∷ ps) = (p.effective_to ≡ none) × IsOlder p.effective_from ps

abbrev pub IsPriced : List PlanPriceRow → Type 0
IsPriced rows = (s : Series) → IsChain (select (in_series s) rows)

-- How many prices of a series are effective at a time
abbrev pub effective_count : Series → ℕ → List PlanPriceRow → ℕ
effective_count s time rows = count_where (is_effective time) (select (in_series s) rows)

ended_before :
    (from time start : ℕ) (end : Option ℕ)
    → ended_by from start end ≡ true
    → from ≤ time
    → (ends_after end time ≡ false) × (start ≤ time)
ended_before from time start end e l = ground arith

older-zero :
    (from time : ℕ) (ps : List PlanPriceRow)
    → IsOlder from ps
    → from ≤ time
    → count_where (is_effective time) ps ≡ 0
older-zero from time [] h l = refl
older-zero from time (p ∷ ps) (e, h) l =
    let (ended, start) = ended_before from time p.effective_from p.effective_to e l in
    let rest = older-zero p.effective_from time ps h start in ground arith

older-count :
    (from time : ℕ) (ps : List PlanPriceRow)
    → IsOlder from ps
    → count_where (is_effective time) ps ≤ 1
older-count from time [] h = omega arith
older-count from time (p ∷ ps) (e, h) = elim (Bool-cases (leb p.effective_from time)) [
  | inl began ↦
      let rest = older-zero p.effective_from time ps h (leb→le p.effective_from time began) in
      ground arith
  | inr later ↦ let rest = older-count p.effective_from time ps h in ground arith
]
  where
    leb→le : (a b : ℕ) → leb a b ≡ true → a ≤ b
    leb→le a b e = ground arith

chain-count :
    (time : ℕ) (ps : List PlanPriceRow) → IsChain ps → count_where (is_effective time) ps ≤ 1
chain-count time [] h = omega arith
chain-count time (p ∷ ps) (e, h) = elim (Bool-cases (leb p.effective_from time)) [
  | inl began ↦
      let rest = older-zero p.effective_from time ps h (leb→le p.effective_from time began) in
      ground arith
  | inr later ↦ let rest = older-count p.effective_from time ps h in ground arith
]
  where
    leb→le : (a b : ℕ) → leb a b ≡ true → a ≤ b
    leb→le a b e = ground arith

module _ {A : Type 0} (p q : A → Bool) (g : A → A) where
  select-update_where :
      ((x : A) → q (g x) ≡ q x)
      → (xs : List A) → select q (update_where p g xs) ≡ update_where p g (select q xs)
  select-update_where keep [] = refl
  select-update_where keep (x ∷ xs) =
      let rest = select-update_where keep xs in
      elim (Bool-cases (p x)) [
        | inl hit ↦ elim (Bool-cases (q x)) [
          | inl in_q ↦ rw (hit, keep x, in_q, hit, rest) refl
          | inr out ↦ rw (hit, keep x, out, rest) refl
        ]
        | inr miss ↦ elim (Bool-cases (q x)) [
          | inl in_q ↦ rw (miss, in_q, miss, rest) refl
          | inr out ↦ rw (miss, out, rest) refl
        ]
      ]

  update_where-miss : (xs : List A) → All (λ x. p x ≡ false) xs → update_where p g xs ≡ xs
  update_where-miss [] h = refl
  update_where-miss (x ∷ xs) (e, h) = rw (e, update_where-miss xs h) refl

  find-none-All : (xs : List A) → is_some (find p xs) ≡ false → All (λ x. p x ≡ false) xs
  find-none-All [] e = tt
  find-none-All (x ∷ xs) e = elim (Bool-cases (p x)) [
    | inl hit ↦ absurd (true≢false (rw hit at e))
    | inr miss ↦ (miss, find-none-All xs (rw miss at e))
  ]
    where
      true≢false : ¬ (true ≡ false)
      true≢false e = cc

closed-miss :
    (s : Series) (from : ℕ) (ps : List PlanPriceRow)
    → IsOlder from ps
    → All (λ p. is_open_price s p ≡ false) ps
closed-miss s from [] h = tt
closed-miss s from (p ∷ ps) (e, h) = (closed s p from e, closed-miss s p.effective_from ps h)
  where
    closed :
        (s : Series) (p : PlanPriceRow) (from : ℕ)
        → ended_by from p.effective_from p.effective_to ≡ true
        → is_open_price s p ≡ false
    closed s p from e = ground arith

-- Another series than the one of a new price
apart :
    (s s' : Series) (amount id from until : ℕ) (p : PlanPriceRow)
    → in_series s' (price_row s amount id from) ≡ false
    → in_series s' p ≡ true
    → is_open_price s p ≡ false
apart s s' amount id from until p e h = ground arith

-- The same series
joined :
    (s s' : Series) (amount id from until : ℕ) (p : PlanPriceRow)
    → in_series s' (price_row s amount id from) ≡ true
    → in_series s' p ≡ true
    → p.effective_to ≡ none
    → (is_open_price s p && bad_end until p) ≡ false
    → (is_open_price s p ≡ true) × (p.effective_from ≤ until)
joined s s' amount id from until p e h o good = ground arith

-- The chain of the series of a new price
extended :
    (s s' : Series) (amount id from until : ℕ) (ps : List PlanPriceRow)
    → in_series s' (price_row s amount id from) ≡ true
    → until ≤ from
    → All (λ p. in_series s' p ≡ true) ps
    → All (λ p. (is_open_price s p && bad_end until p) ≡ false) ps
    → IsChain ps
    → IsChain (price_row s amount id from ∷ update_where (is_open_price s) (closed_at until) ps)
extended s s' amount id from until [] e l h good c = (refl, tt)
extended s s' amount id from until (p ∷ ps) e l (in_s, _) (good, _) (o, older) =
    let (hit, start) = joined s s' amount id from until p e in_s o good in
    rw
      (
        hit,
        update_where-miss (is_open_price s) (in_series s') (closed_at until) ps
            (closed-miss s p.effective_from ps older),
      )
      (refl, (fitting p.effective_from until from start l, older))
  where
    fitting : (a b c : ℕ) → a ≤ b → b ≤ c → (leb a b && leb b c) ≡ true
    fitting a b c l l' = ground arith

add_price-prices :
    (s : Series) (amount : ℕ) (effective_from : Option ℕ) (id started now : ℕ) (t t' : Tables)
    {row : PlanPriceRow}
    → add_price s amount effective_from id started now t ≡ ok (row, t')
    → All (λ p. (is_open_price s p && bad_end (or_else effective_from now) p) ≡ false) t.plan_prices
      × (t'.plan_prices
          ≡ price_row s amount id (or_else effective_from started)
            ∷ update_where (is_open_price s) (closed_at (or_else effective_from now)) t.plan_prices)
unfolding add_price
add_price-prices s amount effective_from id started now t t' e =
    let bad = λ (p : PlanPriceRow). is_open_price s p && bad_end (or_else effective_from now) p in
    let (good, e) = if-err-ok (is_some (find bad t.plan_prices)) check_violation _ e in
    let (fresh, e) =
      if-err-ok (is_some (find (starts_at s (or_else effective_from started)) t.plan_prices))
        unique_violation _ e in
    (
      find-none-All bad bad (λ p. p) t.plan_prices good,
      sym (ap (λ x. x.plan_prices) (ok-injective e).1),
    )

-- Adding a price keeps the prices of every plan, currency and interval one after the other, the last
-- one open, if the new one starts no earlier than the old one ends (as it does whenever the request
-- names its start).
pub add_price-IsPriced :
    (s : Series) (amount : ℕ) (effective_from : Option ℕ) (id started now : ℕ) (t t' : Tables)
    (row : PlanPriceRow)
    → IsPriced t.plan_prices
    → or_else effective_from now ≤ or_else effective_from started
    → add_price s amount effective_from id started now t ≡ ok (row, t')
    → IsPriced t'.plan_prices
add_price-IsPriced s amount effective_from id started now t t' row h l e =
    let (good, eq) = add_price-prices s amount effective_from id started now t t' e in
    subst IsPriced (sym eq) (λ s'. series s' good (Bool-cases (in_series s' new)))
  where
    until : ℕ
    until = or_else effective_from now

    from : ℕ
    from = or_else effective_from started

    new : PlanPriceRow
    new = price_row s amount id from

    series :
        (s' : Series)
        → All (λ p. (is_open_price s p && bad_end until p) ≡ false) t.plan_prices
        → ((in_series s' new ≡ true) ⊎ (in_series s' new ≡ false))
        → IsChain (
            select
              (in_series s')
              (new ∷ update_where (is_open_price s) (closed_at until) t.plan_prices))
    series s' good (inl inside) =
        rw
          (
            inside,
            select-update_where (is_open_price s) (in_series s') (closed_at until) (λ _. refl)
                t.plan_prices,
          )
          (extended s s' amount id from until (select (in_series s') t.plan_prices) inside l
            (All-passes (λ p. in_series s' p ≡ true) (in_series s') (λ _ e. e) t.plan_prices)
            (All-select (λ p. (is_open_price s p && bad_end until p) ≡ false) (in_series s')
              t.plan_prices good)
            (h s'))
    series s' good (inr outside) =
        rw
          (
            outside,
            select-update_where (is_open_price s) (in_series s') (closed_at until) (λ _. refl)
                t.plan_prices,
            update_where-miss (is_open_price s) (in_series s') (closed_at until)
                (select (in_series s') t.plan_prices)
                (All-passes (λ p. is_open_price s p ≡ false) (in_series s')
                  (λ p e. apart s s' amount id from until p outside e) t.plan_prices),
          )
          (h s')

-- While the prices of every plan, currency and interval follow each other in this way, at most one of
-- them is effective at any time.
pub IsPriced-effective :
    (rows : List PlanPriceRow) (s : Series) (time : ℕ)
    → IsPriced rows
    → effective_count s time rows ≤ 1
IsPriced-effective rows s time h = chain-count time (select (in_series s) rows) (h s)
