-- ===== src/Failure.antt =====
-- What a handler or a statement can throw: the HTTP exceptions of NestJS with their messages, the
-- two PostgreSQL error codes that the services read, and any other error.
use gatway_pagamento_escrito.Prelude.{
  arith, ◌≡◌, refl, ◌⊎◌, inl, inr, Bool, true, false, if◌then◌else◌, Option, none, some, List, [],
  ◌∷◌, String,
}

pub data Failure : Type 0 where
  bad_request unauthorized forbidden not_found conflict too_many_requests error : String → Failure
  unique_violation check_violation : Failure

pub data Result {ℓ} (A : Type ℓ) : Type ℓ where
  ok : A → Result A
  err : Failure → Result A

-- A transaction sees the tables and returns them changed; a throw discards what it wrote.
abbrev pub Tx : Type 0 → Type 0 → Type 0
Tx S A = S → Result (A × S)

module _ {S : Type 0} where
  abbrev pub pure : {A : Type 0} → A → Tx S A
  pure a s = ok (a, s)

  abbrev pub throw : {A : Type 0} → Failure → Tx S A
  throw e s = err e

  abbrev pub get : Tx S S
  get s = ok (s, s)

  abbrev pub modify : (S → S) → Tx S (Unit {0})
  modify f s = ok (tt, f s)

  abbrev pub lift : {A : Type 0} → Result A → Tx S A
  lift (ok a) s = ok (a, s)
  lift (err e) s = err e

  -- `if (bad) throw e`.
  abbrev pub throw_if : Bool → Failure → Tx S (Unit {0})
  throw_if true e s = err e
  throw_if false e s = ok (tt, s)

  abbrev pub or_throw : {A : Type 0} → Option A → Failure → Tx S A
  or_throw none e s = err e
  or_throw (some a) e s = ok (a, s)

  infixl 5 ◌>>=◌ ◌>>◌
  unfoldable pub ◌>>=◌ : {A B : Type 0} → Tx S A → (A → Tx S B) → Tx S B
  ◌>>=◌ m f s = elim (m s) [ ok (a, s') ↦ f a s' | err e ↦ err e ]

  abbrev pub ◌>>◌ : {B : Type 0} → Tx S (Unit {0}) → Tx S B → Tx S B
  m >> k = m >>= λ _. k

  -- `database.transaction().execute(…)`: commit, or roll back and rethrow.
  abbrev pub settle : {A : Type 0} → S → Result (A × S) → Result A × S
  settle s (ok (a, s')) = (ok a, s')
  settle s (err e) = (err e, s)

  abbrev pub run_transaction : {A : Type 0} → Tx S A → S → Result A × S
  run_transaction m s = settle s (m s)

-- To split on a computed result and keep the equation.
pub Result-cases {ℓ} :
    {A : Type ℓ} (r : Result A) → ((a : A) × (r ≡ ok a)) ⊎ ((e : Failure) × (r ≡ err e))
Result-cases (ok a) = inl (a, refl)
Result-cases (err e) = inr (e, refl)

pub err≢ok : {A : Type 0} {e : Failure} {a : A} → ¬ (err e ≡ ok a)
err≢ok h = cc

-- Inversion of a successful bind.
pub >>=-eq-ok :
    {S A B : Type 0} (m : Tx S A) (f : A → Tx S B) (s : S) {r : B × S}
    → (m >>= f) s ≡ ok r
    → (a : A) × (s' : S) × (m s ≡ ok (a, s')) × (f a s' ≡ ok r)
unfolding ◌>>=◌
>>=-eq-ok m f s e = elim (Result-cases (m s)) [
  | inl ((a, s'), h) ↦ (a, s', h, rw (h, ◌>>=◌) at e)
  | inr (x, h) ↦ absurd (err≢ok (rw (h, ◌>>=◌) at e))
]

-- The same for the steps that leave the tables alone or change them by a function.
module _ {S A B : Type 0} where
  pub or_throw-eq-ok :
      (o : Option A) (e : Failure) (f : A → Tx S B) (s : S) {r : B × S}
      → (or_throw o e >>= f) s ≡ ok r
      → (a : A) × (o ≡ some a) × (f a s ≡ ok r)
  unfolding ◌>>=◌
  or_throw-eq-ok none e f s h = absurd (err≢ok h)
  or_throw-eq-ok (some a) e f s h = (a, refl, h)

  pub lift-eq-ok :
      (x : Result A) (f : A → Tx S B) (s : S) {r : B × S}
      → (lift x >>= f) s ≡ ok r
      → (a : A) × (x ≡ ok a) × (f a s ≡ ok r)
  unfolding ◌>>=◌
  lift-eq-ok (ok a) f s h = (a, refl, h)
  lift-eq-ok (err e) f s h = absurd (err≢ok h)

module _ {S B : Type 0} where
  pub throw_if-eq-ok :
      (b : Bool) (e : Failure) (k : Tx S B) (s : S) {r : B × S}
      → (throw_if b e >> k) s ≡ ok r
      → (b ≡ false) × (k s ≡ ok r)
  unfolding ◌>>=◌
  throw_if-eq-ok true e k s h = absurd (err≢ok h)
  throw_if-eq-ok false e k s h = (refl, h)

  pub modify-eq-ok :
      (g : S → S) (k : Tx S B) (s : S) {r : B × S} → (modify g >> k) s ≡ ok r → k (g s) ≡ ok r
  unfolding ◌>>=◌
  modify-eq-ok g k s h = h

  pub pure-eq-ok : (b : B) (s : S) {b' : B} {s' : S} → pure b s ≡ ok (b', s') → (b ≡ b') × (s ≡ s')
  pure-eq-ok b s h = ground arith

-- The branch that a test in a transaction took.
pub if-eq-ok :
    {S A : Type 0} (b : Bool) (m m' : Tx S A) (s : S) {r : Result (A × S)}
    → (if b then m else m') s ≡ r
    → ((b ≡ true) × (m s ≡ r)) ⊎ ((b ≡ false) × (m' s ≡ r))
if-eq-ok true m m' s e = inl (refl, e)
if-eq-ok false m m' s e = inr (refl, e)

-- The test before an error, and what a result holds.
pub if-err-ok :
    {A : Type 0} (b : Bool) (e : Failure) (r : Result A) {a : A}
    → (if b then err e else r) ≡ ok a
    → (b ≡ false) × (r ≡ ok a)
if-err-ok true e r h = absurd (err≢ok h)
if-err-ok false e r h = (refl, h)

pub ok-injective :
    {A B : Type 0} {a a' : A} {b b' : B}
    → ◌≡◌ {A = Result (A × B)} (ok (a, b)) (ok (a', b'))
    → (a ≡ a') × (b ≡ b')
ok-injective h = ground arith

-- `rows.map(mapper)`, where the mapper may throw
abbrev pub cons_result : {A : Type 0} → Result A → Result (List A) → Result (List A)
cons_result (ok x) (ok xs) = ok (x ∷ xs)
cons_result (ok x) (err e) = err e
cons_result (err e) r = err e

abbrev pub map_results : {A B : Type 0} → (A → Result B) → List A → Result (List B)
map_results f [] = ok []
map_results f (x ∷ xs) = cons_result (f x) (map_results f xs)
