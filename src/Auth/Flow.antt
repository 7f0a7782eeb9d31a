-- ===== src/Auth/Flow.antt =====
-- A handler without a transaction: what it wrote before it throws stays written.
use gatway_pagamento_escrito.Prelude.{arith, ◌≡◌, refl, Bool, true, false, Option, none, some}
use gatway_pagamento_escrito.Failure.{Failure, Result, ok, err}

abbrev pub Flow : Type 0 → Type 0 → Type 0
Flow S A = S → Result A × S

module _ {S : Type 0} where
  abbrev pub pure : {A : Type 0} → A → Flow S A
  pure a s = (ok a, s)

  abbrev pub throw : {A : Type 0} → Failure → Flow S A
  throw e s = (err e, s)

  abbrev pub gets : {A : Type 0} → (S → A) → Flow S A
  gets f s = (ok (f s), s)

  abbrev pub modify : (S → S) → Flow S (Unit {0})
  modify f s = (ok tt, f s)

  -- `if (bad) throw e`.
  abbrev pub throw_if : Bool → Failure → Flow S (Unit {0})
  throw_if true e s = (err e, s)
  throw_if false e s = (ok tt, s)

  abbrev pub or_throw : {A : Type 0} → Option A → Failure → Flow S A
  or_throw none e s = (err e, s)
  or_throw (some a) e s = (ok a, s)

  abbrev pub throw_some : Option Failure → Flow S (Unit {0})
  throw_some none s = (ok tt, s)
  throw_some (some e) s = (err e, s)

  abbrev pub lift : {A : Type 0} → Result A → Flow S A
  lift r s = (r, s)

  abbrev pub bind_at : {A B : Type 0} → (A → Flow S B) → Result A × S → Result B × S
  bind_at f (ok a, s) = f a s
  bind_at f (err e, s) = (err e, s)

  infixl 5 ◌>>=◌ ◌>>◌
  unfoldable pub ◌>>=◌ : {A B : Type 0} → Flow S A → (A → Flow S B) → Flow S B
  ◌>>=◌ m f s = bind_at f (m s)

  abbrev pub ◌>>◌ : {B : Type 0} → Flow S (Unit {0}) → Flow S B → Flow S B
  m >> k = m >>= λ _. k

-- Inversion of a handler that returned.
module _ {S A B : Type 0} where
  bind_at-eq-ok :
      (f : A → Flow S B) (x : Result A × S) {b : B} {s' : S}
      → bind_at f x ≡ (ok b, s')
      → (a : A) × (t : S) × (x ≡ (ok a, t)) × (f a t ≡ (ok b, s'))
  bind_at-eq-ok f (ok a, t) h = (a, t, refl, h)
  bind_at-eq-ok f (err e, t) h = absurd (cc)

  pub >>=-eq-ok :
      (m : Flow S A) (f : A → Flow S B) (s : S) {b : B} {s' : S}
      → (m >>= f) s ≡ (ok b, s')
      → (a : A) × (t : S) × (m s ≡ (ok a, t)) × (f a t ≡ (ok b, s'))
  unfolding ◌>>=◌
  >>=-eq-ok m f s h = bind_at-eq-ok f (m s) h

  pub or_throw-eq-ok :
      (o : Option A) (e : Failure) (f : A → Flow S B) (s : S) {b : B} {s' : S}
      → (or_throw o e >>= f) s ≡ (ok b, s')
      → (a : A) × (o ≡ some a) × (f a s ≡ (ok b, s'))
  unfolding ◌>>=◌
  or_throw-eq-ok none e f s h = absurd (cc)
  or_throw-eq-ok (some a) e f s h = (a, refl, h)

  pub lift-eq-ok :
      (x : Result A) (f : A → Flow S B) (s : S) {b : B} {s' : S}
      → (lift x >>= f) s ≡ (ok b, s')
      → (a : A) × (x ≡ ok a) × (f a s ≡ (ok b, s'))
  unfolding ◌>>=◌
  lift-eq-ok (ok a) f s h = (a, refl, h)
  lift-eq-ok (err e) f s h = absurd (cc)

  pub gets-eq-ok :
      (g : S → A) (f : A → Flow S B) (s : S) {b : B} {s' : S}
      → (gets g >>= f) s ≡ (ok b, s')
      → f (g s) s ≡ (ok b, s')
  unfolding ◌>>=◌
  gets-eq-ok g f s h = h

module _ {S B : Type 0} where
  pub throw_if-eq-ok :
      (x : Bool) (e : Failure) (k : Flow S B) (s : S) {b : B} {s' : S}
      → (throw_if x e >> k) s ≡ (ok b, s')
      → (x ≡ false) × (k s ≡ (ok b, s'))
  unfolding ◌>>=◌
  throw_if-eq-ok true e k s h = absurd (cc)
  throw_if-eq-ok false e k s h = (refl, h)

  pub modify-eq-ok :
      (g : S → S) (k : Flow S B) (s : S) {b : B} {s' : S}
      → (modify g >> k) s ≡ (ok b, s')
      → k (g s) ≡ (ok b, s')
  unfolding ◌>>=◌
  modify-eq-ok g k s h = h

  pub pure-eq-ok : (b : B) (s : S) {b' : B} {s' : S} → pure b s ≡ (ok b', s') → (b ≡ b') × (s ≡ s')
  pure-eq-ok b s h = ground arith
