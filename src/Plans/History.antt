-- ===== src/Plans/History.antt =====
-- Any sequence of changes of plans and new prices, each in its transaction and under its key.
use gatway_pagamento_escrito.Prelude.{
  ℕ, ◌≡◌, refl, sym, ap, ◌∙◌, subst, ◌≤◌, Option, none, some, List, [], ◌∷◌, not, if_elim,
  Option-cases, All, inl, inr, find,
}
use gatway_pagamento_escrito.Failure.{
  Failure, Result, ok, err, err≢ok, or_throw, >>=-eq-ok, or_throw-eq-ok, lift-eq-ok, modify-eq-ok,
  pure-eq-ok, ok-injective,
}
use gatway_pagamento_escrito.Idempotency.Laws.{IsValid}
use gatway_pagamento_escrito.Idempotency.Retries.{execute-keeps}
use gatway_pagamento_escrito.Admin.{PlanRow, Value, Scope, Scope-discrete, Tables, AdminDb}
use gatway_pagamento_escrito.Common.{User, is_platform, record_mutation}
use gatway_pagamento_escrito.Tenants.Repository.{is_live_plan}
use gatway_pagamento_escrito.Plans.Repository.{Series, or_else, update_plan, add_price, find_plan}
use gatway_pagamento_escrito.Plans.Service.{
  Answer, CreatePlanPriceRequest, UpdatePlanRequest, plan_changes, series_of, caught,
  update_plan_tx, add_price_tx, update_plan_call, add_price_call, show_plan, no_plan,
}
use gatway_pagamento_escrito.Plans.Timeline.{
  IsPriced, effective_count, add_price-IsPriced, IsPriced-effective,
}

pub data Call : Type 0 where
  update : User → (plan_id key : ℕ) → UpdatePlanRequest → (started : ℕ) → Call
  price : User → (plan_id key : ℕ) → CreatePlanPriceRequest → (price_id started now : ℕ) → Call

-- A new price starts no earlier than the old one ends: it has a start of its own, or the clocks of
-- the service and of the database agree.
abbrev pub IsTimed : Call → Type 0
IsTimed (update user plan_id key input started) = Unit
IsTimed (price user plan_id key input price_id started now) =
    or_else input.effective_from now ≤ or_else input.effective_from started

abbrev PricedTables : Tables → Type 0
PricedTables t = IsPriced t.plan_prices

caught-eq_ok : {A : Type 0} (r : Result A) {a : A} → caught r ≡ ok a → r ≡ ok a
caught-eq_ok (ok x) e = e
caught-eq_ok (err x) e = absurd (err≢ok e)

add_price_tx-IsPriced :
    (user : User) (plan_id : ℕ) (input : CreatePlanPriceRequest) (price_id started now : ℕ)
    (t t' : Tables) {value : Value}
    → IsPriced t.plan_prices
    → or_else input.effective_from now ≤ or_else input.effective_from started
    → add_price_tx user plan_id input price_id started now t ≡ ok (value, t')
    → IsPriced t'.plan_prices
unfolding add_price_tx record_mutation
add_price_tx-IsPriced user plan_id input price_id started now t t' h l e =
    let (existing, e1, e) = or_throw-eq-ok _ _ _ t e in
    let (row, t1, e2, e) = >>=-eq-ok _ _ t e in
    let (value, e3, e) = lift-eq-ok _ _ t1 e in
    let e = modify-eq-ok _ _ t1 e in
    let (_, q) = pure-eq-ok _ _ e in
    subst IsPriced (ap (λ x. x.plan_prices) q) (
      add_price-IsPriced (series_of plan_id input) input.amount_cents input.effective_from price_id
        started now t t1 row h l
        (caught-eq_ok
          (add_price (series_of plan_id input) input.amount_cents input.effective_from price_id
            started now t)
          e2))

update_plan-prices :
    (plan_id : ℕ) (changes : PlanRow → PlanRow) (started : ℕ) (t : Tables)
    → (update_plan plan_id changes started t).1.plan_prices ≡ t.plan_prices
unfolding update_plan
update_plan-prices plan_id changes started t =
    elim (Option-cases (find (is_live_plan plan_id) t.plans)) [
      | inl e ↦ rw (update_plan, e) refl
      | inr (_, e) ↦ rw (update_plan, e) refl
    ]

or_throw-state :
    {A : Type 0} (o : Option A) (x : Failure) (t t' : Tables) {a : A}
    → or_throw o x t ≡ ok (a, t')
    → t' ≡ t
or_throw-state none x t t' e = absurd (err≢ok e)
or_throw-state (some b) x t t' e = sym (pure-eq-ok b t e).1

show_plan-prices :
    (user : User) (started : ℕ) (plan : PlanRow) (t t' : Tables) {value : Value}
    → show_plan user started plan t ≡ ok (value, t')
    → t'.plan_prices ≡ t.plan_prices
unfolding record_mutation
show_plan-prices user started plan t t' e =
    let e = modify-eq-ok _ _ t e in
    let (details, t2, e1, e) = >>=-eq-ok _ _ _ e in
    let (response, e2, e) = lift-eq-ok _ _ t2 e in
    let (_, q) = pure-eq-ok _ _ e in
    ap (λ x. x.plan_prices) (sym q ∙ or_throw-state (find_plan plan.id _) no_plan _ t2 e1)

update_plan_tx-IsPriced :
    (user : User) (plan_id : ℕ) (input : UpdatePlanRequest) (started : ℕ) (t t' : Tables)
    {value : Value}
    → IsPriced t.plan_prices
    → update_plan_tx user plan_id input started t ≡ ok (value, t')
    → IsPriced t'.plan_prices
unfolding update_plan_tx
update_plan_tx-IsPriced user plan_id input started t t' h e =
    let (found, t1, e1, e) = >>=-eq-ok _ _ t e in
    let (plan, e2, e) = or_throw-eq-ok _ _ _ t1 e in
    let same =
      show_plan-prices user started plan t1 t' e
      ∙ ap (λ x. x.plan_prices) (sym (ok-injective e1).1)
      ∙ update_plan-prices plan_id (plan_changes input) started t in
    subst IsPriced (sym same) h

module _ (hash_update : UpdatePlanRequest → ℕ) (hash_price : CreatePlanPriceRequest → ℕ) where
  unfoldable pub apply : Call → AdminDb → AdminDb
  unfolding update_plan_call add_price_call
  apply (update user plan_id key input started) db =
      (update_plan_call hash_update user plan_id key input started db).1
  apply (price user plan_id key input price_id started now) db =
      (add_price_call hash_price user plan_id key input price_id started now db).1

  unfoldable pub run : List Call → AdminDb → AdminDb
  unfolding apply
  run [] db = db
  run (call ∷ calls) db = run calls (apply call db)

-- The keys are in order, and so are the prices.
pub record IsSold (db : AdminDb) : Type 0 where
  pub keys : IsValid Scope-discrete db
  pub prices : IsPriced db.tables.plan_prices

abbrev Sold : Answer → Type 0
Sold r = IsSold r.1

apply-IsSold :
    (hash_update : UpdatePlanRequest → ℕ) (hash_price : CreatePlanPriceRequest → ℕ) (call : Call)
    (db : AdminDb)
    → IsTimed call
    → IsSold db
    → IsSold (apply hash_update hash_price call db)
unfolding apply
apply-IsSold hash_update hash_price (update user plan_id key input started) db l h =
    if_elim Sold (not (is_platform user.realm)) (λ _. h)
      (λ _.
        let (keys, prices) =
          execute-keeps Scope-discrete hash_update PricedTables
            (record {
              scope = Scope.plans_update plan_id;
              key = key;
              actor_identity_id = user.user_id;
              request = input;
            })
            (update_plan_tx user plan_id input started) started db h.keys h.prices
            (λ value t'.
              update_plan_tx-IsPriced user plan_id input started db.tables t' h.prices) in
        record { keys = keys; prices = prices })
apply-IsSold hash_update hash_price (price user plan_id key input price_id started now) db l h =
    if_elim Sold (not (is_platform user.realm)) (λ _. h)
      (λ _.
        let (keys, prices) =
          execute-keeps Scope-discrete hash_price PricedTables
            (record {
              scope = Scope.plans_price_create plan_id;
              key = key;
              actor_identity_id = user.user_id;
              request = input;
            })
            (add_price_tx user plan_id input price_id started now) started db h.keys h.prices
            (λ value t'.
              add_price_tx-IsPriced user plan_id input price_id started now db.tables t' h.prices
                l) in
        record { keys = keys; prices = prices })

run-IsSold :
    (hash_update : UpdatePlanRequest → ℕ) (hash_price : CreatePlanPriceRequest → ℕ)
    (calls : List Call) (db : AdminDb)
    → All IsTimed calls
    → IsSold db
    → IsSold (run hash_update hash_price calls db)
unfolding run
run-IsSold hash_update hash_price [] db l h = h
run-IsSold hash_update hash_price (call ∷ calls) db (l, ls) h =
    run-IsSold hash_update hash_price calls (apply hash_update hash_price call db) ls
      (apply-IsSold hash_update hash_price call db l h)

-- After any sequence of requests that change plans and add prices to them, accepted, refused or
-- replayed, at most one price of a plan, currency and interval is effective at any time, if the
-- prices were one after the other at first, the last one open, the idempotency keys were in order,
-- and each new price starts no earlier than the service ends the old one.
pub run-effective :
    (hash_update : UpdatePlanRequest → ℕ) (hash_price : CreatePlanPriceRequest → ℕ)
    (calls : List Call) (db : AdminDb) (s : Series) (time : ℕ)
    → All IsTimed calls
    → IsSold db
    → effective_count s time (run hash_update hash_price calls db).tables.plan_prices ≤ 1
run-effective hash_update hash_price calls db s time l h =
    let after = run hash_update hash_price calls db in
    IsPriced-effective after.tables.plan_prices s time
      (run-IsSold hash_update hash_price calls db l h).prices
