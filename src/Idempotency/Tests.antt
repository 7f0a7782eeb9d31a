-- ===== src/Idempotency/Tests.antt =====
-- `PlatformIdempotencyService.execute` on a counter: a callback that increments it, and one that
-- throws.
use native.Mathlib.Decide.{ℕ_discrete}
use gatway_pagamento_escrito.Prelude.{ℕ, ◌+◌, ◌*◌, ◌≡◌, refl, true, false, [], ◌∷◌, map, arith}
use gatway_pagamento_escrito.Failure.{bad_request, conflict, ok, err, Tx}
use gatway_pagamento_escrito.Idempotency.{Db, Input, Idempotent, execute}
use gatway_pagamento_escrito.Idempotency.Laws.{IsValid, stored}
use gatway_pagamento_escrito.Idempotency.Spec.{seen, promised, recorded, execute-promised}
use gatway_pagamento_escrito.Idempotency.Retries.{attempts, execute-retries, execute-IsValid}

abbrev hash : ℕ → ℕ
hash request = request * 2

abbrev increment : Tx ℕ ℕ
increment n = ok (n + 1, n + 1)

abbrev refuse : Tx ℕ ℕ
refuse n = err (bad_request "refused")

abbrev empty : Db ℕ ℕ ℕ
empty = record { keys = []; next_id = 0; tables = 5 }

abbrev ask : ℕ → ℕ → Input ℕ ℕ
ask actor request = record { scope = 1; key = 77; actor_identity_id = actor; request = request }

abbrev used : Db ℕ ℕ ℕ
used = stored hash (ask 3 40) 1000 6 6 empty

abbrev answer : Idempotent ℕ
answer = record { value = 6; replayed = false }

first_call : execute ℕ_discrete hash (ask 3 40) increment 1000 empty ≡ ok (answer, used)
unfolding execute ℕ_discrete
first_call = refl

other_actor :
    execute ℕ_discrete hash (ask 4 40) increment 2000 used
    ≡ err (conflict "Idempotency key belongs to a different actor")
unfolding execute ℕ_discrete
other_actor = refl

other_request :
    execute ℕ_discrete hash (ask 3 41) increment 2000 used
    ≡ err (conflict "Idempotency key was already used for a different request")
unfolding execute ℕ_discrete
other_request = refl

expired_key :
    execute ℕ_discrete hash (ask 3 41) increment 86_401_001 used
    ≡ ok (
      record { value = 7; replayed = false },
      stored hash (ask 3 41) 86_401_001 7 7 (record { keys = []; next_id = 1; tables = 6 }),
    )
unfolding execute ℕ_discrete
expired_key = refl

execute-promised_example :
    seen (execute ℕ_discrete hash (ask 3 40) increment 2000 used)
    ≡ promised hash (ask 3 40) increment 6 (recorded ℕ_discrete (ask 3 40) 2000 used)
execute-promised_example =
    execute-promised ℕ_discrete hash (ask 3 40) increment 2000 used (ground arith)

execute-retries_example :
    attempts ℕ_discrete hash (ask 3 40) ((increment, 1001) ∷ (refuse, 5000) ∷ []) used ≡ (
      map {A = Tx ℕ ℕ × ℕ}
          (λ _. ok (record { value = 6; replayed = true }))
          ((increment, 1001) ∷ (refuse, 5000) ∷ []),
      used,
    )
execute-retries_example =
    execute-retries ℕ_discrete hash (ask 3 40) increment 1000 empty used answer
      ((increment, 1001) ∷ (refuse, 5000) ∷ []) tt first_call refl (omega arith)

execute-IsValid_example : IsValid ℕ_discrete used
execute-IsValid_example =
    execute-IsValid ℕ_discrete hash (ask 3 40) increment 1000 empty used answer tt first_call
