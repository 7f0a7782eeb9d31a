-- ===== src/Throttle/Tests.antt =====
-- Two requests a second, and a third that is blocked for five.
use gatway_pagamento_escrito.Prelude.{arith, ◌≡◌, refl, true, none, [], ◌∷◌}
use gatway_pagamento_escrito.Throttle.{Storage, Hits, increment}
use gatway_pagamento_escrito.Throttle.Block.{increment-increment}
use gatway_pagamento_escrito.Throttle.Window.{passed, increment-passed}

abbrev empty_storage : Storage
empty_storage = record { hits = λ _. none; blocks = λ _. none }

abbrev twice : Storage
twice = (increment 7 1000 2 5000 10 (increment 7 1000 2 5000 0 empty_storage).1).1

abbrev third : Hits × Storage
third = increment 7 1000 2 5000 20 twice

increment-passed_example : passed 7 1000 2 5000 (0 ∷ 10 ∷ 20 ∷ 30 ∷ []) empty_storage ≡ 2
increment-passed_example =
    increment-passed 7 1000 2 5000 0 (10 ∷ 20 ∷ 30 ∷ []) empty_storage refl refl (ground arith)

increment-increment_example :
    ((increment 7 1000 9 5000 4000 third.1).0.is_blocked ≡ true)
    × ((increment 7 1000 9 5000 4000 third.1).1 ≡ third.1)
unfolding increment
increment-increment_example =
    increment-increment 7 1000 2 5000 20 twice 1000 9 5000 4000 refl (ground arith) (ground arith)
