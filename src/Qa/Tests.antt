-- ===== src/Qa/Tests.antt =====
-- A cycle that is blocked and retested.
use gatway_pagamento_escrito.Prelude.{ℕ, ◌≡◌, ◌↔◌, some, List, [], ◌∷◌}
use gatway_pagamento_escrito.Qa.{QaState, QaEvent, transitions, StateTransition, transition}
use gatway_pagamento_escrito.Qa.Contract.{
  Allowed, Trail, Request, ask, serve-Trail, transitions-Allowed,
}

-- The second request is refused.
abbrev requests : List Request
requests =
    ask QaEvent.start 1 ∷ ask QaEvent.retest 2 ∷ ask QaEvent.block 3 ∷ ask QaEvent.retest 4 ∷ []

abbrev moved : QaState → QaEvent → QaState → ℕ → StateTransition
moved s event s' timestamp = record { from = s; event = event; to = s'; timestamp = timestamp }

serve-Trail_example : Trail QaState.em_execucao (
    moved QaState.nao_iniciada QaEvent.start QaState.em_execucao 1
    ∷ moved QaState.em_execucao QaEvent.block QaState.bloqueada 3
    ∷ moved QaState.bloqueada QaEvent.retest QaState.em_execucao 4
    ∷ [])
unfolding transition transitions
serve-Trail_example = serve-Trail requests

transitions-Allowed_example :
    ((event : QaEvent) × (transitions QaState.bloqueada event ≡ some QaState.em_execucao))
    ↔ Allowed QaState.bloqueada QaState.em_execucao
transitions-Allowed_example = transitions-Allowed QaState.bloqueada QaState.em_execucao
