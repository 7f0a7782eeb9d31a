-- ===== src/Qa/Contract.antt =====
-- The table of states in docs/factory/agents/qa/AGENT_CONTRACT.md, and that `QaStateMachine` keeps
-- to it.
use gatway_pagamento_escrito.Prelude.{
  arith, ℕ, ◌≡◌, refl, ◌↔◌, Option, none, some, List, [], ◌∷◌, ◌++◌,
}
use gatway_pagamento_escrito.Qa.{
  QaState, QaEvent, transitions, StateTransition, QaStateMachine, new_machine, apply, transition,
  reset,
}

-- "Allowed Transitions"
pub data Allowed : QaState → QaState → Type 0 where
  started : Allowed QaState.nao_iniciada QaState.em_execucao
  approved : Allowed QaState.em_execucao QaState.aprovada
  blocked : Allowed QaState.em_execucao QaState.bloqueada
  undecided : Allowed QaState.em_execucao QaState.inconclusiva
  retested : Allowed QaState.bloqueada QaState.em_execucao
  remedied : Allowed QaState.inconclusiva QaState.em_execucao

-- A history that goes from the start to a state by allowed transitions alone.
pub data Trail : QaState → List StateTransition → Type 0 where
  begin : Trail QaState.nao_iniciada []
  further :
      {s s' : QaState} {h : List StateTransition} (event : QaEvent) (timestamp : ℕ)
      → Trail s h
      → Allowed s s'
      → Trail s' (h ++ record { from = s; event = event; to = s'; timestamp = timestamp } ∷ [])

-- An event that is refused, or that leads on by an allowed transition.
abbrev Lands : QaState → Option QaState → Type 0
Lands s none = Unit
Lands s (some s') = Allowed s s'

transitions-Lands : (s : QaState) (event : QaEvent) → Lands s (transitions s event)
unfolding transitions
transitions-Lands QaState.nao_iniciada QaEvent.start = started
transitions-Lands QaState.nao_iniciada QaEvent.pass = tt
transitions-Lands QaState.nao_iniciada QaEvent.fail = tt
transitions-Lands QaState.nao_iniciada QaEvent.block = tt
transitions-Lands QaState.nao_iniciada QaEvent.inconclusive = tt
transitions-Lands QaState.nao_iniciada QaEvent.retest = tt
transitions-Lands QaState.em_execucao QaEvent.start = tt
transitions-Lands QaState.em_execucao QaEvent.pass = approved
transitions-Lands QaState.em_execucao QaEvent.fail = blocked
transitions-Lands QaState.em_execucao QaEvent.block = blocked
transitions-Lands QaState.em_execucao QaEvent.inconclusive = undecided
transitions-Lands QaState.em_execucao QaEvent.retest = tt
transitions-Lands QaState.aprovada QaEvent.start = tt
transitions-Lands QaState.aprovada QaEvent.pass = tt
transitions-Lands QaState.aprovada QaEvent.fail = tt
transitions-Lands QaState.aprovada QaEvent.block = tt
transitions-Lands QaState.aprovada QaEvent.inconclusive = tt
transitions-Lands QaState.aprovada QaEvent.retest = tt
transitions-Lands QaState.bloqueada QaEvent.start = tt
transitions-Lands QaState.bloqueada QaEvent.pass = tt
transitions-Lands QaState.bloqueada QaEvent.fail = tt
transitions-Lands QaState.bloqueada QaEvent.block = tt
transitions-Lands QaState.bloqueada QaEvent.inconclusive = tt
transitions-Lands QaState.bloqueada QaEvent.retest = retested
transitions-Lands QaState.inconclusiva QaEvent.start = tt
transitions-Lands QaState.inconclusiva QaEvent.pass = tt
transitions-Lands QaState.inconclusiva QaEvent.fail = tt
transitions-Lands QaState.inconclusiva QaEvent.block = tt
transitions-Lands QaState.inconclusiva QaEvent.inconclusive = tt
transitions-Lands QaState.inconclusiva QaEvent.retest = remedied

Lands-some : (s s' : QaState) (o : Option QaState) → Lands s o → o ≡ some s' → Allowed s s'
Lands-some s s' none l e = absurd (cc)
Lands-some s s' (some x) l e = let q : x ≡ s' = ground arith in rw (q) at l

apply-Trail :
    (event : QaEvent) (timestamp : ℕ) (o : Option QaState) (m : QaStateMachine)
    → Lands m.current o
    → Trail m.current m.history
    → Trail (apply event timestamp o m).1.current (apply event timestamp o m).1.history
apply-Trail event timestamp none m l t = t
apply-Trail event timestamp (some s') m l t = further event timestamp t l

-- Requests to the machine, each of which it may refuse.
pub data Request : Type 0 where
  ask : QaEvent → ℕ → Request
  restart : Request

abbrev pub serve : List Request → QaStateMachine → QaStateMachine
serve [] m = m
serve (ask event timestamp ∷ rs) m = serve rs (transition event timestamp m).1
serve (restart ∷ rs) m = serve rs (reset m)

serve-Trail_from :
    (rs : List Request) (m : QaStateMachine)
    → Trail m.current m.history
    → Trail (serve rs m).current (serve rs m).history
unfolding transition reset
serve-Trail_from [] m t = t
serve-Trail_from (ask event timestamp ∷ rs) m t = serve-Trail_from rs _ (
    apply-Trail event timestamp (transitions m.current event) m (transitions-Lands m.current event)
      t)
serve-Trail_from (restart ∷ rs) m t = serve-Trail_from rs new_machine begin

-- However a new machine is asked, events that it refuses included, its history goes from
-- `NAO_INICIADA` to its current state by transitions that the contract allows.
pub serve-Trail :
    (rs : List Request) → Trail (serve rs new_machine).current (serve rs new_machine).history
serve-Trail rs = serve-Trail_from rs new_machine begin

Allowed-transitions :
    {s s' : QaState} → Allowed s s' → (event : QaEvent) × (transitions s event ≡ some s')
unfolding transitions
Allowed-transitions started = (QaEvent.start, refl)
Allowed-transitions approved = (QaEvent.pass, refl)
Allowed-transitions blocked = (QaEvent.block, refl)
Allowed-transitions undecided = (QaEvent.inconclusive, refl)
Allowed-transitions retested = (QaEvent.retest, refl)
Allowed-transitions remedied = (QaEvent.retest, refl)

-- An event leads from one state to another exactly when the contract allows the transition.
pub transitions-Allowed :
    (s s' : QaState) → ((event : QaEvent) × (transitions s event ≡ some s')) ↔ Allowed s s'
unfolding transitions
transitions-Allowed s s' = (
  λ (event, e). Lands-some s s' (transitions s event) (transitions-Lands s event) e,
  λ allowed. Allowed-transitions allowed,
)
