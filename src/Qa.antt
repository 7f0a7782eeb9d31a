-- ===== src/Qa.antt =====
-- packages/qa-agent/src/state-machine.ts: `QaStateMachine`. A time is a number.
use Prim.Native.String as StringOps
use gatway_pagamento_escrito.Prelude.{
  ℕ, String, Bool, true, false, Option, none, some, List, [], ◌∷◌, ◌++◌, is_some,
}
use gatway_pagamento_escrito.Failure.{Failure, error, Result, ok, err}
pub mod Contract
mod Tests

pub data QaState : Type 0 where
  nao_iniciada em_execucao aprovada bloqueada inconclusiva : QaState

pub data QaEvent : Type 0 where
  start pass fail block inconclusive retest : QaEvent

-- `transitions`
unfoldable pub transitions : QaState → QaEvent → Option QaState
transitions QaState.nao_iniciada QaEvent.start = some QaState.em_execucao
transitions QaState.em_execucao QaEvent.pass = some QaState.aprovada
transitions QaState.em_execucao QaEvent.fail = some QaState.bloqueada
transitions QaState.em_execucao QaEvent.block = some QaState.bloqueada
transitions QaState.em_execucao QaEvent.inconclusive = some QaState.inconclusiva
transitions QaState.bloqueada QaEvent.retest = some QaState.em_execucao
transitions QaState.inconclusiva QaEvent.retest = some QaState.em_execucao
transitions _ _ = none

pub record StateTransition : Type 0 where
  pub from : QaState
  pub event : QaEvent
  pub to : QaState
  pub timestamp : ℕ

pub record QaStateMachine : Type 0 where
  pub current : QaState
  pub history : List StateTransition

abbrev pub new_machine : QaStateMachine
new_machine = record { current = QaState.nao_iniciada; history = [] }

-- `isTerminal`
unfoldable pub is_terminal : QaStateMachine → Bool
is_terminal m = elim m.current [
  | QaState.aprovada ↦ true
  | QaState.bloqueada ↦ true
  | QaState.inconclusiva ↦ true
  | _ ↦ false
]

abbrev pub state_name : QaState → String
state_name QaState.nao_iniciada = "NAO_INICIADA"
state_name QaState.em_execucao = "EM_EXECUCAO"
state_name QaState.aprovada = "APROVADA"
state_name QaState.bloqueada = "BLOQUEADA"
state_name QaState.inconclusiva = "INCONCLUSIVA"

abbrev pub event_name : QaEvent → String
event_name QaEvent.start = "START"
event_name QaEvent.pass = "PASS"
event_name QaEvent.fail = "FAIL"
event_name QaEvent.block = "BLOCK"
event_name QaEvent.inconclusive = "INCONCLUSIVE"
event_name QaEvent.retest = "RETEST"

abbrev pub concat : List String → String
concat [] = ""
concat (s ∷ ss) = StringOps.◌++◌ s (concat ss)

abbrev pub invalid_transition : QaEvent → QaState → Failure
invalid_transition event s = error (
    concat (
      "Invalid transition: cannot apply \""
      ∷ event_name event
      ∷ "\" to state \""
      ∷ state_name s
      ∷ "\""
      ∷ []))

abbrev pub apply :
    QaEvent → ℕ → Option QaState → QaStateMachine → Result (Unit {0}) × QaStateMachine
apply event timestamp none m = (err (invalid_transition event m.current), m)
apply event timestamp (some next) m = (
  ok tt,
  record {
    current = next;
    history =
        m.history
        ++ record { from = m.current; event = event; to = next; timestamp = timestamp } ∷ [];
  },
)

-- `transition`, which leaves the machine alone when it throws
unfoldable pub transition : QaEvent → ℕ → QaStateMachine → Result (Unit {0}) × QaStateMachine
transition event timestamp m = apply event timestamp (transitions m.current event) m

-- `canTransition`
unfoldable pub can_transition : QaEvent → QaStateMachine → Bool
can_transition event m = is_some (transitions m.current event)

-- `reset`
unfoldable pub reset : QaStateMachine → QaStateMachine
reset m = new_machine
