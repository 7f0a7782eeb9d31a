-- ===== src/Worker/Relay.antt =====
-- `PlatformOutboxRelay.poll` of apps/worker/src/workers/platform-outbox.relay.ts. The queue of BullMQ
-- is a parameter: adding a job may throw. The updates and the commit may fail too. What a poll wrote
-- is rolled back by an error; the jobs that it added are not.
mod Handover
mod Tests
use gatway_pagamento_escrito.Prelude.{
  ℕ, ◌+◌, Bool, true, false, not, ◌&&◌, Option, none, some, List, [], ◌∷◌, leb, ◌==◌, if◌then◌else◌,
  is_some, take, select, update_where,
}
use gatway_pagamento_escrito.Admin.{OutboxRow, EventType, Value, Tables}
use gatway_pagamento_escrito.Common.{is_null}

-- `TenantProvisioningJob`
pub record ProvisioningEvent : Type 0 where
  pub tenant_id : ℕ
  pub identity_id : Option ℕ

-- `provisioningEventSchema`, which allows no other key
abbrev pub parse_event : Value → Option ProvisioningEvent
parse_event (Value.tenant_ref tenant_id) =
    some (record { tenant_id = tenant_id; identity_id = none })
parse_event (Value.tenant_identity tenant_id identity_id) =
    some (record { tenant_id = tenant_id; identity_id = some identity_id })
parse_event _ = none

abbrev pub is_relayed : EventType → Bool
is_relayed EventType.tenant_provisioning_requested = true
is_relayed EventType.tenant_admin_provisioning_requested = true
is_relayed _ = false

-- The id of a job is made of the type and the id of its event.
pub record Job : Type 0 where
  pub name : EventType
  pub event_id : ℕ
  pub body : ProvisioningEvent

abbrev pub job_of : OutboxRow → ProvisioningEvent → Job
job_of event body = record { name = event.event_type; event_id = event.id; body = body }

-- `orderBy("created_at", "asc")`
abbrev pub place_event : OutboxRow → List OutboxRow → List OutboxRow
place_event x [] = x ∷ []
place_event x (y ∷ ys) =
    let rest = place_event x ys in if leb x.created_at y.created_at then x ∷ y ∷ ys else y ∷ rest

abbrev pub oldest_first : List OutboxRow → List OutboxRow
oldest_first [] = []
oldest_first (x ∷ xs) = place_event x (oldest_first xs)

-- The rows that another transaction has locked are skipped.
abbrev pub is_waiting : (OutboxRow → Bool) → OutboxRow → Bool
is_waiting is_locked row =
    is_null row.processed_at && is_relayed row.event_type && not (is_locked row)

abbrev pub waiting_events : (OutboxRow → Bool) → List OutboxRow → List OutboxRow
waiting_events is_locked rows = take 10 (select (is_waiting is_locked) (oldest_first rows))

abbrev pub has_event_id : ℕ → OutboxRow → Bool
has_event_id id row = row.id == id

abbrev pub rejected : (attempts now : ℕ) → OutboxRow → OutboxRow
rejected attempts now row = record row { attempts = attempts + 1; processed_at = some now }

abbrev pub processed : (now : ℕ) → OutboxRow → OutboxRow
processed now row = record row { processed_at = some now }

-- Which of its updates, and whether its commit, the database refuses a poll.
pub record Refusals : Type 0 where
  pub update : OutboxRow → Bool
  pub commit : Bool

module _ {Queue : Type 0} (add : Job → Queue → Option Queue) (refuses : Refusals) where
  -- The loop over the events; none if adding a job or an update threw.
  unfoldable pub relay_events :
      (now : ℕ) → List OutboxRow → List OutboxRow → Queue → Option (List OutboxRow) × Queue
  relay_events now [] rows queue = (some rows, queue)
  relay_events now (event ∷ events) rows queue = elim (parse_event event.payload) [
    | none ↦ elim (refuses.update event) [
      | true ↦ (none, queue)
      | false ↦
          relay_events now events
            (update_where (has_event_id event.id) (rejected event.attempts now) rows) queue
    ]
    | some body ↦ elim (add (job_of event body) queue) [
      | none ↦ (none, queue)
      | some queue' ↦ elim (refuses.update event) [
        | true ↦ (none, queue')
        | false ↦
            relay_events now events (update_where (has_event_id event.id) (processed now) rows)
              queue'
      ]
    ]
  ]

  abbrev pub committed : Tables → Option (List OutboxRow) → Tables
  committed t none = t
  committed t (some rows) = if refuses.commit then t else record t { outbox = rows }

  -- `poll`
  unfoldable pub poll : (OutboxRow → Bool) → (now : ℕ) → Tables → Queue → Tables × Queue
  unfolding relay_events
  poll is_locked now t queue =
      let (rows, queue') = relay_events now (waiting_events is_locked t.outbox) t.outbox queue in
      (committed t rows, queue')
