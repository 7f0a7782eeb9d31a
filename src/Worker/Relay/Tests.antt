-- ===== src/Worker/Relay/Tests.antt =====
-- A queue that takes two jobs, and a poll that adds them, the older one first.
use gatway_pagamento_escrito.Prelude.{
  arith, ℕ, ◌≡◌, refl, sym, ap, ◌∙◌, Bool, true, false, ◌&&◌, ◌||◌, Option, none, some, List, [],
  ◌∷◌, ◌==◌, if◌then◌else◌, All, map, length, ltb,
}
use gatway_pagamento_escrito.Admin.{OutboxRow, EventType, Aggregate, Value, Tables}
use gatway_pagamento_escrito.Worker.Relay.{Job, Refusals, relay_events, poll}
use gatway_pagamento_escrito.Worker.Relay.Handover.{
  IsHandedOver, IsKeyed, Remembers, Accepts, poll-IsHandedOver,
}

abbrev capacity : ℕ
capacity = 2

abbrev add : Job → List Job → Option (List Job)
add job jobs = if ltb (length jobs) capacity then some (job ∷ jobs) else none

abbrev name_code : EventType → ℕ
name_code EventType.tenant_provisioning_requested = 1
name_code EventType.tenant_admin_provisioning_requested = 2
name_code _ = 0

abbrev is_job : EventType → ℕ → Job → Bool
is_job name id job = name_code job.name == name_code name && job.event_id == id

abbrev accepted : EventType → ℕ → List Job → Bool
accepted name id [] = false
accepted name id (job ∷ jobs) = is_job name id job || accepted name id jobs

added_jobs : (job : Job) (jobs jobs' : List Job) → add job jobs ≡ some jobs' → job ∷ jobs ≡ jobs'
added_jobs job jobs jobs' e = ground arith

add-Accepts : Accepts add accepted
add-Accepts job jobs jobs' e =
    ap (accepted job.name job.event_id) (sym (added_jobs job jobs jobs' e))
    ∙ itself (name_code job.name) job.event_id (accepted job.name job.event_id jobs)
  where
    itself : (a b : ℕ) (rest : Bool) → ((a == a && b == b) || rest) ≡ true
    itself a b rest = ground arith

add-Remembers : Remembers add accepted
add-Remembers job jobs jobs' name id e h =
    ap (accepted name id) (sym (added_jobs job jobs jobs' e))
    ∙ later (is_job name id job) (accepted name id jobs) h
  where
    later : (a b : Bool) → b ≡ true → (a || b) ≡ true
    later a b e = ground arith

abbrev event : (id created_at : ℕ) → Value → OutboxRow
event id created_at payload = record {
  id = id;
  aggregate_type = Aggregate.tenant;
  aggregate_id = 5;
  event_type = EventType.tenant_provisioning_requested;
  payload = payload;
  attempts = 0;
  created_at = created_at;
  processed_at = none;
}

abbrev tables : Tables
tables = record {
  identities = [];
  tenants = [];
  plans = [];
  plan_prices = [];
  subscriptions = [];
  invoices = [];
  invoice_items = [];
  payments = [];
  plan_features = [];
  provisioning_attempts = [];
  outbox = event 2 200 (Value.tenant_ref 6) ∷ event 1 100 (Value.tenant_ref 5) ∷ [];
  next_outbox_id = 3;
  audit_logs = [];
}

abbrev unlocked : OutboxRow → Bool
unlocked row = false

abbrev none_refused : Refusals
none_refused = record { update = λ _. false; commit = false }

poll-first :
    map (λ (j : Job). j.event_id) (poll add none_refused unlocked 300 tables []).1 ≡ 2 ∷ 1 ∷ []
unfolding poll relay_events
poll-first = refl

tables-IsKeyed : IsKeyed tables.outbox
tables-IsKeyed = (
  ((λ _. (refl, refl)), ((λ e. absurd (false≢true e)), tt)),
  (((λ e. absurd (false≢true e)), ((λ _. (refl, refl)), tt)), tt),
)
  where
    false≢true : ¬ (false ≡ true)
    false≢true e = cc

tables-IsHandedOver : All (IsHandedOver add accepted []) tables.outbox
tables-IsHandedOver = (refl, (refl, tt))

poll-IsHandedOver_example :
    All
      (IsHandedOver add accepted (poll add none_refused unlocked 300 tables []).1)
      (poll add none_refused unlocked 300 tables []).0.outbox
poll-IsHandedOver_example =
    poll-IsHandedOver add none_refused accepted unlocked 300 tables [] add-Accepts add-Remembers
      tables-IsKeyed tables-IsHandedOver
