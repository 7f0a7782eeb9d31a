-- ===== src/Worker/Relay/Handover.antt =====
-- No event is marked as processed before its job is in the queue.
use gatway_pagamento_escrito.Prelude.{
  arith, ℕ, ◌≡◌, refl, ap, ◌∙◌, Bool, true, false, ◌&&◌, Option, none, some, List, [], ◌∷◌, leb,
  ◌==◌, if◌then◌else◌, if_elim, is_some, inl, inr, Bool-cases, Option-cases, update_where, All,
  All-map, All-select, All-take,
}
use gatway_pagamento_escrito.Admin.{OutboxRow, EventType, Tables}
use gatway_pagamento_escrito.Worker.Relay.{
  ProvisioningEvent, parse_event, is_relayed, Job, job_of, place_event, oldest_first, is_waiting,
  waiting_events, has_event_id, rejected, processed, relay_events, committed, Refusals, poll,
}

-- Rows with one id are one row, as far as their type and payload go.
abbrev pub Agrees : OutboxRow → OutboxRow → Type 0
Agrees event row =
    (row.id == event.id) ≡ true
    → (row.event_type ≡ event.event_type) × (row.payload ≡ event.payload)

abbrev pub IsKeyed : List OutboxRow → Type 0
IsKeyed rows = All (λ event. All (Agrees event) rows) rows

abbrev pub owes_job : OutboxRow → Bool
owes_job row =
    is_some row.processed_at && is_relayed row.event_type && is_some (parse_event row.payload)

module _ {Queue : Type 0} (add : Job → Queue → Option Queue)
    (accepted : EventType → ℕ → Queue → Bool) where
  -- The queue once accepted the job of each processed event whose payload is valid.
  abbrev pub IsHandedOver : Queue → OutboxRow → Type 0
  IsHandedOver queue row =
      (if owes_job row then accepted row.event_type row.id queue else true) ≡ true

  abbrev pub Remembers : Type 0
  Remembers =
      (job : Job) (queue queue' : Queue) (name : EventType) (id : ℕ)
      → add job queue ≡ some queue'
      → accepted name id queue ≡ true
      → accepted name id queue' ≡ true

  abbrev pub Accepts : Type 0
  Accepts =
      (job : Job) (queue queue' : Queue)
      → add job queue ≡ some queue'
      → accepted job.name job.event_id queue' ≡ true

All-update :
    (P Q A : OutboxRow → Type 0) (k : ℕ) (g : OutboxRow → OutboxRow)
    → ((row : OutboxRow) → has_event_id k row ≡ true → A row → P row → Q (g row))
    → ((row : OutboxRow) → P row → Q row)
    → (rows : List OutboxRow) → All A rows
    → All P rows
    → All Q (update_where (has_event_id k) g rows)
All-update P Q A k g hit miss [] a h = tt
All-update P Q A k g hit miss (row ∷ rows) (a, as_) (p, h) =
    let rest = All-update P Q A k g hit miss rows as_ h in
    elim (Bool-cases (has_event_id k row)) [
      | inl same ↦ rw same (hit row same a p, rest)
      | inr other ↦ rw other (miss row p, rest)
    ]

abbrev or_before : List OutboxRow → Option (List OutboxRow) → List OutboxRow
or_before rows none = rows
or_before rows (some rows') = rows'

same_id : (a b : ℕ) → (a == b) ≡ true → a ≡ b
same_id a b e = ground arith

owes_nothing :
    (o : Option ProvisioningEvent) (relayed a : Bool)
    → o ≡ none
    → (if true && relayed && is_some o then a else true) ≡ true
owes_nothing o relayed a e = ground arith

answers : (b a : Bool) → a ≡ true → (if b then a else true) ≡ true
answers b a e = ground arith

still :
    (b a a' : Bool)
    → (a ≡ true → a' ≡ true)
    → (if b then a else true) ≡ true
    → (if b then a' else true) ≡ true
still true a a' f e = f e
still false a a' f e = refl

module _ {Queue : Type 0} (add : Job → Queue → Option Queue) (refuses : Refusals)
    (accepted : EventType → ℕ → Queue → Bool) (accepts : Accepts add accepted)
    (remembers : Remembers add accepted) (before : List OutboxRow) where
  abbrev Handed : Queue → List OutboxRow → Type 0
  Handed queue rows = All (IsHandedOver add accepted queue) rows

  abbrev Landed : Option (List OutboxRow) × Queue → Type 0
  Landed r = Handed r.1 before × Handed r.1 (or_before before r.0)

  agree-after :
      (event : OutboxRow) (g : OutboxRow → OutboxRow) (events rows : List OutboxRow)
      → ((e row : OutboxRow) → Agrees e row → Agrees e (g row))
      → All (λ e. All (Agrees e) rows) events
      → All (λ e. All (Agrees e) (update_where (has_event_id event.id) g rows)) events
  agree-after event g events rows keep h =
      All-map
        (λ e a.
          All-update (Agrees e) (Agrees e) (λ _. Unit) event.id g (λ row _ _ p. keep e row p)
            (λ row p. p) rows (All-map (λ _ _. tt) rows a) a)
        events h

  relay_events-Handed :
      (now : ℕ) (events rows : List OutboxRow) (queue : Queue)
      → All (λ e. All (Agrees e) rows) events
      → Handed queue before
      → Handed queue rows
      → Landed (relay_events add refuses now events rows queue)
  unfolding relay_events
  relay_events-Handed now [] rows queue a b h = (b, h)
  relay_events-Handed now (event ∷ events) rows queue (agree, a) b h =
      elim (Option-cases (parse_event event.payload)) [
        | inl bad ↦ elim (Bool-cases (refuses.update event)) [
          | inl refused ↦ rw (relay_events, bad, refused) (b, b)
          | inr written ↦
              rw (relay_events, bad, written)
                (relay_events-Handed now events _ queue
                  (agree-after event (rejected event.attempts now) events rows (λ _ _ p. p) a) b
                  (All-update (IsHandedOver add accepted queue) (IsHandedOver add accepted queue)
                    (Agrees event) event.id (rejected event.attempts now)
                    (λ row same agrees p.
                      owes_nothing (parse_event row.payload) (is_relayed row.event_type)
                        (accepted row.event_type row.id queue)
                        (ap parse_event (agrees same).1 ∙ bad))
                    (λ row p. p) rows agree h))
        ]
        | inr (body, good) ↦ elim (Option-cases (add (job_of event body) queue)) [
          | inl failed ↦ rw (relay_events, good, failed) (b, b)
          | inr (queue', added) ↦ elim (Bool-cases (refuses.update event)) [
            | inl refused ↦
                let b = All-map (kept event body queue queue' added) before b in
                rw (relay_events, good, added, refused) (b, b)
            | inr written ↦
                rw (relay_events, good, added, written)
                  (relay_events-Handed now events _ queue'
                    (agree-after event (processed now) events rows (λ _ _ p. p) a)
                    (All-map (kept event body queue queue' added) before b)
                    (All-update (IsHandedOver add accepted queue) (IsHandedOver add accepted queue')
                      (Agrees event) event.id (processed now)
                      (λ row same agrees p.
                        answers (owes_job (processed now row))
                          (accepted row.event_type row.id queue')
                          (ap (λ name. accepted name row.id queue') (agrees same).0
                            ∙ ap (λ id. accepted event.event_type id queue')
                                (same_id row.id event.id same)
                            ∙ accepts (job_of event body) queue queue' added))
                      (kept event body queue queue' added) rows agree h))
          ]
        ]
      ]
    where
      kept :
          (event : OutboxRow) (body : ProvisioningEvent) (queue queue' : Queue)
          → add (job_of event body) queue ≡ some queue'
          → (row : OutboxRow) → IsHandedOver add accepted queue row
          → IsHandedOver add accepted queue' row
      kept event body queue queue' added row p =
          still (owes_job row) (accepted row.event_type row.id queue)
            (accepted row.event_type row.id queue')
            (remembers (job_of event body) queue queue' row.event_type row.id added) p

All-place :
    (P : OutboxRow → Type 0) (x : OutboxRow) (ys : List OutboxRow)
    → P x
    → All P ys
    → All P (place_event x ys)
All-place P x [] p h = (p, tt)
All-place P x (y ∷ ys) p (q, h) =
    if_elim (All P) (leb x.created_at y.created_at) (λ _. (p, (q, h)))
      (λ _. (q, All-place P x ys p h))

All-oldest : (P : OutboxRow → Type 0) (xs : List OutboxRow) → All P xs → All P (oldest_first xs)
All-oldest P [] h = tt
All-oldest P (x ∷ xs) (p, h) = All-place P x (oldest_first xs) p (All-oldest P xs h)

-- A poll that fails at any point (a job that cannot be added, an update or the commit that is refused),
-- or not at all, whatever other transactions have locked, marks no
-- provisioning event as processed whose job the queue has not accepted: if that held of every row
-- before, it holds of every row after. Rows with one id have one type and payload; the queue accepts
-- the job that `add` returns with, and does not forget what it accepted.
pub poll-IsHandedOver :
    {Queue : Type 0} (add : Job → Queue → Option Queue) (refuses : Refusals)
    (accepted : EventType → ℕ → Queue → Bool) (is_locked : OutboxRow → Bool) (now : ℕ) (t : Tables)
    (queue : Queue)
    → Accepts add accepted
    → Remembers add accepted
    → IsKeyed t.outbox
    → All (IsHandedOver add accepted queue) t.outbox
    → All
        (IsHandedOver add accepted (poll add refuses is_locked now t queue).1)
        (poll add refuses is_locked now t queue).0.outbox
unfolding poll
poll-IsHandedOver {Queue} add refuses accepted is_locked now t queue accepts remembers keyed h =
    let Near = λ (e : OutboxRow). All (Agrees e) t.outbox in
    let near : All Near (waiting_events is_locked t.outbox) =
      All-take Near 10 _
        (All-select Near (is_waiting is_locked) _ (All-oldest Near t.outbox keyed)) in
    shown (relay_events add refuses now (waiting_events is_locked t.outbox) t.outbox queue) (
      relay_events-Handed add refuses accepted accepts remembers t.outbox now
        (waiting_events is_locked t.outbox) t.outbox queue near h h)
  where
    shown :
        (r : Option (List OutboxRow) × Queue)
        → All (IsHandedOver add accepted r.1) t.outbox
          × All (IsHandedOver add accepted r.1) (or_before t.outbox r.0)
        → All (IsHandedOver add accepted r.1) (committed add refuses t r.0).outbox
    shown (none, q) (b, p) = p
    shown (some rows, q) (b, p) =
        if_elim (λ (x : Tables). All (IsHandedOver add accepted q) x.outbox) refuses.commit (λ _. b)
          (λ _. p)
