-- ===== src/Throttle/Block.antt =====
-- For how long `RedisThrottlerStorage.increment` blocks.
use gatway_pagamento_escrito.Prelude.{
  arith, ℕ, ◌+◌, ◌≤◌, ◌<◌, ◌≡◌, refl, true, Option, none, some, ltb, if_elim,
}
use gatway_pagamento_escrito.Sessions.Redis.{Entry}
use gatway_pagamento_escrito.Throttle.{
  Hits, Storage, pttl, hit, held, duration_of, count_hit, increment,
}

-- An answer that blocks gives the time for which the key stays blocked.
abbrev IsTimed : ℕ → ℕ → Hits × Storage → Type 0
IsTimed now key (answer, s) =
    answer.is_blocked ≡ true → pttl now (s.blocks key) ≡ answer.time_to_block_expire

count_hit-IsTimed :
    (key : ℕ) (e : Entry ℕ) (limit duration now : ℕ) (s : Storage)
    → IsTimed now key (count_hit key e limit duration now s)
count_hit-IsTimed key e limit duration now s = ground arith

module _ (key ttl limit block_duration now : ℕ) (s : Storage) where
  increment-IsTimed : IsTimed now key (increment key ttl limit block_duration now s)
  unfolding increment
  increment-IsTimed =
      if_elim (IsTimed now key) (ltb 0 (pttl now (s.blocks key))) {x = held key now s}
        {y = count_hit key (hit now ttl (s.hits key)) limit (duration_of ttl block_duration) now s}
        (λ _ _. refl)
        (λ _.
          count_hit-IsTimed key (hit now ttl (s.hits key)) limit (duration_of ttl block_duration)
            now s)

pttl_later :
    (now later : ℕ) (o : Option (Entry ℕ)) (n : ℕ)
    → pttl now o ≡ n
    → now ≤ later
    → later < now + n
    → ltb 0 (pttl later o) ≡ true
pttl_later now later none n e h l = ground arith
pttl_later now later (some x) n e h l = ground arith

increment-holds :
    (key ttl limit block_duration now : ℕ) (s : Storage)
    → ltb 0 (pttl now (s.blocks key)) ≡ true
    → ((increment key ttl limit block_duration now s).0.is_blocked ≡ true)
      × ((increment key ttl limit block_duration now s).1 ≡ s)
unfolding increment
increment-holds key ttl limit block_duration now s h = rw (h) (refl, refl)

-- After a call that blocks, each call for the same key before the time that the answer gives is over
-- is blocked, whatever its limits, and leaves the storage as it is.
pub increment-increment :
    (key ttl limit block_duration now : ℕ) (s : Storage) (ttl' limit' block_duration' later : ℕ)
    → (increment key ttl limit block_duration now s).0.is_blocked ≡ true
    → now ≤ later
    → later < now + (increment key ttl limit block_duration now s).0.time_to_block_expire
    → ((increment key ttl' limit' block_duration' later
          (increment key ttl limit block_duration now s).1).0.is_blocked
        ≡ true)
      × ((increment key ttl' limit' block_duration' later
            (increment key ttl limit block_duration now s).1).1
          ≡ (increment key ttl limit block_duration now s).1)
increment-increment key ttl limit block_duration now s ttl' limit' block_duration' later blocked
      after before =
    increment-holds key ttl' limit' block_duration' later
      (increment key ttl limit block_duration now s).1
      (pttl_later now later ((increment key ttl limit block_duration now s).1.blocks key) _
        (increment-IsTimed key ttl limit block_duration now s blocked) after before)
