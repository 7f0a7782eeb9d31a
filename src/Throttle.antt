-- ===== src/Throttle.antt =====
-- apps/api/src/common/redis-throttler.storage.ts: the script of `RedisThrottlerStorage.increment`, on
-- the keys `throttle:hits:` and `throttle:block:`, each with the digest of the throttler's name and
-- key as a number. Times are milliseconds; Redis takes only positive ones.
use gatway_pagamento_escrito.Prelude.{
  ℕ, ◌+◌, ◌-◌, Bool, true, false, Option, none, some, ltb, if◌then◌else◌,
}
use gatway_pagamento_escrito.Sessions.Redis.{Entry, Keys, read, set}
pub mod Block
mod Window
mod Tests

pub record Hits : Type 0 where
  pub total_hits : ℕ
  pub time_to_expire : ℕ
  pub is_blocked : Bool
  pub time_to_block_expire : ℕ

pub record Storage : Type 0 where
  pub hits : Keys ℕ
  pub blocks : Keys ℕ

-- `PTTL`, with 0 for a key that is not there: the code takes the greater of it and 0.
abbrev pub pttl : ℕ → Option (Entry ℕ) → ℕ
pttl now none = 0
pttl now (some e) = e.expires_at - now

abbrev pub value_or_zero : Option ℕ → ℕ
value_or_zero none = 0
value_or_zero (some n) = n

-- `INCR`, and `PEXPIRE` on the first hit
abbrev pub hit : ℕ → ℕ → Option (Entry ℕ) → Entry ℕ
hit now ttl none = record { value = 1; expires_at = now + ttl }
hit now ttl (some e) =
    if ltb now e.expires_at
    then record { value = e.value + 1; expires_at = e.expires_at }
    else record { value = 1; expires_at = now + ttl }

abbrev pub count_hit : ℕ → Entry ℕ → (limit duration now : ℕ) → Storage → Hits × Storage
count_hit key e limit duration now s =
    let hits = set key e.value e.expires_at s.hits in
    if ltb limit e.value
    then (
      record {
        total_hits = e.value;
        time_to_expire = e.expires_at - now;
        is_blocked = true;
        time_to_block_expire = duration;
      },
      record { hits = hits; blocks = set key 1 (now + duration) s.blocks },
    )
    else (
      record {
        total_hits = e.value;
        time_to_expire = e.expires_at - now;
        is_blocked = false;
        time_to_block_expire = 0;
      },
      record { hits = hits; blocks = s.blocks },
    )

-- The answer while the key is blocked
abbrev pub held : (key now : ℕ) → Storage → Hits × Storage
held key now s = (
  record {
    total_hits = value_or_zero (read now s.hits key);
    time_to_expire = pttl now (s.hits key);
    is_blocked = true;
    time_to_block_expire = pttl now (s.blocks key);
  },
  s,
)

-- `blockDuration > 0 ? blockDuration : ttl`
abbrev pub duration_of : (ttl block_duration : ℕ) → ℕ
duration_of ttl block_duration = if ltb 0 block_duration then block_duration else ttl

-- `increment`
unfoldable pub increment : (key ttl limit block_duration now : ℕ) → Storage → Hits × Storage
increment key ttl limit block_duration now s =
    if ltb 0 (pttl now (s.blocks key))
    then held key now s
    else count_hit key (hit now ttl (s.hits key)) limit (duration_of ttl block_duration) now s
