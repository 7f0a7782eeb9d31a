-- ===== src/Throttle/Window.antt =====
-- How many calls `RedisThrottlerStorage.increment` lets through while one window of hits lasts.
use gatway_pagamento_escrito.Prelude.{
  subst, arith, ℕ, suc, ◌+◌, ◌-◌, ◌≤◌, ◌<◌, ◌≡◌, refl, sym, ap, ◌∙◌, true, false, Bool, none, some,
  List, [], ◌∷◌, ltb, length, All, ==_refl, if◌then◌else◌, inl, inr, Bool-cases,
}
use gatway_pagamento_escrito.Sessions.Redis.{Entry}
use gatway_pagamento_escrito.Throttle.{
  Hits, Storage, pttl, hit, held, duration_of, count_hit, increment,
}

abbrev pub smaller : ℕ → ℕ → ℕ
smaller m n = if ltb m n then m else n

module _ (key ttl limit block_duration : ℕ) where
  -- The number of calls at these times, one after the other, that are not blocked
  abbrev tally : Bool → ℕ → ℕ
  tally true n = n
  tally false n = suc n

  unfoldable pub passed : List ℕ → Storage → ℕ
  passed [] s = 0
  passed (now ∷ times) s =
      let (answer, s') = increment key ttl limit block_duration now s in
      tally answer.is_blocked (passed times s')

  -- The hits that the window has counted
  abbrev Counted : ℕ → ℕ → Storage → Type 0
  Counted hits end s = s.hits key ≡ some (record { value = hits; expires_at = end })

  hit-counted :
      (hits end now : ℕ)
      → now < end
      → hit now ttl (some (record { value = hits; expires_at = end }))
        ≡ record { value = suc hits; expires_at = end }
  hit-counted hits end now h = ground arith

  increment-hits :
      (e : Entry ℕ) (now : ℕ) (s : Storage)
      → hit now ttl (s.hits key) ≡ e
      → ltb 0 (pttl now (s.blocks key)) ≡ false
      → increment key ttl limit block_duration now s
        ≡ count_hit key e limit (duration_of ttl block_duration) now s
  unfolding increment
  increment-hits e now s h free =
      rw free (ap (λ e. count_hit key e limit (duration_of ttl block_duration) now s) h)

  increment-counts :
      (hits end now : ℕ) (s : Storage)
      → Counted hits end s
      → now < end
      → ltb 0 (pttl now (s.blocks key)) ≡ false
      → increment key ttl limit block_duration now s
        ≡ count_hit key
            (record { value = suc hits; expires_at = end })
            limit
            (duration_of ttl block_duration)
            now
            s
  increment-counts hits end now s c h free =
      increment-hits _ now s (ap (hit now ttl) c ∙ hit-counted hits end now h) free

  -- A call beyond the limit is blocked, and the window goes on.
  abbrev Stops : ℕ → ℕ → Hits × Storage → Type 0
  Stops hits end (answer, s) =
      (answer.is_blocked ≡ true) × (more : ℕ) × (hits ≤ more) × Counted more end s

  count_hit-Stops :
      (hits end duration now : ℕ) (s : Storage)
      → limit ≤ hits
      → Stops hits end
          (count_hit key (record { value = suc hits; expires_at = end }) limit duration now s)
  count_hit-Stops hits end duration now s full =
      let over : ltb limit (suc hits) ≡ true = ground arith in
      rw over (refl, suc hits, omega arith, rw (==_refl key) refl)

  increment-Stops :
      (hits end now : ℕ) (s : Storage)
      → Counted hits end s
      → now < end
      → limit ≤ hits
      → Stops hits end (increment key ttl limit block_duration now s)
  unfolding increment
  increment-Stops hits end now s c h full = elim (Bool-cases (ltb 0 (pttl now (s.blocks key)))) [
    | inl blocked ↦ subst (Stops hits end) (sym (held_back blocked)) (refl, hits, omega arith, c)
    | inr free ↦
        subst (Stops hits end) (sym (increment-counts hits end now s c h free))
          (count_hit-Stops hits end (duration_of ttl block_duration) now s full)
  ]
    where
      held_back :
          ltb 0 (pttl now (s.blocks key)) ≡ true
          → increment key ttl limit block_duration now s ≡ held key now s
      held_back blocked = rw blocked refl

  passed-full :
      (times : List ℕ) (hits end : ℕ) (s : Storage)
      → All (λ now. now < end) times
      → limit ≤ hits
      → Counted hits end s
      → passed times s ≡ 0
  unfolding passed
  passed-full [] hits end s h full c = refl
  passed-full (now ∷ times) hits end s (h, hs) full c =
      let (blocked, more, le, c') = increment-Stops hits end now s c h full in
      ap (λ b. tally b (passed times (increment key ttl limit block_duration now s).1)) blocked
      ∙ passed-full times more end (increment key ttl limit block_duration now s).1 hs (omega arith)
          c'

  -- A call within the limit is let through, and the window goes on.
  abbrev Passes : ℕ → ℕ → Hits × Storage → Type 0
  Passes hits end (answer, s) =
      (answer.is_blocked ≡ false) × Counted hits end s × (s.blocks key ≡ none)

  count_hit-Passes :
      (hits end duration now : ℕ) (s : Storage)
      → hits ≤ limit
      → s.blocks key ≡ none
      → Passes hits end
          (count_hit key (record { value = hits; expires_at = end }) limit duration now s)
  count_hit-Passes hits end duration now s within b =
      let fits : ltb limit hits ≡ false = ground arith in rw fits (refl, rw (==_refl key) refl, b)

  suc-smaller :
      (n hits : ℕ)
      → hits < limit
      → suc (smaller n (limit - suc hits)) ≡ smaller (suc n) (limit - hits)
  suc-smaller n hits h = ground arith

  passed-Counted :
      (times : List ℕ) (hits end : ℕ) (s : Storage)
      → All (λ now. now < end) times
      → hits ≤ limit
      → Counted hits end s
      → s.blocks key ≡ none
      → passed times s ≡ smaller (length times) (limit - hits)
  unfolding passed
  passed-Counted [] hits end s h within c b = ground arith
  passed-Counted (now ∷ times) hits end s (h, hs) within c b = elim (Bool-cases (ltb hits limit)) [
    | inl less ↦
        let (free, c', b') =
          subst (Passes (suc hits) end)
            (sym (increment-counts hits end now s c h (ap (λ o. ltb 0 (pttl now o)) b)))
            (count_hit-Passes (suc hits) end (duration_of ttl block_duration) now s (ground arith)
              b) in
        ap (λ x. tally x (passed times (increment key ttl limit block_duration now s).1)) free
        ∙ ap suc (
            passed-Counted times (suc hits) end (increment key ttl limit block_duration now s).1 hs
              (ground arith) c' b')
        ∙ suc-smaller (length times) hits (ground arith)
    | inr last ↦
        passed-full (now ∷ times) hits end s (h, hs) (ground arith) c
        ∙ none_left (length times) (ground arith)
  ]
    where
      none_left : (n : ℕ) → limit ≤ hits → 0 ≡ smaller (suc n) (limit - hits)
      none_left n full = ground arith

  -- Of any calls for a key that has no hits and no block, with the same limits and all before the
  -- time to live of the first one is over, exactly as many are let through as the limit allows, or
  -- all if there are fewer.
  pub increment-passed :
      (start : ℕ) (times : List ℕ) (s : Storage)
      → s.hits key ≡ none
      → s.blocks key ≡ none
      → All (λ now. now < start + ttl) times
      → passed (start ∷ times) s ≡ smaller (suc (length times)) limit
  unfolding passed
  increment-passed start times s new b h =
      let first =
        increment-hits (record { value = 1; expires_at = start + ttl }) start s
          (ap (hit start ttl) new) (ap (λ o. ltb 0 (pttl start o)) b) in
      let after = (increment key ttl limit block_duration start s).1 in
      elim (Bool-cases (ltb 0 limit)) [
        | inl some_left ↦
            let (free, c, b') = subst (Passes 1 (start + ttl)) (sym first) (
              count_hit-Passes 1 (start + ttl) (duration_of ttl block_duration) start s
                (ground arith) b) in
            ap (λ x. tally x (passed times after)) free
            ∙ ap suc (passed-Counted times 1 (start + ttl) after h (ground arith) c b')
            ∙ suc-smaller (length times) 0 (ground arith)
            ∙ all_left (length times)
        | inr none_left ↦
            let (blocked, more, le, c) = subst (Stops 0 (start + ttl)) (sym first) (
              count_hit-Stops 0 (start + ttl) (duration_of ttl block_duration) start s
                (ground arith)) in
            ap (λ x. tally x (passed times after)) blocked
            ∙ passed-full times more (start + ttl) after h (ground arith) c
            ∙ nothing (length times) (ground arith)
      ]
    where
      nothing : (n : ℕ) → limit ≤ 0 → 0 ≡ smaller (suc n) limit
      nothing n full = ground arith

      all_left : (n : ℕ) → smaller (suc n) (limit - 0) ≡ smaller (suc n) limit
      all_left n = ground arith
