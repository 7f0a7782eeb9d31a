-- ===== src/Sessions/Lockout.antt =====
-- The counter of failed logins: it blocks at the maximum and only within its window.
use gatway_pagamento_escrito.Prelude.{
  arith, ℕ, ◌+◌, ◌<◌, ◌≡◌, true, false, none, some, List, [], ◌∷◌, ltb, leb, ==_refl, ◌&&◌, length,
  All,
}
use gatway_pagamento_escrito.Sessions.Redis.{Text, Redis, Keys, read, set}
use gatway_pagamento_escrito.Sessions.Store.{
  is_login_blocked, record_login_failure, clear_login_failures,
}

module _ (digest : Text → ℕ) where
  ltb_lem : (a b : ℕ) → a < b → ltb a b ≡ true
  ltb_lem a b h = ground arith

  -- Failures recorded at the given times, in order.
  abbrev pub failures : Text → ℕ → List ℕ → Redis → Redis
  failures fingerprint window [] r = r
  failures fingerprint window (t ∷ ts) r =
      failures fingerprint window ts (record_login_failure digest fingerprint window t r).1

  -- The counter stands at `n` until `until`.
  abbrev Counts : Text → ℕ → ℕ → Redis → Type 0
  Counts fingerprint n until r =
      r.login_attempts (digest fingerprint) ≡ some (record { value = n; expires_at = until })

  set_self :
      (k : ℕ) (n until : ℕ) (keys : Keys ℕ)
      → set k n until keys k ≡ some (record { value = n; expires_at = until })
  set_self k n until keys = rw (==_refl k)

  record_login_failure-Counts :
      (fingerprint : Text) (window now n until : ℕ) (r : Redis)
      → now < until
      → Counts fingerprint n until r
      → Counts fingerprint (n + 1) until (record_login_failure digest fingerprint window now r).1
  unfolding record_login_failure
  record_login_failure-Counts fingerprint window now n until r before h = ground arith

  record_login_failure-Counts_first :
      (fingerprint : Text) (window now : ℕ) (r : Redis)
      → read now r.login_attempts (digest fingerprint) ≡ none
      → Counts fingerprint 1 (now + window) (record_login_failure digest fingerprint window now r).1
  unfolding record_login_failure
  record_login_failure-Counts_first fingerprint window now r h = ground arith

  failures-Counts :
      (fingerprint : Text) (window : ℕ) (ts : List ℕ) (n until : ℕ) (r : Redis)
      → All (λ t. t < until) ts
      → Counts fingerprint n until r
      → (total : ℕ) → total ≡ n + length ts
      → Counts fingerprint total until (failures fingerprint window ts r)
  failures-Counts fingerprint window [] n until r a h total e =
      let q : total ≡ n = ground arith in rw (q, h)
  failures-Counts fingerprint window (t ∷ ts) n until r a h total e =
      failures-Counts fingerprint window ts (n + 1) until
        (record_login_failure digest fingerprint window t r).1 a.1
        (record_login_failure-Counts fingerprint window t n until r a.0 h) total (ground arith)

  Counts-is_login_blocked :
      (fingerprint : Text) (maximum now n until : ℕ) (r : Redis)
      → Counts fingerprint n until r
      → 0 < maximum
      → is_login_blocked digest fingerprint maximum now r ≡ (ltb now until && leb maximum n)
  unfolding is_login_blocked
  Counts-is_login_blocked fingerprint maximum now n until r c positive = ground arith

  -- After a first failure and the failures `ts` in its window, a login in the window is blocked just
  -- when the failures have reached the maximum, and a login after it is not blocked.
  pub failures-is_login_blocked :
      (fingerprint : Text) (window maximum first now : ℕ) (ts : List ℕ) (r : Redis)
      → read first r.login_attempts (digest fingerprint) ≡ none
      → All (λ t. t < first + window) ts
      → 0 < maximum
      → is_login_blocked digest fingerprint maximum now (failures fingerprint window (first ∷ ts) r)
        ≡ (ltb now (first + window) && leb maximum (length (first ∷ ts)))
  unfolding is_login_blocked
  failures-is_login_blocked fingerprint window maximum first now ts r h a positive =
      Counts-is_login_blocked fingerprint maximum now (length (first ∷ ts)) (first + window)
        (failures fingerprint window (first ∷ ts) r)
        (failures-Counts fingerprint window ts 1 (first + window)
          (record_login_failure digest fingerprint window first r).1 a
          (record_login_failure-Counts_first fingerprint window first r h) (length (first ∷ ts))
          (ground arith))
        positive

  -- A login that succeeds clears the count of its fingerprint.
  pub clear_login_failures-is_login_blocked :
      (fingerprint : Text) (maximum now : ℕ) (r : Redis)
      → 0 < maximum
      → is_login_blocked digest fingerprint maximum now (clear_login_failures digest fingerprint r)
        ≡ false
  unfolding is_login_blocked clear_login_failures
  clear_login_failures-is_login_blocked fingerprint maximum now r positive = ground arith
