-- ===== src/Sessions/Challenge.antt =====
-- The life of a challenge: from `createChallenge` to the one `consumeChallenge` that gets it.
use gatway_pagamento_escrito.Prelude.{
  arith, ℕ, ◌+◌, ◌≤◌, ◌≡◌, ◌∙◌, false, none, some, ltb, ==_refl, if◌then◌else◌,
}
use gatway_pagamento_escrito.Sessions.Redis.{Text, AuthChallenge, Redis, Keys, read, set}
use gatway_pagamento_escrito.Sessions.Store.{bad_length, create_challenge, consume_challenge}

module _ (digest : Text → ℕ) where
  consume_challenge-read :
      (token : Text) (now : ℕ) (r : Redis)
      → bad_length token ≡ false
      → (consume_challenge digest token now r).0 ≡ read now r.challenges (digest token)
  unfolding consume_challenge
  consume_challenge-read token now r good = ground arith

  consume_challenge-gone :
      (token : Text) (now later : ℕ) (r : Redis)
      → bad_length token ≡ false
      → now ≤ later
      → read later (consume_challenge digest token now r).1.challenges (digest token) ≡ none
  unfolding consume_challenge
  consume_challenge-gone token now later r good h = ground arith

  read-set :
      (k : ℕ) (challenge : AuthChallenge) (until later : ℕ) (keys : Keys AuthChallenge)
      → read later (set k challenge until keys) k
        ≡ (if ltb later until then some challenge else none)
  read-set k challenge until later keys = rw (==_refl k)

  -- A challenge created at `now` for `ttl` under a token of a possible length is what the next call
  -- that presents the token gets, when it comes before the time is over; one that comes later gets
  -- nothing, and so does the call after it, no earlier than it, in each case.
  pub create_challenge-consume_challenge :
      (challenge : AuthChallenge) (ttl : ℕ) (token : Text) (now later again : ℕ) (r : Redis)
      → bad_length token ≡ false
      → later ≤ again
      → ((consume_challenge digest token later
            (create_challenge digest challenge ttl token now r)).0
          ≡ (if ltb later (now + ttl) then some challenge else none))
        × ((consume_challenge digest token again
              (consume_challenge digest token later
                (create_challenge digest challenge ttl token now r)).1).0
            ≡ none)
  unfolding create_challenge
  create_challenge-consume_challenge challenge ttl token now later again r good h = (
    consume_challenge-read token later (create_challenge digest challenge ttl token now r) good
        ∙ read-set (digest token) challenge (now + ttl) later r.challenges,
    consume_challenge-read token again
          (consume_challenge digest token later
            (create_challenge digest challenge ttl token now r)).1
          good
        ∙ consume_challenge-gone token later again
            (create_challenge digest challenge ttl token now r) good h,
  )
