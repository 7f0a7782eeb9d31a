-- ===== src/Sessions/Reuse.antt =====
-- A refresh token that has been rotated and comes back: the theft of a session.
use gatway_pagamento_escrito.Prelude.{
  arith, ℕ, ◌+◌, ◌<◌, ◌≡◌, sym, ap, ◌∙◌, ◌≢◌, true, false, Option, none, some, List, [], ◌∷◌, ◌==◌,
  Bool-cases, Option-cases, inl, inr,
}
use gatway_pagamento_escrito.Sessions.Redis.{
  Text, RefreshSession, Redis, Keys, read, members, contains, del_all,
}
use gatway_pagamento_escrito.Sessions.Store.{
  Rotated, bad_length, revoke_family, store_refresh_session, create_refresh_token, new_session,
  retire, rotate_live, rotate_absent, rotate_refresh_session,
}

del_all-contains :
    {V : Type 0} (ks : List ℕ) (keys : Keys V) (h : ℕ)
    → contains h ks ≡ true
    → del_all ks keys h ≡ none
del_all-contains [] keys h e = absurd (cc)
del_all-contains (k ∷ ks) keys h e = ground (arith, del_all-contains ks keys h)

pub revoke_family-tokens :
    (family_id now : ℕ) (r : Redis) (h : ℕ)
    → contains h (members now r.families family_id) ≡ true
    → (revoke_family family_id now r).tokens h ≡ none
unfolding revoke_family
revoke_family-tokens family_id now r h e =
    del_all-contains (members now r.families family_id) r.tokens h e

some_pair :
    {A B : Type 0} {a a' : A} {b b' : B}
    → ◌≡◌ {A = Option A × B} (some a, b) (some a', b')
    → (a ≡ a') × (b ≡ b')
some_pair e = ground arith

none_pair :
    {A B : Type 0} {a' : Option A} {b b' : B}
    → ◌≡◌ {A = Option A × B} (none, b) (a', b')
    → (a' ≡ none) × (b ≡ b')
none_pair e = ground arith

none≢some : {A B : Type 0} {a : A} {b b' : B} → ¬ (◌≡◌ {A = Option A × B} (none, b) (some a, b'))
none≢some e = cc

rotate_absent-none :
    (digest : Text → ℕ) (hash now : ℕ) (r : Redis) {x : Rotated} {r' : Redis}
    → ¬ (rotate_absent digest hash now r ≡ (some x, r'))
unfolding rotate_absent
rotate_absent-none digest hash now r e = elim (Option-cases (read now r.used hash)) [
  | inl missing ↦ none≢some (rw (rotate_absent, missing) at e)
  | inr (family, found) ↦ none≢some (rw (rotate_absent, found) at e)
]

-- What a call that rotates has written.
module _ (digest : Text → ℕ) where
  abbrev pub rotated_redis : Text → ℕ → Text → ℕ → Text → ℕ → RefreshSession → Redis → Redis
  rotated_redis token ttl token' token_id' csrf' now session r =
      store_refresh_session
        (new_session digest session.identity_id
          (create_refresh_token digest token' token_id' session.family_id) csrf')
        (digest token') ttl now (retire digest (digest token) session ttl now r)

  rotate_live-eq-some :
      (token csrf : Text) (ttl : ℕ) (token' : Text) (token_id' : ℕ) (csrf' : Text) (now : ℕ)
      (session : RefreshSession) (r : Redis) {x : Rotated} {r1 : Redis}
      → rotate_live digest (digest token) csrf ttl token' token_id' csrf' now session r
        ≡ (some x, r1)
      → (x.previous ≡ session) × (r1 ≡ rotated_redis token ttl token' token_id' csrf' now session r)
  unfolding rotate_live
  rotate_live-eq-some token csrf ttl token' token_id' csrf' now session r {x} {r1} e =
      elim (Bool-cases (session.csrf_hash == digest csrf)) [
        | inl same ↦
            let (a, b) = some_pair (rw (same) at e) in (sym (ap (λ y. y.previous) a), sym b)
        | inr other ↦ absurd (none≢some (rw (other) at e))
      ]

  rotate_refresh_session-eq-some :
      (token csrf : Text) (ttl : ℕ) (token' : Text) (token_id' : ℕ) (csrf' : Text) (now : ℕ)
      (r : Redis) {x : Rotated} {r1 : Redis}
      → rotate_refresh_session digest token csrf ttl token' token_id' csrf' now r ≡ (some x, r1)
      → (bad_length token ≡ false)
        × (read now r.tokens (digest token) ≡ some x.previous)
        × (r1 ≡ rotated_redis token ttl token' token_id' csrf' now x.previous r)
  unfolding rotate_refresh_session
  rotate_refresh_session-eq-some token csrf ttl token' token_id' csrf' now r {x} {r1} e =
      elim (Bool-cases (bad_length csrf)) [
        | inl bad ↦ absurd (none≢some (rw (rotate_refresh_session, bad) at e))
        | inr good ↦ elim (Bool-cases (bad_length token)) [
          | inl bad ↦ absurd (none≢some (rw (rotate_refresh_session, good, bad) at e))
          | inr fine ↦ elim (Option-cases (read now r.tokens (digest token))) [
            | inl missing ↦ absurd (
                rotate_absent-none digest (digest token) now r
                  (rw (rotate_refresh_session, good, fine, missing) at e))
            | inr (session, found) ↦
                let (p, q) =
                  rotate_live-eq-some token csrf ttl token' token_id' csrf' now session r
                    (rw (rotate_refresh_session, good, fine, found) at e) in
                (fine, found ∙ ap some (sym p), rw (p, q))
          ]
        ]
      ]

  -- The keys after a rotation.
  module _ (token : Text) (ttl : ℕ) (token' : Text) (token_id' : ℕ) (csrf' : Text) (now : ℕ)
      (session : RefreshSession) (r : Redis) (later : ℕ) (before : later < now + ttl) where
    abbrev r1 : Redis
    r1 = rotated_redis token ttl token' token_id' csrf' now session r

    rotated-used : read later r1.used (digest token) ≡ some session.family_id
    unfolding store_refresh_session retire
    rotated-used = ground arith

    rotated-tokens : digest token ≢ digest token' → read later r1.tokens (digest token) ≡ none
    unfolding store_refresh_session retire
    rotated-tokens distinct = ground arith

    rotated-families : contains (digest token') (members later r1.families session.family_id) ≡ true
    unfolding store_refresh_session retire
    rotated-families = ground arith

  -- A token that was rotated, to one of another digest, and is presented again while its mark lives,
  -- with a CSRF token of a possible length, is refused, and afterwards neither the token issued in its
  -- place nor any other of the family's set `h` is stored.
  pub rotate-rotate_again :
      (token csrf : Text) (ttl : ℕ) (token' : Text) (token_id' : ℕ) (csrf' : Text) (now : ℕ)
      (r : Redis) {x : Rotated} {r1 : Redis}
      → rotate_refresh_session digest token csrf ttl token' token_id' csrf' now r ≡ (some x, r1)
      → digest token ≢ digest token'
      → (csrf2 : Text) (ttl2 : ℕ) (token2 : Text) (token_id2 : ℕ) (csrf2' : Text) (later : ℕ)
      → bad_length csrf2 ≡ false
      → later < now + ttl
      → (answer : Option Rotated) (r2 : Redis)
      → rotate_refresh_session digest token csrf2 ttl2 token2 token_id2 csrf2' later r1
        ≡ (answer, r2)
      → (h : ℕ) → contains h (members later r1.families x.previous.family_id) ≡ true
      → (answer ≡ none) × (r2.tokens (digest token') ≡ none) × (r2.tokens h ≡ none)
  unfolding rotate_refresh_session rotate_absent
  rotate-rotate_again token csrf ttl token' token_id' csrf' now r {x} {r1} e distinct csrf2 ttl2
        token2 token_id2 csrf2' later good before answer r2 e2 h m =
      let (fine, found, written) =
        rotate_refresh_session-eq-some token csrf ttl token' token_id' csrf' now r e in
      let dead : read later r1.tokens (digest token) ≡ none = rw (
        written,
        rotated-tokens token ttl token' token_id' csrf' now x.previous r later before distinct,
      ) in
      let mark : read later r1.used (digest token) ≡ some x.previous.family_id =
        rw (written, rotated-used token ttl token' token_id' csrf' now x.previous r later before) in
      let held : contains (digest token') (members later r1.families x.previous.family_id) ≡ true =
        rw (
          written,
          rotated-families token ttl token' token_id' csrf' now x.previous r later before,
        ) in
      let (a, b) =
        none_pair (rw (rotate_refresh_session, good, fine, dead, rotate_absent, mark) at e2) in
      (
        a,
        rw (sym b, revoke_family-tokens x.previous.family_id later r1 (digest token') held),
        rw (sym b, revoke_family-tokens x.previous.family_id later r1 h m),
      )
