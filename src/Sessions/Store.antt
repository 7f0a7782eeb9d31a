-- ===== src/Sessions/Store.antt =====
-- The methods of `AuthSessionStore`.
use gatway_pagamento_escrito.Prelude.{
  ℕ, ◌+◌, Bool, false, not, ◌||◌, Option, none, some, List, [], ◌∷◌, ltb, leb, ◌==◌, if◌then◌else◌,
}
use gatway_pagamento_escrito.Sessions.Redis.{
  Text, AuthChallenge, RefreshSession, Redis, read, set, del, members, sadd_expire, srem, del_all,
}

pub record RefreshTokenMaterial : Type 0 where
  pub token : Text
  pub hash : ℕ
  pub token_id : ℕ
  pub family_id : ℕ

pub record RefreshSessionMaterial : Type 0 where
  pub material : RefreshTokenMaterial
  pub csrf_token : Text

pub record Rotated : Type 0 where
  pub previous : RefreshSession
  pub next : RefreshSessionMaterial

abbrev pub bad_length : Text → Bool
bad_length t = ltb t.length 32 || ltb 512 t.length

-- `revokeFamily`
unfoldable pub revoke_family : ℕ → ℕ → Redis → Redis
revoke_family family_id now r = record r {
  tokens = del_all (members now r.families family_id) r.tokens;
  families = del family_id r.families;
  family_meta = del family_id r.family_meta;
  identities = elim (read now r.family_meta family_id) [
    | none ↦ r.identities
    | some identity_id ↦ srem identity_id family_id r.identities
  ];
}

abbrev pub revoke_families : List ℕ → ℕ → Redis → Redis
revoke_families [] now r = r
revoke_families (f ∷ fs) now r = revoke_families fs now (revoke_family f now r)

-- `revokeIdentity`
unfoldable pub revoke_identity : ℕ → ℕ → Redis → Redis
revoke_identity identity_id now r =
    let r' = revoke_families (members now r.identities identity_id) now r in
    record r' { identities = del identity_id r'.identities }

-- `storeRefreshSession`
unfoldable pub store_refresh_session : RefreshSession → ℕ → ℕ → ℕ → Redis → Redis
store_refresh_session session hash ttl now r = record r {
  tokens = set hash session (now + ttl) r.tokens;
  families = sadd_expire now session.family_id hash (now + ttl) r.families;
  family_meta = set session.family_id session.identity_id (now + ttl) r.family_meta;
  identities = sadd_expire now session.identity_id session.family_id (now + ttl) r.identities;
}

module _ (digest : Text → ℕ) where
  -- `hashRefreshToken`, which throws on a bad length
  unfoldable pub hash_refresh_token : Text → Option ℕ
  hash_refresh_token token = if bad_length token then none else some (digest token)

  -- `createChallenge`
  unfoldable pub create_challenge : AuthChallenge → ℕ → Text → ℕ → Redis → Redis
  create_challenge challenge ttl token now r = record r {
    challenges = set (digest token) challenge (now + ttl) r.challenges;
  }

  -- `consumeChallenge`
  unfoldable pub consume_challenge : Text → ℕ → Redis → Option AuthChallenge × Redis
  consume_challenge token now r =
      if bad_length token then (none, r) else elim (read now r.challenges (digest token)) [
        | none ↦ (none, r)
        | some challenge ↦
            (some challenge, record r { challenges = del (digest token) r.challenges })
      ]

  -- `createRefreshToken`
  abbrev pub create_refresh_token : Text → ℕ → ℕ → RefreshTokenMaterial
  create_refresh_token token token_id family_id = record {
    token = token;
    hash = digest token;
    token_id = token_id;
    family_id = family_id;
  }

  abbrev pub new_session : ℕ → RefreshTokenMaterial → Text → RefreshSession
  new_session identity_id material csrf_token = record {
    identity_id = identity_id;
    token_id = material.token_id;
    family_id = material.family_id;
    csrf_hash = digest csrf_token;
  }

  -- `createRefreshSession`
  unfoldable pub create_refresh_session :
      ℕ
      → ℕ
      → (family_id : ℕ) → (token : Text) → (token_id : ℕ) → (csrf_token : Text) → (now : ℕ) → Redis
      → RefreshSessionMaterial × Redis
  unfolding store_refresh_session
  create_refresh_session identity_id ttl family_id token token_id csrf_token now r =
      let material = create_refresh_token token token_id family_id in
      (
        record { material = material; csrf_token = csrf_token },
        store_refresh_session (new_session identity_id material csrf_token) material.hash ttl now r,
      )

  -- What the script of `rotateRefreshSession` has written when it returns the session.
  unfoldable pub retire : ℕ → RefreshSession → ℕ → ℕ → Redis → Redis
  retire hash session ttl now r = record r {
    tokens = del hash r.tokens;
    families = srem session.family_id hash r.families;
    used = set hash session.family_id (now + ttl) r.used;
  }

  -- `rotateRefreshSession`, with the token, its id and the CSRF token that it would draw
  unfoldable pub rotate_live :
      ℕ
      → Text
      → ℕ
      → (token : Text) → (token_id : ℕ) → (csrf' : Text) → (now : ℕ) → RefreshSession
      → Redis
      → Option Rotated × Redis
  unfolding retire store_refresh_session
  rotate_live hash csrf_token ttl token' token_id' csrf' now session r =
      if not (session.csrf_hash == digest csrf_token)
      then (none, r)
      else let material = create_refresh_token token' token_id' session.family_id in
        (
          some (record {
            previous = session;
            next = record { material = material; csrf_token = csrf' };
          }),
          store_refresh_session (new_session session.identity_id material csrf') material.hash ttl
              now (retire hash session ttl now r),
        )

  unfoldable pub rotate_absent : ℕ → ℕ → Redis → Option Rotated × Redis
  rotate_absent hash now r = elim (read now r.used hash) [
    | none ↦ (none, r)
    | some family_id ↦ (none, revoke_family family_id now r)
  ]

  -- `rotateRefreshSession`: the script, the revocation of the family of a used token, and the storing of
  -- the new session are three exchanges with Redis, taken as one step.
  unfoldable pub rotate_refresh_session :
      (token csrf_token : Text)
      → (ttl : ℕ) → (token' : Text) → (token_id' : ℕ) → (csrf' : Text) → (now : ℕ) → Redis
      → Option Rotated × Redis
  unfolding rotate_live rotate_absent
  rotate_refresh_session token csrf_token ttl token' token_id' csrf' now r =
      if bad_length csrf_token
      then (none, r)
      else if bad_length token
      then (none, r)
      else elim (read now r.tokens (digest token)) [
        | none ↦ rotate_absent (digest token) now r
        | some session ↦
            rotate_live (digest token) csrf_token ttl token' token_id' csrf' now session r
      ]

  -- `verifyRefreshCsrf`
  unfoldable pub verify_refresh_csrf : (token csrf_token : Text) → (now : ℕ) → Redis → Bool
  verify_refresh_csrf token csrf_token now r =
      if bad_length csrf_token || bad_length token
      then false
      else elim (read now r.tokens (digest token)) [
        | none ↦ false
        | some session ↦ digest csrf_token == session.csrf_hash
      ]

  -- `revokeByToken`
  unfoldable pub revoke_by_token : Text → ℕ → Redis → Redis
  revoke_by_token token now r =
      if bad_length token then r else elim (read now r.tokens (digest token)) [
        | some session ↦ revoke_family session.family_id now r
        | none ↦ elim (read now r.used (digest token)) [
          | some family_id ↦ revoke_family family_id now r
          | none ↦ r
        ]
      ]

  abbrev pub count_of : Option ℕ → ℕ
  count_of none = 0
  count_of (some n) = n

  -- `isLoginBlocked`
  unfoldable pub is_login_blocked : Text → ℕ → ℕ → Redis → Bool
  is_login_blocked fingerprint maximum now r =
      leb maximum (count_of (read now r.login_attempts (digest fingerprint)))

  -- `recordLoginFailure`: `INCR`, then `EXPIRE` on the first failure of a window. They are two commands;
  -- a process that dies between them, which would leave a counter without an end, is left out.
  unfoldable pub record_login_failure : Text → ℕ → ℕ → Redis → ℕ × Redis
  record_login_failure fingerprint window now r = elim (r.login_attempts (digest fingerprint)) [
    | none ↦ (
      1,
      record r { login_attempts = set (digest fingerprint) 1 (now + window) r.login_attempts },
    )
    | some e ↦
        if ltb now e.expires_at
        then (
          e.value + 1,
          record r {
            login_attempts = set (digest fingerprint) (e.value + 1) e.expires_at r.login_attempts;
          },
        )
        else (
          1,
          record r { login_attempts = set (digest fingerprint) 1 (now + window) r.login_attempts },
        )
  ]

  -- `clearLoginFailures`
  unfoldable pub clear_login_failures : Text → Redis → Redis
  clear_login_failures fingerprint r = record r {
    login_attempts = del (digest fingerprint) r.login_attempts;
  }
