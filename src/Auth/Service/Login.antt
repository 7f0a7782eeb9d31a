-- ===== src/Auth/Service/Login.antt =====
-- `login`, `refresh` and `logout`.
use gatway_pagamento_escrito.Prelude.{
  ℕ, ◌*◌, Bool, true, false, ◌&&◌, Option, none, some, if◌then◌else◌,
}
use gatway_pagamento_escrito.Failure.{Failure, unauthorized, too_many_requests, Result, ok, err}
use gatway_pagamento_escrito.Sessions.Redis.{Text, Stage}
use gatway_pagamento_escrito.Sessions.Store.{
  Rotated, is_login_blocked, record_login_failure, clear_login_failures, rotate_refresh_session,
  verify_refresh_csrf, revoke_by_token,
}
use gatway_pagamento_escrito.Auth.Password.{Chars, verify_password}
use gatway_pagamento_escrito.Auth.Flow.{Flow, gets, or_throw, ◌>>=◌, ◌>>◌}
use gatway_pagamento_escrito.Auth.Rows.{
  MfaFactorRow, Action, Resource, RequestContext, IdentityWithTenant, Server, IssuedAuthSession,
  Pending, AuthFlowResult, Draws, Environment, challenged, authenticated,
}
use gatway_pagamento_escrito.Auth.Repository.{find_identity_by_normalized_email, get_mfa_factor}
use gatway_pagamento_escrito.Auth.Service.Session.{
  can_authenticate, is_enabled, lacks_mfa, ms, with_redis, audit, require_identity, challenge_for,
  issue_session,
}

abbrev pub maximum_login_attempts : ℕ
maximum_login_attempts = 5

abbrev pub login_attempt_window_seconds : ℕ
login_attempt_window_seconds = 15 * 60

abbrev pub stored_hash : Environment → Option IdentityWithTenant → ℕ
stored_hash env none = env.dummy_hash
stored_hash env (some i) = i.row.password_hash

module _ (env : Environment) where
  -- `identity`, when the password is right and the account can authenticate
  abbrev pub credentials_of : Option IdentityWithTenant → Chars → ℕ → Option IdentityWithTenant
  credentials_of found password now =
      let valid =
        verify_password env.is_argon2id env.argon2_verify password (stored_hash env found) in
      elim found [ none ↦ none | some i ↦ if valid && can_authenticate i now then some i else none ]

  abbrev pub refuse_login : Text → RequestContext → ℕ → Flow Server AuthFlowResult
  refuse_login fingerprint context now s = (
    err (unauthorized "Invalid credentials"),
    audit context none Action.login_failed Resource.authentication (
        with_redis
          (record_login_failure env.digest fingerprint (ms login_attempt_window_seconds) now
            s.redis).1
          s),
  )

  abbrev pub challenge_step : Pending → Stage → ℕ → Draws → ℕ → Flow Server AuthFlowResult
  challenge_step status stage identity_id draws now s = (
    ok (challenged status draws.challenge_token),
    challenge_for env identity_id stage draws now s,
  )

  abbrev pub session_result : Result IssuedAuthSession × Server → Result AuthFlowResult × Server
  session_result (ok session, s) = (ok (authenticated session), s)
  session_result (err e, s) = (err e, s)

  -- What `login` does with an account whose password is right.
  unfoldable pub admit_login :
      IdentityWithTenant
      → Option MfaFactorRow
      → RequestContext
      → Draws
      → ℕ
      → Flow Server AuthFlowResult
  admit_login i factor context draws now s =
      if i.row.must_change_password
      then challenge_step Pending.password_change_required Stage.password_change i.row.id draws now
          s
      else if lacks_mfa i.row factor
      then challenge_step Pending.mfa_setup_required Stage.mfa_setup i.row.id draws now s
      else if is_enabled factor
      then challenge_step Pending.mfa_required Stage.mfa i.row.id draws now s
      else session_result (issue_session env i context none Action.login_succeeded draws now s)

  abbrev pub decide_login :
      Option IdentityWithTenant → Text → RequestContext → Draws → ℕ → Flow Server AuthFlowResult
  decide_login none fingerprint context draws now s = refuse_login fingerprint context now s
  decide_login (some i) fingerprint context draws now s =
      admit_login i (get_mfa_factor i.row.id s.mfa_factors) context draws now
        (with_redis (clear_login_failures env.digest fingerprint s.redis) s)

  -- `login`
  unfoldable pub login :
      (email : ℕ)
      → (password : Chars) → RequestContext
      → Draws
      → (now : ℕ) → Flow Server AuthFlowResult
  login email password context draws now s =
      let normalized_email = env.trim_lower email in
      let fingerprint = env.fingerprint normalized_email context.ip_address in
      if is_login_blocked env.digest fingerprint maximum_login_attempts now s.redis
      then (
        err (too_many_requests "Too many authentication attempts"),
        audit context none Action.login_blocked Resource.authentication s,
      )
      else decide_login
          (credentials_of (find_identity_by_normalized_email normalized_email s) password now)
          fingerprint context draws now s

  abbrev pub invalid_session : Failure
  invalid_session = unauthorized "Invalid session"

  abbrev pub rotate_step : Text → Text → Draws → ℕ → Flow Server (Option Rotated)
  rotate_step refresh_token csrf_token draws now s =
      let (rotated, r) =
        rotate_refresh_session env.digest refresh_token csrf_token
          (ms env.refresh_token_ttl_seconds) draws.refresh_token draws.token_id draws.csrf_token now
          s.redis in
      (ok rotated, with_redis r s)

  -- `if (bad) { revokeByToken(token); throw … }`
  abbrev pub revoke_if : Bool → Text → ℕ → Flow Server (Unit {0})
  revoke_if true token now s =
      (err invalid_session, with_redis (revoke_by_token env.digest token now s.redis) s)
  revoke_if false token now s = (ok tt, s)

  -- `refresh`
  unfoldable pub refresh :
      (refresh_token csrf_token : Text)
      → RequestContext
      → Draws
      → (now : ℕ) → Flow Server IssuedAuthSession
  refresh refresh_token csrf_token context draws now = do
    found ← rotate_step refresh_token csrf_token draws now
    rotated ← or_throw found invalid_session
    i ← require_identity rotated.previous.identity_id now
    revoke_if i.row.must_change_password rotated.next.material.token now
    factor ← gets (λ s. get_mfa_factor i.row.id s.mfa_factors)
    revoke_if (lacks_mfa i.row factor) rotated.next.material.token now
    issue_session env i context (some rotated.next) Action.refresh_succeeded draws now

  -- `logout`
  unfoldable pub logout : (refresh_token csrf_token : Text) → (now : ℕ) → Flow Server (Unit {0})
  logout refresh_token csrf_token now s =
      if verify_refresh_csrf env.digest refresh_token csrf_token now s.redis
      then (ok tt, with_redis (revoke_by_token env.digest refresh_token now s.redis) s)
      else (err invalid_session, s)
