-- ===== src/Auth/Admission.antt =====
-- What a session costs: every condition that `login` and `issueSession` check.
use gatway_pagamento_escrito.Prelude.{
  arith, ℕ, ◌≡◌, refl, sym, ap, true, false, ◌&&◌, Option, none, some, if-cases, inl, inr,
}
use gatway_pagamento_escrito.Failure.{Failure, too_many_requests, Result, ok, err}
use gatway_pagamento_escrito.Sessions.Redis.{Text}
use gatway_pagamento_escrito.Sessions.Store.{
  RefreshSessionMaterial, is_login_blocked, clear_login_failures,
}
use gatway_pagamento_escrito.Auth.Password.{Chars, verify_password}
use gatway_pagamento_escrito.Auth.Flow.{
  >>=-eq-ok, gets-eq-ok, throw_if-eq-ok, modify-eq-ok, lift-eq-ok, pure-eq-ok,
}
use gatway_pagamento_escrito.Auth.Rows.{
  MfaFactorRow, Action, Resource, RequestContext, IdentityWithTenant, Server, Authorization,
  IssuedAuthSession, Pending, AuthFlowResult, Draws, Environment, challenged, authenticated,
}
use gatway_pagamento_escrito.Auth.Repository.{find_identity_by_normalized_email, get_mfa_factor}
use gatway_pagamento_escrito.Auth.Service.{
  can_authenticate, is_enabled, lacks_mfa, with_redis, audit, load_authorization, has_no_role,
  issue_session, maximum_login_attempts, credentials_of, session_result, admit_login, decide_login,
  login,
}

module _ (env : Environment) where
  -- The identity has a role, and an MFA factor if it must have one; the token names it.
  abbrev pub IsIssuedTo : IdentityWithTenant → Option MfaFactorRow → IssuedAuthSession → Type 0
  IsIssuedTo i factor session =
      (authorization : Authorization) × (load_authorization env i ≡ ok authorization)
      × (has_no_role env authorization.roles ≡ false)
      × (lacks_mfa i.row factor ≡ false)
      × (session.access_token.user_id ≡ i.row.id)
      × (session.access_token.roles ≡ authorization.roles)
      × (session.access_token.permissions ≡ authorization.permissions)

  pub issue_session-eq-ok :
      (i : IdentityWithTenant) (context : RequestContext) (existing : Option RefreshSessionMaterial)
      (action : Action) (draws : Draws) (now : ℕ) (s : Server) {session : IssuedAuthSession}
      {s' : Server}
      → issue_session env i context existing action draws now s ≡ (ok session, s')
      → IsIssuedTo i (get_mfa_factor i.row.id s.mfa_factors) session
  unfolding issue_session
  issue_session-eq-ok i context existing action draws now s {session} {s'} e =
      let (authorization, e1, e) = lift-eq-ok _ _ s e in
      let (some_role, e) = throw_if-eq-ok _ _ _ s e in
      let e = gets-eq-ok _ _ s e in
      let (enrolled, e) = throw_if-eq-ok _ _ _ s e in
      let (material, t2, e2, e) = >>=-eq-ok _ _ s e in
      let (tenant_id, e3, e) = lift-eq-ok _ _ t2 e in
      let (_, t4, e4, e) = >>=-eq-ok _ _ t2 e in
      let e = modify-eq-ok _ _ t4 e in
      let (q, _) = pure-eq-ok _ _ e in
      (
        authorization,
        e1,
        some_role,
        enrolled,
        sym (ap (λ x. x.access_token.user_id) q),
        sym (ap (λ x. x.access_token.roles) q),
        sym (ap (λ x. x.access_token.permissions) q),
      )

  session_result-eq-ok :
      (x : Result IssuedAuthSession × Server) {session : IssuedAuthSession} {s' : Server}
      → session_result env x ≡ (ok (authenticated session), s')
      → x ≡ (ok session, s')
  session_result-eq-ok (ok a, t) e = ground arith
  session_result-eq-ok (err a, t) e = absurd (cc)

  challenge≢session :
      (a : Pending) (b : Text) (t : Server) {session : IssuedAuthSession} {s' : Server}
      → ¬ (
          ◌≡◌ {A = Result AuthFlowResult × Server}
            (ok (challenged a b), t)
            (ok (authenticated session), s'))
  challenge≢session a b t e = cc

  -- No challenge stands in the way of the account.
  abbrev pub IsAdmitted : IdentityWithTenant → Option MfaFactorRow → Type 0
  IsAdmitted i factor =
      (i.row.must_change_password ≡ false)
      × (lacks_mfa i.row factor ≡ false)
      × (is_enabled factor ≡ false)

  admit_login-eq-ok :
      (i : IdentityWithTenant) (factor : Option MfaFactorRow) (context : RequestContext)
      (draws : Draws) (now : ℕ) (s : Server) {session : IssuedAuthSession} {s' : Server}
      → admit_login env i factor context draws now s ≡ (ok (authenticated session), s')
      → IsAdmitted i factor
        × (issue_session env i context none Action.login_succeeded draws now s ≡ (ok session, s'))
  unfolding admit_login
  admit_login-eq-ok i factor context draws now s e =
      elim (if-cases i.row.must_change_password _ _ e) [
        | inl (must, e) ↦ absurd (challenge≢session _ _ _ e)
        | inr (need_not, e) ↦ elim (if-cases (lacks_mfa i.row factor) _ _ e) [
          | inl (lacks, e) ↦ absurd (challenge≢session _ _ _ e)
          | inr (enrolled, e) ↦ elim (if-cases (is_enabled factor) _ _ e) [
            | inl (on, e) ↦ absurd (challenge≢session _ _ _ e)
            | inr (off, e) ↦ ((need_not, enrolled, off), session_result-eq-ok _ e)
          ]
        ]
      ]

  abbrev pub HasCredentials : IdentityWithTenant → Chars → ℕ → Type 0
  HasCredentials i password now =
      (verify_password env.is_argon2id env.argon2_verify password i.row.password_hash ≡ true)
      × (can_authenticate i now ≡ true)

  credentials_of-eq-some :
      (found : Option IdentityWithTenant) (password : Chars) (now : ℕ) {i : IdentityWithTenant}
      → credentials_of env found password now ≡ some i
      → (found ≡ some i) × HasCredentials i password now
  credentials_of-eq-some none password now e = absurd (cc)
  credentials_of-eq-some (some j) password now {i} e =
      elim (if-cases
        (verify_password env.is_argon2id env.argon2_verify password j.row.password_hash
          && can_authenticate j now)
        (some j) none e) [ inl (both, e) ↦ ground arith | inr (_, e) ↦ absurd (cc) ]

  abbrev refuse_blocked : RequestContext → Server → Result AuthFlowResult × Server
  refuse_blocked context s = (
    err (too_many_requests "Too many authentication attempts"),
    audit context none Action.login_blocked Resource.authentication s,
  )

  refusal≢session :
      (a : Failure) (t : Server) {session : IssuedAuthSession} {s' : Server}
      → ¬ (◌≡◌ {A = Result AuthFlowResult × Server} (err a, t) (ok (authenticated session), s'))
  refusal≢session a t e = cc

  decide_login-eq-ok :
      (found : Option IdentityWithTenant) (fingerprint : Text) (context : RequestContext)
      (draws : Draws) (now : ℕ) (s : Server) {session : IssuedAuthSession} {s' : Server}
      → decide_login env found fingerprint context draws now s ≡ (ok (authenticated session), s')
      → (i : IdentityWithTenant) × (found ≡ some i)
        × (admit_login env i
              (get_mfa_factor i.row.id s.mfa_factors)
              context
              draws
              now
              (with_redis (clear_login_failures env.digest fingerprint s.redis) s)
            ≡ (ok (authenticated session), s'))
  decide_login-eq-ok none fingerprint context draws now s e = absurd (refusal≢session _ _ e)
  decide_login-eq-ok (some i) fingerprint context draws now s e = (i, refl, e)

  abbrev pub LoginConditions :
      (email : ℕ) → Chars → RequestContext → (now : ℕ) → Server → IssuedAuthSession → Type 0
  LoginConditions email password context now s session =
      (is_login_blocked env.digest (env.fingerprint (env.trim_lower email) context.ip_address)
          maximum_login_attempts now s.redis
        ≡ false)
      × (i : IdentityWithTenant) × (find_identity_by_normalized_email (env.trim_lower email) s
          ≡ some i)
      × HasCredentials i password now
      × IsAdmitted i (get_mfa_factor i.row.id s.mfa_factors)
      × IsIssuedTo i (get_mfa_factor i.row.id s.mfa_factors) session

  -- A call of `login` that issues a session was not blocked, found an account with that address
  -- whose password is right, that can authenticate, whose password need not be changed, and that
  -- has a role, no enabled MFA factor and no need of one; the access token carries the account's identity,
  -- roles and permissions.
  pub login-authenticated :
      (email : ℕ) (password : Chars) (context : RequestContext) (draws : Draws) (now : ℕ)
      (s : Server) {session : IssuedAuthSession} {s' : Server}
      → login env email password context draws now s ≡ (ok (authenticated session), s')
      → LoginConditions email password context now s session
  unfolding login
  login-authenticated email password context draws now s {session} e =
      elim (if-cases
        (is_login_blocked env.digest (env.fingerprint (env.trim_lower email) context.ip_address)
          maximum_login_attempts now s.redis)
        (refuse_blocked context s)
        (decide_login env
          (credentials_of env (find_identity_by_normalized_email (env.trim_lower email) s) password
            now)
          (env.fingerprint (env.trim_lower email) context.ip_address) context draws now s)
        e) [
          | inl (_, e) ↦ absurd (refusal≢session _ _ e)
          | inr (free, e) ↦
              let (i, h, e) = decide_login-eq-ok _ _ context draws now s e in
              let (found, credentials) = credentials_of-eq-some _ password now h in
              let (admitted, e) = admit_login-eq-ok i _ context draws now _ e in
              (
                free,
                i,
                found,
                credentials,
                admitted,
                issue_session-eq-ok i context none _ draws now _ e,
              )
        ]
