-- ===== src/Auth/Service/Session.antt =====
-- `audit`, `canAuthenticate`, `requireChallenge`, `requireIdentity`, `loadAuthorization` and
-- `issueSession`.
use gatway_pagamento_escrito.Prelude.{
  ℕ, ◌*◌, Bool, true, false, not, ◌||◌, ◌&&◌, Option, none, some, List, [], ◌∷◌, ltb, if◌then◌else◌,
}
use gatway_pagamento_escrito.Failure.{Failure, unauthorized, Result, ok, err}
use gatway_pagamento_escrito.Admin.{IdentityStatus, IdentityRow, TenantStatus}
use gatway_pagamento_escrito.Common.{is_platform}
use gatway_pagamento_escrito.Sessions.Redis.{Redis, Text, AuthChallenge, Stage}
use gatway_pagamento_escrito.Sessions.Store.{
  RefreshSessionMaterial, create_challenge, consume_challenge, create_refresh_session,
}
use gatway_pagamento_escrito.Auth.Flow.{
  Flow, pure, gets, modify, throw_if, or_throw, lift, ◌>>=◌, ◌>>◌,
}
use gatway_pagamento_escrito.Auth.Rows.{
  MfaFactorRow, Action, Resource, RequestContext, IdentityWithTenant, Server, Authorization,
  AuthUser, IssuedAuthSession, Draws, Environment,
}
use gatway_pagamento_escrito.Auth.Repository.{
  find_identity_by_id, get_mfa_factor, append_audit, record_successful_login,
}

abbrev pub can_log_in : IdentityStatus → Bool
can_log_in IdentityStatus.active = true
can_log_in IdentityStatus.pending = true
can_log_in _ = false

abbrev pub is_locked : Option ℕ → ℕ → Bool
is_locked none now = false
is_locked (some locked_until) now = ltb now locked_until

abbrev pub is_active : Option TenantStatus → Bool
is_active (some TenantStatus.active) = true
is_active _ = false

-- `canAuthenticate`
unfoldable pub can_authenticate : IdentityWithTenant → ℕ → Bool
can_authenticate i now =
    if not (can_log_in i.row.status)
    then false
    else if is_locked i.row.locked_until now
    then false
    else is_platform i.row.realm || is_active i.tenant_status

-- `factor?.enabled_at`
abbrev pub is_enabled : Option MfaFactorRow → Bool
is_enabled none = false
is_enabled (some f) = elim f.enabled_at [ none ↦ false | some _ ↦ true ]

abbrev pub lacks_mfa : IdentityRow → Option MfaFactorRow → Bool
lacks_mfa i factor = i.mfa_required && not (is_enabled factor)

abbrev pub ms : ℕ → ℕ
ms seconds = seconds * 1000

abbrev pub with_redis : Redis → Server → Server
with_redis r s = record s { redis = r }

-- `audit`
abbrev pub audit : RequestContext → Option ℕ → Action → Resource → Server → Server
audit context actor action resource s =
    append_audit
      (record {
        actor_identity_id = actor;
        action = action;
        resource = resource;
        resource_id = actor;
        context = context;
      })
      s

abbrev pub no_account : Failure
no_account = unauthorized "Account is unavailable"

abbrev pub no_tenant : Failure
no_tenant = unauthorized "Tenant account is unavailable"

abbrev pub if_able : ℕ → Option IdentityWithTenant → Option IdentityWithTenant
if_able now none = none
if_able now (some i) = if can_authenticate i now then some i else none

-- `requireIdentity`
unfoldable pub require_identity : ℕ → ℕ → Flow Server IdentityWithTenant
require_identity identity_id now s =
    or_throw (if_able now (find_identity_by_id identity_id s)) no_account s

abbrev pub same_stage : Stage → Stage → Bool
same_stage Stage.password_change Stage.password_change = true
same_stage Stage.mfa_setup Stage.mfa_setup = true
same_stage Stage.mfa_confirm Stage.mfa_confirm = true
same_stage Stage.mfa Stage.mfa = true
same_stage _ _ = false

abbrev pub at_stage : Stage → Option AuthChallenge → Option ℕ
at_stage expected none = none
at_stage expected (some c) = if same_stage c.stage expected then some c.identity_id else none

module _ (env : Environment) where
  -- `requireChallenge`: the challenge is used up at a wrong stage, too.
  unfoldable pub require_challenge : Text → Stage → ℕ → Flow Server ℕ
  require_challenge token expected now s =
      let (challenge, r) = consume_challenge env.digest token now s.redis in
      or_throw (at_stage expected challenge)
        (unauthorized "Authentication challenge is invalid or expired") (with_redis r s)

  -- `createChallenge` with its default of 300 seconds
  abbrev pub challenge_for : ℕ → Stage → Draws → ℕ → Server → Server
  challenge_for identity_id stage draws now s =
      with_redis
        (create_challenge env.digest (record { identity_id = identity_id; stage = stage }) (ms 300)
          draws.challenge_token now s.redis)
        s

  -- `loadAuthorization`
  unfoldable pub load_authorization : IdentityWithTenant → Result Authorization
  load_authorization i =
      if is_platform i.row.realm
      then ok (env.load_platform_authorization i.row.id)
      else elim i.row.tenant_id [
        | none ↦ err no_tenant
        | some tenant_id ↦ elim i.tenant_database_name [
          | none ↦ err no_tenant
          | some database ↦ elim (env.load_tenant_authorization tenant_id database i.row.id) [
            | none ↦ err (unauthorized "Tenant account has no active role")
            | some authorization ↦ ok authorization
          ]
        ]
      ]

  abbrev pub has_no_role : List ℕ → Bool
  has_no_role [] = true
  has_no_role (_ ∷ _) = false

  -- The tenant that the token names; a platform user has none.
  abbrev pub tenant_in_token : IdentityRow → Result (Option ℕ)
  tenant_in_token i =
      if is_platform i.realm
      then ok none
      else elim i.tenant_id [ none ↦ err no_tenant | some tenant_id ↦ ok (some tenant_id) ]

  abbrev pub session_user : IdentityRow → Option ℕ → Authorization → Option MfaFactorRow → AuthUser
  session_user i tenant_id authorization factor = record {
    id = i.id;
    email = i.email;
    realm = i.realm;
    tenant_id = tenant_id;
    roles = authorization.roles;
    permissions = authorization.permissions;
    must_change_password = false;
    mfa_enabled = is_enabled factor;
  }

  -- `existingSession ?? createRefreshSession(…)`
  abbrev pub session_or_new :
      Option RefreshSessionMaterial → ℕ → Draws → ℕ → Redis → RefreshSessionMaterial × Redis
  session_or_new (some session) identity_id draws now r = (session, r)
  session_or_new none identity_id draws now r =
      create_refresh_session env.digest identity_id (ms env.refresh_token_ttl_seconds)
        draws.family_id draws.refresh_token draws.token_id draws.csrf_token now r

  abbrev pub session_step :
      Option RefreshSessionMaterial → ℕ → Draws → ℕ → Flow Server RefreshSessionMaterial
  session_step existing identity_id draws now s =
      let (session, r) = session_or_new existing identity_id draws now s.redis in
      (ok session, with_redis r s)

  abbrev pub is_login : Action → Bool
  is_login Action.login_succeeded = true
  is_login _ = false

  abbrev pub if_login : Action → Flow Server (Unit {0}) → Flow Server (Unit {0})
  if_login action step s = if is_login action then step s else (ok tt, s)

  abbrev pub issued :
      IdentityRow
      → Option ℕ
      → Authorization
      → Option MfaFactorRow
      → RefreshSessionMaterial
      → IssuedAuthSession
  issued i tenant_id authorization factor session = record {
    access_token = record {
      realm = i.realm;
      user_id = i.id;
      tenant_id = tenant_id;
      roles = authorization.roles;
      permissions = authorization.permissions;
      token_id = session.material.token_id;
    };
    expires_in_seconds = env.access_token_ttl_seconds;
    refresh_token = session.material.token;
    csrf_token = session.csrf_token;
    user = session_user i tenant_id authorization factor;
  }

  -- `issueSession`
  unfoldable pub issue_session :
      IdentityWithTenant
      → RequestContext
      → Option RefreshSessionMaterial
      → Action
      → Draws
      → ℕ
      → Flow Server IssuedAuthSession
  issue_session i context existing action draws now = do
    authorization ← lift (load_authorization i)
    throw_if (has_no_role authorization.roles) (unauthorized "Account has no active role")
    factor ← gets (λ s. get_mfa_factor i.row.id s.mfa_factors)
    throw_if (lacks_mfa i.row factor) (unauthorized "MFA enrollment is required")
    session ← session_step existing i.row.id draws now
    tenant_id ← lift (tenant_in_token i.row)
    if_login action (record_successful_login i.row.id now)
    modify (audit context (some i.row.id) action Resource.authentication)
    pure (issued i.row tenant_id authorization factor session)
