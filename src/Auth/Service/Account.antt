-- ===== src/Auth/Service/Account.antt =====
-- `changePassword` and `currentUser`.
use gatway_pagamento_escrito.Prelude.{
  ℕ, Bool, true, false, not, ◌||◌, ◌&&◌, Option, none, some, if◌then◌else◌, same,
}
use gatway_pagamento_escrito.Failure.{unauthorized, bad_request, Result, ok, err}
use gatway_pagamento_escrito.Admin.{Realm, IdentityRow}
use gatway_pagamento_escrito.Common.{is_platform}
use gatway_pagamento_escrito.Sessions.Redis.{Text, Stage}
use gatway_pagamento_escrito.Sessions.Store.{revoke_identity}
use gatway_pagamento_escrito.Auth.Password.{
  Chars, validate_password_policy, verify_password, hash_password,
}
use gatway_pagamento_escrito.Auth.Flow.{
  Flow, pure, gets, modify, throw_if, throw_some, lift, ◌>>=◌, ◌>>◌,
}
use gatway_pagamento_escrito.Auth.Rows.{
  MfaFactorRow, Action, Resource, RequestContext, Server, TokenUser, AuthUser, Pending,
  AuthFlowResult, Draws, Environment, challenged,
}
use gatway_pagamento_escrito.Auth.Repository.{get_mfa_factor, update_password}
use gatway_pagamento_escrito.Auth.Service.Session.{
  is_enabled, with_redis, audit, no_tenant, require_challenge, require_identity, challenge_for,
  load_authorization,
}

abbrev pub next_stage : Option MfaFactorRow → Stage
next_stage factor = if is_enabled factor then Stage.mfa else Stage.mfa_setup

abbrev pub next_status : Option MfaFactorRow → Pending
next_status factor = if is_enabled factor then Pending.mfa_required else Pending.mfa_setup_required

abbrev pub same_realm : Realm → Realm → Bool
same_realm Realm.platform Realm.platform = true
same_realm Realm.tenant Realm.tenant = true
same_realm _ _ = false

-- The account is not the one that the token names.
abbrev pub differs : IdentityRow → TokenUser → Bool
differs i user =
    not (same_realm i.realm user.realm)
    || (not (is_platform user.realm) && not (same i.tenant_id user.tenant_id))

module _ (env : Environment) where
  -- `changePassword`
  unfoldable pub change_password :
      Text
      → (new_password : Chars) → RequestContext
      → Draws
      → (now : ℕ) → Flow Server AuthFlowResult
  change_password challenge_token new_password context draws now = do
    identity_id ← require_challenge env challenge_token Stage.password_change now
    i ← require_identity identity_id now
    throw_some (validate_password_policy env.to_lower_case new_password)
    throw_if (verify_password env.is_argon2id env.argon2_verify new_password i.row.password_hash)
        (bad_request "New password must differ from the current password")
    password_hash ← lift (hash_password env.argon2_hash draws.salt new_password)
    update_password i.row.id password_hash now
    modify (λ s. with_redis (revoke_identity i.row.id now s.redis) s)
    modify (audit context (some i.row.id) Action.password_changed Resource.identity)
    factor ← gets (λ s. get_mfa_factor i.row.id s.mfa_factors)
    modify (challenge_for env i.row.id (next_stage factor) draws now)
    pure (challenged (next_status factor) draws.challenge_token)

  abbrev pub current_tenant : IdentityRow → Result (Option ℕ)
  current_tenant i =
      if is_platform i.realm
      then ok none
      else elim i.tenant_id [ none ↦ err no_tenant | some tenant_id ↦ ok (some tenant_id) ]

  -- `currentUser`
  unfoldable pub current_user : TokenUser → (now : ℕ) → Flow Server AuthUser
  current_user user now = do
    i ← require_identity user.user_id now
    throw_if (differs i.row user) (unauthorized "Account is unavailable")
    authorization ← lift (load_authorization env i)
    factor ← gets (λ s. get_mfa_factor i.row.id s.mfa_factors)
    tenant_id ← lift (current_tenant i.row)
    pure (record {
      id = i.row.id;
      email = i.row.email;
      realm = i.row.realm;
      tenant_id = tenant_id;
      roles = authorization.roles;
      permissions = authorization.permissions;
      must_change_password = i.row.must_change_password;
      mfa_enabled = is_enabled factor;
    })
