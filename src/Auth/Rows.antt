-- ===== src/Auth/Rows.antt =====
-- The rows and the results of the handlers.
use gatway_pagamento_escrito.Prelude.{ℕ, Bool, Option, List}
use gatway_pagamento_escrito.Admin.{Realm, IdentityRow, TenantRow, TenantStatus}
use gatway_pagamento_escrito.Sessions.Redis.{Redis, Text}
use gatway_pagamento_escrito.Auth.Password.{Chars}
use gatway_pagamento_escrito.Auth.Totp.{Delta}

pub record MfaFactorRow : Type 0 where
  pub id : ℕ
  pub identity_id : ℕ
  pub secret_ciphertext : ℕ
  pub enabled_at : Option ℕ
  pub last_used_step : Option ℕ

pub record MfaBackupCodeRow : Type 0 where
  pub id : ℕ
  pub factor_id : ℕ
  pub code_hash : ℕ
  pub used_at : Option ℕ

pub data Action : Type 0 where
  login_blocked login_failed login_succeeded refresh_succeeded : Action
  password_changed mfa_enrolled mfa_verified mfa_recovery_used : Action

pub data Resource : Type 0 where
  authentication identity : Resource

-- `AuthRequestContext`
pub record RequestContext : Type 0 where
  pub ip_address : Option ℕ
  pub user_agent : Option ℕ
  pub request_id : Option ℕ
  pub correlation_id : Option ℕ

pub record AuditInput : Type 0 where
  pub actor_identity_id : Option ℕ
  pub action : Action
  pub resource : Resource
  pub resource_id : Option ℕ
  pub context : RequestContext

pub record IdentityWithTenant : Type 0 where
  pub row : IdentityRow
  pub tenant_status : Option TenantStatus
  pub tenant_database_name : Option ℕ

pub record Server : Type 0 where
  pub redis : Redis
  pub identities : List IdentityRow
  pub tenants : List TenantRow
  pub mfa_factors : List MfaFactorRow
  pub mfa_backup_codes : List MfaBackupCodeRow
  pub audit_logs : List AuditInput
  pub next_id : ℕ

pub record Authorization : Type 0 where
  pub roles : List ℕ
  pub permissions : List ℕ

-- `AuthenticatedUser`: what the access token says.
pub record TokenUser : Type 0 where
  pub realm : Realm
  pub user_id : ℕ
  pub tenant_id : Option ℕ
  pub roles : List ℕ
  pub permissions : List ℕ
  pub token_id : ℕ

pub record AuthUser : Type 0 where
  pub id : ℕ
  pub email : ℕ
  pub realm : Realm
  pub tenant_id : Option ℕ
  pub roles : List ℕ
  pub permissions : List ℕ
  pub must_change_password : Bool
  pub mfa_enabled : Bool

-- The access token is known by the user and the lifetime that `JoseJwtIssuer` signs.
pub record IssuedAuthSession : Type 0 where
  pub access_token : TokenUser
  pub expires_in_seconds : ℕ
  pub refresh_token : Text
  pub csrf_token : Text
  pub user : AuthUser

pub data Pending : Type 0 where
  password_change_required mfa_setup_required mfa_required : Pending

pub data AuthFlowResult : Type 0 where
  challenged : Pending → Text → AuthFlowResult
  authenticated : IssuedAuthSession → AuthFlowResult

pub record MfaSetupResult : Type 0 where
  pub challenge_token : Text
  pub secret : Chars

pub record MfaConfirmationResult : Type 0 where
  pub session : IssuedAuthSession
  pub recovery_codes : List Chars

-- What one call draws at random.
pub record Draws : Type 0 where
  pub challenge_token : Text
  pub refresh_token : Text
  pub token_id : ℕ
  pub family_id : ℕ
  pub csrf_token : Text
  pub salt : ℕ
  pub iv : ℕ
  pub secret : Chars
  pub recovery_codes : List Chars

-- The configuration, the primitives of the platform and of third parties, and the authorization
-- queries.
pub record Environment : Type 0 where
  pub access_token_ttl_seconds : ℕ
  pub refresh_token_ttl_seconds : ℕ
  pub dummy_hash : ℕ
  pub digest : Text → ℕ
  pub trim_lower : ℕ → ℕ
  pub to_lower_case : Chars → Chars
  pub to_upper_case : Chars → Chars
  pub fingerprint : ℕ → Option ℕ → Text
  pub is_argon2id : ℕ → Bool
  pub argon2_hash : ℕ → Chars → ℕ
  pub argon2_verify : ℕ → Chars → Bool
  pub totp_validate : Chars → Chars → ℕ → Option Delta
  pub encrypt_secret : ℕ → Chars → ℕ
  pub decrypt_secret : ℕ → Option Chars
  pub load_platform_authorization : ℕ → Authorization
  pub load_tenant_authorization : ℕ → ℕ → ℕ → Option Authorization
