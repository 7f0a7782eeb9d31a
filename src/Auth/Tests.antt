-- ===== src/Auth/Tests.antt =====
-- A platform administrator who signs in, and one with an MFA factor who signs in twice.
use gatway_pagamento_escrito.Prelude.{
  ℕ, ◌+◌, ◌/◌, ◌%◌, zero, suc, refl, Bool, true, false, Option, none, some, [], ◌∷◌, ◌==◌,
  if◌then◌else◌, length,
}
use gatway_pagamento_escrito.Failure.{Result}
use gatway_pagamento_escrito.Admin.{Realm, IdentityStatus, IdentityRow}
use gatway_pagamento_escrito.Sessions.Redis.{Entry, AuthChallenge, Stage}
use gatway_pagamento_escrito.Sessions.Store.{
  consume_challenge, create_refresh_session, store_refresh_session, is_login_blocked,
  clear_login_failures,
}
use gatway_pagamento_escrito.Sessions.Tests.{empty_redis, text, digest}
use gatway_pagamento_escrito.Auth.Password.{Chars, verify_password}
use gatway_pagamento_escrito.Auth.Totp.{Delta, verify_and_get_step}
use gatway_pagamento_escrito.Auth.Flow.{◌>>=◌}
use gatway_pagamento_escrito.Auth.Rows.{
  MfaFactorRow, MfaBackupCodeRow, RequestContext, Server, IssuedAuthSession, Draws, Environment,
}
use gatway_pagamento_escrito.Auth.Repository.{
  find_identity_by_normalized_email, find_identity_by_id, get_mfa_factor, consume_mfa_step,
  consume_backup_code, list_unused_backup_codes, record_successful_login, append_audit,
}
use gatway_pagamento_escrito.Auth.Service.{
  can_authenticate, require_identity, require_challenge, load_authorization, issue_session,
  admit_login, login, pass_totp, verify_mfa, pass_recovery, verify_recovery_code,
}
use gatway_pagamento_escrito.Auth.Admission.{LoginConditions, login-authenticated}
use gatway_pagamento_escrito.Auth.Replay.{LaterStep, verify_mfa-verify_mfa}
use gatway_pagamento_escrito.Auth.Recovery.{Recovered, verify_recovery_code-spends}

-- A code is right when its first digit is the last digit of the step.
abbrev right_code : Chars → ℕ → Option Delta
right_code [] now = none
right_code (c ∷ cs) now = if c == 48 + now / 30_000 % 10 then some Delta.current else none

abbrev secret : ℕ → Chars
secret zero = []
secret (suc n) = 65 ∷ secret n

abbrev env : Environment
env = record {
  access_token_ttl_seconds = 900;
  refresh_token_ttl_seconds = 2_592_000;
  dummy_hash = 0;
  digest = digest;
  trim_lower = λ email. email;
  to_lower_case = λ password. password;
  to_upper_case = λ code. code;
  fingerprint = λ email ip. text email;
  is_argon2id = λ _. true;
  argon2_hash = λ salt password. length password;
  argon2_verify = λ hash password. hash == length password;
  totp_validate = λ code secret now. right_code code now;
  encrypt_secret = λ iv secret. length secret;
  decrypt_secret = λ ciphertext. some (secret ciphertext);
  load_platform_authorization = λ _. record { roles = 1 ∷ []; permissions = 2 ∷ 3 ∷ [] };
  load_tenant_authorization = λ _ _ _. none;
}

abbrev identity : ℕ → IdentityRow
identity id = record {
  id = id;
  email = id;
  display_name = none;
  normalized_email = id;
  password_hash = 3;
  realm = Realm.platform;
  tenant_id = none;
  status = IdentityStatus.active;
  must_change_password = false;
  mfa_required = false;
  password_changed_at = none;
  last_login_at = none;
  locked_until = none;
  deleted_at = none;
}

abbrev challenges : ℕ → Option (Entry AuthChallenge)
challenges k =
    if k == 50
    then some
        (record { value = record { identity_id = 10; stage = Stage.mfa }; expires_at = 300_000 })
    else if k == 51
    then some
        (record { value = record { identity_id = 10; stage = Stage.mfa }; expires_at = 300_000 })
    else none

abbrev factor : MfaFactorRow
factor = record {
  id = 100;
  identity_id = 10;
  secret_ciphertext = 32;
  enabled_at = some 1;
  last_used_step = none;
}

abbrev backup : ℕ → Option ℕ → MfaBackupCodeRow
backup id used_at = record { id = id; factor_id = 100; code_hash = 3; used_at = used_at }

abbrev server : Server
server = record {
  redis = record empty_redis { challenges = challenges };
  identities = identity 9 ∷ identity 10 ∷ [];
  tenants = [];
  mfa_factors = factor ∷ [];
  mfa_backup_codes = backup 70 none ∷ backup 71 (some 5) ∷ backup 72 none ∷ [];
  audit_logs = [];
  next_id = 101;
}

abbrev context : RequestContext
context = record { ip_address = none; user_agent = none; request_id = none; correlation_id = none }

abbrev draws : ℕ → Draws
draws n = record {
  challenge_token = text n;
  refresh_token = text (n + 1);
  token_id = n + 2;
  family_id = n + 3;
  csrf_token = text (n + 4);
  salt = n;
  iv = n;
  secret = secret 32;
  recovery_codes = [];
}

abbrev issued_to : ℕ → ℕ → Bool → IssuedAuthSession
issued_to id n mfa_enabled = record {
  access_token = record {
    realm = Realm.platform;
    user_id = id;
    tenant_id = none;
    roles = 1 ∷ [];
    permissions = 2 ∷ 3 ∷ [];
    token_id = n + 2;
  };
  expires_in_seconds = 900;
  refresh_token = text (n + 1);
  csrf_token = text (n + 4);
  user = record {
    id = id;
    email = id;
    realm = Realm.platform;
    tenant_id = none;
    roles = 1 ∷ [];
    permissions = 2 ∷ 3 ∷ [];
    must_change_password = false;
    mfa_enabled = mfa_enabled;
  };
}

abbrev password : Chars
password = 1 ∷ 2 ∷ 3 ∷ []

login-authenticated_example :
    LoginConditions env 9 password context 1000 server (issued_to 9 200 false)
unfolding login admit_login issue_session load_authorization can_authenticate is_login_blocked
    clear_login_failures find_identity_by_normalized_email get_mfa_factor verify_password ◌>>=◌
    create_refresh_session store_refresh_session record_successful_login append_audit
login-authenticated_example =
    login-authenticated env 9 password context (draws 200) 1000 server
      {session = issued_to 9 200 false}
      {s' = (login env 9 password context (draws 200) 1000 server).1} refl

abbrev code : ℕ → Chars
code digit = digit ∷ 48 ∷ 48 ∷ 48 ∷ 48 ∷ 48 ∷ []

abbrev first : Result IssuedAuthSession × Server
first = verify_mfa env (text 50) (code 49) context (draws 300) 31_000 server

abbrev second : Result IssuedAuthSession × Server
second = verify_mfa env (text 51) (code 50) context (draws 400) 61_000 first.1

verify_mfa-verify_mfa_example : LaterStep env 10 server (code 49) 31_000 first.1 (code 50) 61_000
unfolding verify_mfa require_challenge consume_challenge require_identity find_identity_by_id
    pass_totp verify_and_get_step consume_mfa_step issue_session load_authorization can_authenticate
    get_mfa_factor ◌>>=◌ create_refresh_session store_refresh_session record_successful_login
    append_audit
verify_mfa-verify_mfa_example =
    verify_mfa-verify_mfa env (text 50) (code 49) context (draws 300) 31_000 (text 51) (code 50)
      context (draws 400) 61_000 server {a = issued_to 10 300 true} {b = issued_to 10 400 true}
      {s1 = first.1} {s2 = second.1} refl refl refl

abbrev recovery : Result IssuedAuthSession × Server
recovery = verify_recovery_code env (text 50) password context (draws 500) 91_000 server

verify_recovery_code-spends_example : Recovered env 10 password server recovery.1
unfolding verify_recovery_code require_challenge consume_challenge require_identity
    find_identity_by_id pass_recovery list_unused_backup_codes consume_backup_code verify_password
    issue_session load_authorization can_authenticate get_mfa_factor ◌>>=◌ create_refresh_session
    store_refresh_session record_successful_login append_audit
verify_recovery_code-spends_example =
    verify_recovery_code-spends env (text 50) password context (draws 500) 91_000 server
      {session = issued_to 10 500 true} {t = recovery.1} refl
