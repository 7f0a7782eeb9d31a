-- ===== src/Auth/Service/Mfa.antt =====
-- `setupMfa`, `confirmMfa`, `verifyMfa` and `verifyRecoveryCode`.
use gatway_pagamento_escrito.Prelude.{
  ℕ, ◌+◌, Bool, not, Option, none, some, List, [], ◌∷◌, if◌then◌else◌, find,
}
use gatway_pagamento_escrito.Failure.{Failure, unauthorized, error, Result, ok, err}
use gatway_pagamento_escrito.Sessions.Redis.{Text, Stage}
use gatway_pagamento_escrito.Auth.Password.{Chars, verify_password, hash_password}
use gatway_pagamento_escrito.Auth.Totp.{verify_and_get_step}
use gatway_pagamento_escrito.Auth.Flow.{
  Flow, pure, gets, modify, throw_if, or_throw, lift, ◌>>=◌, ◌>>◌,
}
use gatway_pagamento_escrito.Auth.Rows.{
  MfaFactorRow, MfaBackupCodeRow, Action, Resource, RequestContext, Server, IssuedAuthSession,
  MfaSetupResult, MfaConfirmationResult, Draws, Environment,
}
use gatway_pagamento_escrito.Auth.Repository.{
  get_mfa_factor, save_pending_mfa_factor, enable_mfa_factor, consume_mfa_step,
  replace_backup_codes, list_unused_backup_codes, consume_backup_code, activate_identity,
}
use gatway_pagamento_escrito.Auth.Service.Session.{
  is_enabled, audit, require_challenge, require_identity, challenge_for, issue_session,
}

abbrev pub bad_mfa_challenge : Failure
bad_mfa_challenge = unauthorized "Invalid MFA challenge"

-- `if (!factor?.enabled_at) throw …`
abbrev pub enabled_factor : Option MfaFactorRow → Option MfaFactorRow
enabled_factor none = none
enabled_factor (some f) = if is_enabled (some f) then some f else none

abbrev pub consume_step : ℕ → ℕ → Flow Server Bool
consume_step factor_id step s =
    let (used, factors) = consume_mfa_step factor_id step s.mfa_factors in
    (ok used, record s { mfa_factors = factors })

abbrev pub consume_code : ℕ → ℕ → Flow Server Bool
consume_code code_id now s =
    let (used, codes) = consume_backup_code code_id now s.mfa_backup_codes in
    (ok used, record s { mfa_backup_codes = codes })

module _ (env : Environment) where
  -- `verifyAndGetStep` and `consumeMfaStep`: each throws the same error.
  unfoldable pub pass_totp : MfaFactorRow → Chars → ℕ → Flow Server (Unit {0})
  pass_totp factor code now = do
    secret ←
        or_throw (env.decrypt_secret factor.secret_ciphertext)
          (error "Encrypted secret cannot be read")
    step ←
        or_throw (verify_and_get_step env.totp_validate code secret now)
          (unauthorized "Invalid MFA code")
    used ← consume_step factor.id step
    throw_if (not used) (unauthorized "Invalid MFA code")
    pure tt

  -- `setupMfa`
  unfoldable pub setup_mfa : Text → Draws → (now : ℕ) → Flow Server MfaSetupResult
  setup_mfa challenge_token draws now = do
    identity_id ← require_challenge env challenge_token Stage.mfa_setup now
    i ← require_identity identity_id now
    modify (save_pending_mfa_factor i.row.id (env.encrypt_secret draws.iv draws.secret))
    modify (challenge_for env i.row.id Stage.mfa_confirm draws now)
    pure (record { challenge_token = draws.challenge_token; secret = draws.secret })

  -- The loop that hashes the recovery codes, each with a salt of its own
  abbrev pub hash_all : ℕ → List Chars → Result (List ℕ)
  hash_all salt [] = ok []
  hash_all salt (code ∷ codes) = elim (hash_password env.argon2_hash salt code) [
    | err e ↦ err e
    | ok h ↦ elim (hash_all (salt + 1) codes) [ err e ↦ err e | ok hs ↦ ok (h ∷ hs) ]
  ]

  -- `confirmMfa`
  unfoldable pub confirm_mfa :
      Text → (code : Chars) → RequestContext → Draws → (now : ℕ) → Flow Server MfaConfirmationResult
  confirm_mfa challenge_token code context draws now = do
    identity_id ← require_challenge env challenge_token Stage.mfa_confirm now
    i ← require_identity identity_id now
    found ← gets (λ s. get_mfa_factor i.row.id s.mfa_factors)
    factor ← or_throw found bad_mfa_challenge
    pass_totp factor code now
    enable_mfa_factor factor.id now
    hashes ← lift (hash_all draws.salt draws.recovery_codes)
    modify (replace_backup_codes factor.id hashes)
    modify (activate_identity i.row.id)
    modify (audit context (some i.row.id) Action.mfa_enrolled Resource.identity)
    session ← issue_session env i context none Action.login_succeeded draws now
    pure (record { session = session; recovery_codes = draws.recovery_codes })

  -- `verifyMfa`
  unfoldable pub verify_mfa :
      Text → (code : Chars) → RequestContext → Draws → (now : ℕ) → Flow Server IssuedAuthSession
  verify_mfa challenge_token code context draws now = do
    identity_id ← require_challenge env challenge_token Stage.mfa now
    i ← require_identity identity_id now
    found ← gets (λ s. get_mfa_factor i.row.id s.mfa_factors)
    factor ← or_throw (enabled_factor found) bad_mfa_challenge
    pass_totp factor code now
    modify (audit context (some i.row.id) Action.mfa_verified Resource.identity)
    issue_session env i context none Action.login_succeeded draws now

  abbrev pub matches_code : Chars → MfaBackupCodeRow → Bool
  matches_code recovery_code candidate =
      verify_password env.is_argon2id env.argon2_verify (env.to_upper_case recovery_code)
        candidate.code_hash

  -- The search for a matching unused code, and `consumeBackupCode`
  unfoldable pub pass_recovery : MfaFactorRow → Chars → ℕ → Flow Server (Unit {0})
  pass_recovery factor recovery_code now = do
    codes ← gets (λ s. list_unused_backup_codes factor.id s.mfa_backup_codes)
    matching ←
        or_throw (find (matches_code recovery_code) codes) (unauthorized "Invalid recovery code")
    used ← consume_code matching.id now
    throw_if (not used) (unauthorized "Invalid recovery code")
    pure tt

  -- `verifyRecoveryCode`
  unfoldable pub verify_recovery_code :
      Text
      → (recovery_code : Chars) → RequestContext
      → Draws
      → (now : ℕ) → Flow Server IssuedAuthSession
  verify_recovery_code challenge_token recovery_code context draws now = do
    identity_id ← require_challenge env challenge_token Stage.mfa now
    i ← require_identity identity_id now
    found ← gets (λ s. get_mfa_factor i.row.id s.mfa_factors)
    factor ← or_throw (enabled_factor found) bad_mfa_challenge
    pass_recovery factor recovery_code now
    modify (audit context (some i.row.id) Action.mfa_recovery_used Resource.identity)
    issue_session env i context none Action.login_succeeded draws now
