-- ===== src/Auth/Repository.antt =====
-- `AuthRepository`: one function per method.
use gatway_pagamento_escrito.Prelude.{
  ℕ, ◌+◌, Bool, true, false, ◌&&◌, Option, none, some, List, [], ◌∷◌, ltb, ◌==◌, if◌then◌else◌,
  length, find, select, update_where, count_where, delete_where, ◌++◌,
}
use gatway_pagamento_escrito.Failure.{error, ok, err}
use gatway_pagamento_escrito.Admin.{IdentityStatus, IdentityRow, TenantRow}
use gatway_pagamento_escrito.Common.{is_null}
use gatway_pagamento_escrito.Auth.Rows.{
  MfaFactorRow, MfaBackupCodeRow, AuditInput, IdentityWithTenant, Server,
}
use gatway_pagamento_escrito.Auth.Flow.{Flow}

abbrev pub is_tenant_of : IdentityRow → TenantRow → Bool
is_tenant_of i t = elim i.tenant_id [ none ↦ false | some tenant_id ↦ t.id == tenant_id ]

-- The left join of a live identity with its tenant.
abbrev pub with_tenant : List TenantRow → Option IdentityRow → Option IdentityWithTenant
with_tenant tenants none = none
with_tenant tenants (some i) = some (record {
  row = i;
  tenant_status = elim (find (is_tenant_of i) tenants) [ none ↦ none | some t ↦ some t.status ];
  tenant_database_name = elim (find (is_tenant_of i) tenants) [
    | none ↦ none
    | some t ↦ t.database_name
  ];
})

abbrev pub has_email : ℕ → IdentityRow → Bool
has_email normalized_email i = i.normalized_email == normalized_email && is_null i.deleted_at

-- `findIdentityByNormalizedEmail`
unfoldable pub find_identity_by_normalized_email : ℕ → Server → Option IdentityWithTenant
find_identity_by_normalized_email normalized_email s =
    with_tenant s.tenants (find (has_email normalized_email) s.identities)

abbrev pub has_id : ℕ → IdentityRow → Bool
has_id identity_id i = i.id == identity_id && is_null i.deleted_at

-- `findIdentityById`
unfoldable pub find_identity_by_id : ℕ → Server → Option IdentityWithTenant
find_identity_by_id identity_id s = with_tenant s.tenants (find (has_id identity_id) s.identities)

abbrev pub is_factor_of : ℕ → MfaFactorRow → Bool
is_factor_of identity_id f = f.identity_id == identity_id

-- `getMfaFactor`
unfoldable pub get_mfa_factor : ℕ → List MfaFactorRow → Option MfaFactorRow
get_mfa_factor identity_id factors = find (is_factor_of identity_id) factors

-- `savePendingMfaFactor`
unfoldable pub save_pending_mfa_factor : ℕ → ℕ → Server → Server
save_pending_mfa_factor identity_id secret_ciphertext s =
    elim (find (is_factor_of identity_id) s.mfa_factors) [
      | some _ ↦ record s {
        mfa_factors =
            update_where (is_factor_of identity_id)
              (λ f. record f {
                secret_ciphertext = secret_ciphertext;
                enabled_at = none;
                last_used_step = none;
              })
              s.mfa_factors;
      }
      | none ↦ record s {
        mfa_factors =
            record {
              id = s.next_id;
              identity_id = identity_id;
              secret_ciphertext = secret_ciphertext;
              enabled_at = none;
              last_used_step = none;
            }
            ∷ s.mfa_factors;
        next_id = s.next_id + 1;
      }
    ]

abbrev pub is_factor : ℕ → MfaFactorRow → Bool
is_factor factor_id f = f.id == factor_id

-- `enableMfaFactor`
unfoldable pub enable_mfa_factor : ℕ → ℕ → Flow Server (Unit {0})
enable_mfa_factor factor_id now s =
    if count_where (is_factor factor_id) s.mfa_factors == 1
    then (
      ok tt,
      record s {
        mfa_factors =
            update_where (is_factor factor_id) (λ f. record f { enabled_at = some now })
              s.mfa_factors;
      },
    )
    else (err (error "MFA factor was not updated"), s)

abbrev pub is_before : Option ℕ → ℕ → Bool
is_before none step = true
is_before (some used) step = ltb used step

abbrev pub accepts_step : ℕ → ℕ → MfaFactorRow → Bool
accepts_step factor_id step f = f.id == factor_id && is_before f.last_used_step step

abbrev pub use_step : ℕ → MfaFactorRow → MfaFactorRow
use_step step f = record f { last_used_step = some step }

-- `consumeMfaStep`, on the table
unfoldable pub consume_mfa_step : ℕ → ℕ → List MfaFactorRow → Bool × List MfaFactorRow
consume_mfa_step factor_id step factors = (
  count_where (accepts_step factor_id step) factors == 1,
  update_where (accepts_step factor_id step) (use_step step) factors,
)

abbrev pub is_code_of : ℕ → MfaBackupCodeRow → Bool
is_code_of factor_id c = c.factor_id == factor_id

abbrev pub backup_rows : ℕ → ℕ → List ℕ → List MfaBackupCodeRow
backup_rows factor_id next_id [] = []
backup_rows factor_id next_id (h ∷ hs) =
    record { id = next_id; factor_id = factor_id; code_hash = h; used_at = none }
    ∷ backup_rows factor_id (next_id + 1) hs

-- `replaceBackupCodes`
unfoldable pub replace_backup_codes : ℕ → List ℕ → Server → Server
replace_backup_codes factor_id code_hashes s = record s {
  mfa_backup_codes =
      backup_rows factor_id s.next_id code_hashes
      ++ delete_where (is_code_of factor_id) s.mfa_backup_codes;
  next_id = s.next_id + length code_hashes;
}

abbrev pub is_unused_code_of : ℕ → MfaBackupCodeRow → Bool
is_unused_code_of factor_id c = c.factor_id == factor_id && is_null c.used_at

-- `listUnusedBackupCodes`
unfoldable pub list_unused_backup_codes : ℕ → List MfaBackupCodeRow → List MfaBackupCodeRow
list_unused_backup_codes factor_id codes = select (is_unused_code_of factor_id) codes

abbrev pub is_unused : ℕ → MfaBackupCodeRow → Bool
is_unused code_id c = c.id == code_id && is_null c.used_at

abbrev pub use_code : ℕ → MfaBackupCodeRow → MfaBackupCodeRow
use_code now c = record c { used_at = some now }

-- `consumeBackupCode`, on the table
unfoldable pub consume_backup_code : ℕ → ℕ → List MfaBackupCodeRow → Bool × List MfaBackupCodeRow
consume_backup_code code_id now codes = (
  count_where (is_unused code_id) codes == 1,
  update_where (is_unused code_id) (use_code now) codes,
)

abbrev pub is_identity : ℕ → IdentityRow → Bool
is_identity identity_id i = i.id == identity_id

-- `updatePassword`
unfoldable pub update_password : ℕ → ℕ → ℕ → Flow Server (Unit {0})
update_password identity_id password_hash now s =
    if count_where (is_identity identity_id) s.identities == 1
    then (
      ok tt,
      record s {
        identities =
            update_where (is_identity identity_id)
              (λ i. record i {
                password_hash = password_hash;
                must_change_password = false;
                password_changed_at = some now;
              })
              s.identities;
      },
    )
    else (err (error "Identity password was not updated"), s)

abbrev pub is_pending : IdentityStatus → Bool
is_pending IdentityStatus.pending = true
is_pending _ = false

-- `activateIdentity`
unfoldable pub activate_identity : ℕ → Server → Server
activate_identity identity_id s = record s {
  identities =
      update_where (λ i. i.id == identity_id && is_pending i.status)
        (λ i. record i { status = IdentityStatus.active }) s.identities;
}

-- `recordSuccessfulLogin`
unfoldable pub record_successful_login : ℕ → ℕ → Flow Server (Unit {0})
record_successful_login identity_id now s =
    if count_where (is_identity identity_id) s.identities == 1
    then (
      ok tt,
      record s {
        identities =
            update_where (is_identity identity_id)
              (λ i. record i { last_login_at = some now; locked_until = none }) s.identities;
      },
    )
    else (err (error "Identity login timestamp was not updated"), s)

-- `appendAudit`
unfoldable pub append_audit : AuditInput → Server → Server
append_audit input s = record s { audit_logs = input ∷ s.audit_logs }
