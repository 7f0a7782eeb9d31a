-- ===== src/Lifecycle/Requests.antt =====
-- The callbacks of `TenantsService` keep the tenants in order, whatever locks the jobs hold.
use gatway_pagamento_escrito.Prelude.{
  arith, ℕ, ◌≡◌, refl, sym, ap, ◌∙◌, subst, Bool, true, false, not, Option, none, some, List, [],
  ◌∷◌, is_some, inl, inr, find, update_where,
}
use gatway_pagamento_escrito.Failure.{
  ok, unique_violation, check_violation, >>=-eq-ok, or_throw-eq-ok, lift-eq-ok, throw_if-eq-ok,
  modify-eq-ok, pure-eq-ok, if-eq-ok, if-err-ok, ok-injective,
}
use gatway_pagamento_escrito.Admin.{
  TenantStatus, ProvisioningStatus, TenantRow, Interval, Value, Tables,
}
use gatway_pagamento_escrito.Common.{User, record_mutation}
use gatway_pagamento_escrito.Auth.Password.{Chars}
use gatway_pagamento_escrito.Tenants.Repository.{
  NewTenant, NewAdministrator, tenant_row, tenant_clashes, create_tenant, has_tenant_id,
  find_tenant, update_tenant, create_admin_identity, touched, subscription_clashes, bad_period,
  subscription_row, identity_clashes,
}
use gatway_pagamento_escrito.Tenants.Changes.{
  CreateTenantRequest, CreateTenantAdminRequest, RequestedStatus, create_tenant_tx,
  create_administrator_tx, update_status_tx, retry_provisioning_tx, change_status, set_status,
  requeue, has_status, status_of, allowed_transition, is_failed,
}
use gatway_pagamento_escrito.Lifecycle.Jobs.{is_unraced}
use gatway_pagamento_escrito.Lifecycle.Phases.{
  Lock, free, Locks, in_phase, IsInPhase, IsOrderly, changed-IsOrderly, added-IsOrderly,
}

find-clashes :
    (new : NewTenant) (rows : List TenantRow)
    → is_some (find (tenant_clashes new) rows) ≡ false
    → find (has_tenant_id new.id) rows ≡ none
find-clashes new [] e = refl
find-clashes new (row ∷ rows) e = ground (arith, find-clashes new rows)

-- A new tenant is the only change of `create_tenant`.
pub record IsAdded (t t' : Tables) : Type 0 where
  pub row : TenantRow
  pub fresh : find (has_tenant_id row.id) t.tenants ≡ none
  pub phase : IsInPhase free row
  pub tenants : t'.tenants ≡ row ∷ t.tenants

create_tenant-tenants :
    (lower : ℕ → ℕ) (period_end : Interval → ℕ → ℕ) (new : NewTenant) (now : ℕ) (t t' : Tables)
    {row : TenantRow}
    → create_tenant lower period_end new now t ≡ ok (row, t')
    → (is_some (find (tenant_clashes new) t.tenants) ≡ false)
      × (t'.tenants ≡ tenant_row lower new now ∷ t.tenants)
unfolding create_tenant
create_tenant-tenants lower period_end new now t t' e =
    let (fresh, e) =
      if-err-ok (is_some (find (tenant_clashes new) t.tenants)) unique_violation _ e in
    let (apart, e) =
      if-err-ok (is_some (find (subscription_clashes new) t.subscriptions)) unique_violation _ e in
    let (period, e) =
      if-err-ok (bad_period (subscription_row period_end new now)) check_violation _ e in
    (fresh, sym (ap (λ x. x.tenants) (ok-injective e).1))

create_tenant-IsAdded :
    (lower : ℕ → ℕ) (period_end : Interval → ℕ → ℕ) (new : NewTenant) (now : ℕ) (t t' : Tables)
    {row : TenantRow}
    → create_tenant lower period_end new now t ≡ ok (row, t')
    → IsAdded t t'
create_tenant-IsAdded lower period_end new now t t' e =
    let (fresh, eq) = create_tenant-tenants lower period_end new now t t' e in
    record {
      row = tenant_row lower new now;
      fresh = find-clashes new t.tenants fresh;
      phase = refl;
      tenants = eq;
    }

not-false : {b : Bool} → not b ≡ false → b ≡ true
not-false {b} e = ground arith

-- The tenants stay as they are.
same-IsOrderly :
    (locks : Locks) (t t' : Tables)
    → t'.tenants ≡ t.tenants
    → IsOrderly locks t.tenants
    → IsOrderly locks t'.tenants
same-IsOrderly locks t t' e h = subst (IsOrderly locks) (sym e) h

pub create_tenant_tx-IsOrderly :
    (lower : ℕ → ℕ) (period_end : Interval → ℕ → ℕ) (user : User) (input : CreateTenantRequest)
    (tenant_id subscription_id now : ℕ) (locks : Locks) (t t' : Tables) {value : Value}
    → IsOrderly locks t.tenants
    → create_tenant_tx lower period_end user input tenant_id subscription_id now t ≡ ok (value, t')
    → IsOrderly locks t'.tenants
unfolding create_tenant_tx record_mutation
create_tenant_tx-IsOrderly lower period_end user input tenant_id subscription_id now locks t t' h
      e =
    let (found, e1, e) = lift-eq-ok _ _ t e in
    let (plan, e2, e) = or_throw-eq-ok _ _ _ t e in
    let (row, t1, e3, e) = >>=-eq-ok _ _ t e in
    let e = modify-eq-ok _ _ t1 e in
    let (_, q) = pure-eq-ok _ _ e in
    let a = create_tenant-IsAdded lower period_end _ now t t1 e3 in
    same-IsOrderly locks t1 t' (sym (ap (λ x. x.tenants) q)) (
      subst (IsOrderly locks) (sym a.tenants)
        (added-IsOrderly locks a.row t.tenants a.fresh a.phase h))

create_admin_identity-tenants :
    (lower : ℕ → ℕ) (new : NewAdministrator) (id : ℕ) (t t' : Tables) {identity_id : ℕ}
    → create_admin_identity lower new id t ≡ ok (identity_id, t')
    → t'.tenants ≡ t.tenants
unfolding create_admin_identity
create_admin_identity-tenants lower new id t t' e =
    let (unclaimed, e) =
      if-err-ok (is_some (find (identity_clashes id (lower new.email)) t.identities))
        unique_violation _ e in
    sym (ap (λ x. x.tenants) (ok-injective e).1)

pub create_administrator_tx-IsOrderly :
    (lower trim_lower : ℕ → ℕ) (argon2_hash : ℕ → Chars → ℕ) (user : User) (tenant_id : ℕ)
    (input : CreateTenantAdminRequest) (salt identity_id now : ℕ) (locks : Locks) (t t' : Tables)
    {value : Value}
    → IsOrderly locks t.tenants
    → create_administrator_tx lower trim_lower argon2_hash user tenant_id input salt identity_id now
        t
      ≡ ok (value, t')
    → IsOrderly locks t'.tenants
unfolding create_administrator_tx record_mutation
create_administrator_tx-IsOrderly lower trim_lower argon2_hash user tenant_id input salt identity_id
      now locks t t' h e =
    let (ready, e) = throw_if-eq-ok _ _ _ t e in
    let (first, e) = throw_if-eq-ok _ _ _ t e in
    let (hash, e1, e) = lift-eq-ok _ _ t e in
    let (id, t1, e2, e) = >>=-eq-ok _ _ t e in
    let e = modify-eq-ok _ _ t1 e in
    let (_, q) = pure-eq-ok _ _ e in
    same-IsOrderly locks t t'
      (sym (ap (λ x. x.tenants) q) ∙ create_admin_identity-tenants lower _ identity_id t t1 e2) h

update_tenant-tenants :
    (k : ℕ) (g : TenantRow → TenantRow) (now : ℕ) (t t' : Tables) {o : Option TenantRow}
    → update_tenant k g now t ≡ ok (o, t')
    → t'.tenants ≡ update_where (has_tenant_id k) (touched g now) t.tenants
unfolding update_tenant
update_tenant-tenants k g now t t' e = sym (ap (λ x. x.tenants) (pure-eq-ok _ _ e).1)

set_status-phase :
    (s : TenantStatus) (status : RequestedStatus) (p : ProvisioningStatus) (named : Bool)
    (lock : Lock)
    → allowed_transition s status ≡ true
    → in_phase s p named lock ≡ true
    → in_phase (status_of status) p named lock ≡ true
set_status-phase s status p named lock a h = ground arith

change_status-IsOrderly :
    (user : User) (tenant_id : ℕ) (status : RequestedStatus) (now : ℕ) (locks : Locks)
    (t t' : Tables) {tenant : TenantRow} {value : Value}
    → IsOrderly locks t.tenants
    → find_tenant tenant_id t ≡ some tenant
    → change_status user tenant_id status now tenant t ≡ ok (value, t')
    → IsOrderly locks t'.tenants
unfolding record_mutation find_tenant
change_status-IsOrderly user tenant_id status now locks t t' {tenant} h found e =
    let (allowed, e) = throw_if-eq-ok _ _ _ t e in
    let (o, t1, e1, e) = >>=-eq-ok _ _ t e in
    let (row, e2, e) = or_throw-eq-ok _ _ _ t1 e in
    let e = modify-eq-ok _ _ t1 e in
    let (_, q) = pure-eq-ok _ _ e in
    let kept =
      changed-IsOrderly tenant_id (touched (set_status status now) now) locks locks t.tenants
        (λ _. refl) (λ _ _. refl) found
        (set_status-phase tenant.status status tenant.provisioning_status
          (is_some tenant.database_name) (locks tenant_id) (not-false allowed))
        h in
    same-IsOrderly locks t1 t' (sym (ap (λ x. x.tenants) q))
      (subst (IsOrderly locks) (sym (update_tenant-tenants tenant_id _ now t t1 e1)) kept)

pub update_status_tx-IsOrderly :
    (user : User) (tenant_id : ℕ) (status : RequestedStatus) (now : ℕ) (locks : Locks)
    (t t' : Tables) {value : Value}
    → IsOrderly locks t.tenants
    → update_status_tx user tenant_id status now t ≡ ok (value, t')
    → IsOrderly locks t'.tenants
unfolding update_status_tx
update_status_tx-IsOrderly user tenant_id status now locks t t' h e =
    let (tenant, found, e) = or_throw-eq-ok _ _ _ t e in
    elim (if-eq-ok (has_status status tenant.status) _ _ t e) [
      | inl (_, e) ↦ same-IsOrderly locks t t' (sym (ap (λ x. x.tenants) (pure-eq-ok _ _ e).1)) h
      | inr (_, e) ↦ change_status-IsOrderly user tenant_id status now locks t t' h found e
    ]

requeue-phase :
    (s : TenantStatus) (p : ProvisioningStatus) (named : Bool) (lock : Lock)
    → is_failed s ≡ true
    → in_phase s p named lock ≡ true
    → in_phase TenantStatus.provisioning ProvisioningStatus.queued named lock ≡ true
requeue-phase s p named lock f h = ground arith

unraced-failed :
    (seen present : Option TenantRow) {row : TenantRow}
    → seen ≡ some row
    → is_failed row.status ≡ true
    → is_unraced seen present ≡ true
    → (tenant : TenantRow) × (present ≡ some tenant) × (is_failed tenant.status ≡ true)
unraced-failed none present read failed u = absurd (cc)
unraced-failed (some x) none read failed u = absurd (ground (arith, read))
unraced-failed (some x) (some y) read failed u = (y, refl, ground (arith, read))

pub retry_provisioning_tx-IsOrderly :
    (user : User) (tenant_id : ℕ) (seen : Option TenantRow) (now : ℕ) (locks : Locks)
    (t t' : Tables) {value : Value}
    → is_unraced seen (find_tenant tenant_id t) ≡ true
    → IsOrderly locks t.tenants
    → retry_provisioning_tx user tenant_id seen now t ≡ ok (value, t')
    → IsOrderly locks t'.tenants
unfolding retry_provisioning_tx record_mutation find_tenant
retry_provisioning_tx-IsOrderly user tenant_id seen now locks t t' unraced h e =
    let (row, read, e) = or_throw-eq-ok _ _ _ t e in
    let (failed, e) = throw_if-eq-ok _ _ _ t e in
    let (tenant, found, failed) = unraced-failed seen _ read (not-false failed) unraced in
    let (o, t1, e1, e) = >>=-eq-ok _ _ t e in
    let (row, e2, e) = or_throw-eq-ok _ _ _ t1 e in
    let e = modify-eq-ok _ _ t1 e in
    let (_, q) = pure-eq-ok _ _ e in
    let kept =
      changed-IsOrderly tenant_id (touched requeue now) locks locks t.tenants (λ _. refl)
        (λ _ _. refl) found
        (requeue-phase tenant.status tenant.provisioning_status (is_some tenant.database_name)
          (locks tenant_id) failed)
        h in
    same-IsOrderly locks t1 t' (sym (ap (λ x. x.tenants) q))
      (subst (IsOrderly locks) (sym (update_tenant-tenants tenant_id _ now t t1 e1)) kept)
