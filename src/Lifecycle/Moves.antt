-- ===== src/Lifecycle/Moves.antt =====
-- The steps of the jobs of `TenantProvisioningWorker` keep the tenants in order.
use gatway_pagamento_escrito.Prelude.{
  arith, ℕ, ◌≡◌, refl, sym, ap, ◌∙◌, subst, Bool, true, false, Option, some, if◌then◌else◌, if_elim,
  is_some, inl, inr, if-cases, Option-cases, find, update_where,
}
use gatway_pagamento_escrito.Failure.{error, ok, err, err≢ok, Result-cases, ok-injective}
use gatway_pagamento_escrito.Admin.{
  TenantStatus, ProvisioningStatus, TenantRow, IdentityRow, Tables,
}
use gatway_pagamento_escrito.Tenants.Repository.{has_tenant_id, find_tenant, touched}
use gatway_pagamento_escrito.Worker.Provisioning.{
  is_provisioned, set_running, begin_provisioning, set_provisioned, finish_provisioning, set_failed,
  fail_provisioning, is_active, begin_administrator, set_active, activate_tenant,
  started_subscriptions, is_pending_of, has_profile, is_administrator, start_attempt,
}
use gatway_pagamento_escrito.Lifecycle.Phases.{
  free, creating, administering, set_lock, IsOrderly, in_phase,
}
use gatway_pagamento_escrito.Lifecycle.Jobs.{
  World, is_free, is_creating, is_administering, begin_database_job, finish_database_job,
  fail_database_job, begin_administrator_job, finish_administrator_job, end_job,
}
use gatway_pagamento_escrito.Lifecycle.Held.{
  free_of, creating≢free, administering≢free, creating_of, administering_of, moved-IsOrderly,
  update_where-id, released-IsOrderly, held-find,
}

false≢true : ¬ (false ≡ true)
false≢true e = cc

-- What a job's first read found, and what it wrote
begin_provisioning-tenants :
    (k now : ℕ) (t t' : Tables)
    → begin_provisioning k now t ≡ ok (true, t')
    → (row : TenantRow) × (find (has_tenant_id k) t.tenants ≡ some row)
      × (is_provisioned row.provisioning_status ≡ false)
      × (t'.tenants ≡ update_where (has_tenant_id k) (touched set_running now) t.tenants)
unfolding begin_provisioning find_tenant
begin_provisioning-tenants k now t t' e = elim (Option-cases (find (has_tenant_id k) t.tenants)) [
  | inl missing ↦ absurd (cc)
  | inr (row, there) ↦
      elim (if-cases (is_provisioned row.provisioning_status) (ok (false, t))
        (ok (true, start_attempt k now t)) (rw (there, begin_provisioning) at e)) [
          | inl (_, e) ↦ absurd (false≢true (ok-injective e).0)
          | inr (todo, e) ↦ (row, there, todo, sym (ap (λ x. x.tenants) (ok-injective e).1))
        ]
]

running-phase :
    (s : TenantStatus) (p : ProvisioningStatus) (named : Bool)
    → is_provisioned p ≡ false
    → in_phase s p named free ≡ true
    → in_phase TenantStatus.provisioning ProvisioningStatus.running named creating ≡ true
running-phase s p named e h = ground arith

failed-phase :
    (s : TenantStatus) (p : ProvisioningStatus) (named : Bool)
    → in_phase s p named creating ≡ true
    → in_phase TenantStatus.failed ProvisioningStatus.failed named free ≡ true
failed-phase s p named h = ground arith

administering-phase :
    (s : TenantStatus) (p : ProvisioningStatus) (named : Bool)
    → named ≡ true
    → in_phase s p named free ≡ true
    → in_phase s p named administering ≡ true
administering-phase s p named e h = ground arith

active-phase :
    (s : TenantStatus) (p : ProvisioningStatus) (named : Bool)
    → in_phase s p named administering ≡ true
    → in_phase TenantStatus.active p named free ≡ true
active-phase s p named h = ground arith

abbrev Orderly : World → Type 0
Orderly w = IsOrderly w.locks w.db.tables.tenants

pub begin_database_job-IsOrderly :
    (k now : ℕ) (w : World) → Orderly w → Orderly (begin_database_job k now w)
unfolding begin_database_job
begin_database_job-IsOrderly k now w h =
    if_elim Orderly (is_free (w.locks k))
      (λ at_rest. elim (Result-cases (begin_provisioning k now w.db.tables)) [
        | inl ((true, t), e) ↦ rw e (
            let (row, there, unfinished, eq) = begin_provisioning-tenants k now w.db.tables t e in
            subst (IsOrderly (set_lock k creating w.locks)) (sym eq) (
              moved-IsOrderly k (touched set_running now) free creating w.locks w.db.tables.tenants
                (λ _. refl) there (free_of (w.locks k) at_rest)
                (running-phase row.status row.provisioning_status (is_some row.database_name)
                  unfinished)
                h))
        | inl ((false, t), e) ↦ rw e h
        | inr (_, e) ↦ rw e h
      ])
      (λ _. h)

pub finish_database_job-IsOrderly :
    (k host port : ℕ) (job_id : Option ℕ) (now : ℕ) (w : World)
    → Orderly w
    → Orderly (finish_database_job k host port job_id now w)
unfolding finish_database_job finish_provisioning
finish_database_job-IsOrderly k host port job_id now w h =
    if_elim Orderly (is_creating (w.locks k))
      (λ busy.
        let held = creating_of (w.locks k) busy in
        let (row, there) =
          held-find k w.locks w.db.tables.tenants h (λ e. creating≢free (sym held ∙ e)) in
        moved-IsOrderly k (touched (set_provisioned k host port) now) creating free w.locks
          w.db.tables.tenants (λ _. refl) there held (λ _. refl) h)
      (λ _. h)

pub fail_database_job-IsOrderly :
    (k error_detail now : ℕ) (w : World)
    → Orderly w
    → Orderly (fail_database_job k error_detail now w)
unfolding fail_database_job fail_provisioning
fail_database_job-IsOrderly k error_detail now w h =
    if_elim Orderly (is_creating (w.locks k))
      (λ busy.
        let held = creating_of (w.locks k) busy in
        let (row, there) =
          held-find k w.locks w.db.tables.tenants h (λ e. creating≢free (sym held ∙ e)) in
        moved-IsOrderly k (touched set_failed now) creating free w.locks w.db.tables.tenants
          (λ _. refl) there held
          (failed-phase row.status row.provisioning_status (is_some row.database_name)) h)
      (λ _. h)

named :
    (row : TenantRow) (i : IdentityRow)
    → (if is_active row.status
        then ok false
        else if has_profile row i
        then ok true
        else err (error "Tenant database and administrator profile are required"))
      ≡ ok true
    → is_some row.database_name ≡ true
named row i e = ground arith

-- A job for an administrator goes on only for a tenant that has a database.
begin_administrator-find :
    (k identity_id : ℕ) (t : Tables)
    → begin_administrator k identity_id t ≡ ok true
    → (row : TenantRow) × (find (has_tenant_id k) t.tenants ≡ some row)
      × (is_some row.database_name ≡ true)
unfolding begin_administrator find_tenant
begin_administrator-find k identity_id t e =
    elim (Option-cases (find (has_tenant_id k) t.tenants)) [
      | inl missing ↦ absurd (cc)
      | inr (row, there) ↦
          elim (Option-cases (find (is_administrator k identity_id) t.identities)) [
            | inl missing ↦ absurd (err≢ok (rw (there, missing, begin_administrator) at e))
            | inr (i, found) ↦
                (row, there, named row i (rw (there, found, begin_administrator) at e))
          ]
    ]

pub begin_administrator_job-IsOrderly :
    (k identity_id : ℕ) (w : World) → Orderly w → Orderly (begin_administrator_job k identity_id w)
unfolding begin_administrator_job
begin_administrator_job-IsOrderly k identity_id w h =
    if_elim Orderly (is_free (w.locks k))
      (λ at_rest. elim (Result-cases (begin_administrator k identity_id w.db.tables)) [
        | inl (true, e) ↦ rw e (
            let (row, there, named) = begin_administrator-find k identity_id w.db.tables e in
            subst (IsOrderly (set_lock k administering w.locks))
              (update_where-id k w.db.tables.tenants)
              (moved-IsOrderly k (λ row. row) free administering w.locks w.db.tables.tenants
                (λ _. refl) there (free_of (w.locks k) at_rest)
                (administering-phase row.status row.provisioning_status (is_some row.database_name)
                  named)
                h))
        | inl (false, e) ↦ rw e h
        | inr (_, e) ↦ rw e h
      ])
      (λ _. h)

activate_tenant-tenants :
    (k identity_id : ℕ) (job_id : Option ℕ) (now : ℕ) (t t' : Tables)
    → activate_tenant k identity_id job_id now t ≡ ok (tt, t')
    → t'.tenants ≡ update_where (has_tenant_id k) (touched (set_active now) now) t.tenants
unfolding activate_tenant
activate_tenant-tenants k identity_id job_id now t t' e =
    elim (Result-cases
      (started_subscriptions now (find (is_pending_of k) t.subscriptions) t.subscriptions)) [
        | inl (subscriptions, s) ↦
            sym (ap (λ x. x.tenants) (ok-injective (rw (s, activate_tenant) at e)).1)
        | inr (_, s) ↦ absurd (cc)
      ]

pub finish_administrator_job-IsOrderly :
    (k identity_id : ℕ) (job_id : Option ℕ) (now : ℕ) (w : World)
    → Orderly w
    → Orderly (finish_administrator_job k identity_id job_id now w)
unfolding finish_administrator_job
finish_administrator_job-IsOrderly k identity_id job_id now w h =
    if_elim Orderly (is_administering (w.locks k))
      (λ busy.
        let held = administering_of (w.locks k) busy in
        let (row, there) =
          held-find k w.locks w.db.tables.tenants h (λ e. administering≢free (sym held ∙ e)) in
        elim (Result-cases (activate_tenant k identity_id job_id now w.db.tables)) [
          | inl ((tt, t), e) ↦ rw e (
              subst (IsOrderly (set_lock k free w.locks))
                (sym (activate_tenant-tenants k identity_id job_id now w.db.tables t e))
                (moved-IsOrderly k (touched (set_active now) now) administering free w.locks
                  w.db.tables.tenants (λ _. refl) there held
                  (active-phase row.status row.provisioning_status (is_some row.database_name)) h))
          | inr (_, e) ↦ rw e (released-IsOrderly k w.locks w.db.tables.tenants h)
        ])
      (λ _. h)

pub end_job-IsOrderly : (k : ℕ) (w : World) → Orderly w → Orderly (end_job k w)
unfolding end_job
end_job-IsOrderly k w h = released-IsOrderly k w.locks w.db.tables.tenants h
