-- ===== src/Lifecycle/Progress.antt =====
-- Jobs that meet no error move their tenant on, and a job that cannot.
use gatway_pagamento_escrito.Prelude.{
  arith, ℕ, ◌≡◌, refl, ap, ◌∙◌, Bool, true, false, ◌≤◌, Option, some, none, List, [], ◌∷◌,
  if◌then◌else◌, if_elim, find, update_where,
}
use gatway_pagamento_escrito.Failure.{Failure, Result, ok, err, check_violation}
use gatway_pagamento_escrito.Admin.{
  TenantStatus, ProvisioningStatus, TenantRow, SubscriptionRow, Tables, AdminDb,
}
use gatway_pagamento_escrito.Tenants.Repository.{has_tenant_id, find_tenant, touched, bad_period}
use gatway_pagamento_escrito.Worker.Provisioning.{
  is_provisioned, set_running, begin_provisioning, set_provisioned, finish_provisioning,
  begin_administrator, activate_tenant, start_attempt, is_pending_of, start_subscription,
}
use gatway_pagamento_escrito.Lifecycle.Phases.{free, creating, set_lock_self}
use gatway_pagamento_escrito.Lifecycle.Jobs.{
  World, with_tables, is_free, is_creating, is_administering, begun, administrator_begun,
  administrator_finished, begin_database_job, finish_database_job, begin_administrator_job,
  finish_administrator_job, end_job,
}
use gatway_pagamento_escrito.Lifecycle.System.{
  Outside, Event, begin_database, finish_database, finish_administrator, end_of_job, apply, run,
}

pub find-changed :
    (k : ℕ) (g : TenantRow → TenantRow) (rows : List TenantRow) {row : TenantRow}
    → ((row : TenantRow) → (g row).id ≡ row.id)
    → find (has_tenant_id k) rows ≡ some row
    → find (has_tenant_id k) (update_where (has_tenant_id k) g rows) ≡ some (g row)
find-changed k g [] keeps e = absurd (cc)
find-changed k g (x ∷ rows) {row} keeps e =
    ground (arith, keeps x, find-changed k g rows {row = row} keeps)

if-taken : {A : Type 0} {b : Bool} {x : A} (y : A) → b ≡ true → (if b then x else y) ≡ x
if-taken {b = b} y e = ground arith

abbrev pub tenant : ℕ → World → Option TenantRow
tenant k w = find (has_tenant_id k) w.db.tables.tenants

begin_provisioning-found :
    (k now : ℕ) (t : Tables) (row : TenantRow)
    → find (has_tenant_id k) t.tenants ≡ some row
    → is_provisioned row.provisioning_status ≡ false
    → begin_provisioning k now t ≡ ok (true, start_attempt k now t)
unfolding begin_provisioning find_tenant
begin_provisioning-found k now t row there todo = rw (begin_provisioning, there, todo) refl

pub begin_database_job-found :
    (w : World) (k now : ℕ) (row : TenantRow)
    → w.locks k ≡ free
    → tenant k w ≡ some row
    → is_provisioned row.provisioning_status ≡ false
    → begin_database_job k now w ≡ with_tables w (start_attempt k now w.db.tables) creating k
unfolding begin_database_job
begin_database_job-found w k now row at_rest there todo =
    if-taken w (ap is_free at_rest)
    ∙ ap (begun w k) (begin_provisioning-found k now w.db.tables row there todo)

finish_database_job-held :
    (w : World) (k host port : ℕ) (job_id : Option ℕ) (now : ℕ)
    → w.locks k ≡ creating
    → finish_database_job k host port job_id now w
      ≡ with_tables w (finish_provisioning k host port job_id now w.db.tables) free k
unfolding finish_database_job
finish_database_job-held w k host port job_id now held = if-taken w (ap is_creating held)

-- A tenant without a database, whatever became of the jobs before, gets one from the next job that
-- runs to its end: after the end of the job that may hold its lock, `provisionDatabase` leaves the
-- tenant waiting for its administrator, with its database named and no error.
pub run-provisions :
    (o : Outside) (w : World) (k host port : ℕ) (job_id : Option ℕ) (begin_at end_at : ℕ)
    (row : TenantRow)
    → tenant k w ≡ some row
    → is_provisioned row.provisioning_status ≡ false
    → tenant k (
        run o
          (end_of_job k
            ∷ begin_database k begin_at
            ∷ finish_database k host port job_id end_at
            ∷ [])
          w)
      ≡ some (record row {
        database_name = some k;
        database_host = some host;
        database_port = some port;
        status = TenantStatus.pending_admin;
        provisioning_status = ProvisioningStatus.completed;
        last_error_code = none;
        updated_at = end_at;
      })
unfolding run apply end_job finish_provisioning
run-provisions o w k host port job_id begin_at end_at row there todo =
    let idle = end_job k w in
    let busy = with_tables idle (start_attempt k begin_at w.db.tables) creating k in
    ap (λ v. tenant k (finish_database_job k host port job_id end_at v))
      (begin_database_job-found idle k begin_at row (set_lock_self k free w.locks) there todo)
    ∙ ap (tenant k) (
        finish_database_job-held busy k host port job_id end_at
          (set_lock_self k creating idle.locks))
    ∙ find-changed k (touched (set_provisioned k host port) end_at)
        (update_where (has_tenant_id k) (touched set_running begin_at) w.db.tables.tenants)
        (λ _. refl)
        (find-changed k (touched set_running begin_at) w.db.tables.tenants (λ _. refl) there)

activate_tenant-ended :
    (k identity_id : ℕ) (job_id : Option ℕ) (now : ℕ) (t : Tables) (s : SubscriptionRow)
    → find (is_pending_of k) t.subscriptions ≡ some s
    → s.current_period_end ≤ now
    → activate_tenant k identity_id job_id now t ≡ err check_violation
unfolding activate_tenant
activate_tenant-ended k identity_id job_id now t s pending ended =
    let late : bad_period (start_subscription now s) ≡ true = ground arith in
    rw (activate_tenant, pending, late) refl

finish_administrator_job-refused :
    (w : World) (k identity_id : ℕ) (job_id : Option ℕ) (now : ℕ) {e : Failure}
    → activate_tenant k identity_id job_id now w.db.tables ≡ err e
    → (finish_administrator_job k identity_id job_id now w).db ≡ w.db
unfolding finish_administrator_job
finish_administrator_job-refused w k identity_id job_id now refused =
    if_elim (λ (v : World). v.db ≡ w.db) (is_administering (w.locks k))
      (λ _. ap (λ (r : Result (Unit {0} × Tables)). (administrator_finished w k r).db) refused)
      (λ _. refl)

begin_administrator_job-db :
    (w : World) (k identity_id : ℕ) → (begin_administrator_job k identity_id w).db ≡ w.db
unfolding begin_administrator_job
begin_administrator_job-db w k identity_id =
    if_elim (λ (v : World). v.db ≡ w.db) (is_free (w.locks k))
      (λ _. begun-db (begin_administrator k identity_id w.db.tables)) (λ _. refl)
  where
    begun-db : (r : Result Bool) → (administrator_begun w k r).db ≡ w.db
    begun-db (ok true) = refl
    begun-db (ok false) = refl
    begun-db (err e) = refl

-- Once the period of the pending subscription of a tenant has ended, the job for its administrator
-- changes nothing in the administration database: the check on the dates of the subscription refuses
-- the last transaction, at this and at every later time.
pub run-expired :
    (o : Outside) (w : World) (k identity_id : ℕ) (job_id : Option ℕ) (now : ℕ)
    (s : SubscriptionRow)
    → find (is_pending_of k) w.db.tables.subscriptions ≡ some s
    → s.current_period_end ≤ now
    → (run o
        (Event.begin_administrator k identity_id
          ∷ finish_administrator k identity_id job_id now
          ∷ [])
        w).db
      ≡ w.db
unfolding run apply
run-expired o w k identity_id job_id now s pending ended =
    finish_administrator_job-refused (begin_administrator_job k identity_id w) k identity_id job_id
      now
      (ap (λ (db : AdminDb). activate_tenant k identity_id job_id now db.tables) same
        ∙ activate_tenant-ended k identity_id job_id now w.db.tables s pending ended)
    ∙ same
  where
    same : (begin_administrator_job k identity_id w).db ≡ w.db
    same = begin_administrator_job-db w k identity_id
