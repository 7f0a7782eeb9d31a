-- ===== src/Lifecycle/Jobs.antt =====
-- The jobs of `TenantProvisioningWorker` under the advisory lock of their tenant, each in two steps
-- between which other calls and jobs run.
use gatway_pagamento_escrito.Prelude.{
  ℕ, Bool, true, false, not, ◌&&◌, ◌||◌, Option, none, some, if◌then◌else◌,
}
use gatway_pagamento_escrito.Failure.{Result, ok, err}
use gatway_pagamento_escrito.Admin.{TenantRow, Tables, AdminDb}
use gatway_pagamento_escrito.Tenants.Repository.{find_tenant}
use gatway_pagamento_escrito.Tenants.Changes.{is_failed}
use gatway_pagamento_escrito.Worker.Provisioning.{
  is_provisioned, upsert_attempt, begin_provisioning, finish_provisioning, fail_provisioning,
  begin_administrator, activate_tenant,
}
use gatway_pagamento_escrito.Lifecycle.Phases.{Lock, free, creating, administering, Locks, set_lock}

-- The administration database, who holds the locks, and the tenant that each running request to retry
-- has read: `reads request tenant_id`
pub record World : Type 0 where
  pub db : AdminDb
  pub locks : Locks
  pub reads : ℕ → ℕ → Option TenantRow

abbrev is_failed_tenant : Option TenantRow → Bool
is_failed_tenant none = false
is_failed_tenant (some row) = is_failed row.status

-- A retry that read a failed tenant finds it still failed when it writes.
abbrev pub is_unraced : (seen present : Option TenantRow) → Bool
is_unraced seen present = not (is_failed_tenant seen) || is_failed_tenant present

abbrev pub with_tables : World → Tables → Lock → ℕ → World
with_tables w t lock k = record w {
  db = record w.db { tables = t };
  locks = set_lock k lock w.locks;
}

abbrev pub is_free : Lock → Bool
is_free free = true
is_free _ = false

abbrev pub is_creating : Lock → Bool
is_creating creating = true
is_creating _ = false

abbrev pub is_administering : Lock → Bool
is_administering administering = true
is_administering _ = false

abbrev pub begun : World → ℕ → Result (Bool × Tables) → World
begun w k (ok (true, t)) = with_tables w t creating k
begun w k _ = w

-- A job for a database that finds the lock free
unfoldable pub begin_database_job : (tenant_id now : ℕ) → World → World
begin_database_job k now w =
    if is_free (w.locks k) then begun w k (begin_provisioning k now w.db.tables) else w

abbrev pub lacks_database : Option TenantRow → Bool
lacks_database none = false
lacks_database (some row) = not (is_provisioned row.provisioning_status)

-- A job whose process ends after it wrote its attempt and before it wrote the tenant
unfoldable pub cut_database_job : (tenant_id now : ℕ) → World → World
unfolding find_tenant upsert_attempt
cut_database_job k now w =
    if is_free (w.locks k) && lacks_database (find_tenant k w.db.tables)
    then record w {
      db = record w.db {
        tables = record w.db.tables {
          provisioning_attempts = upsert_attempt k now w.db.tables.provisioning_attempts;
        };
      };
    }
    else w

-- The database is there and migrated.
unfoldable pub finish_database_job :
    (tenant_id host port : ℕ) → (job_id : Option ℕ) → (now : ℕ) → World → World
finish_database_job k host port job_id now w =
    if is_creating (w.locks k)
    then with_tables w (finish_provisioning k host port job_id now w.db.tables) free k
    else w

-- Creating it failed.
unfoldable pub fail_database_job : (tenant_id error_detail now : ℕ) → World → World
fail_database_job k error_detail now w =
    if is_creating (w.locks k)
    then with_tables w (fail_provisioning k error_detail now w.db.tables) free k
    else w

abbrev pub administrator_begun : World → ℕ → Result Bool → World
administrator_begun w k (ok true) = with_tables w w.db.tables administering k
administrator_begun w k _ = w

-- A job for an administrator that finds the lock free
unfoldable pub begin_administrator_job : (tenant_id identity_id : ℕ) → World → World
begin_administrator_job k identity_id w =
    if is_free (w.locks k)
    then administrator_begun w k (begin_administrator k identity_id w.db.tables)
    else w

abbrev pub administrator_finished : World → ℕ → Result (Unit {0} × Tables) → World
administrator_finished w k (ok (_, t)) = with_tables w t free k
administrator_finished w k (err e) = with_tables w w.db.tables free k

-- The rows of the tenant's own database are written; the job ends whether or not the last
-- transaction commits.
unfoldable pub finish_administrator_job :
    (tenant_id identity_id : ℕ) → (job_id : Option ℕ) → (now : ℕ) → World → World
finish_administrator_job k identity_id job_id now w =
    if is_administering (w.locks k)
    then administrator_finished w k (activate_tenant k identity_id job_id now w.db.tables)
    else w

-- The process of a job ends before its next statement, and with it the session that held the lock.
unfoldable pub end_job : (tenant_id : ℕ) → World → World
end_job k w = with_tables w w.db.tables free k
