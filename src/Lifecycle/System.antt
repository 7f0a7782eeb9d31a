-- ===== src/Lifecycle/System.antt =====
-- Requests to `TenantsService` and steps of `TenantProvisioningWorker` in any order.
use gatway_pagamento_escrito.Prelude.{
  ℕ, ◌≡◌, Bool, true, ◌&&◌, ◌==◌, if◌then◌else◌, Option, none, some, List, [], ◌∷◌, if_elim, not,
}
use gatway_pagamento_escrito.Failure.{Failure}
use gatway_pagamento_escrito.Idempotency.Laws.{IsValid}
use gatway_pagamento_escrito.Idempotency.Retries.{execute-keeps}
use gatway_pagamento_escrito.Admin.{Interval, Scope, Scope-discrete, TenantRow, Tables, AdminDb}
use gatway_pagamento_escrito.Tenants.Repository.{find_tenant}
use gatway_pagamento_escrito.Common.{User, is_platform}
use gatway_pagamento_escrito.Auth.Password.{Chars, validate_password_policy}
use gatway_pagamento_escrito.Tenants.Changes.{
  CreateTenantRequest, CreateTenantAdminRequest, AdministratorKey, RequestedStatus, StatusRequest,
  create_tenant_tx, create_administrator_tx, update_status_tx, retry_provisioning_tx,
}
use gatway_pagamento_escrito.Tenants.Service.{
  Answer, create_tenant_call, administrator_key, create_administrator_checked,
  create_administrator_call, update_status_call, retry_provisioning_call,
}
use gatway_pagamento_escrito.Lifecycle.Phases.{Locks, IsOrderly}
use gatway_pagamento_escrito.Lifecycle.Jobs.{
  World, is_unraced, begin_database_job, cut_database_job, finish_database_job, fail_database_job,
  begin_administrator_job, finish_administrator_job, end_job,
}
use gatway_pagamento_escrito.Lifecycle.Requests.{
  create_tenant_tx-IsOrderly, create_administrator_tx-IsOrderly, update_status_tx-IsOrderly,
  retry_provisioning_tx-IsOrderly,
}

-- The functions of other packages: the request hashes, the case and trimming of an e-mail, the
-- calendar and argon2.
pub record Outside : Type 0 where
  pub hash_create : CreateTenantRequest → ℕ
  pub hash_administrator : AdministratorKey → ℕ
  pub hash_status : StatusRequest → ℕ
  pub hash_retry : ℕ → ℕ
  pub lower : ℕ → ℕ
  pub trim_lower : ℕ → ℕ
  pub to_lower_case : Chars → Chars
  pub period_end : Interval → ℕ → ℕ
  pub argon2_hash : ℕ → Chars → ℕ

-- A retry is two events, the read of the tenant and the rest of its transaction.
-- A request, with the ids that would be drawn and the time, or a step of a job
pub data Event : Type 0 where
  create_tenant : User → ℕ → CreateTenantRequest → (tenant_id subscription_id now : ℕ) → Event
  create_administrator :
      User → (tenant_id key : ℕ) → CreateTenantAdminRequest → (salt identity_id now : ℕ) → Event
  update_status : User → (tenant_id key : ℕ) → RequestedStatus → (now : ℕ) → Event
  read_for_retry : (request tenant_id : ℕ) → Event
  retry_provisioning : (request : ℕ) → User → (tenant_id key now : ℕ) → Event
  begin_database cut_database : (tenant_id now : ℕ) → Event
  finish_database : (tenant_id host port : ℕ) → Option ℕ → (now : ℕ) → Event
  fail_database : (tenant_id error_detail now : ℕ) → Event
  begin_administrator : (tenant_id identity_id : ℕ) → Event
  finish_administrator : (tenant_id identity_id : ℕ) → Option ℕ → (now : ℕ) → Event
  end_of_job : (tenant_id : ℕ) → Event

abbrev pub set_read :
    (request tenant_id : ℕ)
    → Option TenantRow
    → (ℕ → ℕ → Option TenantRow)
    → (ℕ → ℕ → Option TenantRow)
set_read request tenant_id row reads request' tenant_id' =
    if request == request' && tenant_id == tenant_id' then row else reads request' tenant_id'

abbrev pub is_unraced_event : Event → World → Bool
is_unraced_event (retry_provisioning request user tenant_id key now) w =
    is_unraced (w.reads request tenant_id) (find_tenant tenant_id w.db.tables)
is_unraced_event _ w = true

-- A request leaves the locks alone.
abbrev answered : World → AdminDb → World
answered w db = record w { db = db }

-- The keys of the requests are in order, and so are the tenants under the locks.
pub record IsSettled (w : World) : Type 0 where
  pub keys : IsValid Scope-discrete w.db
  pub tenants : IsOrderly w.locks w.db.tables.tenants

abbrev OrderlyTables : Locks → Tables → Type 0
OrderlyTables locks t = IsOrderly locks t.tenants

abbrev Settled : World → Answer → Type 0
Settled w r = IsSettled (answered w r.1)

module _ (o : Outside) where
  unfoldable pub apply : Event → World → World
  apply (create_tenant user key input tenant_id subscription_id now) w =
      answered w
        (create_tenant_call o.hash_create o.lower o.period_end user key input tenant_id
          subscription_id now w.db).1
  apply (create_administrator user tenant_id key input salt identity_id now) w =
      answered w
        (create_administrator_call o.hash_administrator o.lower o.trim_lower o.to_lower_case
          o.argon2_hash user tenant_id key input salt identity_id now w.db).1
  apply (update_status user tenant_id key status now) w =
      answered w (update_status_call o.hash_status user tenant_id key status now w.db).1
  apply (read_for_retry request tenant_id) w = record w {
    reads = set_read request tenant_id (find_tenant tenant_id w.db.tables) w.reads;
  }
  apply (retry_provisioning request user tenant_id key now) w =
      answered w
        (retry_provisioning_call o.hash_retry user tenant_id key (w.reads request tenant_id) now
          w.db).1
  apply (begin_database k now) w = begin_database_job k now w
  apply (cut_database k now) w = cut_database_job k now w
  apply (finish_database k host port job_id now) w = finish_database_job k host port job_id now w
  apply (fail_database k error_detail now) w = fail_database_job k error_detail now w
  apply (begin_administrator k identity_id) w = begin_administrator_job k identity_id w
  apply (finish_administrator k identity_id job_id now) w =
      finish_administrator_job k identity_id job_id now w
  apply (end_of_job k) w = end_job k w

  unfoldable pub run : List Event → World → World
  unfolding apply
  run [] w = w
  run (event ∷ events) w = run events (apply event w)

  -- Every retry in the run finds the tenant that it read as failed still failed when it writes.
  unfoldable pub unraced : List Event → World → Bool
  unraced [] w = true
  unraced (event ∷ events) w = is_unraced_event event w && unraced events (apply event w)

  pub create_tenant-IsSettled :
      (user : User) (key : ℕ) (input : CreateTenantRequest) (tenant_id subscription_id now : ℕ)
      (w : World)
      → IsSettled w
      → IsSettled (apply (create_tenant user key input tenant_id subscription_id now) w)
  unfolding apply create_tenant_call
  create_tenant-IsSettled user key input tenant_id subscription_id now w h =
      if_elim (Settled w) (not (is_platform user.realm)) (λ _. h)
        (λ _.
          let (keys, tenants) =
            execute-keeps Scope-discrete o.hash_create (OrderlyTables w.locks)
              (record {
                scope = Scope.tenants_create;
                key = key;
                actor_identity_id = user.user_id;
                request = input;
              })
              (create_tenant_tx o.lower o.period_end user input tenant_id subscription_id now) now
              w.db h.keys h.tenants
              (λ value t'.
                create_tenant_tx-IsOrderly o.lower o.period_end user input tenant_id subscription_id
                  now w.locks w.db.tables t' h.tenants) in
          record { keys = keys; tenants = tenants })

  pub create_administrator-IsSettled :
      (user : User) (tenant_id key : ℕ) (input : CreateTenantAdminRequest)
      (salt identity_id now : ℕ) (w : World)
      → IsSettled w
      → IsSettled (apply (create_administrator user tenant_id key input salt identity_id now) w)
  unfolding apply create_administrator_call
  create_administrator-IsSettled user tenant_id key input salt identity_id now w h =
      if_elim (Settled w) (not (is_platform user.realm)) (λ _. h)
        (λ _. checked (validate_password_policy o.to_lower_case input.temporary_password))
    where
      checked :
          (policy : Option Failure)
          → Settled w (
              create_administrator_checked o.hash_administrator o.lower o.trim_lower o.to_lower_case
                o.argon2_hash user tenant_id key input salt identity_id now policy w.db)
      checked (some e) = h
      checked none =
          let (keys, tenants) =
            execute-keeps Scope-discrete o.hash_administrator (OrderlyTables w.locks)
              (record {
                scope = Scope.tenants_admin_create tenant_id;
                key = key;
                actor_identity_id = user.user_id;
                request =
                    administrator_key o.hash_administrator o.lower o.trim_lower o.to_lower_case
                      o.argon2_hash tenant_id input;
              })
              (create_administrator_tx o.lower o.trim_lower o.argon2_hash user tenant_id input salt
                identity_id now)
              now w.db h.keys h.tenants
              (λ value t'.
                create_administrator_tx-IsOrderly o.lower o.trim_lower o.argon2_hash user tenant_id
                  input salt identity_id now w.locks w.db.tables t' h.tenants) in
          record { keys = keys; tenants = tenants }

  pub update_status-IsSettled :
      (user : User) (tenant_id key : ℕ) (status : RequestedStatus) (now : ℕ) (w : World)
      → IsSettled w
      → IsSettled (apply (update_status user tenant_id key status now) w)
  unfolding apply update_status_call
  update_status-IsSettled user tenant_id key status now w h =
      if_elim (Settled w) (not (is_platform user.realm)) (λ _. h)
        (λ _.
          let (keys, tenants) =
            execute-keeps Scope-discrete o.hash_status (OrderlyTables w.locks)
              (record {
                scope = Scope.tenants_status_update tenant_id;
                key = key;
                actor_identity_id = user.user_id;
                request = record { tenant_id = tenant_id; status = status };
              })
              (update_status_tx user tenant_id status now) now w.db h.keys h.tenants
              (λ value t'.
                update_status_tx-IsOrderly user tenant_id status now w.locks w.db.tables t'
                  h.tenants) in
          record { keys = keys; tenants = tenants })

  pub retry_provisioning-IsSettled :
      (request : ℕ) (user : User) (tenant_id key now : ℕ) (w : World)
      → is_unraced (w.reads request tenant_id) (find_tenant tenant_id w.db.tables) ≡ true
      → IsSettled w
      → IsSettled (apply (retry_provisioning request user tenant_id key now) w)
  unfolding apply retry_provisioning_call
  retry_provisioning-IsSettled request user tenant_id key now w unraced h =
      if_elim (Settled w) (not (is_platform user.realm)) (λ _. h)
        (λ _.
          let (keys, tenants) =
            execute-keeps Scope-discrete o.hash_retry (OrderlyTables w.locks)
              (record {
                scope = Scope.tenants_provisioning_retry tenant_id;
                key = key;
                actor_identity_id = user.user_id;
                request = tenant_id;
              })
              (retry_provisioning_tx user tenant_id (w.reads request tenant_id) now) now w.db h.keys
              h.tenants
              (λ value t'.
                retry_provisioning_tx-IsOrderly user tenant_id (w.reads request tenant_id) now
                  w.locks w.db.tables t' unraced h.tenants) in
          record { keys = keys; tenants = tenants })
