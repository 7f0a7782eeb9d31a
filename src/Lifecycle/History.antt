-- ===== src/Lifecycle/History.antt =====
-- Interleavings of requests and job steps in which no retry is raced keep the system settled.
use gatway_pagamento_escrito.Prelude.{
  arith, ℕ, ◌≡◌, ◌&&◌, Bool, true, false, Option, List, [], ◌∷◌, if_elim,
}
use gatway_pagamento_escrito.Failure.{Result, ok, err}
use gatway_pagamento_escrito.Idempotency.Laws.{IsValid}
use gatway_pagamento_escrito.Admin.{Scope-discrete, Tables}
use gatway_pagamento_escrito.Tenants.Repository.{find_tenant}
use gatway_pagamento_escrito.Worker.Provisioning.{
  begin_provisioning, begin_administrator, activate_tenant,
}
use gatway_pagamento_escrito.Lifecycle.Jobs.{
  World, cut_database_job, lacks_database, is_free, is_creating, is_administering, begun,
  begin_database_job, finish_database_job, fail_database_job, administrator_begun,
  begin_administrator_job, administrator_finished, finish_administrator_job, end_job,
}
use gatway_pagamento_escrito.Lifecycle.Moves.{
  begin_database_job-IsOrderly, finish_database_job-IsOrderly, fail_database_job-IsOrderly,
  begin_administrator_job-IsOrderly, finish_administrator_job-IsOrderly, end_job-IsOrderly,
}
use gatway_pagamento_escrito.Lifecycle.System.{
  Outside, Event, create_tenant, create_administrator, update_status, read_for_retry,
  retry_provisioning, is_unraced_event, unraced, begin_database, cut_database, finish_database,
  fail_database, finish_administrator, end_of_job, IsSettled, apply, run, create_tenant-IsSettled,
  create_administrator-IsSettled, update_status-IsSettled, retry_provisioning-IsSettled,
}

abbrev HasKeys : World → Type 0
HasKeys w = IsValid Scope-discrete w.db

-- No job touches the idempotency keys.
module _ (k : ℕ) (w : World) (h : HasKeys w) where
  begun-HasKeys : (r : Result (Bool × Tables)) → HasKeys (begun w k r)
  begun-HasKeys (ok (true, t)) = h
  begun-HasKeys (ok (false, t)) = h
  begun-HasKeys (err e) = h

  begin_database_job-HasKeys : (now : ℕ) → HasKeys (begin_database_job k now w)
  unfolding begin_database_job
  begin_database_job-HasKeys now =
      if_elim HasKeys (is_free (w.locks k))
        (λ _. begun-HasKeys (begin_provisioning k now w.db.tables)) (λ _. h)

  cut_database_job-IsSettled : (now : ℕ) → IsSettled w → IsSettled (cut_database_job k now w)
  unfolding cut_database_job
  cut_database_job-IsSettled now s =
      if_elim IsSettled (is_free (w.locks k) && lacks_database (find_tenant k w.db.tables))
        (λ _. record { keys = s.keys; tenants = s.tenants }) (λ _. s)

  finish_database_job-HasKeys :
      (host port : ℕ) (job_id : Option ℕ) (now : ℕ)
      → HasKeys (finish_database_job k host port job_id now w)
  unfolding finish_database_job
  finish_database_job-HasKeys host port job_id now =
      if_elim HasKeys (is_creating (w.locks k)) (λ _. h) (λ _. h)

  fail_database_job-HasKeys :
      (error_detail now : ℕ) → HasKeys (fail_database_job k error_detail now w)
  unfolding fail_database_job
  fail_database_job-HasKeys error_detail now =
      if_elim HasKeys (is_creating (w.locks k)) (λ _. h) (λ _. h)

  administrator_begun-HasKeys : (r : Result Bool) → HasKeys (administrator_begun w k r)
  administrator_begun-HasKeys (ok true) = h
  administrator_begun-HasKeys (ok false) = h
  administrator_begun-HasKeys (err e) = h

  begin_administrator_job-HasKeys :
      (identity_id : ℕ) → HasKeys (begin_administrator_job k identity_id w)
  unfolding begin_administrator_job
  begin_administrator_job-HasKeys identity_id =
      if_elim HasKeys (is_free (w.locks k))
        (λ _. administrator_begun-HasKeys (begin_administrator k identity_id w.db.tables)) (λ _. h)

  administrator_finished-HasKeys :
      (r : Result (Unit {0} × Tables)) → HasKeys (administrator_finished w k r)
  administrator_finished-HasKeys (ok (tt, t)) = h
  administrator_finished-HasKeys (err e) = h

  finish_administrator_job-HasKeys :
      (identity_id : ℕ) (job_id : Option ℕ) (now : ℕ)
      → HasKeys (finish_administrator_job k identity_id job_id now w)
  unfolding finish_administrator_job
  finish_administrator_job-HasKeys identity_id job_id now =
      if_elim HasKeys (is_administering (w.locks k))
        (λ _. administrator_finished-HasKeys (activate_tenant k identity_id job_id now w.db.tables))
        (λ _. h)

  end_job-HasKeys : HasKeys (end_job k w)
  unfolding end_job
  end_job-HasKeys = h

apply-IsSettled :
    (o : Outside) (event : Event) (w : World)
    → is_unraced_event event w ≡ true
    → IsSettled w
    → IsSettled (apply o event w)
unfolding apply
apply-IsSettled o (create_tenant user key input tenant_id subscription_id now) w u h =
    create_tenant-IsSettled o user key input tenant_id subscription_id now w h
apply-IsSettled o (create_administrator user tenant_id key input salt identity_id now) w u h =
    create_administrator-IsSettled o user tenant_id key input salt identity_id now w h
apply-IsSettled o (update_status user tenant_id key status now) w u h =
    update_status-IsSettled o user tenant_id key status now w h
apply-IsSettled o (read_for_retry request tenant_id) w u h = record {
  keys = h.keys;
  tenants = h.tenants;
}
apply-IsSettled o (retry_provisioning request user tenant_id key now) w u h =
    retry_provisioning-IsSettled o request user tenant_id key now w u h
apply-IsSettled o (begin_database k now) w u h = record {
  keys = begin_database_job-HasKeys k w h.keys now;
  tenants = begin_database_job-IsOrderly k now w h.tenants;
}
apply-IsSettled o (cut_database k now) w u h = cut_database_job-IsSettled k w h.keys now h
apply-IsSettled o (finish_database k host port job_id now) w u h = record {
  keys = finish_database_job-HasKeys k w h.keys host port job_id now;
  tenants = finish_database_job-IsOrderly k host port job_id now w h.tenants;
}
apply-IsSettled o (fail_database k error_detail now) w u h = record {
  keys = fail_database_job-HasKeys k w h.keys error_detail now;
  tenants = fail_database_job-IsOrderly k error_detail now w h.tenants;
}
apply-IsSettled o (Event.begin_administrator k identity_id) w u h = record {
  keys = begin_administrator_job-HasKeys k w h.keys identity_id;
  tenants = begin_administrator_job-IsOrderly k identity_id w h.tenants;
}
apply-IsSettled o (finish_administrator k identity_id job_id now) w u h = record {
  keys = finish_administrator_job-HasKeys k w h.keys identity_id job_id now;
  tenants = finish_administrator_job-IsOrderly k identity_id job_id now w h.tenants;
}
apply-IsSettled o (end_of_job k) w u h = record {
  keys = end_job-HasKeys k w h.keys;
  tenants = end_job-IsOrderly k w h.tenants;
}

-- Any sequence of requests to create a tenant or its administrator, to change its status and to retry
-- its provisioning (its read and its write are two events), accepted, refused or replayed, interleaved
-- with the steps of provisioning jobs that begin, succeed, fail or are cut off, leaves a settled
-- system settled, provided that no retry is raced: a tenant that a retry read as failed is still
-- failed when that retry writes. Settled means: tenant ids are distinct, every tenant is in a legal
-- phase for the job that holds its lock (it has a database exactly if its provisioning is completed,
-- only then is it active, suspended or waiting for its administrator, and it is `failed` exactly if
-- its provisioning is), no lock is held for a tenant that is not there, and the idempotency keys are
-- in order.
pub run-IsSettled :
    (o : Outside) (events : List Event) (w : World)
    → unraced o events w ≡ true
    → IsSettled w
    → IsSettled (run o events w)
unfolding run unraced
run-IsSettled o [] w unraced h = h
run-IsSettled o (event ∷ events) w unraced h =
    let (first, rest) = both (is_unraced_event event w) unraced in
    run-IsSettled o events (apply o event w) rest (apply-IsSettled o event w first h)
  where
    both : (a : Bool) {b : Bool} → a && b ≡ true → (a ≡ true) × (b ≡ true)
    both a {b} e = (ground arith, ground arith)
