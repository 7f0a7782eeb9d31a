-- ===== src/Lifecycle/Phases.antt =====
-- The phases of a tenant, and how a change of one row moves it.
use gatway_pagamento_escrito.Prelude.{
  arith, ℕ, ◌≡◌, refl, sym, ap, ◌∙◌, Bool, true, false, Option, none, some, List, [], ◌∷◌, ◌==◌,
  ==_refl, if◌then◌else◌, is_some, inl, inr, Bool-cases, find, find-hit, find-miss, find-passes,
  update_where, All,
}
use gatway_pagamento_escrito.Admin.{TenantStatus, ProvisioningStatus, TenantRow}
use gatway_pagamento_escrito.Tenants.Repository.{has_tenant_id}

-- The job that holds the advisory lock of a tenant.
pub data Lock : Type 0 where
  free creating administering : Lock

-- A tenant waits for its database, or a job creates it; then it has one, waits for its administrator,
-- and is active or suspended. The Boolean says whether the row names a database.
abbrev pub in_phase : TenantStatus → ProvisioningStatus → Bool → Lock → Bool
in_phase TenantStatus.provisioning ProvisioningStatus.queued false free = true
in_phase TenantStatus.provisioning ProvisioningStatus.running false free = true
in_phase TenantStatus.provisioning ProvisioningStatus.running false creating = true
in_phase TenantStatus.failed ProvisioningStatus.failed false free = true
in_phase TenantStatus.pending_admin ProvisioningStatus.completed true free = true
in_phase TenantStatus.pending_admin ProvisioningStatus.completed true administering = true
in_phase TenantStatus.active ProvisioningStatus.completed true free = true
in_phase TenantStatus.active ProvisioningStatus.completed true administering = true
in_phase TenantStatus.suspended ProvisioningStatus.completed true free = true
in_phase TenantStatus.suspended ProvisioningStatus.completed true administering = true
in_phase _ _ _ _ = false

abbrev pub Locks : Type 0
Locks = ℕ → Lock

abbrev pub set_lock : ℕ → Lock → Locks → Locks
set_lock k lock locks j = if k == j then lock else locks j

abbrev pub phase_of : TenantRow → Lock → Bool
phase_of row lock = in_phase row.status row.provisioning_status (is_some row.database_name) lock

abbrev pub IsInPhase : Lock → TenantRow → Type 0
IsInPhase lock row = phase_of row lock ≡ true

abbrev pub Distinct : List TenantRow → Type 0
Distinct [] = Unit
Distinct (row ∷ rows) = (find (has_tenant_id row.id) rows ≡ none) × Distinct rows

pub record IsOrderly (locks : Locks) (rows : List TenantRow) : Type 0 where
  pub phases : All (λ row. IsInPhase (locks row.id) row) rows
  pub distinct : Distinct rows
  -- a job holds a lock only on a tenant that is there
  pub held : (k : ℕ) → find (has_tenant_id k) rows ≡ none → locks k ≡ free

-- A change of the rows with one id, which keeps the id.
module _ (k : ℕ) (g : TenantRow → TenantRow) where
  module _ (P Q : TenantRow → Type 0)
      (others : (row : TenantRow) → has_tenant_id k row ≡ false → P row → Q row) where
    All-others :
        (rows : List TenantRow)
        → find (has_tenant_id k) rows ≡ none
        → All P rows
        → All Q (update_where (has_tenant_id k) g rows)
    All-others [] e h = tt
    All-others (row ∷ rows) e (p, h) = elim (Bool-cases (has_tenant_id k row)) [
      | inl hit ↦ absurd (some≢none (rw hit at e))
      | inr miss ↦ rw miss (others row miss p, All-others rows (rw miss at e) h)
    ]
      where
        some≢none : ¬ (◌≡◌ {A = Option TenantRow} (some row) none)
        some≢none e = cc

    All-changed :
        (rows : List TenantRow) {found : TenantRow}
        → Distinct rows
        → find (has_tenant_id k) rows ≡ some found
        → (P found → Q (g found))
        → All P rows
        → All Q (update_where (has_tenant_id k) g rows)
    All-changed [] d e move h = absurd (cc)
    All-changed (row ∷ rows) {found} (once, d) e move (p, h) =
        elim (Bool-cases (has_tenant_id k row)) [
          | inl hit ↦
              let same : row ≡ found = find-hit (has_tenant_id k) row rows hit e in
              let id : row.id ≡ k = ground arith in
              rw hit (rw (← same) at move p, All-others rows (rw id at once) h)
          | inr miss ↦ rw miss (
            others row miss p,
            All-changed rows d (find-miss (has_tenant_id k) row rows miss e) move h,
          )
        ]

  module _ (keeps : (row : TenantRow) → (g row).id ≡ row.id) where
    find-changed :
        (j : ℕ) (rows : List TenantRow)
        → find (has_tenant_id j) (update_where (has_tenant_id k) g rows) ≡ none
        → find (has_tenant_id j) rows ≡ none
    find-changed j [] e = refl
    find-changed j (row ∷ rows) e = ground (arith, keeps row, find-changed j rows)

    changed-find :
        (j : ℕ) (rows : List TenantRow)
        → find (has_tenant_id j) rows ≡ none
        → find (has_tenant_id j) (update_where (has_tenant_id k) g rows) ≡ none
    changed-find j [] e = refl
    changed-find j (row ∷ rows) e = ground (arith, keeps row, changed-find j rows)

    Distinct-changed :
        (rows : List TenantRow) → Distinct rows → Distinct (update_where (has_tenant_id k) g rows)
    Distinct-changed [] d = tt
    Distinct-changed (row ∷ rows) (once, d) =
        let rest = Distinct-changed rows d in
        let once' = changed-find row.id rows once in
        elim (Bool-cases (has_tenant_id k row)) [
          | inl hit ↦ rw hit (rw (keeps row) once', rest)
          | inr miss ↦ rw miss (once', rest)
        ]

pub set_lock_other :
    (k : ℕ) (lock : Lock) (locks : Locks) (j : ℕ)
    → (k == j) ≡ false
    → set_lock k lock locks j ≡ locks j
set_lock_other k lock locks j e = rw e

other_side : (a b : ℕ) → (a == b) ≡ false → (b == a) ≡ false
other_side a b e = ground arith

pub set_lock_self : (k : ℕ) (lock : Lock) (locks : Locks) → set_lock k lock locks k ≡ lock
set_lock_self k lock locks = rw (==_refl k)

pub ==→eq : {a b : ℕ} → (a == b) ≡ true → a ≡ b
==→eq {a} {b} e = ground arith

none≢some : {A : Type 0} {a : A} → ¬ (none ≡ some a)
none≢some e = cc

-- A change of one row, and at most of the lock of its tenant, keeps the tenants in order.
pub changed-IsOrderly :
    (k : ℕ) (g : TenantRow → TenantRow) (locks locks' : Locks) (rows : List TenantRow)
    {found : TenantRow}
    → ((row : TenantRow) → (g row).id ≡ row.id)
    → ((j : ℕ) → (k == j) ≡ false → locks' j ≡ locks j)
    → find (has_tenant_id k) rows ≡ some found
    → (IsInPhase (locks k) found → IsInPhase (locks' k) (g found))
    → IsOrderly locks rows
    → IsOrderly locks' (update_where (has_tenant_id k) g rows)
changed-IsOrderly k g locks locks' rows {found} keeps same e move h =
    let id : found.id ≡ k = ==→eq (find-passes (has_tenant_id k) rows e) in
    record {
      phases =
          All-changed k g (λ row. IsInPhase (locks row.id) row)
            (λ row. IsInPhase (locks' row.id) row)
            (λ row miss p. rw (same row.id (other_side row.id k miss)) p) rows h.distinct e
            (λ p.
              ap (λ i. phase_of (g found) (locks' i)) (keeps found ∙ id)
              ∙ move (ap (λ i. phase_of found (locks i)) (sym id) ∙ p))
            h.phases;
      distinct = Distinct-changed k g keeps rows h.distinct;
      held = λ j missing.
          let gone = find-changed k g keeps j rows missing in
          elim (Bool-cases (k == j)) [
            | inl eq ↦
                absurd (
                  none≢some (sym gone ∙ ap (λ i. find (has_tenant_id i) rows) (sym (==→eq eq)) ∙ e))
            | inr other ↦ same j other ∙ h.held j gone
          ];
    }

-- A new tenant that no job holds
pub added-IsOrderly :
    (locks : Locks) (row : TenantRow) (rows : List TenantRow)
    → find (has_tenant_id row.id) rows ≡ none
    → IsInPhase free row
    → IsOrderly locks rows
    → IsOrderly locks (row ∷ rows)
added-IsOrderly locks row rows fresh p h = record {
  phases = (rw (h.held row.id fresh) p, h.phases);
  distinct = (fresh, h.distinct);
  held = λ j missing. h.held j (rest j missing);
}
  where
    rest : (j : ℕ) → find (has_tenant_id j) (row ∷ rows) ≡ none → find (has_tenant_id j) rows ≡ none
    rest j e = ground arith
