-- ===== src/Lifecycle/Held.antt =====
-- What a job's lock says of its tenant, and the move of a tenant and its lock together.
use gatway_pagamento_escrito.Prelude.{
  arith, ℕ, ◌≡◌, refl, sym, ap, ◌∙◌, ◌==◌, Bool, true, some, List, [], ◌∷◌, if_elim, is_some, inl,
  inr, Option-cases, find, update_where, All-map,
}
use gatway_pagamento_escrito.Admin.{TenantStatus, ProvisioningStatus, TenantRow}
use gatway_pagamento_escrito.Tenants.Repository.{has_tenant_id}
use gatway_pagamento_escrito.Lifecycle.Phases.{
  Lock, free, creating, administering, Locks, set_lock, set_lock_self, set_lock_other, phase_of,
  IsInPhase, IsOrderly, changed-IsOrderly, in_phase,
}
use gatway_pagamento_escrito.Lifecycle.Jobs.{is_free, is_creating, is_administering}

pub free_of : (l : Lock) → is_free l ≡ true → l ≡ free
free_of l e = ground arith

pub creating≢free : ¬ (creating ≡ free)
creating≢free e = cc

pub administering≢free : ¬ (administering ≡ free)
administering≢free e = cc

pub creating_of : (l : Lock) → is_creating l ≡ true → l ≡ creating
creating_of l e = ground arith

pub administering_of : (l : Lock) → is_administering l ≡ true → l ≡ administering
administering_of l e = ground arith

-- The move of one tenant and its lock together
pub moved-IsOrderly :
    (k : ℕ) (g : TenantRow → TenantRow) (before after : Lock) (locks : Locks)
    (rows : List TenantRow) {found : TenantRow}
    → ((row : TenantRow) → (g row).id ≡ row.id)
    → find (has_tenant_id k) rows ≡ some found
    → locks k ≡ before
    → (IsInPhase before found → IsInPhase after (g found))
    → IsOrderly locks rows
    → IsOrderly (set_lock k after locks) (update_where (has_tenant_id k) g rows)
moved-IsOrderly k g before after locks rows {found} keeps e held move h =
    changed-IsOrderly k g locks (set_lock k after locks) rows keeps
      (λ j other. set_lock_other k after locks j other) e
      (λ p.
        ap (phase_of (g found)) (set_lock_self k after locks)
        ∙ move (ap (phase_of found) (sym held) ∙ p))
      h

pub update_where-id :
    (k : ℕ) (rows : List TenantRow) → update_where (has_tenant_id k) (λ row. row) rows ≡ rows
update_where-id k [] = refl
update_where-id k (row ∷ rows) = ground (arith, update_where-id k rows)

pub in_phase-free :
    (s : TenantStatus) (p : ProvisioningStatus) (named : Bool) (lock : Lock)
    → in_phase s p named lock ≡ true
    → in_phase s p named free ≡ true
in_phase-free s p named lock h = ground arith

-- A lock that is given back
pub released-IsOrderly :
    (k : ℕ) (locks : Locks) (rows : List TenantRow)
    → IsOrderly locks rows
    → IsOrderly (set_lock k free locks) rows
released-IsOrderly k locks rows h = record {
  phases =
      All-map
        (λ row p.
          if_elim (λ lock. IsInPhase lock row) (k == row.id)
            (λ _.
              in_phase-free row.status row.provisioning_status (is_some row.database_name)
                (locks row.id) p)
            (λ _. p))
        rows h.phases;
  distinct = h.distinct;
  held = λ j missing. if_elim (λ lock. lock ≡ free) (k == j) (λ _. refl) (λ _. h.held j missing);
}

-- A tenant whose lock is held is there.
pub held-find :
    (k : ℕ) (locks : Locks) (rows : List TenantRow)
    → IsOrderly locks rows
    → ¬ (locks k ≡ free)
    → (row : TenantRow) × (find (has_tenant_id k) rows ≡ some row)
held-find k locks rows h busy = elim (Option-cases (find (has_tenant_id k) rows)) [
  | inl missing ↦ absurd (busy (h.held k missing))
  | inr there ↦ there
]
