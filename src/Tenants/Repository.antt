-- ===== src/Tenants/Repository.antt =====
-- `TenantsRepository` of apps/api/src/modules/tenants/tenants.repository.ts, with the constraints
-- that database/migrations/admin/001, 002 and 005 put on the tables.
-- Ids that PostgreSQL draws (`gen_random_uuid`) are arguments.
use gatway_pagamento_escrito.Prelude.{
  ℕ, ◌+◌, ◌*◌, Bool, true, false, not, ◌&&◌, ◌||◌, Option, none, some, ◌∷◌, ltb, leb, ◌==◌,
  if◌then◌else◌, is_some, find, update_where,
}
use gatway_pagamento_escrito.Failure.{unique_violation, check_violation, Result, ok, err, Tx}
use gatway_pagamento_escrito.Admin.{
  Realm, IdentityStatus, IdentityRow, TenantStatus, ProvisioningStatus, TenantRow, PlanStatus,
  PlanRow, PlanPriceRow, Interval, SubscriptionStatus, SubscriptionRow, Tables,
}
use gatway_pagamento_escrito.Common.{to_safe_integer, is_null, is_platform}

pub record PlanSelection : Type 0 where
  pub plan_id : ℕ
  pub plan_slug : ℕ
  pub plan_status : PlanStatus
  pub trial_days : ℕ
  pub price_id : ℕ
  pub currency : ℕ
  pub billing_interval : Interval
  pub amount_cents : ℕ

abbrev pub is_live_plan : ℕ → PlanRow → Bool
is_live_plan plan_id plan = plan.id == plan_id && is_null plan.deleted_at

abbrev pub ends_after : Option ℕ → ℕ → Bool
ends_after none now = true
ends_after (some effective_to) now = ltb now effective_to

-- The conditions on `effective_from` and `effective_to`
abbrev pub is_effective : ℕ → PlanPriceRow → Bool
is_effective now price = leb price.effective_from now && ends_after price.effective_to now

abbrev pub is_price : ℕ → ℕ → ℕ → PlanPriceRow → Bool
is_price plan_id price_id now price =
    price.id == price_id && price.plan_id == plan_id && is_effective now price

abbrev pub selection : PlanRow → PlanPriceRow → ℕ → PlanSelection
selection plan price amount_cents = record {
  plan_id = plan.id;
  plan_slug = plan.slug;
  plan_status = plan.status;
  trial_days = plan.trial_days;
  price_id = price.id;
  currency = price.currency;
  billing_interval = price.billing_interval;
  amount_cents = amount_cents;
}

abbrev pub select_price : PlanRow → Option PlanPriceRow → Result (Option PlanSelection)
select_price plan none = ok none
select_price plan (some price) = elim (to_safe_integer price.amount_cents "plan price") [
  | ok amount_cents ↦ ok (some (selection plan price amount_cents))
  | err e ↦ err e
]

-- `getPlanSelection`
unfoldable pub get_plan_selection :
    (plan_id plan_price_id now : ℕ) → Tables → Result (Option PlanSelection)
get_plan_selection plan_id plan_price_id now t = elim (find (is_live_plan plan_id) t.plans) [
  | none ↦ ok none
  | some plan ↦ select_price plan (find (is_price plan_id plan_price_id now) t.plan_prices)
]

pub record NewTenant : Type 0 where
  pub id : ℕ
  pub subscription_id : ℕ
  pub name : ℕ
  pub slug : ℕ
  pub legal_name : Option ℕ
  pub trade_name : Option ℕ
  pub tax_id : Option ℕ
  pub contact_email : ℕ
  pub created_by_identity_id : ℕ
  pub plan : PlanSelection

-- The primary key, the unique `slug` and `uq_tenants_tax_id`
abbrev pub same_tax_id : Option ℕ → Option ℕ → Bool
same_tax_id (some a) (some b) = a == b
same_tax_id _ _ = false

abbrev pub tenant_clashes : NewTenant → TenantRow → Bool
tenant_clashes new row =
    row.id == new.id || row.slug == new.slug || same_tax_id row.tax_id new.tax_id

abbrev pub tenant_row : (ℕ → ℕ) → NewTenant → (now : ℕ) → TenantRow
tenant_row lower new now = record {
  id = new.id;
  name = new.name;
  slug = new.slug;
  legal_name = new.legal_name;
  trade_name = new.trade_name;
  tax_id = new.tax_id;
  contact_email = lower new.contact_email;
  database_name = none;
  database_host = none;
  database_port = none;
  status = TenantStatus.provisioning;
  plan = new.plan.plan_slug;
  plan_id = some new.plan.plan_id;
  provisioning_status = ProvisioningStatus.queued;
  created_by_identity_id = some new.created_by_identity_id;
  activated_at = none;
  suspended_at = none;
  last_error_code = none;
  created_at = now;
  updated_at = now;
}

abbrev pub trial_end : ℕ → ℕ → Option ℕ
trial_end trial_days now = if ltb 0 trial_days then some (now + trial_days * 86_400_000) else none

abbrev pub subscription_row : (Interval → ℕ → ℕ) → NewTenant → (now : ℕ) → SubscriptionRow
subscription_row period_end new now = record {
  id = new.subscription_id;
  tenant_id = new.id;
  plan_id = new.plan.plan_id;
  plan_price_id = new.plan.price_id;
  status = SubscriptionStatus.pending;
  currency = new.plan.currency;
  billing_interval = new.plan.billing_interval;
  amount_cents = new.plan.amount_cents;
  current_period_start = now;
  current_period_end = period_end new.plan.billing_interval now;
  trial_ends_at = trial_end new.plan.trial_days now;
  canceled_at = none;
  deleted_at = none;
  created_at = now;
  updated_at = now;
}

-- The statuses of `uq_subscriptions_tenant_current`
abbrev pub is_current : SubscriptionStatus → Bool
is_current SubscriptionStatus.canceled = false
is_current _ = true

-- The primary key and `uq_subscriptions_tenant_current`
abbrev pub subscription_clashes : NewTenant → SubscriptionRow → Bool
subscription_clashes new row =
    row.id == new.subscription_id
    || (row.tenant_id == new.id && is_null row.deleted_at && is_current row.status)

-- `chk_subscriptions_period`
abbrev pub bad_period : SubscriptionRow → Bool
bad_period row = leb row.current_period_end row.current_period_start

-- `create`
unfoldable pub create_tenant :
    (ℕ → ℕ) → (Interval → ℕ → ℕ) → NewTenant → (now : ℕ) → Tx Tables TenantRow
create_tenant lower period_end new now t =
    if is_some (find (tenant_clashes new) t.tenants)
    then err unique_violation
    else if is_some (find (subscription_clashes new) t.subscriptions)
    then err unique_violation
    else if bad_period (subscription_row period_end new now)
    then err check_violation
    else ok (
      tenant_row lower new now,
      record t {
        tenants = tenant_row lower new now ∷ t.tenants;
        subscriptions = subscription_row period_end new now ∷ t.subscriptions;
      },
    )

abbrev pub has_tenant_id : ℕ → TenantRow → Bool
has_tenant_id tenant_id row = row.id == tenant_id

-- `findById` and `findByIdForUpdate`
unfoldable pub find_tenant : ℕ → Tables → Option TenantRow
find_tenant tenant_id t = find (has_tenant_id tenant_id) t.tenants

abbrev pub is_tenant_identity : ℕ → IdentityRow → Bool
is_tenant_identity tenant_id i =
    elim i.tenant_id [ none ↦ false | some id ↦ id == tenant_id ]
    && not (is_platform i.realm)
    && is_null i.deleted_at

-- `hasTenantIdentity`
unfoldable pub has_tenant_identity : ℕ → Tables → Bool
has_tenant_identity tenant_id t = is_some (find (is_tenant_identity tenant_id) t.identities)

-- `update`; the trigger on `tenants` sets `updated_at`.
abbrev pub touched : (TenantRow → TenantRow) → (now : ℕ) → TenantRow → TenantRow
touched changes now row = record (changes row) { updated_at = now }

abbrev pub change_tenant : ℕ → (TenantRow → TenantRow) → (now : ℕ) → Tables → Tables
change_tenant tenant_id changes now t = record t {
  tenants = update_where (has_tenant_id tenant_id) (touched changes now) t.tenants;
}

abbrev pub changed_row : (TenantRow → TenantRow) → (now : ℕ) → Option TenantRow → Option TenantRow
changed_row changes now none = none
changed_row changes now (some row) = some (touched changes now row)

unfoldable pub update_tenant :
    ℕ → (TenantRow → TenantRow) → (now : ℕ) → Tx Tables (Option TenantRow)
unfolding find_tenant
update_tenant tenant_id changes now t =
    ok (changed_row changes now (find_tenant tenant_id t), change_tenant tenant_id changes now t)

pub record NewAdministrator : Type 0 where
  pub tenant_id : ℕ
  pub email : ℕ
  pub display_name : ℕ
  pub password_hash : ℕ

-- The primary key and the unique `normalized_email`
abbrev pub identity_clashes : ℕ → ℕ → IdentityRow → Bool
identity_clashes id normalized_email row = row.id == id || row.normalized_email == normalized_email

abbrev pub administrator_row : (ℕ → ℕ) → NewAdministrator → ℕ → IdentityRow
administrator_row lower new id = record {
  id = id;
  email = new.email;
  display_name = some new.display_name;
  normalized_email = lower new.email;
  password_hash = new.password_hash;
  realm = Realm.tenant;
  tenant_id = some new.tenant_id;
  status = IdentityStatus.pending;
  must_change_password = true;
  mfa_required = true;
  password_changed_at = none;
  last_login_at = none;
  locked_until = none;
  deleted_at = none;
}

-- `createAdminIdentity`
unfoldable pub create_admin_identity : (ℕ → ℕ) → NewAdministrator → ℕ → Tx Tables ℕ
create_admin_identity lower new id t =
    if is_some (find (identity_clashes id (lower new.email)) t.identities)
    then err unique_violation
    else ok (id, record t { identities = administrator_row lower new id ∷ t.identities })
