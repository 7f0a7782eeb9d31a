-- ===== src/Common.antt =====
-- apps/api/src/common/safe-integer.ts, apps/api/src/common/date-only.ts and the parts that the
-- services of apps/api/src/modules share: the caller, the row searches, and the JSON text of a
-- unique violation turned into a conflict.
use Prim.Native.String as StringOps
use gatway_pagamento_escrito.Prelude.{
  arith, ℕ, ◌+◌, ◌∷◌, ◌-◌, ◌^◌, ◌≡◌, Bool, true, false, Option, none, some, String, leb,
  if◌then◌else◌,
}
use gatway_pagamento_escrito.Failure.{error, conflict, unique_violation, Result, ok, err}
use gatway_pagamento_escrito.Admin.{Realm, EventType, Aggregate, Value, Tables}

-- `AuthenticatedUser`: the realm and the identity that the access token names.
pub record User : Type 0 where
  pub realm : Realm
  pub user_id : ℕ

abbrev pub is_platform : Realm → Bool
is_platform Realm.platform = true
is_platform Realm.tenant = false

-- `Number.MAX_SAFE_INTEGER`
abbrev pub max_safe_integer : ℕ
max_safe_integer = 2 ^ 53 - 1

unfoldable pub to_safe_integer : ℕ → String → Result ℕ
to_safe_integer value field =
    if leb value max_safe_integer
    then ok value
    else err (error (StringOps.◌++◌ field " exceeds the safe integer range"))

abbrev pub is_null {ℓ} : {A : Type ℓ} → Option A → Bool
is_null none = true
is_null (some _) = false

-- `catch (error) { if (isUniqueViolation(error)) throw new ConflictException(message); … }`
abbrev pub on_unique_violation : {A : Type 0} → String → Result A → Result A
on_unique_violation message (ok a) = ok a
on_unique_violation message (err unique_violation) = err (conflict message)
on_unique_violation message (err e) = err e

pub to_safe_integer-eq-ok :
    (value : ℕ) (field : String) {n : ℕ} → to_safe_integer value field ≡ ok n → n ≡ value
unfolding to_safe_integer
to_safe_integer-eq-ok value field e = ground arith

-- `recordMutation` of each service: the event and the audit entry of one change.
unfoldable pub record_mutation :
    (now actor : ℕ) → (tenant_id : Option ℕ) → EventType → Aggregate → ℕ → Value → Tables → Tables
record_mutation now actor tenant_id event aggregate resource_id payload t = record t {
  outbox =
      record {
        id = t.next_outbox_id;
        aggregate_type = aggregate;
        aggregate_id = resource_id;
        event_type = event;
        payload = payload;
        attempts = 0;
        created_at = now;
        processed_at = none;
      }
      ∷ t.outbox;
  next_outbox_id = t.next_outbox_id + 1;
  audit_logs =
      record {
        actor_identity_id = some actor;
        action = event;
        resource_id = some resource_id;
        tenant_id = tenant_id;
        metadata = payload;
        created_at = now;
      }
      ∷ t.audit_logs;
}
