-- ===== src/Sessions/Redis.antt =====
-- The keys of Redis that `AuthSessionStore` uses.
use gatway_pagamento_escrito.Prelude.{
  ℕ, Bool, false, Option, none, some, List, [], ◌∷◌, ltb, ◌==◌, ◌||◌, if◌then◌else◌,
}

pub record Text : Type 0 where
  pub code : ℕ
  pub length : ℕ

pub data Stage : Type 0 where
  password_change mfa_setup mfa_confirm mfa : Stage

pub record AuthChallenge : Type 0 where
  pub identity_id : ℕ
  pub stage : Stage

pub record RefreshSession : Type 0 where
  pub identity_id : ℕ
  pub token_id : ℕ
  pub family_id : ℕ
  pub csrf_hash : ℕ

pub record Entry (V : Type 0) : Type 0 where
  pub value : V
  pub expires_at : ℕ

abbrev pub Keys : Type 0 → Type 0
Keys V = ℕ → Option (Entry V)

-- `auth:challenge:`, `auth:refresh:token:`, `auth:refresh:used:`, `auth:refresh:family:`,
-- `auth:refresh:family-meta:`, `auth:refresh:identity:` and `auth:login-attempt:`
pub record Redis : Type 0 where
  pub challenges : Keys AuthChallenge
  pub tokens : Keys RefreshSession
  pub used : Keys ℕ
  pub families : Keys (List ℕ)
  pub family_meta : Keys ℕ
  pub identities : Keys (List ℕ)
  pub login_attempts : Keys ℕ

module _ {V : Type 0} where
  -- An entry that has expired is not there.
  abbrev pub alive : ℕ → Option (Entry V) → Option V
  alive now none = none
  alive now (some e) = if ltb now e.expires_at then some e.value else none

  -- `GET`
  abbrev pub read : ℕ → Keys V → ℕ → Option V
  read now keys k = alive now (keys k)

  -- `SET key value EX ttl`
  abbrev pub set : ℕ → V → ℕ → Keys V → Keys V
  set k v expires_at keys j =
      if k == j then some (record { value = v; expires_at = expires_at }) else keys j

  -- `DEL`
  abbrev pub del : ℕ → Keys V → Keys V
  del k keys j = if k == j then none else keys j

abbrev pub members_of : Option (List ℕ) → List ℕ
members_of none = []
members_of (some xs) = xs

-- `SMEMBERS`; a set that is not there is empty.
abbrev pub members : ℕ → Keys (List ℕ) → ℕ → List ℕ
members now keys k = members_of (read now keys k)

abbrev pub contains : ℕ → List ℕ → Bool
contains x [] = false
contains x (y ∷ ys) = x == y || contains x ys

abbrev pub remove : ℕ → List ℕ → List ℕ
remove x [] = []
remove x (y ∷ ys) = let rest = remove x ys in if x == y then rest else y ∷ rest

-- `SADD`, then `EXPIRE`: the set holds the member and lives until the time given.
abbrev pub sadd_expire : ℕ → ℕ → ℕ → ℕ → Keys (List ℕ) → Keys (List ℕ)
sadd_expire now k member expires_at keys = set k (member ∷ members now keys k) expires_at keys

abbrev pub srem_entry : ℕ → Option (Entry (List ℕ)) → Option (Entry (List ℕ))
srem_entry member none = none
srem_entry member (some e) =
    some (record { value = remove member e.value; expires_at = e.expires_at })

-- `SREM`: the set keeps its time.
abbrev pub srem : ℕ → ℕ → Keys (List ℕ) → Keys (List ℕ)
srem k member keys j = if k == j then srem_entry member (keys j) else keys j

-- `DEL` of several keys.
abbrev pub del_all : {V : Type 0} → List ℕ → Keys V → Keys V
del_all [] keys = keys
del_all (k ∷ ks) keys = del k (del_all ks keys)
