-- ===== src/Sessions/Tests.antt =====
-- A session that is created, rotated and stolen, and five failed logins.
use gatway_pagamento_escrito.Prelude.{arith, ℕ, ◌≡◌, refl, true, Option, none, [], ◌∷◌, some}
use gatway_pagamento_escrito.Sessions.Redis.{Text, RefreshSession, AuthChallenge, Stage, Redis}
use gatway_pagamento_escrito.Sessions.Store.{
  Rotated, create_challenge, consume_challenge, create_refresh_session, is_login_blocked,
  store_refresh_session, retire, revoke_family, rotate_live, rotate_absent, rotate_refresh_session,
}
use gatway_pagamento_escrito.Sessions.Challenge.{create_challenge-consume_challenge}
use gatway_pagamento_escrito.Sessions.Lockout.{failures, failures-is_login_blocked}
use gatway_pagamento_escrito.Sessions.Reuse.{rotate-rotate_again}

abbrev pub empty_redis : Redis
empty_redis = record {
  challenges = λ _. none;
  tokens = λ _. none;
  used = λ _. none;
  families = λ _. none;
  family_meta = λ _. none;
  identities = λ _. none;
  login_attempts = λ _. none;
}

abbrev pub text : ℕ → Text
text code = record { code = code; length = 43 }

abbrev pub digest : Text → ℕ
digest t = t.code

failures-is_login_blocked_example :
    is_login_blocked digest
      (text 1)
      5
      600_000
      (failures digest (text 1) 900_000 (0 ∷ 1 ∷ 2 ∷ 3 ∷ 4 ∷ []) empty_redis)
    ≡ true
failures-is_login_blocked_example =
    failures-is_login_blocked digest (text 1) 900_000 5 0 600_000 (1 ∷ 2 ∷ 3 ∷ 4 ∷ []) empty_redis
      refl (ground arith) (ground arith)

-- Identity 9 with family 3: token 10, then token 11 in its place.
abbrev created : Redis
created = (create_refresh_session digest 9 1000 3 (text 10) 20 (text 30) 0 empty_redis).1

abbrev session : ℕ → ℕ → RefreshSession
session token_id csrf_hash = record {
  identity_id = 9;
  token_id = token_id;
  family_id = 3;
  csrf_hash = csrf_hash;
}

abbrev rotation : Option Rotated × Redis
rotation = rotate_refresh_session digest (text 10) (text 30) 1000 (text 11) 21 (text 31) 10 created

abbrev rotated : Rotated
rotated = record {
  previous = session 20 30;
  next = record {
    material = record { token = text 11; hash = 11; token_id = 21; family_id = 3 };
    csrf_token = text 31;
  };
}

abbrev again : Option Rotated × Redis
again = rotate_refresh_session digest (text 10) (text 40) 1000 (text 12) 22 (text 32) 20 rotation.1

rotate-rotate_again_example :
    (again.0 ≡ none) × (again.1.tokens 11 ≡ none) × (again.1.tokens 11 ≡ none)
unfolding create_refresh_session store_refresh_session retire revoke_family rotate_live
    rotate_absent rotate_refresh_session
rotate-rotate_again_example =
    rotate-rotate_again digest (text 10) (text 30) 1000 (text 11) 21 (text 31) 10 created
      {x = rotated} {r1 = rotation.1} refl (ground arith) (text 40) 1000 (text 12) 22 (text 32) 20
      refl (ground arith) again.0 again.1 refl 11 refl

abbrev challenge : AuthChallenge
challenge = record { identity_id = 9; stage = Stage.mfa }

abbrev with_challenge : Redis
with_challenge = create_challenge digest challenge 300 (text 5) 0 empty_redis

create_challenge-consume_challenge_example :
    ((consume_challenge digest (text 5) 200 with_challenge).0 ≡ some challenge)
    × ((consume_challenge digest
          (text 5)
          250
          (consume_challenge digest (text 5) 200 with_challenge).1).0
        ≡ none)
create_challenge-consume_challenge_example =
    create_challenge-consume_challenge digest challenge 300 (text 5) 0 200 250 empty_redis refl
      (ground arith)
