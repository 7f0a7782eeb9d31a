-- ===== src/Tokens/Tests.antt =====
-- A token of a platform user that is issued, read back and let through a guard.
use gatway_pagamento_escrito.Prelude.{
  arith, ◌≡◌, refl, true, none, some, [], ◌∷◌, leb, if◌then◌else◌,
}
use gatway_pagamento_escrito.Failure.{ok}
use gatway_pagamento_escrito.Tokens.{
  platform, AccessUser, JwtRealmConfig, Signed, Algorithm, Jose, accepts_claims, claims_for, verify,
  issue, Wanted, authenticate, guard,
}
use gatway_pagamento_escrito.Tokens.Trust.{Entitled, verify-issue, guard-verify}

abbrev config : JwtRealmConfig
config = record {
  issuer = 105 ∷ [];
  platform_audience = 112 ∷ [];
  tenant_audience = 116 ∷ [];
  key_id = some (107 ∷ []);
  clock_tolerance = 5;
}

abbrev reader : AccessUser
reader = record {
  realm = platform;
  user_id = 49 ∷ [];
  roles = [];
  permissions = (100 ∷ []) ∷ [];
  token_id = 50 ∷ [];
}

abbrev first_token : Signed
first_token = record {
  alg = Algorithm.rs256;
  kid = some (107 ∷ []);
  payload = claims_for config reader 900 1000;
}

-- The only token is "x", of the user above, and good for 900 seconds.
abbrev jose : Jose
jose = record {
  sign = λ signed. 120 ∷ [];
  jwt_verify = λ config now token. if leb now 1900 then some first_token else none;
  is_uuid = λ text. true;
}

issued : issue jose config reader 900 1000 ≡ ok (120 ∷ [])
unfolding issue
issued = refl

claims-accepted : accepts_claims jose (claims_for config reader 900 1000) ≡ true
unfolding accepts_claims
claims-accepted = refl

verify-issue_example : verify jose config 1500 (120 ∷ []) ≡ some reader
verify-issue_example =
    verify-issue jose config reader 900 1000 1500 (120 ∷ []) issued refl claims-accepted
      (omega arith) (omega arith)

let_through :
    guard jose config Wanted.platform_only ((100 ∷ []) ∷ []) 1500 (some (120 ∷ [])) ≡ ok reader
unfolding guard authenticate verify accepts_claims
let_through = refl

guard-verify_example :
    Entitled jose config Wanted.platform_only ((100 ∷ []) ∷ []) 1500 (some (120 ∷ [])) reader
guard-verify_example =
    guard-verify jose config Wanted.platform_only ((100 ∷ []) ∷ []) 1500 (some (120 ∷ [])) reader
      let_through
