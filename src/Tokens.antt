-- ===== src/Tokens.antt =====
-- Access tokens and the guards that read them: packages/auth/src/jwt.ts, packages/auth/src/types.ts
-- and apps/api/src/modules/auth/auth.guard.ts. Signing and checking a JWT is the library jose, a
-- parameter, as is the form of a UUID that zod accepts. Seconds count time here.
mod Trust
mod Tests
use gatway_pagamento_escrito.Prelude.{
  ℕ, ◌+◌, Bool, true, false, not, ◌&&◌, ◌||◌, Option, none, some, List, [], ◌∷◌, ltb, leb, ◌==◌,
  if◌then◌else◌, length,
}
use gatway_pagamento_escrito.Failure.{Failure, error, unauthorized, forbidden, Result, ok, err}
use gatway_pagamento_escrito.Auth.Password.{Chars, same_text, includes}

-- `AuthenticatedUser`; a user of a tenant has a tenant id.
pub data UserRealm : Type 0 where
  platform : UserRealm
  tenant : (tenant_id : Chars) → UserRealm

pub record AccessUser : Type 0 where
  pub realm : UserRealm
  pub user_id : Chars
  pub roles : List Chars
  pub permissions : List Chars
  pub token_id : Chars

pub record JwtRealmConfig : Type 0 where
  pub issuer : Chars
  pub platform_audience : Chars
  pub tenant_audience : Chars
  pub key_id : Option Chars
  pub clock_tolerance : ℕ

-- The claims that both schemas share, with the realm of each
pub record AccessTokenClaims : Type 0 where
  pub realm : UserRealm
  pub sub : Chars
  pub roles : List Chars
  pub permissions : List Chars
  pub jti : Chars
  pub iss : Chars
  pub aud : Chars
  pub iat : ℕ
  pub exp : ℕ
  pub nbf : ℕ

pub data Algorithm : Type 0 where
  rs256 other : Algorithm

-- A token that jose has checked, or is to sign
pub record Signed : Type 0 where
  pub alg : Algorithm
  pub kid : Option Chars
  pub payload : AccessTokenClaims

pub record Jose : Type 0 where
  pub sign : Signed → Chars
  -- `jwtVerify` at a time; none: it throws
  pub jwt_verify : JwtRealmConfig → ℕ → Chars → Option Signed
  pub is_uuid : Chars → Bool

-- `/^[a-z0-9:_-]+$/u`
abbrev pub is_word_char : ℕ → Bool
is_word_char c = (leb 97 c && leb c 122) || (leb 48 c && leb c 57) || c == 58 || c == 95 || c == 45

abbrev pub every : {A : Type 0} → (A → Bool) → List A → Bool
every p [] = true
every p (x ∷ xs) = p x && every p xs

abbrev pub is_between : ℕ → ℕ → Chars → Bool
is_between low high text = leb low (length text) && leb (length text) high

abbrev pub is_role : Chars → Bool
is_role text = is_between 1 64 text && every is_word_char text

abbrev pub is_permission : Chars → Bool
is_permission text = is_between 1 128 text && every is_word_char text

abbrev pub is_realm : Jose → UserRealm → Bool
is_realm jose platform = true
is_realm jose (tenant tenant_id) = jose.is_uuid tenant_id

-- `accessTokenClaimsSchema` on claims of the right types
unfoldable pub accepts_claims : Jose → AccessTokenClaims → Bool
accepts_claims jose c =
    is_realm jose c.realm
    && jose.is_uuid c.sub
    && leb (length c.roles) 32
    && every is_role c.roles
    && leb (length c.permissions) 256
    && every is_permission c.permissions
    && jose.is_uuid c.jti
    && is_between 1 256 c.iss
    && is_between 1 128 c.aud

abbrev pub audience_of : JwtRealmConfig → UserRealm → Chars
audience_of config platform = config.platform_audience
audience_of config (tenant _) = config.tenant_audience

-- `claimsToUser`
abbrev pub claims_to_user : AccessTokenClaims → AccessUser
claims_to_user c = record {
  realm = c.realm;
  user_id = c.sub;
  roles = c.roles;
  permissions = c.permissions;
  token_id = c.jti;
}

abbrev pub is_rs256 : Algorithm → Bool
is_rs256 Algorithm.rs256 = true
is_rs256 Algorithm.other = false

-- `this.config.keyId && protectedHeader.kid !== this.config.keyId`
abbrev pub wrong_key : Option Chars → Option Chars → Bool
wrong_key none kid = false
wrong_key (some []) kid = false
wrong_key (some (x ∷ xs)) none = true
wrong_key (some (x ∷ xs)) (some kid) = not (same_text kid (x ∷ xs))

-- `this.config.keyId ? { kid: this.config.keyId } : {}`
abbrev pub key_header : Option Chars → Option Chars
key_header none = none
key_header (some []) = none
key_header (some (x ∷ xs)) = some (x ∷ xs)

abbrev pub claims_for : JwtRealmConfig → AccessUser → (expires_in now : ℕ) → AccessTokenClaims
claims_for config user expires_in now = record {
  realm = user.realm;
  sub = user.user_id;
  roles = user.roles;
  permissions = user.permissions;
  jti = user.token_id;
  iss = config.issuer;
  aud = audience_of config user.realm;
  iat = now;
  exp = now + expires_in;
  nbf = now;
}

abbrev pub signed_for : JwtRealmConfig → AccessUser → (expires_in now : ℕ) → Signed
signed_for config user expires_in now = record {
  alg = Algorithm.rs256;
  kid = key_header config.key_id;
  payload = claims_for config user expires_in now;
}

module _ (jose : Jose) (config : JwtRealmConfig) where
  abbrev pub read_signed : Option Signed → Option AccessUser
  read_signed none = none
  read_signed (some s) =
      if not (is_rs256 s.alg)
      then none
      else if wrong_key config.key_id s.kid
      then none
      else if not (accepts_claims jose s.payload)
      then none
      else if not (same_text s.payload.aud (audience_of config s.payload.realm))
      then none
      else some (claims_to_user s.payload)

  -- `JoseJwtVerifier.verify`
  unfoldable pub verify : (now : ℕ) → Chars → Option AccessUser
  verify now token =
      if length token == 0 || ltb 8192 (length token)
      then none
      else read_signed (jose.jwt_verify config now token)

  -- `JoseJwtIssuer.issue`
  unfoldable pub issue : AccessUser → (expires_in now : ℕ) → Result Chars
  issue user expires_in now =
      if ltb expires_in 60 || ltb 3600 expires_in
      then err (error "Access token lifetime must be between 60 and 3600 seconds")
      else ok (jose.sign (signed_for config user expires_in now))

-- The realm that a guard asks for
pub data Wanted : Type 0 where
  either platform_only tenant_only : Wanted

abbrev pub is_wanted : Wanted → UserRealm → Bool
is_wanted Wanted.either r = true
is_wanted Wanted.platform_only platform = true
is_wanted Wanted.tenant_only (tenant _) = true
is_wanted _ _ = false

abbrev pub with_user : Wanted → Option AccessUser → Result AccessUser
with_user wanted none = err (unauthorized "Invalid access token")
with_user wanted (some user) =
    if is_wanted wanted user.realm then ok user else err (forbidden "Forbidden authorization realm")

abbrev pub permitted : List Chars → AccessUser → Result AccessUser
permitted required user =
    if every (includes user.permissions) required
    then ok user
    else err (forbidden "Insufficient permission")

abbrev pub then_permitted : List Chars → Result AccessUser → Result AccessUser
then_permitted required (ok user) = permitted required user
then_permitted required (err e) = err e

module _ (jose : Jose) (config : JwtRealmConfig) where
  -- `authenticate`; the header is what follows "Bearer ", if it starts so.
  unfoldable pub authenticate : Wanted → (now : ℕ) → Option Chars → Result AccessUser
  unfolding verify
  authenticate wanted now none = err (unauthorized "Authentication required")
  authenticate wanted now (some token) = with_user wanted (verify jose config now token)

  -- A realm's guard, then `PermissionGuard`
  unfoldable pub guard : Wanted → List Chars → (now : ℕ) → Option Chars → Result AccessUser
  unfolding authenticate
  guard wanted required now header = then_permitted required (authenticate wanted now header)
