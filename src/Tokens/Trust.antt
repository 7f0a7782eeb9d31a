-- ===== src/Tokens/Trust.antt =====
-- A token that was issued is read back, and a guarded request comes from a user with the rights.
use gatway_pagamento_escrito.Prelude.{
  arith, ℕ, ◌≡◌, ◌≤◌, refl, sym, ap, ◌∙◌, Bool, true, false, not, ◌||◌, Option, none, some, List,
  [], ◌∷◌, ltb, ◌==◌, if◌then◌else◌, inl, inr, length,
}
use gatway_pagamento_escrito.Failure.{Failure, error, ok, err, err≢ok, Result-cases, if-err-ok}
use gatway_pagamento_escrito.Auth.Password.{Chars, same_text, includes}
use gatway_pagamento_escrito.Tokens.{
  AccessUser, JwtRealmConfig, Jose, every, accepts_claims, audience_of, wrong_key, key_header,
  verify, claims_for, signed_for, issue, Wanted, is_wanted, with_user, authenticate, permitted,
  guard,
}

same_text_refl : (t : Chars) → same_text t t ≡ true
same_text_refl [] = refl
same_text_refl (x ∷ xs) = ground (arith, same_text_refl xs)

right_key : (key : Option Chars) → wrong_key key (key_header key) ≡ false
right_key none = refl
right_key (some []) = refl
right_key (some (x ∷ xs)) = ap not (same_text_refl (x ∷ xs))

same_ok : {A : Type 0} {a b : A} → ok a ≡ ok b → a ≡ b
same_ok e = ground arith

short : (n : ℕ) → 1 ≤ n → n ≤ 8192 → (n == 0 || ltb 8192 n) ≡ false
short n low high = ground arith

-- A token that `issue` returns is verified, and gives back its user, at every time at which jose
-- accepts it, if its claims fit the schema and its text is neither empty nor longer than 8192.
pub verify-issue :
    (jose : Jose) (config : JwtRealmConfig) (user : AccessUser) (expires_in now later : ℕ)
    (token : Chars)
    → issue jose config user expires_in now ≡ ok token
    → jose.jwt_verify config later (jose.sign (signed_for config user expires_in now))
      ≡ some (signed_for config user expires_in now)
    → accepts_claims jose (claims_for config user expires_in now) ≡ true
    → 1 ≤ length token
    → length token ≤ 8192
    → verify jose config later token ≡ some user
unfolding issue verify
verify-issue jose config user expires_in now later token issued opened fits low high =
    let (_, made) =
      if-err-ok (ltb expires_in 60 || ltb 3600 expires_in)
        (error "Access token lifetime must be between 60 and 3600 seconds")
        (ok (jose.sign (signed_for config user expires_in now))) issued in
    let back : jose.jwt_verify config later token ≡ some (signed_for config user expires_in now) =
      ap (jose.jwt_verify config later) (sym (same_ok made)) ∙ opened in
    rw
      (
        short (length token) low high,
        back,
        right_key config.key_id,
        fits,
        same_text_refl (audience_of config user.realm),
      )
      refl

-- A token that the guards let pass
abbrev pub Entitled :
    Jose → JwtRealmConfig → Wanted → List Chars → ℕ → Option Chars → AccessUser → Type 0
Entitled jose config wanted required now header user =
    (token : Chars) × (header ≡ some token)
    × (verify jose config now token ≡ some user)
    × (is_wanted wanted user.realm ≡ true)
    × (every (includes user.permissions) required ≡ true)

if-ok-err :
    {A : Type 0} (b : Bool) (x : A) (e : Failure) {a : A}
    → (if b then ok x else err e) ≡ ok a
    → (b ≡ true) × (x ≡ a)
if-ok-err true x e h = (refl, same_ok h)
if-ok-err false x e h = absurd (err≢ok h)

permitted-every :
    (required : List Chars) (u user : AccessUser)
    → permitted required u ≡ ok user
    → (u ≡ user) × (every (includes user.permissions) required ≡ true)
permitted-every required u user e =
    let (all, same) = if-ok-err (every (includes u.permissions) required) u _ e in
    (same, ap (λ (x : AccessUser). every (includes x.permissions) required) (sym same) ∙ all)

with_user-wanted :
    (wanted : Wanted) (found : Option AccessUser) (user : AccessUser)
    → with_user wanted found ≡ ok user
    → (found ≡ some user) × (is_wanted wanted user.realm ≡ true)
with_user-wanted wanted none user e = absurd (err≢ok e)
with_user-wanted wanted (some u) user e =
    let (right, same) = if-ok-err (is_wanted wanted u.realm) u _ e in
    (ap (λ x. some x) same, ap (λ (x : AccessUser). is_wanted wanted x.realm) (sym same) ∙ right)

-- A request passes a guard of a realm and then the permission guard only with a token that is verified
-- at that time as one of a user of that realm who has each of the required permissions.
pub guard-verify :
    (jose : Jose) (config : JwtRealmConfig) (wanted : Wanted) (required : List Chars) (now : ℕ)
    (header : Option Chars) (user : AccessUser)
    → guard jose config wanted required now header ≡ ok user
    → Entitled jose config wanted required now header user
unfolding guard authenticate
guard-verify jose config wanted required now none user e = absurd (err≢ok e)
guard-verify jose config wanted required now (some token) user e =
    elim (Result-cases (with_user wanted (verify jose config now token))) [
      | inl (u, found) ↦
          let (same, all) = permitted-every required u user (rw found at e) in
          let (verified, right) =
            with_user-wanted wanted (verify jose config now token) user
              (found ∙ ap (λ x. ok x) same) in
          (token, refl, verified, right, all)
      | inr (_, refused) ↦ absurd (err≢ok (rw refused at e))
    ]
