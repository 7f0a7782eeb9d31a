-- ===== src/Auth/Totp.antt =====
-- packages/auth/src/totp.ts. The one-time password of a secret, checked in a window of one step, is
-- a parameter that answers the step's distance.
use gatway_pagamento_escrito.Prelude.{
  ℕ, ◌+◌, ◌-◌, ◌/◌, Bool, true, ◌||◌, ◌&&◌, not, Option, none, some, [], ◌∷◌, leb, ◌==◌,
  if◌then◌else◌, length,
}
use gatway_pagamento_escrito.Auth.Password.{Chars}

pub data Delta : Type 0 where
  previous current next : Delta

abbrev pub every : (ℕ → Bool) → Chars → Bool
every p [] = true
every p (c ∷ cs) = p c && every p cs

abbrev pub is_digit : ℕ → Bool
is_digit c = leb 48 c && leb c 57

abbrev pub is_base32 : ℕ → Bool
is_base32 c = (leb 65 c && leb c 90) || (leb 50 c && leb c 55)

abbrev pub step_of : ℕ → Option Delta → Option ℕ
step_of timestamp none = none
step_of timestamp (some Delta.previous) = some (timestamp / 30_000 - 1)
step_of timestamp (some Delta.current) = some (timestamp / 30_000)
step_of timestamp (some Delta.next) = some (timestamp / 30_000 + 1)

-- `verifyAndGetStep`
unfoldable pub verify_and_get_step :
    (Chars → Chars → ℕ → Option Delta) → (code secret : Chars) → ℕ → Option ℕ
verify_and_get_step validate code secret timestamp =
    if not (length code == 6 && every is_digit code)
      || not (length secret == 32 && every is_base32 secret)
    then none
    else step_of timestamp (validate code secret timestamp)
