-- ===== src/Auth/Password.antt =====
-- packages/auth/src/password-policy.ts and packages/auth/src/password.ts, over UTF-16 code units.
-- Argon2 itself is a parameter. Zod gathers the issues in order and the first one is thrown.
use gatway_pagamento_escrito.Prelude.{
  ℕ, Bool, true, false, not, ◌||◌, ◌&&◌, Option, none, some, List, [], ◌∷◌, ltb, leb, ◌==◌,
  if◌then◌else◌, length,
}
use gatway_pagamento_escrito.Failure.{Failure, error, Result, ok, err}

abbrev pub Chars : Type 0
Chars = List ℕ

abbrev pub same_text : Chars → Chars → Bool
same_text [] [] = true
same_text (x ∷ xs) (y ∷ ys) = x == y && same_text xs ys
same_text _ _ = false

abbrev pub includes : List Chars → Chars → Bool
includes [] t = false
includes (x ∷ xs) t = same_text x t || includes xs t

abbrev pub common_passwords : List Chars
common_passwords =
    (49 ∷ 50 ∷ 51 ∷ 52 ∷ 53 ∷ 54 ∷ 55 ∷ 56 ∷ 57 ∷ 48 ∷ 49 ∷ 50 ∷ [])
    ∷ (97 ∷ 100 ∷ 109 ∷ 105 ∷ 110 ∷ 49 ∷ 50 ∷ 51 ∷ 52 ∷ 53 ∷ 54 ∷ [])
    ∷ (97 ∷ 100 ∷ 109 ∷ 105 ∷ 110 ∷ 105 ∷ 115 ∷ 116 ∷ 114 ∷ 97 ∷ 116 ∷ 111 ∷ 114 ∷ [])
    ∷ (99 ∷ 104 ∷ 97 ∷ 110 ∷ 103 ∷ 101 ∷ 109 ∷ 101 ∷ 49 ∷ 50 ∷ 51 ∷ 52 ∷ [])
    ∷ (108 ∷ 101 ∷ 116 ∷ 109 ∷ 101 ∷ 105 ∷ 110 ∷ 49 ∷ 50 ∷ 51 ∷ 52 ∷ 53 ∷ 54 ∷ [])
    ∷ (112 ∷ 97 ∷ 115 ∷ 115 ∷ 119 ∷ 111 ∷ 114 ∷ 100 ∷ 49 ∷ 50 ∷ 51 ∷ 52 ∷ [])
    ∷ (113 ∷ 119 ∷ 101 ∷ 114 ∷ 116 ∷ 121 ∷ 49 ∷ 50 ∷ 51 ∷ 52 ∷ 53 ∷ 54 ∷ [])
    ∷ (115 ∷ 101 ∷ 110 ∷ 104 ∷ 97 ∷ 49 ∷ 50 ∷ 51 ∷ 52 ∷ 53 ∷ 54 ∷ [])
    ∷ (119 ∷ 101 ∷ 108 ∷ 99 ∷ 111 ∷ 109 ∷ 101 ∷ 49 ∷ 50 ∷ 51 ∷ 52 ∷ 53 ∷ [])
    ∷ []

-- `/[\u0000\r\n]/u`
abbrev pub has_control : Chars → Bool
has_control [] = false
has_control (c ∷ cs) = c == 0 || c == 13 || c == 10 || has_control cs

-- What `trim` removes.
abbrev pub is_space : ℕ → Bool
is_space c =
    (leb 9 c && leb c 13)
    || c == 32
    || c == 160
    || c == 5760
    || (leb 8192 c && leb c 8202)
    || c == 8232
    || c == 8233
    || c == 8239
    || c == 8287
    || c == 12288
    || c == 65279

abbrev pub ends_in_space : Chars → Bool
ends_in_space [] = false
ends_in_space (c ∷ []) = is_space c
ends_in_space (c ∷ d ∷ cs) = ends_in_space (d ∷ cs)

-- `trim` shortens the text.
abbrev pub is_padded : Chars → Bool
is_padded [] = false
is_padded (c ∷ cs) = is_space c || ends_in_space (c ∷ cs)

-- `validatePasswordPolicy`: the first issue that the schema finds is thrown.
unfoldable pub validate_password_policy : (Chars → Chars) → Chars → Option Failure
validate_password_policy to_lower_case password =
    if ltb (length password) 12
    then some (error "Too small: expected string to have >=12 characters")
    else if ltb 128 (length password)
    then some (error "Too big: expected string to have <=128 characters")
    else if has_control password
    then some (error "Password contains forbidden control characters")
    else if is_padded password
    then some (error "Password cannot start or end with whitespace")
    else if includes common_passwords (to_lower_case password)
    then some (error "Password is too common")
    else none

abbrev pub bad_password_length : Chars → Bool
bad_password_length password = length password == 0 || ltb 1024 (length password)

-- `Argon2idPasswordHasher.hash`, with the salt that it draws
unfoldable pub hash_password : (ℕ → Chars → ℕ) → ℕ → Chars → Result ℕ
hash_password argon2_hash salt password =
    if bad_password_length password
    then err (error "Password length must be between 1 and 1024 characters")
    else ok (argon2_hash salt password)

-- `Argon2idPasswordHasher.verify`; `is_argon2id` is the test of the stored text's length and prefix
unfoldable pub verify_password : (ℕ → Bool) → (ℕ → Chars → Bool) → Chars → ℕ → Bool
verify_password is_argon2id argon2_verify password hash =
    if bad_password_length password || not (is_argon2id hash)
    then false
    else argon2_verify hash password
