-- ===== src/Auth/Recovery.antt =====
-- A recovery code counts once: each call of `verifyRecoveryCode` that issues a session spends one.
use mathlib.Core.List.{Memᴰ}
use gatway_pagamento_escrito.Prelude.{
  subst, if-cases, Bool-cases, inl, inr, arith, ℕ, ◌+◌, ◌≤◌, ◌≡◌, refl, sym, ap, ◌∙◌, Bool, true,
  ◌&&◌, none, some, List, [], ◌∷◌, find, find-passes, select, update_where, count_where,
}
use gatway_pagamento_escrito.Sessions.Redis.{Text, Stage}
use gatway_pagamento_escrito.Auth.Password.{Chars}
use gatway_pagamento_escrito.Auth.Flow.{
  >>=-eq-ok, gets-eq-ok, throw_if-eq-ok, modify-eq-ok, pure-eq-ok, or_throw-eq-ok,
}
use gatway_pagamento_escrito.Failure.{ok}
use gatway_pagamento_escrito.Auth.Rows.{
  MfaFactorRow, MfaBackupCodeRow, RequestContext, Server, IssuedAuthSession, Draws, Environment,
}
use gatway_pagamento_escrito.Auth.Repository.{
  get_mfa_factor, is_unused_code_of, list_unused_backup_codes, is_unused, use_code,
  consume_backup_code, append_audit,
}
use gatway_pagamento_escrito.Auth.Service.{matches_code, pass_recovery, verify_recovery_code}
use gatway_pagamento_escrito.Auth.Admission.{issue_session-eq-ok}
use gatway_pagamento_escrito.Auth.Replay.{
  require_challenge-mfa_factors, require_identity-mfa_factors, issue_session-mfa_factors, used_once,
  enabled_factor-eq-some,
}

-- The unused codes with an id that belong to a factor.
abbrev is_spent_by : ℕ → ℕ → MfaBackupCodeRow → Bool
is_spent_by factor_id code_id c = is_unused code_id c && is_unused_code_of factor_id c

unused-update :
    (factor_id code_id now : ℕ) (codes : List MfaBackupCodeRow)
    → count_where (is_unused_code_of factor_id) codes
      ≡ count_where
          (is_unused_code_of factor_id)
          (update_where (is_unused code_id) (use_code now) codes)
        + count_where (is_spent_by factor_id code_id) codes
unused-update factor_id code_id now [] = refl
unused-update factor_id code_id now (c ∷ cs) =
    ground (arith, unused-update factor_id code_id now cs)

spent_le :
    (factor_id code_id : ℕ) (codes : List MfaBackupCodeRow)
    → count_where (is_spent_by factor_id code_id) codes ≤ count_where (is_unused code_id) codes
spent_le factor_id code_id [] = ground arith
spent_le factor_id code_id (c ∷ cs) = ground (arith, spent_le factor_id code_id cs)

spent_some :
    (p : MfaBackupCodeRow → Bool) (factor_id : ℕ) (codes : List MfaBackupCodeRow)
    {c : MfaBackupCodeRow}
    → find p (select (is_unused_code_of factor_id) codes) ≡ some c
    → 1 ≤ count_where (is_spent_by factor_id c.id) codes
spent_some p factor_id [] e = absurd (cc)
spent_some p factor_id (x ∷ xs) {c} e = ground (arith, spent_some p factor_id xs {c = c})

find-Mem :
    (p : MfaBackupCodeRow → Bool) (codes : List MfaBackupCodeRow) {c : MfaBackupCodeRow}
    → find p codes ≡ some c
    → Memᴰ c codes
find-Mem p [] e = absurd (cc)
find-Mem p (x ∷ xs) e = elim (if-cases (p x) _ _ e) [
  | inl (_, e) ↦ Memᴰ.head (sym (same_code e))
  | inr (_, e) ↦ Memᴰ.tail (find-Mem p xs e)
]
  where
    same_code : {x c : MfaBackupCodeRow} → some x ≡ some c → x ≡ c
    same_code e = ground arith

cons-Mem :
    (p : MfaBackupCodeRow → Bool) (x : MfaBackupCodeRow) (xs : List MfaBackupCodeRow)
    {c : MfaBackupCodeRow}
    → p x ≡ true
    → (Memᴰ c (select p xs) → Memᴰ c xs × (p c ≡ true))
    → Memᴰ c (x ∷ select p xs)
    → Memᴰ c (x ∷ xs) × (p c ≡ true)
cons-Mem p x xs hit rest (Memᴰ.head e) = (Memᴰ.head e, ap p e ∙ hit)
cons-Mem p x xs hit rest (Memᴰ.tail m) = let (there, e) = rest m in (Memᴰ.tail there, e)

select-Mem :
    (p : MfaBackupCodeRow → Bool) (codes : List MfaBackupCodeRow) {c : MfaBackupCodeRow}
    → Memᴰ c (select p codes)
    → Memᴰ c codes × (p c ≡ true)
select-Mem p [] m = elim m [ ]
select-Mem p (x ∷ xs) m = elim (Bool-cases (p x)) [
  | inl hit ↦ cons-Mem p x xs hit (select-Mem p xs) (rw hit at m)
  | inr miss ↦ let (there, e) = select-Mem p xs (rw miss at m) in (Memᴰ.tail there, e)
]

unused-after :
    (code_id now : ℕ) (codes : List MfaBackupCodeRow)
    → count_where (is_unused code_id) (update_where (is_unused code_id) (use_code now) codes) ≡ 0
unused-after code_id now [] = refl
unused-after code_id now (c ∷ cs) = ground (arith, unused-after code_id now cs)

unused-count :
    (before after spent all : ℕ)
    → before ≡ after + spent
    → 1 ≤ spent
    → spent ≤ all
    → all ≡ 1
    → before ≡ 1 + after
unused-count before after spent all e h h' e' = ground arith

module _ (env : Environment) where
  -- One of the codes matches, belongs to the factor and is unused; it is the one that is marked as
  -- used, and the factor has one unused code less.
  abbrev pub Spends : MfaFactorRow → Chars → List MfaBackupCodeRow → List MfaBackupCodeRow → Type 0
  Spends factor recovery_code codes after =
      (c : MfaBackupCodeRow) × Memᴰ c codes
      × (is_unused_code_of factor.id c ≡ true)
      × (matches_code env recovery_code c ≡ true)
      × (count_where (is_unused c.id) after ≡ 0)
      × (count_where (is_unused_code_of factor.id) codes
          ≡ 1 + count_where (is_unused_code_of factor.id) after)

  pass_recovery-eq-ok :
      (factor : MfaFactorRow) (recovery_code : Chars) (now : ℕ) (s : Server) {t : Server}
      → pass_recovery env factor recovery_code now s ≡ (ok tt, t)
      → Spends factor recovery_code s.mfa_backup_codes t.mfa_backup_codes
  unfolding pass_recovery list_unused_backup_codes consume_backup_code
  pass_recovery-eq-ok factor recovery_code now s e =
      let e = gets-eq-ok _ _ s e in
      let (c, found, e) = or_throw-eq-ok _ _ _ s e in
      let (used, t1, e1, e) = >>=-eq-ok _ _ s e in
      let (fresh, e) = throw_if-eq-ok _ _ _ t1 e in
      let (_, q) = pure-eq-ok _ _ e in
      let (p, p') = pure-eq-ok _ _ e1 in
      let after = ap (λ x. x.mfa_backup_codes) (p' ∙ q) in
      let (there, unused) = select-Mem (is_unused_code_of factor.id) s.mfa_backup_codes (
        find-Mem (matches_code env recovery_code)
          (list_unused_backup_codes factor.id s.mfa_backup_codes) found) in
      (
        c,
        there,
        unused,
        find-passes (matches_code env recovery_code)
            (list_unused_backup_codes factor.id s.mfa_backup_codes) found,
        ap (count_where (is_unused c.id)) (sym after) ∙ unused-after c.id now s.mfa_backup_codes,
        unused-count _ _ _ _ (unused-update factor.id c.id now s.mfa_backup_codes)
              (spent_some (matches_code env recovery_code) factor.id s.mfa_backup_codes found)
              (spent_le factor.id c.id s.mfa_backup_codes) (used_once _ used p fresh)
            ∙ ap (λ l. 1 + count_where (is_unused_code_of factor.id) l) after,
      )

  abbrev pub Recovered : ℕ → Chars → Server → Server → Type 0
  Recovered identity_id recovery_code s t =
      (factor : MfaFactorRow) × (get_mfa_factor identity_id s.mfa_factors ≡ some factor)
      × Spends factor recovery_code s.mfa_backup_codes t.mfa_backup_codes

  -- When `verifyRecoveryCode` issues a session, the code given matches a stored code of the MFA factor
  -- of the session's identity that was unused; no unused code with its id is left afterwards, and the
  -- factor has exactly one unused code less.
  pub verify_recovery_code-spends :
      (token : Text) (recovery_code : Chars) (context : RequestContext) (draws : Draws) (now : ℕ)
      (s : Server) {session : IssuedAuthSession} {t : Server}
      → verify_recovery_code env token recovery_code context draws now s ≡ (ok session, t)
      → Recovered session.access_token.user_id recovery_code s t
  unfolding verify_recovery_code append_audit
  verify_recovery_code-spends token recovery_code context draws now s {session} e =
      let (id, s1, e1, e) = >>=-eq-ok _ _ s e in
      let (i, s2, e2, e) = >>=-eq-ok _ _ s1 e in
      let e = gets-eq-ok _ _ s2 e in
      let (factor, e3, e) = or_throw-eq-ok _ _ _ s2 e in
      let (_, s3, e4, e) = >>=-eq-ok _ _ s2 e in
      let e = modify-eq-ok _ _ s3 e in
      let (c, there, unused, right, gone, less) =
        pass_recovery-eq-ok factor recovery_code now s2 e4 in
      let same = require_identity-mfa_factors id now s1 e2 in
      let (m, m') = require_challenge-mfa_factors env token Stage.mfa now s e1 in
      let user = (issue_session-eq-ok env i context none _ draws now _ e).4 in
      let (_, kept) = issue_session-mfa_factors env i context none _ draws now _ e in
      (
        factor,
        ap (λ l. get_mfa_factor session.access_token.user_id l)
              (sym m ∙ ap (λ x. x.mfa_factors) same)
            ∙ ap (λ k. get_mfa_factor k s2.mfa_factors) user
            ∙ enabled_factor-eq-some _ e3,
        (
          c,
          subst (Memᴰ c) (sym (sym m' ∙ ap (λ x. x.mfa_backup_codes) same)) there,
          unused,
          right,
          ap (count_where (is_unused c.id)) kept ∙ gone,
          ap (count_where (is_unused_code_of factor.id))
                (sym m' ∙ ap (λ x. x.mfa_backup_codes) same)
              ∙ less
              ∙ ap (λ l. 1 + count_where (is_unused_code_of factor.id) l) (sym kept),
        ),
      )
