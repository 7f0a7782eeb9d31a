-- ===== src/Auth/Replay.antt =====
-- A one-time password counts once: the steps that `verifyMfa` accepts from a factor only go up.
use gatway_pagamento_escrito.Prelude.{
  arith, ℕ, ◌≤◌, ◌<◌, ◌≡◌, refl, sym, ap, ◌∙◌, Bool, false, not, Option, none, some, List, [], ◌∷◌,
  ◌==◌, update_where, count_where,
}
use gatway_pagamento_escrito.Failure.{Failure, ok}
use gatway_pagamento_escrito.Sessions.Redis.{Text, Stage}
use gatway_pagamento_escrito.Sessions.Store.{RefreshSessionMaterial}
use gatway_pagamento_escrito.Auth.Password.{Chars}
use gatway_pagamento_escrito.Auth.Totp.{verify_and_get_step}
use gatway_pagamento_escrito.Auth.Flow.{
  or_throw, >>=-eq-ok, gets-eq-ok, throw_if-eq-ok, modify-eq-ok, lift-eq-ok, pure-eq-ok,
  or_throw-eq-ok,
}
use gatway_pagamento_escrito.Auth.Rows.{
  MfaFactorRow, Action, RequestContext, IdentityWithTenant, Server, IssuedAuthSession, Draws,
  Environment,
}
use gatway_pagamento_escrito.Auth.Repository.{
  get_mfa_factor, accepts_step, use_step, consume_mfa_step, append_audit, record_successful_login,
}
use gatway_pagamento_escrito.Auth.Service.{
  session_step, if_login, issue_session, require_challenge, require_identity, enabled_factor,
  pass_totp, verify_mfa,
}
use gatway_pagamento_escrito.Auth.Admission.{issue_session-eq-ok}

-- The tables that a step leaves alone.
or_throw-state :
    {S A : Type 0} (o : Option A) (e : Failure) (s : S) {a : A} {t : S}
    → or_throw o e s ≡ (ok a, t)
    → (o ≡ some a) × (s ≡ t)
or_throw-state none e s h = absurd (cc)
or_throw-state (some a) e s h = ground arith

pub require_identity-mfa_factors :
    (identity_id now : ℕ) (s : Server) {i : IdentityWithTenant} {t : Server}
    → require_identity identity_id now s ≡ (ok i, t)
    → s ≡ t
unfolding require_identity
require_identity-mfa_factors identity_id now s h = (or_throw-state _ _ s h).1

module _ (env : Environment) where
  pub require_challenge-mfa_factors :
      (token : Text) (stage : Stage) (now : ℕ) (s : Server) {id : ℕ} {t : Server}
      → require_challenge env token stage now s ≡ (ok id, t)
      → (t.mfa_factors ≡ s.mfa_factors) × (t.mfa_backup_codes ≡ s.mfa_backup_codes)
  unfolding require_challenge
  require_challenge-mfa_factors token stage now s h =
      let q = (or_throw-state _ _ _ h).1 in
      (sym (ap (λ x. x.mfa_factors) q), sym (ap (λ x. x.mfa_backup_codes) q))

  session_step-mfa_factors :
      (existing : Option RefreshSessionMaterial) (identity_id : ℕ) (draws : Draws) (now : ℕ)
      (s : Server) {m : RefreshSessionMaterial} {t : Server}
      → session_step env existing identity_id draws now s ≡ (ok m, t)
      → (t.mfa_factors ≡ s.mfa_factors) × (t.mfa_backup_codes ≡ s.mfa_backup_codes)
  session_step-mfa_factors existing identity_id draws now s h =
      let q = (pure-eq-ok _ _ h).1 in
      (sym (ap (λ x. x.mfa_factors) q), sym (ap (λ x. x.mfa_backup_codes) q))

  if_login-mfa_factors :
      (action : Action) (identity_id now : ℕ) (s : Server) {t : Server}
      → if_login env action (record_successful_login identity_id now) s ≡ (ok tt, t)
      → (t.mfa_factors ≡ s.mfa_factors) × (t.mfa_backup_codes ≡ s.mfa_backup_codes)
  unfolding record_successful_login
  if_login-mfa_factors action identity_id now s {t} h = ground arith

  pub issue_session-mfa_factors :
      (i : IdentityWithTenant) (context : RequestContext) (existing : Option RefreshSessionMaterial)
      (action : Action) (draws : Draws) (now : ℕ) (s : Server) {session : IssuedAuthSession}
      {t : Server}
      → issue_session env i context existing action draws now s ≡ (ok session, t)
      → (t.mfa_factors ≡ s.mfa_factors) × (t.mfa_backup_codes ≡ s.mfa_backup_codes)
  unfolding issue_session append_audit
  issue_session-mfa_factors i context existing action draws now s e =
      let (authorization, e1, e) = lift-eq-ok _ _ s e in
      let (some_role, e) = throw_if-eq-ok _ _ _ s e in
      let e = gets-eq-ok _ _ s e in
      let (enrolled, e) = throw_if-eq-ok _ _ _ s e in
      let (material, t2, e2, e) = >>=-eq-ok _ _ s e in
      let (tenant_id, e3, e) = lift-eq-ok _ _ t2 e in
      let (_, t4, e4, e) = >>=-eq-ok _ _ t2 e in
      let e = modify-eq-ok _ _ t4 e in
      let (_, q) = pure-eq-ok _ _ e in
      let (a, a') = session_step-mfa_factors existing i.row.id draws now s e2 in
      let (b, b') = if_login-mfa_factors action i.row.id now t2 e4 in
      (sym (ap (λ x. x.mfa_factors) q) ∙ b ∙ a, sym (ap (λ x. x.mfa_backup_codes) q) ∙ b' ∙ a')

accepts_step-update :
    (id step later : ℕ) (factors : List MfaFactorRow)
    → later ≤ step
    → count_where
        (accepts_step id later)
        (update_where (accepts_step id step) (use_step step) factors)
      ≡ 0
accepts_step-update id step later [] h = refl
accepts_step-update id step later (f ∷ fs) h = ground (arith, accepts_step-update id step later fs)

get_mfa_factor-update :
    (identity_id id step : ℕ) (factors : List MfaFactorRow) {f g : MfaFactorRow}
    → get_mfa_factor identity_id factors ≡ some f
    → get_mfa_factor identity_id (update_where (accepts_step id step) (use_step step) factors)
      ≡ some g
    → f.id ≡ g.id
unfolding get_mfa_factor
get_mfa_factor-update identity_id id step [] e e' = absurd (cc)
get_mfa_factor-update identity_id id step (x ∷ xs) {f} {g} e e' =
    ground (arith, get_mfa_factor-update identity_id id step xs {f = f} {g = g})

pub used_once : (n : ℕ) (used : Bool) → (n == 1) ≡ used → not used ≡ false → n ≡ 1
used_once n used e e' = ground arith

pub enabled_factor-eq-some :
    (o : Option MfaFactorRow) {f : MfaFactorRow} → enabled_factor o ≡ some f → o ≡ some f
enabled_factor-eq-some none e = absurd (cc)
enabled_factor-eq-some (some g) {f} e = ground arith

below : (a b n : ℕ) → (b ≤ a → n ≡ 0) → n ≡ 1 → a < b
below a b n h e = ground arith

module _ (env : Environment) where
  -- What passing the factor with `code` at `now` means, with the step that it uses.
  abbrev pub Passes : MfaFactorRow → Chars → ℕ → ℕ → Type 0
  Passes factor code now step =
      (secret : Chars) × (env.decrypt_secret factor.secret_ciphertext ≡ some secret)
      × (verify_and_get_step env.totp_validate code secret now ≡ some step)

  abbrev Uses : MfaFactorRow → ℕ → List MfaFactorRow → List MfaFactorRow → Type 0
  Uses factor step factors after =
      (count_where (accepts_step factor.id step) factors ≡ 1)
      × (after ≡ update_where (accepts_step factor.id step) (use_step step) factors)

  pass_totp-eq-ok :
      (factor : MfaFactorRow) (code : Chars) (now : ℕ) (s : Server) {t : Server}
      → pass_totp env factor code now s ≡ (ok tt, t)
      → (step : ℕ) × Passes factor code now step × Uses factor step s.mfa_factors t.mfa_factors
  unfolding pass_totp consume_mfa_step
  pass_totp-eq-ok factor code now s e =
      let (secret, e1, e) = or_throw-eq-ok _ _ _ s e in
      let (step, e2, e) = or_throw-eq-ok _ _ _ s e in
      let (used, t, e3, e) = >>=-eq-ok _ _ s e in
      let (fresh, e) = throw_if-eq-ok _ _ _ t e in
      let (_, q) = pure-eq-ok _ _ e in
      let (p, p') = pure-eq-ok _ _ e3 in
      (step, (secret, e1, e2), (used_once _ used p fresh, sym (ap (λ x. x.mfa_factors) (p' ∙ q))))

  -- A call of `verifyMfa` that issues a session.
  abbrev Verified : ℕ → Chars → ℕ → Server → Server → Type 0
  Verified identity_id code now s t =
      (factor : MfaFactorRow) × (step : ℕ) × (get_mfa_factor identity_id s.mfa_factors
        ≡ some factor)
      × Passes factor code now step
      × Uses factor step s.mfa_factors t.mfa_factors

  verify_mfa-eq-ok :
      (token : Text) (code : Chars) (context : RequestContext) (draws : Draws) (now : ℕ)
      (s : Server) {session : IssuedAuthSession} {t : Server}
      → verify_mfa env token code context draws now s ≡ (ok session, t)
      → Verified session.access_token.user_id code now s t
  unfolding verify_mfa append_audit
  verify_mfa-eq-ok token code context draws now s {session} e =
      let (id, s1, e1, e) = >>=-eq-ok _ _ s e in
      let (i, s2, e2, e) = >>=-eq-ok _ _ s1 e in
      let e = gets-eq-ok _ _ s2 e in
      let (factor, e3, e) = or_throw-eq-ok _ _ _ s2 e in
      let (_, s3, e4, e) = >>=-eq-ok _ _ s2 e in
      let e = modify-eq-ok _ _ s3 e in
      let (step, passes, (once, after)) = pass_totp-eq-ok factor code now s2 e4 in
      let m : s2.mfa_factors ≡ s.mfa_factors =
        ap (λ x. x.mfa_factors) (sym (require_identity-mfa_factors id now s1 e2))
        ∙ (require_challenge-mfa_factors env token Stage.mfa now s e1).0 in
      let user = (issue_session-eq-ok env i context none _ draws now _ e).4 in
      let (kept, _) = issue_session-mfa_factors env i context none _ draws now _ e in
      (
        factor,
        step,
        ap (λ l. get_mfa_factor session.access_token.user_id l) (sym m)
            ∙ ap (λ k. get_mfa_factor k s2.mfa_factors) user
            ∙ enabled_factor-eq-some _ e3,
        passes,
        (
          ap (λ l. count_where (accepts_step factor.id step) l) (sym m) ∙ once,
          kept ∙ after ∙ ap (update_where (accepts_step factor.id step) (use_step step)) m,
        ),
      )

  abbrev pub LaterStep : ℕ → Server → Chars → ℕ → Server → Chars → ℕ → Type 0
  LaterStep id s code1 now1 s1 code2 now2 =
      (f1 f2 : MfaFactorRow) × (step1 step2 : ℕ) × (get_mfa_factor id s.mfa_factors ≡ some f1)
      × (get_mfa_factor id s1.mfa_factors ≡ some f2)
      × Passes f1 code1 now1 step1
      × Passes f2 code2 now2 step2
      × (f1.id ≡ f2.id)
      × (step1 < step2)

  -- When two calls of `verifyMfa`, one after the other, issue sessions for the same identity, each
  -- code was right for the identity's factor at its time, and the second was the code of a later
  -- step than the first.
  pub verify_mfa-verify_mfa :
      (token1 : Text) (code1 : Chars) (context1 : RequestContext) (draws1 : Draws) (now1 : ℕ)
      (token2 : Text) (code2 : Chars) (context2 : RequestContext) (draws2 : Draws) (now2 : ℕ)
      (s : Server) {a b : IssuedAuthSession} {s1 s2 : Server}
      → verify_mfa env token1 code1 context1 draws1 now1 s ≡ (ok a, s1)
      → verify_mfa env token2 code2 context2 draws2 now2 s1 ≡ (ok b, s2)
      → a.access_token.user_id ≡ b.access_token.user_id
      → LaterStep a.access_token.user_id s code1 now1 s1 code2 now2
  verify_mfa-verify_mfa token1 code1 context1 draws1 now1 token2 code2 context2 draws2 now2 s {a}
        {b} {s1} {s2} e1 e2 same =
      let (f1, step1, g1, p1, (u1, w1)) = verify_mfa-eq-ok token1 code1 context1 draws1 now1 s e1 in
      let (f2, step2, g2, p2, (u2, w2)) =
        verify_mfa-eq-ok token2 code2 context2 draws2 now2 s1 e2 in
      let g : get_mfa_factor a.access_token.user_id s1.mfa_factors ≡ some f2 =
        ap (λ k. get_mfa_factor k s1.mfa_factors) same ∙ g2 in
      let id : f1.id ≡ f2.id =
        get_mfa_factor-update a.access_token.user_id f1.id step1 s.mfa_factors g1
          (ap (get_mfa_factor a.access_token.user_id) (sym w1) ∙ g) in
      (
        f1,
        f2,
        step1,
        step2,
        g1,
        g,
        p1,
        p2,
        id,
        below step1 step2 _
            (λ h.
              ap (count_where (accepts_step f2.id step2)) w1
              ∙ ap
                  (λ k.
                    count_where (accepts_step k step2)
                      (update_where (accepts_step f1.id step1) (use_step step1) s.mfa_factors))
                  (sym id)
              ∙ accepts_step-update f1.id step1 step2 s.mfa_factors h)
            u2,
      )
