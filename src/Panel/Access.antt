-- ===== src/Panel/Access.antt =====
-- WebService.h: what it takes to be signed in.
use esp8266_dns.Base.{
  &&-split, List, [], ap, arith, codes, false, if_cases, if◌then◌else◌, inl, inr, length, not, refl,
  subst, sym, true, ◌&&◌, ◌==◌, ◌||◌, ◌∷◌, ◌≡◌, ◌⊎◌,
}
use esp8266_dns.HttpServer.Arguments.{arg}
use esp8266_dns.Panel.{Panel, Visit}
use esp8266_dns.Panel.Action.{Action, handle, steps}
use esp8266_dns.Panel.Out.{
  IsOut, blocked-IsOut, check_csrf-IsOut, handle_api-IsOut, handle_form-IsOut, handle_login-IsOut,
  handle_logout-IsOut, handle_mfa-IsOut, handle_mfa_post-IsOut, handle_mfa_reset-IsOut,
  handle_page-IsOut, handle_password_save-IsOut, login_failed-IsOut,
}
use esp8266_dns.Panel.Proof.{
  code_ok, code_time, credential_ok, floor_step, mfa_on, no_time, trim_left, trim_right,
}
use esp8266_dns.Panel.Session.{check_csrf, form_token}
use esp8266_dns.Panel.SignIn.{handle_login_post, try_sign_in}
use esp8266_dns.Panel.Tries.{blocked, tries, waiting}
use esp8266_dns.Password.{Hmac}
use esp8266_dns.Totp.{blank}

module _ (hmac : Hmac) where
  -- The request is a sign-in: the count does not wait, the user and the password are right, and so is
  -- the code, if there is an authenticator.
  pub record SignsIn (a : Action) (v : Visit) (p : Panel) : Type 0 where
    pub is_sign_in : a ≡ Action.login_post
    pub allowed : waiting v.millis (tries v p) ≡ false
    pub known :
        credential_ok hmac
          (trim_left (trim_right (arg v.request (codes "user"))))
          (arg v.request (codes "pass"))
          p
        ≡ true
    pub code :
        blank p.totp ≡ false
        → (code_ok hmac p.totp (code_time v).now (floor_step (code_time v) p) v).0 ≡ true

  -- The code of the form, where there is an authenticator.
  pub sign_in_code :
      (v : Visit) (p : Panel)
      → blank p.totp ≡ false
      → (not (mfa_on p)
          || (code_ok hmac p.totp
              (if mfa_on p then code_time v else no_time).now
              (floor_step (if mfa_on p then code_time v else no_time) p)
              v).0)
        ≡ true
      → (code_ok hmac p.totp (code_time v).now (floor_step (code_time v) p) v).0 ≡ true
  sign_in_code v p b k = ground (arith, b, k)

  try_sign_in-SignsIn :
      (v : Visit) (p : Panel)
      → IsOut p
      → waiting v.millis (tries v p) ≡ false
      → IsOut (try_sign_in hmac v p) ⊎ SignsIn Action.login_post v p
  unfolding try_sign_in
  try_sign_in-SignsIn v p h free =
      let mfa = mfa_on p in
      let t = if mfa then code_time v else no_time in
      let user = trim_left (trim_right (arg v.request (codes "user"))) in
      let right = credential_ok hmac user (arg v.request (codes "pass")) p in
      let code = code_ok hmac p.totp t.now (floor_step t p) v in
      let motive = λ (x : Panel). IsOut x ⊎ SignsIn Action.login_post v p in
      if_cases motive (mfa && t.now == 0) _ _ (λ _. inl h)
        (λ _.
          if_cases motive (right && (not mfa || code.0)) _ _
            (λ k. inr (record {
              is_sign_in = refl;
              allowed = free;
              known = (&&-split _ _ k).0;
              code = λ b. sign_in_code v p b (&&-split _ _ k).1;
            }))
            (λ _. inl (login_failed-IsOut v p h)))

  handle_login_post-SignsIn :
      (v : Visit) (p : Panel)
      → IsOut p
      → IsOut (handle_login_post hmac v p) ⊎ SignsIn Action.login_post v p
  unfolding handle_login_post check_csrf form_token blocked
  handle_login_post-SignsIn v p h =
      let motive = λ (x : Panel). IsOut x ⊎ SignsIn Action.login_post v p in
      if_cases motive (length p.webpss == 0) _ _ (λ _. inl h)
        (λ _.
          if_cases motive (blocked v (tries v p) p).1 _ _
            (λ _. inl (blocked-IsOut v (tries v p) p h))
            (λ k.
              let free : waiting v.millis (tries v p) ≡ false = ground (arith, k) in
              if_cases motive (not (check_csrf true v p).1) _ _
                (λ _. inl (check_csrf-IsOut true v p h))
                (λ l.
                  subst motive (ap (try_sign_in hmac v) (sym (passed v p l)))
                    (try_sign_in-SignsIn v p h free))))
    where
      passed :
          (v : Visit) (p : Panel)
          → not (check_csrf true v p).1 ≡ false
          → (check_csrf true v p).0 ≡ p
      passed v p l = ground (arith, l)

  handle-SignsIn :
      (a : Action) (v : Visit) (p : Panel) → IsOut p → IsOut (handle hmac a v p) ⊎ SignsIn a v p
  unfolding handle
  handle-SignsIn Action.login v p h = inl (handle_login-IsOut hmac v p h)
  handle-SignsIn Action.login_post v p h = handle_login_post-SignsIn v p h
  handle-SignsIn Action.logout v p h = inl (handle_logout-IsOut hmac v p h)
  handle-SignsIn Action.mfa v p h = inl (handle_mfa-IsOut hmac v p h)
  handle-SignsIn Action.mfa_post v p h = inl (handle_mfa_post-IsOut hmac v p h)
  handle-SignsIn Action.mfa_reset v p h = inl (handle_mfa_reset-IsOut hmac v p h)
  handle-SignsIn Action.password_save v p h = inl (handle_password_save-IsOut hmac v p h)
  handle-SignsIn Action.page v p h = inl (handle_page-IsOut hmac v p h)
  handle-SignsIn Action.form v p h = inl (handle_form-IsOut hmac v p h)
  handle-SignsIn Action.api v p h = inl (handle_api-IsOut hmac v p h)

  -- One request of the row is a sign-in, at the state that the requests before it left.
  unfoldable pub HasSignIn : List (Action × Visit) → Panel → Type 0
  unfolding handle
  HasSignIn [] p = ⊥
  HasSignIn (e ∷ es) p = SignsIn e.0 e.1 p ⊎ HasSignIn es (handle hmac e.0 e.1 p)

  -- From a panel that nobody is signed in to, however the requests of any number of browsers follow
  -- one another, somebody has a session, of either level, only if one of the requests was a sign-in
  -- with the right user and password, and the right code where there is an authenticator, at a moment
  -- when the count of its sender did not wait.
  pub steps-HasSignIn :
      (es : List (Action × Visit)) (p : Panel)
      → p.session ≡ 0
      → ((steps hmac es p).session ≡ 0) ⊎ HasSignIn es p
  unfolding steps HasSignIn
  steps-HasSignIn [] p h = inl h
  steps-HasSignIn (e ∷ es) p h = elim (handle-SignsIn e.0 e.1 p h) [
    | inr s ↦ inr (inl s)
    | inl out ↦ elim (steps-HasSignIn es (handle hmac e.0 e.1 p) out) [
      | inl still ↦ inl still
      | inr later ↦ inr (inr later)
    ]
  ]
