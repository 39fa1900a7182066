-- ===== src/Panel/Level.antt =====
-- WebService.h: what it takes to reach the second level, the one that the panel is open to.
use esp8266_dns.Base.{
  &&-split, Bool, Bool-cases, ap, arith, codes, false, if_cases, if◌then◌else◌, inl, inr, length,
  not, refl, subst, sym, true, ℕ, ◌&&◌, ◌==◌, ◌||◌, ◌≡◌, ◌⊎◌,
}
use esp8266_dns.HttpServer.Arguments.{arg}
use esp8266_dns.Panel.{Panel, Reply, Visit, reply}
use esp8266_dns.Panel.Access.{SignsIn, sign_in_code}
use esp8266_dns.Panel.Action.{Action, handle}
use esp8266_dns.Panel.Api.{api_guard, handle_api, handle_form, handle_page}
use esp8266_dns.Panel.Below.{
  Below, blocked-Below, check_csrf-Below, check_csrf-same, enroll_guard-Below, enroll_guard-open,
  guard-Below, login_failed-Below, session_ok-Below, signed_in-Below,
}
use esp8266_dns.Panel.Proof.{
  code_ok, code_time, confirmed, credential_ok, ensure_pending, floor_step, mfa_on, no_time,
  read_credentials, spend, trim_left, trim_right,
}
use esp8266_dns.Panel.Session.{
  check_csrf, clear_session, enroll_guard, guard, session_ok, start_session,
}
use esp8266_dns.Panel.SignIn.{
  enter, handle_login, handle_login_post, handle_logout, handle_mfa, handle_mfa_post,
  handle_mfa_reset, handle_password_save, mfa_page, try_enroll, try_sign_in,
}
use esp8266_dns.Panel.Tries.{blocked, login_failed, tries, waiting}
use esp8266_dns.Panel.Wrong.{passed}
use esp8266_dns.Password.{Hmac}
use esp8266_dns.Totp.{blank}

module _ (hmac : Hmac) where
  -- A code of the key that the page of the enrollment has shown.
  pub record Enrolls (a : Action) (v : Visit) (p : Panel) : Type 0 where
    pub is_enrollment : a ≡ Action.mfa_post
    pub first_level : p.session ≡ 1
    pub cookie : (session_ok v p).1 ≡ true
    pub shown : p.pending_set ≡ true
    pub code : (code_ok hmac p.pending (code_time v).now (floor_step (code_time v) p) v).0 ≡ true

  -- A sign-in whose code was checked.
  pub record SignsInFully (a : Action) (v : Visit) (p : Panel) : Type 0 where
    pub signs_in : SignsIn hmac a v p
    pub enrolled : blank p.totp ≡ false

  mfa_page-Below : (code : ℕ) (v : Visit) (p : Panel) → Below p → Below (mfa_page hmac code v p)
  unfolding mfa_page ensure_pending
  mfa_page-Below code v p h = ground (arith, h)

  confirmed-Below : (v : Visit) (p : Panel) → Below p → Below (confirmed hmac v p).0
  unfolding confirmed spend
  confirmed-Below v p h = ground (arith, h, login_failed-Below v p h)

  read_credentials-Below : (v : Visit) (p : Panel) → Below p → Below (read_credentials hmac v p).0
  unfolding read_credentials
  read_credentials-Below v p h = ground (arith, h)

  try_sign_in-Below :
      (v : Visit) (p : Panel)
      → Below p
      → waiting v.millis (tries v p) ≡ false
      → Below (try_sign_in hmac v p) ⊎ SignsInFully Action.login_post v p
  unfolding try_sign_in enter
  try_sign_in-Below v p h free =
      let mfa = mfa_on p in
      let t = if mfa then code_time v else no_time in
      let user = trim_left (trim_right (arg v.request (codes "user"))) in
      let right = credential_ok hmac user (arg v.request (codes "pass")) p in
      let code = code_ok hmac p.totp t.now (floor_step t p) v in
      let Fully = λ (x : Panel). Below x ⊎ SignsInFully Action.login_post v p in
      if_cases Fully (mfa && t.now == 0) _ _ (λ _. inl h)
        (λ _.
          if_cases Fully (right && (not mfa || code.0)) _ _
            (λ k. elim (Bool-cases (blank p.totp)) as (λ _. Fully (enter hmac mfa t code.1 v p)) [
              | inl b ↦ inl (unfold enter start_session in rw (b) refl)
              | inr b ↦ inr (record {
                signs_in = record {
                  is_sign_in = refl;
                  allowed = free;
                  known = (&&-split _ _ k).0;
                  code = λ _. sign_in_code hmac v p b (&&-split _ _ k).1;
                };
                enrolled = b;
              })
            ])
            (λ _. inl (login_failed-Below v p h)))

  handle_login_post-Below :
      (v : Visit) (p : Panel)
      → Below p
      → Below (handle_login_post hmac v p) ⊎ SignsInFully Action.login_post v p
  unfolding handle_login_post blocked
  handle_login_post-Below v p h =
      let Fully = λ (x : Panel). Below x ⊎ SignsInFully Action.login_post v p in
      if_cases Fully (length p.webpss == 0) _ _ (λ _. inl h)
        (λ _.
          if_cases Fully (blocked v (tries v p) p).1 _ _
            (λ _. inl (blocked-Below v (tries v p) p h))
            (λ k.
              if_cases Fully (not (check_csrf true v p).1) _ _
                (λ _. inl (check_csrf-Below true v p h))
                (λ l.
                  subst Fully (ap (try_sign_in hmac v) (sym (passed hmac v p (ground (arith, l)))))
                    (try_sign_in-Below v p h (ground (arith, k))))))

  try_enroll-Below :
      (v : Visit) (p : Panel)
      → Below p
      → Below (try_enroll hmac v p)
        ⊎ ((p.pending_set ≡ true)
            × ((code_ok hmac p.pending (code_time v).now (floor_step (code_time v) p) v).0 ≡ true))
  unfolding try_enroll
  try_enroll-Below v p h =
      let t = code_time v in
      let code = code_ok hmac p.pending t.now (floor_step t p) v in
      let Shown = λ (x : Panel). Below x ⊎ ((p.pending_set ≡ true) × (code.0 ≡ true)) in
      if_cases Shown (t.now == 0) _ _ (λ _. inl (mfa_page-Below 200 v p h))
        (λ _.
          if_cases Shown (p.pending_set && code.0) _ _ (λ k. inr (&&-split _ _ k))
            (λ _. inl (mfa_page-Below 401 v (login_failed v p) (login_failed-Below v p h))))

  handle_mfa_post-Below :
      (v : Visit) (p : Panel)
      → Below p
      → Below (handle_mfa_post hmac v p) ⊎ Enrolls Action.mfa_post v p
  unfolding handle_mfa_post
  handle_mfa_post-Below v p h =
      let guarded = enroll_guard v p in
      let kept = enroll_guard-Below v p h in
      let First = λ (x : Panel). Below x ⊎ Enrolls Action.mfa_post v p in
      if_cases First (not guarded.1) _ _ (λ _. inl kept)
        (λ k.
          let open_ = enroll_guard-open v p (ground (arith, k)) in
          if_cases First (not (check_csrf false v guarded.0).1) _ _
            (λ _. inl (check_csrf-Below false v guarded.0 kept))
            (λ l.
              let same = check_csrf-same v guarded.0 p open_.0 open_.2 (ground (arith, l)) in
              subst First (ap (try_enroll hmac v) (sym same)) (elim (try_enroll-Below v p h) [
                | inl b ↦ inl b
                | inr c ↦ inr (record {
                  is_enrollment = refl;
                  first_level = open_.1;
                  cookie = open_.2;
                  shown = c.0;
                  code = c.1;
                })
              ])))

  handle_mfa_reset-Below : (v : Visit) (p : Panel) → Below p → Below (handle_mfa_reset hmac v p)
  unfolding handle_mfa_reset
  handle_mfa_reset-Below v p h =
      let kept = guard-Below false v p h in
      let formed = check_csrf-Below false v (guard false v p).0 kept in
      if_cases Below (not (guard false v p).1) _ _ (λ _. kept)
        (λ _.
          if_cases Below (not (check_csrf false v (guard false v p).0).1) _ _ (λ _. formed)
            (λ _.
              if_cases Below (not (confirmed hmac v (check_csrf false v (guard false v p).0).0).1) _
                _ (λ _. confirmed-Below v (check_csrf false v (guard false v p).0).0 formed)
                (λ _.
                  signed_in-Below v
                    (start_session v 1 (
                      ensure_pending v
                        (record (reply Reply.stores
                          (confirmed hmac v (check_csrf false v (guard false v p).0).0).0) {
                            pending_set = false;
                          })))
                    (unfold start_session in refl))))

  handle_password_save-Below :
      (v : Visit) (p : Panel) → Below p → Below (handle_password_save hmac v p)
  unfolding handle_password_save clear_session
  handle_password_save-Below v p h =
      let kept = guard-Below true v p h in
      let formed = (check_csrf false v (guard true v p).0).0 in
      let still : Below formed = check_csrf-Below false v (guard true v p).0 kept in
      let sure = if length formed.webpss == 0 then (formed, true) else confirmed hmac v formed in
      let sure_kept : Below sure.0 =
        if_cases (λ (x : Panel × Bool). Below x.0) (length formed.webpss == 0) (formed, true)
          (confirmed hmac v formed) (λ _. still) (λ _. confirmed-Below v formed still) in
      let given = read_credentials-Below v sure.0 sure_kept in
      if_cases Below (not (guard true v p).1) _ _ (λ _. kept)
        (λ _.
          if_cases Below (not (check_csrf false v (guard true v p).0).1) _ _ (λ _. still)
            (λ _.
              if_cases Below (not sure.1) _ _ (λ _. sure_kept)
                (λ _.
                  if_cases Below (not (read_credentials hmac v sure.0).1) _ _ (λ _. given)
                    (λ _. if_cases Below (not v.saves) _ _ (λ _. given) (λ _. refl)))))

  handle_login-Below : (v : Visit) (p : Panel) → Below p → Below (handle_login hmac v p)
  unfolding handle_login
  handle_login-Below v p h =
      ground (arith, h, session_ok-Below v p h, blocked-Below v (tries v p) p h)

  handle_logout-Below : (v : Visit) (p : Panel) → Below p → Below (handle_logout hmac v p)
  unfolding handle_logout clear_session
  handle_logout-Below v p h =
      let checked = session_ok-Below v p h in
      ground (arith, checked, check_csrf-Below false v (session_ok v p).0 checked)

  handle_mfa-Below : (v : Visit) (p : Panel) → Below p → Below (handle_mfa hmac v p)
  unfolding handle_mfa
  handle_mfa-Below v p h =
      let kept = enroll_guard-Below v p h in
      ground (arith, kept, mfa_page-Below 200 v (enroll_guard v p).0 kept)

  handle_page-Below : (v : Visit) (p : Panel) → Below p → Below (handle_page v p)
  unfolding handle_page
  handle_page-Below v p h = ground (arith, guard-Below false v p h)

  handle_form-Below : (v : Visit) (p : Panel) → Below p → Below (handle_form v p)
  unfolding handle_form
  handle_form-Below v p h =
      let kept = guard-Below false v p h in
      ground (arith, kept, check_csrf-Below false v (guard false v p).0 kept)

  handle_api-Below : (v : Visit) (p : Panel) → Below p → Below (handle_api v p)
  unfolding handle_api api_guard
  handle_api-Below v p h = ground (arith, h, blocked-Below v p.api_tries p h)

  -- A session that the panel is open to comes only of a sign-in with the right user, password and code,
  -- or of a right code of the key that was shown, sent with the cookie of a session of the first level:
  -- any other request leaves a panel that has no such session without one.
  pub handle-raises :
      (a : Action) (v : Visit) (p : Panel)
      → (p.session == 2) ≡ false
      → ((handle hmac a v p).session == 2) ≡ false ⊎ SignsInFully a v p ⊎ Enrolls a v p
  unfolding handle
  handle-raises Action.login v p h = inl (handle_login-Below v p h)
  handle-raises Action.login_post v p h = elim (handle_login_post-Below v p h) [
    | inl b ↦ inl b
    | inr s ↦ inr (inl s)
  ]
  handle-raises Action.logout v p h = inl (handle_logout-Below v p h)
  handle-raises Action.mfa v p h = inl (handle_mfa-Below v p h)
  handle-raises Action.mfa_post v p h = elim (handle_mfa_post-Below v p h) [
    | inl b ↦ inl b
    | inr e ↦ inr (inr e)
  ]
  handle-raises Action.mfa_reset v p h = inl (handle_mfa_reset-Below v p h)
  handle-raises Action.password_save v p h = inl (handle_password_save-Below v p h)
  handle-raises Action.page v p h = inl (handle_page-Below v p h)
  handle-raises Action.form v p h = inl (handle_form-Below v p h)
  handle-raises Action.api v p h = inl (handle_api-Below v p h)
