-- ===== src/Panel/Out.antt =====
-- WebService.h: whoever is signed out stays so with every request but a sign-in.
use esp8266_dns.Base.{
  ==_iff, Bool, Bytes, ap, arith, codes, false, if_cases, if◌then◌else◌, length, not, refl, true,
  ◌==◌, ◌||◌, ◌∙◌, ◌≡◌,
}
use esp8266_dns.HttpServer.Arguments.{arg}
use esp8266_dns.Panel.{Panel, Throttle, Visit}
use esp8266_dns.Panel.Api.{api_guard, handle_api, handle_form, handle_page}
use esp8266_dns.Panel.Proof.{confirmed, credential_ok, read_credentials, spend}
use esp8266_dns.Panel.Session.{
  check_csrf, clear_session, enroll_guard, form_token, guard, guard_session, session_ok,
}
use esp8266_dns.Panel.SignIn.{
  handle_login, handle_logout, handle_mfa, handle_mfa_post, handle_mfa_reset, handle_password_save,
}
use esp8266_dns.Panel.Tries.{blocked, login_failed, set_tries, tries}
use esp8266_dns.Password.{Hmac, check}

abbrev pub IsOut : Panel → Type 0
IsOut p = p.session ≡ 0

session_ok-IsOut : (v : Visit) (p : Panel) → IsOut p → session_ok v p ≡ (p, false)
unfolding session_ok
session_ok-IsOut v p h = rw (h) refl

pub blocked-IsOut : (v : Visit) (t : Throttle) (p : Panel) → IsOut p → IsOut (blocked v t p).0
unfolding blocked
blocked-IsOut v t p h = ground (arith, h)

guard_session-IsOut :
    (v : Visit) (p : Panel)
    → IsOut p
    → IsOut (guard_session v p).0 × ((guard_session v p).1 ≡ false)
unfolding guard_session
guard_session-IsOut v p h = rw (session_ok-IsOut v p h) (h, refl)

pub login_failed-IsOut : (v : Visit) (p : Panel) → IsOut p → IsOut (login_failed v p)
unfolding login_failed set_tries
login_failed-IsOut v p h = ground (arith, h)

pub check_csrf-IsOut : (b : Bool) (v : Visit) (p : Panel) → IsOut p → IsOut (check_csrf b v p).0
unfolding check_csrf form_token
check_csrf-IsOut b v p h = ground (arith, h, session_ok-IsOut v p h)

guard-IsOut :
    (b : Bool) (v : Visit) (p : Panel)
    → IsOut p
    → IsOut (guard b v p).0
      × ((guard b v p).1 ≡ true → (guard b v p ≡ (p, true)) × (length p.webpss ≡ 0))
unfolding guard
guard-IsOut b v p h =
    let out = guard_session-IsOut v p h in
    let motive =
      λ (x : Panel × Bool). IsOut x.0 × (x.1 ≡ true → (x ≡ (p, true)) × (length p.webpss ≡ 0)) in
    if_cases motive (length p.webpss == 0) _ _
      (λ e.
        if_cases motive (b || v.config_mode) _ _ (λ _. (h, λ _. (refl, (==_iff _ _).0 e)))
          (λ _. (h, λ k. absurd (ground (arith, k)))))
      (λ _.
        if_cases motive (blocked v (tries v p) p).1 _ _
          (λ _. (blocked-IsOut v (tries v p) p h, λ k. absurd (ground (arith, k))))
          (λ _. (out.0, λ k. absurd (ground (arith, k, out.1)))))

enroll_guard-IsOut :
    (v : Visit) (p : Panel) → IsOut p → IsOut (enroll_guard v p).0 × ((enroll_guard v p).1 ≡ false)
unfolding enroll_guard
enroll_guard-IsOut v p h =
    rw (session_ok-IsOut v p h) ground
      (arith, h, session_ok-IsOut v p h, blocked-IsOut v (tries v p) p h)

-- Without a stored password no attempt is right.
check_empty :
    (hmac : Hmac) (pass stored : Bytes) → length stored ≡ 0 → check hmac pass stored ≡ false
unfolding check
check_empty hmac pass stored h = ground (arith, h)

module _ (hmac : Hmac) where
  pub confirmed-IsOut :
      (v : Visit) (p : Panel)
      → IsOut p
      → IsOut (confirmed hmac v p).0 × (length p.webpss ≡ 0 → (confirmed hmac v p).1 ≡ false)
  unfolding confirmed credential_ok spend
  confirmed-IsOut v p h = (
    ground (arith, h, login_failed-IsOut v p h),
    λ k. rw (check_empty hmac (arg v.request (codes "pass")) p.webpss k) ground arith,
  )

  pub handle_login-IsOut : (v : Visit) (p : Panel) → IsOut p → IsOut (handle_login hmac v p)
  unfolding handle_login
  handle_login-IsOut v p h =
      ground (arith, h, session_ok-IsOut v p h, blocked-IsOut v (tries v p) p h)

  pub handle_logout-IsOut : (v : Visit) (p : Panel) → IsOut p → IsOut (handle_logout hmac v p)
  unfolding handle_logout
  handle_logout-IsOut v p h = rw (session_ok-IsOut v p h) h

  pub handle_mfa-IsOut : (v : Visit) (p : Panel) → IsOut p → IsOut (handle_mfa hmac v p)
  unfolding handle_mfa
  handle_mfa-IsOut v p h =
      let out = enroll_guard-IsOut v p h in
      if_cases IsOut (enroll_guard v p).1 _ _ (λ k. absurd (ground (arith, k, out.1))) (λ _. out.0)

  pub handle_mfa_post-IsOut : (v : Visit) (p : Panel) → IsOut p → IsOut (handle_mfa_post hmac v p)
  unfolding handle_mfa_post
  handle_mfa_post-IsOut v p h =
      let out = enroll_guard-IsOut v p h in
      if_cases IsOut (not (enroll_guard v p).1) _ _ (λ _. out.0)
        (λ k. absurd (ground (arith, k, out.1)))

  check_csrf-webpss :
      (b : Bool) (v : Visit) (p : Panel) → IsOut p → (check_csrf b v p).0.webpss ≡ p.webpss
  unfolding check_csrf form_token
  check_csrf-webpss b v p h = ground (arith, h, session_ok-IsOut v p h)

  pub handle_mfa_reset-IsOut : (v : Visit) (p : Panel) → IsOut p → IsOut (handle_mfa_reset hmac v p)
  unfolding handle_mfa_reset
  handle_mfa_reset-IsOut v p h =
      let guarded = guard-IsOut false v p h in
      let formed = check_csrf-IsOut false v (guard false v p).0 guarded.0 in
      let sure = confirmed-IsOut v (check_csrf false v (guard false v p).0).0 formed in
      if_cases IsOut (not (guard false v p).1) _ _ (λ _. guarded.0)
        (λ k.
          let passed = guarded.1 (ground (arith, k)) in
          if_cases IsOut (not (check_csrf false v (guard false v p).0).1) _ _ (λ _. formed)
            (λ _.
              if_cases IsOut (not (confirmed hmac v (check_csrf false v (guard false v p).0).0).1) _
                _ (λ _. sure.0)
                (λ l. absurd (
                  ground (
                    arith,
                    l,
                    sure.1 (
                        ap length (check_csrf-webpss false v (guard false v p).0 guarded.0)
                        ∙ ap (λ (x : Panel × Bool). length x.0.webpss) passed.0
                        ∙ passed.1),
                  )))))

  pub read_credentials-IsOut :
      (v : Visit) (p : Panel) → IsOut p → IsOut (read_credentials hmac v p).0
  unfolding read_credentials
  read_credentials-IsOut v p h = ground (arith, h)

  pub handle_password_save-IsOut :
      (v : Visit) (p : Panel) → IsOut p → IsOut (handle_password_save hmac v p)
  unfolding handle_password_save clear_session
  handle_password_save-IsOut v p h =
      let out = guard-IsOut true v p h in
      let formed = (check_csrf false v (guard true v p).0).0 in
      let still : IsOut formed = check_csrf-IsOut false v (guard true v p).0 out.0 in
      let sure = if length formed.webpss == 0 then (formed, true) else confirmed hmac v formed in
      let sure_out : IsOut sure.0 =
        if_cases (λ (x : Panel × Bool). IsOut x.0) (length formed.webpss == 0) (formed, true)
          (confirmed hmac v formed) (λ _. still) (λ _. (confirmed-IsOut v formed still).0) in
      if_cases IsOut (not (guard true v p).1) _ _ (λ _. out.0)
        (λ _.
          if_cases IsOut (not (check_csrf false v (guard true v p).0).1) _ _ (λ _. still)
            (λ _.
              if_cases IsOut (not sure.1) _ _ (λ _. sure_out)
                (λ _.
                  if_cases IsOut (not (read_credentials hmac v sure.0).1) _ _
                    (λ _. read_credentials-IsOut v sure.0 sure_out)
                    (λ _.
                      if_cases IsOut (not v.saves) _ _
                        (λ _. read_credentials-IsOut v sure.0 sure_out) (λ _. refl)))))

  pub handle_page-IsOut : (v : Visit) (p : Panel) → IsOut p → IsOut (handle_page v p)
  unfolding handle_page
  handle_page-IsOut v p h = let out = guard-IsOut false v p h in ground (arith, out.0)

  pub handle_form-IsOut : (v : Visit) (p : Panel) → IsOut p → IsOut (handle_form v p)
  unfolding handle_form
  handle_form-IsOut v p h =
      let out = guard-IsOut false v p h in
      ground (arith, out.0, check_csrf-IsOut false v (guard false v p).0 out.0)

  pub handle_api-IsOut : (v : Visit) (p : Panel) → IsOut p → IsOut (handle_api v p)
  unfolding handle_api api_guard
  handle_api-IsOut v p h = ground (arith, h, blocked-IsOut v p.api_tries p h)
