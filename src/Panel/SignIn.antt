-- ===== src/Panel/SignIn.antt =====
-- WebService.h: signing in and out, the authenticator, and the password. The HMAC is BearSSL's.
use esp8266_dns.Base.{Bool, codes, false, if◌then◌else◌, length, not, true, ℕ, ◌&&◌, ◌==◌, ◌||◌}
use esp8266_dns.HttpServer.Arguments.{arg}
use esp8266_dns.Panel.{Page, Panel, Reply, Visit, redirect, reply}
use esp8266_dns.Panel.Proof.{
  CodeTime, code_ok, code_time, confirmed, credential_ok, ensure_pending, floor_step, mfa_on,
  no_time, read_credentials, spend, trim_left, trim_right,
}
use esp8266_dns.Panel.Session.{
  check_csrf, clear_session, enroll_guard, generate_csrf, guard, session_ok, start_session,
}
use esp8266_dns.Panel.Tries.{blocked, login_failed, signed_in, tries}
use esp8266_dns.Password.{Hmac}

module _ (hmac : Hmac) where
  unfoldable pub handle_password_save : Visit → Panel → Panel
  unfolding guard check_csrf confirmed read_credentials generate_csrf clear_session
  handle_password_save v p =
      let guarded = guard true v p in
      let formed = check_csrf false v guarded.0 in
      let sure =
        if length formed.0.webpss == 0 then (formed.0, true) else confirmed hmac v formed.0 in
      let given = read_credentials hmac v sure.0 in
      if not guarded.1
      then guarded.0
      else if not formed.1
      then formed.0
      else if not sure.1
      then sure.0
      else if not given.1
      then given.0
      else if not v.saves
      then reply (Reply.shows 400 Page.error) (reply Reply.stores given.0)
      else reply (Reply.shows 200 Page.saved)
          (clear_session (generate_csrf v 6 (reply Reply.stores given.0)))

  unfoldable pub handle_login : Visit → Panel → Panel
  unfolding blocked tries session_ok
  handle_login v p =
      let held = blocked v (tries v p) p in
      let checked = session_ok v p in
      if length p.webpss == 0
      then redirect (codes "/password") p
      else if held.1
      then held.0
      else if checked.1
      then redirect (if checked.0.session == 2 then codes "/" else codes "/mfa") checked.0
      else reply (Reply.shows 200 Page.login) checked.0

  -- Password and code are right.
  unfoldable pub enter : Bool → CodeTime → ℕ → Visit → Panel → Panel
  unfolding signed_in spend start_session
  enter mfa t step v p =
      let known = signed_in v p in
      let spent = if mfa then reply Reply.stores (spend t step known) else known in
      redirect (if mfa then codes "/" else codes "/mfa")
        (start_session v (if mfa then 2 else 1) (record spent { pending_set = false }))

  -- The form of the sign-in, once its token is right.
  unfoldable pub try_sign_in : Visit → Panel → Panel
  unfolding code_time credential_ok floor_step code_ok login_failed enter trim_left trim_right
  try_sign_in v p =
      let mfa = mfa_on p in
      let t = if mfa then code_time v else no_time in
      let user = trim_left (trim_right (arg v.request (codes "user"))) in
      let pass_ok = credential_ok hmac user (arg v.request (codes "pass")) p in
      let code = code_ok hmac p.totp t.now (floor_step t p) v in
      if mfa && t.now == 0
      then reply (Reply.shows 200 Page.login) p
      else if pass_ok && (not mfa || code.0)
      then enter mfa t code.1 v p
      else reply (Reply.shows 401 Page.login) (login_failed v p)

  unfoldable pub handle_login_post : Visit → Panel → Panel
  unfolding blocked tries check_csrf try_sign_in
  handle_login_post v p =
      let held = blocked v (tries v p) p in
      let formed = check_csrf true v p in
      if length p.webpss == 0
      then redirect (codes "/password") p
      else if held.1
      then held.0
      else if not formed.1
      then formed.0
      else try_sign_in v formed.0

  unfoldable pub handle_logout : Visit → Panel → Panel
  unfolding session_ok check_csrf clear_session
  handle_logout v p =
      let checked = session_ok v p in
      let formed = check_csrf false v checked.0 in
      if not checked.1
      then redirect (codes "/login") checked.0
      else if not formed.1
      then formed.0
      else redirect (codes "/login") (clear_session formed.0)

  unfoldable pub mfa_page : ℕ → Visit → Panel → Panel
  unfolding ensure_pending
  mfa_page code v p = reply (Reply.shows code Page.enroll) (ensure_pending v p)

  unfoldable pub handle_mfa : Visit → Panel → Panel
  unfolding enroll_guard mfa_page
  handle_mfa v p =
      let guarded = enroll_guard v p in if guarded.1 then mfa_page 200 v guarded.0 else guarded.0

  -- A code of the new key: the key is kept, or everything is put back if the save fails.
  unfoldable pub enroll : CodeTime → ℕ → Visit → Panel → Panel
  unfolding spend start_session signed_in
  enroll t step v p =
      let kept = reply Reply.stores (spend t step (record p { totp = p.pending })) in
      if v.saves
      then redirect (codes "/")
          (signed_in v (start_session v 2 (record kept { pending_set = false })))
      else reply (Reply.shows 400 Page.error) (reply Reply.stores p)

  unfoldable pub try_enroll : Visit → Panel → Panel
  unfolding code_time floor_step code_ok mfa_page login_failed enroll
  try_enroll v p =
      let t = code_time v in
      let code = code_ok hmac p.pending t.now (floor_step t p) v in
      if t.now == 0
      then mfa_page 200 v p
      else if p.pending_set && code.0
      then enroll t code.1 v p
      else mfa_page 401 v (login_failed v p)

  unfoldable pub handle_mfa_post : Visit → Panel → Panel
  unfolding enroll_guard check_csrf try_enroll
  handle_mfa_post v p =
      let guarded = enroll_guard v p in
      let formed = check_csrf false v guarded.0 in
      if not guarded.1 then guarded.0 else if not formed.1 then formed.0 else try_enroll v formed.0

  unfoldable pub handle_mfa_reset : Visit → Panel → Panel
  unfolding guard check_csrf confirmed ensure_pending start_session signed_in
  handle_mfa_reset v p =
      let guarded = guard false v p in
      let formed = check_csrf false v guarded.0 in
      let sure = confirmed hmac v formed.0 in
      let renewed = ensure_pending v (record (reply Reply.stores sure.0) { pending_set = false }) in
      if not guarded.1
      then guarded.0
      else if not formed.1
      then formed.0
      else if not sure.1
      then sure.0
      else redirect (codes "/mfa") (signed_in v (start_session v 1 renewed))
