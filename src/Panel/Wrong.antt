-- ===== src/Panel/Wrong.antt =====
-- WebService.h: a sign-in that is wrong is one guess, and a sender that has to wait learns nothing.
use esp8266_dns.Base.{
  Bool-cases, ap, arith, codes, false, if_cases, if◌then◌else◌, inl, inr, length, not, refl, sym,
  true, u32, ℕ, ◌&&◌, ◌+◌, ◌==◌, ◌||◌, ◌∙◌, ◌≡◌,
}
use esp8266_dns.HttpServer.Arguments.{arg}
use esp8266_dns.Panel.{Page, Panel, Reply, Visit, reply}
use esp8266_dns.Panel.Proof.{
  code_ok, code_time, credential_ok, floor_step, mfa_on, trim_left, trim_right,
}
use esp8266_dns.Panel.Session.{check_csrf, form_token}
use esp8266_dns.Panel.SignIn.{handle_login_post, try_sign_in}
use esp8266_dns.Panel.Tries.{blocked, fail, is_owner, login_failed, set_tries, tries, waiting}
use esp8266_dns.Panel.Waits.{Guesses, guess}
use esp8266_dns.Password.{Hmac}

module _ (hmac : Hmac) where
  -- The form has the token of the sign-in, and its user, password or code is wrong.
  pub record IsWrong (v : Visit) (p : Panel) : Type 0 where
    pub set_up : (length p.webpss == 0) ≡ false
    pub formed : (check_csrf true v p).1 ≡ true
    pub timed : (mfa_on p && (code_time v).now == 0) ≡ false
    pub wrong :
        (credential_ok hmac
            (trim_left (trim_right (arg v.request (codes "user"))))
            (arg v.request (codes "pass"))
            p
          && (not (mfa_on p)
              || (code_ok hmac p.totp (code_time v).now (floor_step (code_time v) p) v).0))
        ≡ false

  try_sign_in-IsWrong :
      (v : Visit) (p : Panel)
      → IsWrong v p
      → try_sign_in hmac v p ≡ reply (Reply.shows 401 Page.login) (login_failed v p)
  unfolding try_sign_in
  try_sign_in-IsWrong v p w = elim (Bool-cases (mfa_on p)) [
    | inl on ↦ ground (arith, on, w.timed, w.wrong)
    | inr off ↦ ground (arith, off, w.timed, w.wrong)
  ]

  pub passed :
      (v : Visit) (p : Panel) → (check_csrf true v p).1 ≡ true → (check_csrf true v p).0 ≡ p
  unfolding check_csrf form_token
  passed v p k = ground (arith, k)

  -- A sender whose count waits gets the same answer, and leaves the same state, for every form: nobody
  -- learns from it whether the user, the password or the code was right.
  pub handle_login_post-waiting :
      (v : Visit) (p : Panel)
      → (length p.webpss == 0) ≡ false
      → waiting v.millis (tries v p) ≡ true
      → handle_login_post hmac v p ≡ reply (Reply.sends 429) p
  unfolding handle_login_post blocked
  handle_login_post-waiting v p s k = ground (arith, s, k)

  -- A form that is allowed is tried.
  handle_login_post_tried :
      (v : Visit) (p : Panel)
      → (length p.webpss == 0) ≡ false
      → waiting v.millis (tries v p) ≡ false
      → (check_csrf true v p).1 ≡ true
      → handle_login_post hmac v p ≡ try_sign_in hmac v p
  unfolding handle_login_post blocked
  handle_login_post_tried v p s k f =
      let tried = λ (x : Panel). x ≡ try_sign_in hmac v p in
      if_cases tried (length p.webpss == 0) _ _ (λ e. absurd (ground (arith, e, s)))
        (λ _.
          if_cases tried (blocked v (tries v p) p).1 _ _ (λ e. absurd (ground (arith, e, k)))
            (λ _.
              if_cases tried (not (check_csrf true v p).1) _ _ (λ e. absurd (ground (arith, e, f)))
                (λ _. ap (try_sign_in hmac v) (passed v p f))))

  handle_login_post_wrong :
      (v : Visit) (p : Panel)
      → IsWrong v p
      → handle_login_post hmac v p ≡ (
          if waiting v.millis (tries v p)
          then reply (Reply.sends 429) p
          else reply (Reply.shows 401 Page.login) (login_failed v p))
  handle_login_post_wrong v p w = elim (Bool-cases (waiting v.millis (tries v p))) [
    | inl k ↦ rw (k) (handle_login_post-waiting v p w.set_up k)
    | inr k ↦ rw (k) (handle_login_post_tried v p w.set_up k w.formed ∙ try_sign_in-IsWrong v p w)
  ]

tries-reply : (v : Visit) (x : Reply) (p : Panel) → tries v (reply x p) ≡ tries v p
unfolding tries is_owner
tries-reply v x p = ground arith

tries-login_failed :
    (v : Visit) (p : Panel) → tries v (login_failed v p) ≡ fail v.millis (tries v p)
unfolding login_failed tries set_tries is_owner
tries-login_failed v p = ground arith

login_failed-session : (v : Visit) (p : Panel) → (login_failed v p).session ≡ p.session
unfolding login_failed set_tries
login_failed-session v p = ground arith

login_failed-sid : (v : Visit) (p : Panel) → (login_failed v p).sid ≡ p.sid
unfolding login_failed set_tries
login_failed-sid v p = ground arith

-- A wrong sign-in is a guess against the count of its sender, of the owner's address or of all the
-- others, and nobody is signed in or out by it.
pub handle_login_post-guess :
    (hmac : Hmac) (v : Visit) (p : Panel) (gap : ℕ) (g : Guesses)
    → IsWrong hmac v p
    → g.count ≡ tries v p
    → v.millis ≡ u32 (g.at + gap)
    → (tries v (handle_login_post hmac v p) ≡ (guess gap g).count)
      × ((handle_login_post hmac v p).session ≡ p.session)
      × ((handle_login_post hmac v p).sid ≡ p.sid)
unfolding guess
handle_login_post-guess hmac v p gap g w c m = elim (Bool-cases (waiting v.millis (tries v p))) [
  | inl k ↦
      rw (handle_login_post_wrong hmac v p w, sym m, c, k)
        (tries-reply v (Reply.sends 429) p, refl, refl)
  | inr k ↦
      rw (handle_login_post_wrong hmac v p w, sym m, c, k)
        (
          tries-reply v (Reply.shows 401 Page.login) (login_failed v p) ∙ tries-login_failed v p,
          login_failed-session v p,
          login_failed-sid v p,
        )
]
