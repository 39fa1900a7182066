-- ===== src/Panel/Below.antt =====
-- WebService.h: the parts of the handlers leave a session below the second level there.
use esp8266_dns.Base.{
  &&-split, ==_iff, Bool, ap, arith, false, if_cases, length, sym, true, ◌&&◌, ◌==◌, ◌∙◌, ◌≡◌,
}
use esp8266_dns.Panel.{Panel, Throttle, Visit}
use esp8266_dns.Panel.Session.{
  check_csrf, enroll_guard, form_token, guard, guard_session, session_ok,
}
use esp8266_dns.Panel.Tries.{blocked, login_failed, set_tries, signed_in, tries}

abbrev pub Below : Panel → Type 0
Below p = (p.session == 2) ≡ false

pub session_ok-Below : (v : Visit) (p : Panel) → Below p → Below (session_ok v p).0
unfolding session_ok
session_ok-Below v p h = ground (arith, h)

-- A session that counts leaves everything as it is.
session_ok-same : (v : Visit) (p : Panel) → (session_ok v p).1 ≡ true → (session_ok v p).0 ≡ p
unfolding session_ok
session_ok-same v p h = ground (arith, h)

pub blocked-Below : (v : Visit) (t : Throttle) (p : Panel) → Below p → Below (blocked v t p).0
unfolding blocked
blocked-Below v t p h = ground (arith, h)

pub login_failed-Below : (v : Visit) (p : Panel) → Below p → Below (login_failed v p)
unfolding login_failed set_tries
login_failed-Below v p h = ground (arith, h)

pub check_csrf-Below : (b : Bool) (v : Visit) (p : Panel) → Below p → Below (check_csrf b v p).0
unfolding check_csrf form_token
check_csrf-Below b v p h = ground (arith, h, session_ok-Below v p h)

guard_session-Below : (v : Visit) (p : Panel) → Below p → Below (guard_session v p).0
unfolding guard_session
guard_session-Below v p h = ground (arith, session_ok-Below v p h)

pub guard-Below : (b : Bool) (v : Visit) (p : Panel) → Below p → Below (guard b v p).0
unfolding guard
guard-Below b v p h = ground (arith, h, blocked-Below v (tries v p) p h, guard_session-Below v p h)

pub enroll_guard-Below : (v : Visit) (p : Panel) → Below p → Below (enroll_guard v p).0
unfolding enroll_guard
enroll_guard-Below v p h =
    let checked = session_ok-Below v p h in
    ground (
      arith,
      h,
      blocked-Below v (tries v p) p h,
      checked,
      session_ok-Below v (session_ok v p).0 checked,
    )

-- The guard of the enrollment lets a session of the first level in, with its cookie.
pub enroll_guard-open :
    (v : Visit) (p : Panel)
    → (enroll_guard v p).1 ≡ true
    → ((enroll_guard v p).0 ≡ p) × (p.session ≡ 1) × ((session_ok v p).1 ≡ true)
unfolding enroll_guard
enroll_guard-open v p k =
    let IsOpen = λ (x : Panel × Bool).
      x.1 ≡ true → (x.0 ≡ p) × (p.session ≡ 1) × ((session_ok v p).1 ≡ true) in
    if_cases IsOpen (length p.webpss == 0) _ _ (λ _ e. absurd (ground (arith, e)))
      (λ _.
        if_cases IsOpen (blocked v (tries v p) p).1 _ _ (λ b e. absurd (shut v p b e))
          (λ _.
            if_cases IsOpen ((session_ok v p).1 && (session_ok v p).0.session == 1) _ _
              (λ b _. first_level v p b) (λ _ e. absurd (ground (arith, e)))))
      k
  where
    shut : (v : Visit) (p : Panel) → (blocked v (tries v p) p).1 ≡ true → false ≡ true → ⊥
    shut v p b e = ground (arith, e)

    first_level :
        (v : Visit) (p : Panel)
        → ((session_ok v p).1 && (session_ok v p).0.session == 1) ≡ true
        → ((session_ok v p).0 ≡ p) × (p.session ≡ 1) × ((session_ok v p).1 ≡ true)
    first_level v p b =
        let both = &&-split (session_ok v p).1 ((session_ok v p).0.session == 1) b in
        let same = session_ok-same v p both.0 in
        (same, sym (ap (λ (q : Panel). q.session) same) ∙ (==_iff _ _).0 both.1, both.0)

check_csrf-session_ok :
    (v : Visit) (q : Panel)
    → (check_csrf false v q).1 ≡ true
    → (check_csrf false v q).0 ≡ (session_ok v q).0
unfolding check_csrf form_token
check_csrf-session_ok v q f = ground (arith, f)

pub check_csrf-same :
    (v : Visit) (q p : Panel)
    → q ≡ p
    → (session_ok v p).1 ≡ true
    → (check_csrf false v q).1 ≡ true
    → (check_csrf false v q).0 ≡ p
check_csrf-same v q p e k f =
    check_csrf-session_ok v q f
    ∙ session_ok-same v q (ap (λ (x : Panel). (session_ok v x).1) e ∙ k)
    ∙ e

pub signed_in-Below : (v : Visit) (p : Panel) → Below p → Below (signed_in v p)
unfolding signed_in set_tries
signed_in-Below v p h = ground (arith, h)
