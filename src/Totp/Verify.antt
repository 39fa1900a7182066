-- ===== src/Totp/Verify.antt =====
-- Totp.h, `verify`: which codes are accepted, and that each works once.
use Prim.Native.Char.{code}
use esp8266_dns.Base.{
  Bool-cases, Bytes, List, Option, [], ap, arith, false, if◌then◌else◌, inl, inr, length, ltb→lt,
  none, refl, some, subst, sym, true, u32, ℕ, ◌+◌, ◌-◌, ◌/◌, ◌<◌, ◌∙◌, ◌∷◌, ◌≡◌, ◌≤◌, ◌⊎◌,
}
use esp8266_dns.Base.Decimal.{AllDigits}
use esp8266_dns.Base.Int.{negsuc, pos, ℤ}
use esp8266_dns.Iot.Control.{step}
use esp8266_dns.Totp.{
  all_digits, check_step, check_window, difference, format, hotp, newer, verify, written,
}
use esp8266_dns.Totp.Digits.{all_digits_iff, all_digits_lem, difference_lem, format-AllDigits}
use mathlib.Core.Logic.{◌↔◌}

-- `*last` as a step, where a pointer was given.
abbrev get_step : ℕ → Option ℕ → ℕ
get_step before none = before
get_step before (some step) = step

-- Each step is later than the one before it, and than `last`.
abbrev pub LaterThan : ℕ → List ℕ → Type 0
LaterThan last [] = Unit
LaterThan last (c ∷ []) = last < c
LaterThan last (c ∷ d ∷ hits) = (d < c) × LaterThan last (d ∷ hits)

-- The step that a row of accepted steps leaves behind.
abbrev IsTop : ℕ → List ℕ → ℕ → Type 0
IsTop last [] top = top ≡ last
IsTop last (c ∷ hits) top = top ≡ c

LaterThan-cons :
    (last c : ℕ) (hits : List ℕ) (top : ℕ)
    → LaterThan last hits
    → IsTop last hits top
    → top < c
    → LaterThan last (c ∷ hits)
LaterThan-cons last c [] top h t lt = omega arith
LaterThan-cons last c (d ∷ hits) top h t lt = (omega arith, h)

module _ (hmac : Bytes → Bytes → Bytes) (key : Bytes) where
  -- The code is the one of step `c`, which is at most one step from that of the time, and later than
  -- the last step accepted.
  pub record Accepts (code : Bytes) (last : Option ℕ) (now c : ℕ) : Type 0 where
    pub not_early : u32 now / 30 ≤ c + 1
    pub not_late : c ≤ u32 now / 30 + 1
    pub matches : format (hotp hmac key c) ≡ code
    pub fresh : newer last c ≡ true

  same_code :
      (code : Bytes) (c : ℕ)
      → all_digits code ≡ true
      → length code ≡ 6
      → (difference 0 (format (hotp hmac key c)) code ≡ 0) ↔ (format (hotp hmac key c) ≡ code)
  same_code code c a l =
      let shape = format-AllDigits (hotp hmac key c) in
      let d =
        difference_lem 0 (format (hotp hmac key c)) code (omega arith) (omega (arith, shape.1))
          shape.0 (all_digits_lem code a) in
      (λ e. (d.0 e).1, λ e. d.1 (refl, e))

  -- The last matching step of the window.
  check_window_sound :
      (code : Bytes) (last : Option ℕ) (now : ℕ)
      → all_digits code ≡ true
      → length code ≡ 6
      → (check_window hmac key code last (u32 now / 30)).ok ≡ true
      → Accepts code last now (check_window hmac key code last (u32 now / 30)).hit
  unfolding check_window check_step
  check_window_sound code last now a l h =
      let step = u32 now / 30 in
      ground (
        arith,
        same_code code (step - 1) a l,
        same_code code step a l,
        same_code code (step + 1) a l,
      )

  check_window_complete :
      (code : Bytes) (last : Option ℕ) (now c : ℕ)
      → all_digits code ≡ true
      → length code ≡ 6
      → Accepts code last now c
      → (check_window hmac key code last (u32 now / 30)).ok ≡ true
  unfolding check_window check_step
  check_window_complete code last now c a l h =
      let step = u32 now / 30 in
      let which : (c + 1 ≡ step) ⊎ ((c ≡ step) ⊎ (c ≡ step + 1)) =
        ground (arith, h.not_early, h.not_late) in
      elim which [
        | inl before ↦
            let e : c ≡ step - 1 = omega arith in
            ground (
              arith,
              subst (λ x. format (hotp hmac key x) ≡ code) e h.matches,
              subst (λ x. newer last x ≡ true) e h.fresh,
              same_code code (step - 1) a l,
            )
        | inr (inl now_) ↦ ground (
          arith,
          subst (λ x. format (hotp hmac key x) ≡ code) now_ h.matches,
          subst (λ x. newer last x ≡ true) now_ h.fresh,
          same_code code step a l,
        )
        | inr (inr after) ↦ ground (
          arith,
          subst (λ x. format (hotp hmac key x) ≡ code) after h.matches,
          subst (λ x. newer last x ≡ true) after h.fresh,
          same_code code (step + 1) a l,
        )
      ]

  -- A code is accepted only if it is the code of a step within one of the time that is later than
  -- the last step accepted; that step is then the last one.
  pub verify_sound :
      (now : ℤ) (code : Bytes) (last : Option ℕ)
      → (verify hmac key now (some code) last).0 ≡ true
      → (n : ℕ) × (c : ℕ) × (now ≡ pos n)
        × Accepts code last n c
        × ((verify hmac key now (some code) last).1 ≡ written last c)
  unfolding verify
  verify_sound (negsuc n) code last h = absurd (ground arith)
  verify_sound (pos now) code last h =
      let m = check_window hmac key code last (u32 now / 30) in
      (now, m.hit, refl, ground (arith, check_window_sound code last now), ground arith)

  -- The code of every step within one of the time, and later than the last step accepted, is
  -- accepted once the clock has left 1970.
  pub verify_complete :
      (now c : ℕ) (code : Bytes) (last : Option ℕ)
      → 0 < now
      → Accepts code last now c
      → (verify hmac key (pos now) (some code) last).0 ≡ true
  unfolding verify
  verify_complete now c code last p h =
      let shape = format-AllDigits (hotp hmac key c) in
      let digits : all_digits code ≡ true =
        all_digits_iff code (subst AllDigits h.matches shape.0) in
      let six : length code ≡ 6 = sym (ap length h.matches) ∙ shape.1 in
      ground (arith, digits, six, check_window_complete code last now c digits six h)

  -- Sign-ins in a row, the last first: the steps that were accepted, and the last of them.
  unfoldable pub sign_ins : List (ℤ × Bytes) → ℕ → List ℕ × ℕ
  sign_ins [] last = ([], last)
  sign_ins ((now, code) ∷ rest) last =
      let (hits, before) = sign_ins rest last in
      let (ok, after) = verify hmac key now (some code) (some before) in
      let step = get_step before after in if ok then (step ∷ hits, step) else (hits, step)

  verify_step :
      (now : ℤ) (code : Bytes) (before : ℕ)
      → (verify hmac key now (some code) (some before)).0 ≡ true
      → before < get_step before (verify hmac key now (some code) (some before)).1
  verify_step now code before h =
      let (n, c, at, ok, after) = verify_sound now code (some before) h in
      let later : before < c = ltb→lt before c ok.fresh in rw after later

  verify_refused :
      (now : ℤ) (code : Bytes) (before : ℕ)
      → (verify hmac key now (some code) (some before)).0 ≡ false
      → (verify hmac key now (some code) (some before)).1 ≡ some before
  unfolding verify
  verify_refused (negsuc n) code before h = refl
  verify_refused (pos n) code before h = ground arith

  sign_ins_lem :
      (attempts : List (ℤ × Bytes)) (last : ℕ)
      → LaterThan last (sign_ins attempts last).0
        × IsTop last (sign_ins attempts last).0 (sign_ins attempts last).1
  unfolding sign_ins
  sign_ins_lem [] last = (tt, refl)
  sign_ins_lem ((now, code) ∷ rest) last =
      let before = (sign_ins rest last).1 in
      let ih = sign_ins_lem rest last in
      elim (Bool-cases (verify hmac key now (some code) (some before)).0) [
        | inl ok ↦
            rw (ok, sign_ins)
              (
                LaterThan-cons last _ (sign_ins rest last).0 before ih.0 ih.1
                    (verify_step now code before ok),
                refl,
              )
        | inr refused ↦
            rw (refused, sign_ins) (ih.0, rw (verify_refused now code before refused) ih.1)
      ]

  -- A code works once: over any row of attempts, with any clock, the steps that are accepted grow,
  -- and all are later than the last one before, so no step is accepted twice.
  pub sign_ins-LaterThan :
      (attempts : List (ℤ × Bytes)) (last : ℕ) → LaterThan last (sign_ins attempts last).0
  sign_ins-LaterThan attempts last = (sign_ins_lem attempts last).0
