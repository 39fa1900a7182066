-- ===== src/Panel/Waits.antt =====
-- WebService.h, `Throttle`: how many guesses fit into a time.
use esp8266_dns.Base.{le→leb}
use esp8266_dns.Base.{
  Bool-cases, List, [], ap, arith, false, if_cases, if◌then◌else◌, inl, inr, leb, leb→le, ltb, min,
  not, reached, refl, sub32, suc, true, u32, zero, ℕ, ◌*◌, ◌+◌, ◌-◌, ◌<◌, ◌^◌, ◌||◌, ◌∙◌, ◌∷◌, ◌≡◌,
  ◌≤◌,
}
use esp8266_dns.Panel.{Throttle, free_login_fails, login_wait_max_ms, login_wait_ms}
use esp8266_dns.Panel.Tries.{fail, wait_for, waiting}

wait_for-le : (n : ℕ) → wait_for n ≤ login_wait_max_ms
unfolding wait_for
wait_for-le n = omega arith

-- From the thirteenth mistake on, the wait is the longest.
wait_for-late : (n : ℕ) → 13 ≤ n → wait_for n ≡ login_wait_max_ms
unfolding wait_for
wait_for-late n h = ap (λ (k : ℕ). min (login_wait_ms * 2 ^ k) login_wait_max_ms) (eight n h)
  where
    eight : (n : ℕ) → 13 ≤ n → min (n - free_login_fails) 8 ≡ 8
    eight n h = omega (arith, h)

-- The count of mistakes is a byte.
wait_for-byte : (n : ℕ) → wait_for (min n 255) ≡ wait_for n
unfolding wait_for
wait_for-byte n = ap (λ (k : ℕ). min (login_wait_ms * 2 ^ k) login_wait_max_ms) (capped n)
  where
    capped : (n : ℕ) → min (min n 255 - free_login_fails) 8 ≡ min (n - free_login_fails) 8
    capped n = omega arith

-- Attempts that are all wrong: the true time, how many were tried, and the count.
pub record Guesses : Type 0 where
  pub at : ℕ
  pub made : ℕ
  pub count : Throttle

-- An attempt some time after the one before: the count refuses it, or it is tried and counted.
unfoldable pub guess : ℕ → Guesses → Guesses
unfolding waiting fail
guess gap g =
    let now = g.at + gap in
    if waiting (u32 now) g.count
    then record g { at = now }
    else record { at = now; made = suc g.made; count = fail (u32 now) g.count }

unfoldable pub guesses : List ℕ → Guesses → Guesses
unfolding guess
guesses [] g = g
guesses (gap ∷ gaps) g = guesses gaps (guess gap g)

abbrev pub first_guess : ℕ → Guesses
first_guess start = record { at = start; made = 0; count = record { fails = 0; until = 0 } }

-- The waits before the first `n` mistakes, together.
unfoldable pub waited : ℕ → ℕ
unfolding wait_for
waited zero = 0
waited (suc n) = waited n + (if leb free_login_fails n then wait_for n else 0)

-- What the count knows of the guesses: the time of the last one, by when all the waits were over.
record IsPaid (start : ℕ) (g : Guesses) : Type 0 where
  last : ℕ
  passed : last ≤ g.at
  paid : start + waited g.made ≤ last
  fails : g.count.fails ≡ min g.made 255
  until : free_login_fails ≤ g.made → g.count.until ≡ u32 (last + wait_for g.made)

-- A count that does not wait has waited.
waiting-over :
    (at last w : ℕ) (t : Throttle)
    → last ≤ at
    → w ≤ login_wait_max_ms
    → free_login_fails ≤ t.fails
    → t.until ≡ u32 (last + w)
    → waiting (u32 at) t ≡ false
    → last + w ≤ at
unfolding waiting
waiting-over at last w t a b c d e =
    let over : sub32 (u32 at) t.until < 2147483648 = ground (arith, c, e) in
    omega (arith, over, d, a, b)

fail-fails :
    (now : ℕ) (t : Throttle) (n : ℕ) → t.fails ≡ min n 255 → (fail now t).fails ≡ min (suc n) 255
unfolding fail
fail-fails now t n h = ground (arith, h)

fail-until :
    (now : ℕ) (t : Throttle) (n : ℕ)
    → t.fails ≡ min n 255
    → free_login_fails ≤ suc n
    → (fail (u32 now) t).until ≡ u32 (now + wait_for (suc n))
unfolding fail
fail-until now t n h k =
    let fails = if ltb t.fails 255 then t.fails + 1 else t.fails in
    let counted : fails ≡ min (suc n) 255 = ground (arith, h) in
    let waits : wait_for fails ≡ wait_for (suc n) = ap wait_for counted ∙ wait_for-byte (suc n) in
    let many : ltb fails free_login_fails ≡ false = ground (arith, counted, k) in
    rw (many) (omega (arith, waits))

made_in :
    (start gap : ℕ) (g : Guesses) (p : IsPaid start g)
    → waiting (u32 (g.at + gap)) g.count ≡ false
    → start + waited (suc g.made) ≤ g.at + gap
unfolding waited
made_in start gap g p k =
    if_cases (λ (w : ℕ). start + (waited g.made + w) ≤ g.at + gap) (leb free_login_fails g.made)
      (wait_for g.made) 0
      (λ m.
        let many = leb→le free_login_fails g.made m in
        let over =
          waiting-over (g.at + gap) p.last (wait_for g.made) g.count (omega (arith, p.passed))
            (wait_for-le g.made) (omega (arith, p.fails, many)) (p.until many) k in
        omega (arith, over, p.paid))
      (λ _. omega (arith, p.paid, p.passed))

guess-IsPaid : (start gap : ℕ) (g : Guesses) → IsPaid start g → IsPaid start (guess gap g)
unfolding guess
guess-IsPaid start gap g p =
    let now = g.at + gap in
    if_cases (IsPaid start) (waiting (u32 now) g.count) _ _
      (λ _. record {
        last = p.last;
        passed = omega (arith, p.passed);
        paid = p.paid;
        fails = p.fails;
        until = p.until;
      })
      (λ k. record {
        last = now;
        passed = omega arith;
        paid = made_in start gap g p k;
        fails = fail-fails (u32 now) g.count g.made p.fails;
        until = λ h. fail-until now g.count g.made p.fails h;
      })

guesses-IsPaid :
    (start : ℕ) (gaps : List ℕ) (g : Guesses) → IsPaid start g → IsPaid start (guesses gaps g)
unfolding guesses
guesses-IsPaid start [] g p = p
guesses-IsPaid start (gap ∷ gaps) g p =
    guesses-IsPaid start gaps (guess gap g) (guess-IsPaid start gap g p)

-- Each mistake from the thirteenth on costs the longest wait.
waited-le : (n : ℕ) → n * login_wait_max_ms ≤ waited n + 13 * login_wait_max_ms
unfolding waited
waited-le zero = omega arith
waited-le (suc n) =
    let before = waited-le n in
    elim (Bool-cases (leb 13 n)) [
      | inl many ↦
          let late = wait_for-late n (leb→le 13 n many) in
          let counted : leb free_login_fails n ≡ true =
            le→leb free_login_fails n (omega (arith, leb→le 13 n many)) in
          rw (counted, late) (omega (arith, before))
      | inr few ↦ ground (arith, few)
    ]

-- Whoever guesses against one count, at whatever moments, also when the clock of 32 bits wraps, has
-- between the first moment and the last tried only so many times that the waits between the attempts,
-- 2 seconds from the fifth mistake and double each time, fit into the time, so at most thirteen times
-- and once more for every five minutes.
pub guesses-waited :
    (start : ℕ) (gaps : List ℕ)
    → (start + waited (guesses gaps (first_guess start)).made
        ≤ (guesses gaps (first_guess start)).at)
      × ((guesses gaps (first_guess start)).made * login_wait_max_ms
          ≤ (guesses gaps (first_guess start)).at - start + 13 * login_wait_max_ms)
guesses-waited start gaps =
    let p = guesses-IsPaid start gaps (first_guess start) (record {
      last = start;
      passed = omega arith;
      paid = unfold waited in omega arith;
      fails = refl;
      until = λ h. absurd (omega (arith, h));
    }) in
    let total : start + waited (guesses gaps (first_guess start)).made
        ≤ (guesses gaps (first_guess start)).at =
      omega (arith, p.paid, p.passed) in
    (total, omega (arith, total, waited-le (guesses gaps (first_guess start)).made))

reached-wait :
    (now d w : ℕ)
    → d < 4294967296
    → w ≤ login_wait_max_ms
    → not (reached (u32 (now + d)) (u32 (u32 now + w))) ≡ (ltb d w || leb (w + 2147483648) d)
reached-wait now d w h k = ground (arith, h, k)

-- A count that has just counted a mistake, the fifth or a later one, waits until its wait is over, and
-- then it does not, for 2 ^ 31 milliseconds from then on; after them it waits again, until the clock
-- has gone round.
pub waiting-fail :
    (now d : ℕ) (t : Throttle)
    → d < 4294967296
    → free_login_fails ≤ t.fails + 1
    → waiting (u32 (now + d)) (fail (u32 now) t) ≡ (
        ltb d (wait_for (fail (u32 now) t).fails)
        || leb (wait_for (fail (u32 now) t).fails + 2147483648) d)
unfolding waiting fail
waiting-fail now d t h k =
    let fails = if ltb t.fails 255 then t.fails + 1 else t.fails in
    let few : ltb fails free_login_fails ≡ false = ground (arith, k) in
    let many : leb free_login_fails fails ≡ true = ground (arith, k) in
    rw (few) (rw (many) (reached-wait now d (wait_for fails) h (wait_for-le fails)))
