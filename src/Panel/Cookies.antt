-- ===== src/Panel/Cookies.antt =====
-- WebService.h, `_cookieMatches` and `_sessionOk`: the cookie that a browser sends back.
use Prim.Native.Nat.{bit_or, bit_xor}
use esp8266_dns.Base.{
  ==_iff, All, All-append, Bool, Bytes, List, [], ap, arith, bytes_eq, codes, false, get_or, inl,
  inr, length, length-append, reached, refl, some, subst, suc, sym, true, u32, zero, ℕ, ◌%◌, ◌&&◌,
  ◌++◌, ◌+◌, ◌/◌, ◌<◌, ◌==◌, ◌||◌, ◌∙◌, ◌∷◌, ◌≡◌, ◌≤◌, ◌⊎◌,
}
use esp8266_dns.Base.Hex.{hex6, hex8, hex_digit}
use esp8266_dns.Base.{c_string}
use esp8266_dns.HttpServer.{starts_with}
use esp8266_dns.Panel.{Panel, Visit, session_ms}
use esp8266_dns.Panel.Session.{
  compare_sid, cookie_matches, has_cookie, session_ok, sid_matches, skip_marks, start_session,
  to_mark, token_text,
}
use esp8266_dns.Password.Same.{AllBytes, turn}

-- A text without a semicolon.
abbrev pub NoMark : Bytes → Type 0
NoMark = All (λ c. (c == b';') ≡ false)

-- Another cookie of the row.
pub record IsOther (o : Bytes) : Type 0 where
  pub whole : NoMark o
  pub some_text : (get_or o 0 b';' == 32 || get_or o 0 b';' == b';') ≡ false
  pub foreign : starts_with (codes "sid=") (o ++ (b';' ∷ [])) ≡ false

-- The row of cookies of a browser: others, ours with a value, and what follows it.
unfoldable pub cookie_text : List Bytes → Bytes → Bytes → Bytes
cookie_text [] x tail = codes "sid=" ++ (x ++ tail)
cookie_text (o ∷ os) x tail = o ++ (b';' ∷ 32 ∷ cookie_text os x tail)

-- Nothing follows, or another cookie.
abbrev pub IsTail : Bytes → Type 0
IsTail tail = (tail ≡ []) ⊎ ((s : Bytes) × (tail ≡ b';' ∷ s))

-- The comparison of the digits, and what is left behind them.
compare_sid-gives :
    (n d : ℕ) (sid x tail : Bytes)
    → d < 256
    → AllBytes sid
    → AllBytes x
    → NoMark x
    → length x ≡ n
    → length sid ≡ n
    → (e : ℕ) × (compare_sid n d sid (x ++ tail) ≡ some (e, tail))
      × ((e == 0) ≡ (d == 0 && bytes_eq x sid))
unfolding compare_sid bytes_eq
compare_sid-gives zero d [] [] tail h p q m k l = (d, refl, ground arith)
compare_sid-gives zero d (y ∷ sid) x tail h p q m k l = absurd (omega (arith, l))
compare_sid-gives zero d [] (c ∷ x) tail h p q m k l = absurd (omega (arith, k))
compare_sid-gives (suc n) d [] x tail h p q m k l = absurd (omega (arith, l))
compare_sid-gives (suc n) d (y ∷ sid) [] tail h p q m k l = absurd (omega (arith, k))
compare_sid-gives (suc n) d (y ∷ sid) (c ∷ x) tail h p q m k l =
    let t = turn d (c ∷ x) (y ∷ sid) h q p in
    let rest =
      compare_sid-gives n (bit_or d (bit_xor c y)) sid x tail t.0 p.1 q.1 m.1 (omega (arith, k))
        (omega (arith, l)) in
    (rest.0, rw (m.0) rest.1, rest.2 ∙ ap (λ (z : Bool). z && bytes_eq x sid) t.1 ∙ ground arith)

sid_matches-tail : (d : ℕ) (tail : Bytes) → IsTail tail → sid_matches (some (d, tail)) ≡ (d == 0)
unfolding sid_matches
sid_matches-tail d [] t = refl
sid_matches-tail d (c ∷ s) (inl e) = absurd (ground (arith, ap length e))
sid_matches-tail d (c ∷ s) (inr (r, e)) =
    rw ((==_iff c b';').1 (ap (λ (t : Bytes). get_or t 0 0) e)) refl

-- A row counts from its first character that is no blank on.
cookie_matches-skip :
    (fuel : ℕ) (sid s t : Bytes)
    → skip_marks s ≡ skip_marks t
    → cookie_matches fuel sid s ≡ cookie_matches fuel sid t
unfolding cookie_matches
cookie_matches-skip zero sid s t h = refl
cookie_matches-skip (suc fuel) sid s t h = rw (h) refl

skip_marks-append : (o t : Bytes) → IsOther o → skip_marks (o ++ t) ≡ o ++ t
unfolding skip_marks
skip_marks-append [] t h = absurd (ground (arith, h.some_text))
skip_marks-append (c ∷ o) t h = rw (h.some_text) refl

to_mark-append : (o t : Bytes) → NoMark o → to_mark (o ++ (b';' ∷ t)) ≡ b';' ∷ t
unfolding to_mark
to_mark-append [] t h = refl
to_mark-append (c ∷ o) t h = rw (h.0) (to_mark-append o t h.1)

starts_with-mark :
    (pre o t : Bytes)
    → NoMark pre
    → starts_with pre (o ++ (b';' ∷ t)) ≡ starts_with pre (o ++ (b';' ∷ []))
unfolding starts_with
starts_with-mark [] o t h = refl
starts_with-mark (c ∷ pre) [] t h = rw (h.0) refl
starts_with-mark (c ∷ pre) (d ∷ o) t h =
    ap (λ (z : Bool). (c == d) && z) (starts_with-mark pre o t h.1)

not_empty : (n : ℕ) → (suc n == 0) ≡ false
not_empty n = ground arith

-- Another cookie is passed over.
cookie_matches-other :
    (fuel : ℕ) (sid o t : Bytes)
    → IsOther o
    → cookie_matches (suc fuel) sid (o ++ (b';' ∷ 32 ∷ t)) ≡ cookie_matches fuel sid t
unfolding cookie_matches
cookie_matches-other fuel sid [] t h = absurd (ground (arith, h.some_text))
cookie_matches-other fuel sid (c ∷ o) t h =
    let row = (c ∷ o) ++ (b';' ∷ 32 ∷ t) in
    let ours : starts_with (codes "sid=") row ≡ false =
      starts_with-mark (codes "sid=") (c ∷ o) (32 ∷ t) (refl, (refl, (refl, (refl, tt))))
      ∙ h.foreign in
    rw (skip_marks-append (c ∷ o) (b';' ∷ 32 ∷ t) h) (
      rw (not_empty (length (o ++ (b';' ∷ 32 ∷ t))), ours, to_mark-append (c ∷ o) (32 ∷ t) h.whole)
        (cookie_matches-skip fuel sid (b';' ∷ 32 ∷ t) t (unfold skip_marks in refl)))

-- The row matches exactly if the value of our cookie is the session's.
cookie_matches-cookie_text :
    (fuel : ℕ) (sid x tail : Bytes) (os : List Bytes)
    → length os < fuel
    → All IsOther os
    → AllBytes sid
    → AllBytes x
    → NoMark x
    → length x ≡ 32
    → length sid ≡ 32
    → IsTail tail
    → cookie_matches fuel sid (cookie_text os x tail) ≡ bytes_eq x sid
unfolding cookie_text
cookie_matches-cookie_text zero sid x tail os f a p q m k l t = absurd (omega (arith, f))
cookie_matches-cookie_text (suc fuel) sid x tail [] f a p q m k l t =
    let gives = compare_sid-gives 32 0 sid x tail (omega arith) p q m k l in
    unfold cookie_matches skip_marks starts_with in
    rw (not_empty (suc (suc (suc (length (x ++ tail))))))
      (rw (gives.1) (sid_matches-tail gives.0 tail t ∙ gives.2))
cookie_matches-cookie_text (suc fuel) sid x tail (o ∷ os) f a p q m k l t =
    cookie_matches-other fuel sid o (cookie_text os x tail) a.0
    ∙ cookie_matches-cookie_text fuel sid x tail os (omega (arith, f)) a.1 p q m k l t

cookie_text-length : (os : List Bytes) (x tail : Bytes) → length os ≤ length (cookie_text os x tail)
unfolding cookie_text
cookie_text-length [] x tail = omega arith
cookie_text-length (o ∷ os) x tail =
    omega (arith, cookie_text-length os x tail, length-append o (b';' ∷ 32 ∷ cookie_text os x tail))

hex_digit-byte : (d : ℕ) → d < 16 → hex_digit d < 256
unfolding hex_digit
hex_digit-byte d h = ground (arith, h)

hex8-AllBytes : (v : ℕ) → AllBytes (hex8 v) × (length (hex8 v) ≡ 8)
unfolding hex8 hex6
hex8-AllBytes v =
    let digit = λ (w : ℕ). hex_digit-byte (w % 16) (omega arith) in
    let last : AllBytes (hex6 v) = (
      digit (v / 1048576),
      (digit (v / 65536), (digit (v / 4096), (digit (v / 256), (digit (v / 16), (digit v, tt))))),
    ) in
    ((digit (v / 268435456), (digit (v / 16777216), last)), refl)

-- The 32 digits of a new session.
sid-AllBytes :
    (v : Visit) (level : ℕ) (p : Panel)
    → AllBytes (start_session v level p).sid × (length (start_session v level p).sid ≡ 32)
unfolding start_session
sid-AllBytes v level p =
    let digits = λ (i : ℕ). hex8-AllBytes (u32 (v.draw i)) in
    (
      All-append (λ c. c < 256) _ _ (All-append (λ c. c < 256) _ _ (digits 0).0 (digits 1).0)
          (All-append (λ c. c < 256) _ _ (digits 2).0 (digits 3).0),
      omega (
        arith,
        length-append (token_text (v.draw 0) (v.draw 1)) (token_text (v.draw 2) (v.draw 3)),
        length-append (hex8 (u32 (v.draw 0))) (hex8 (u32 (v.draw 1))),
        length-append (hex8 (u32 (v.draw 2))) (hex8 (u32 (v.draw 3))),
        (digits 0).1,
        (digits 1).1,
        (digits 2).1,
        (digits 3).1,
      ),
    )

session_ok-known :
    (w : Visit) (q : Panel) (b : Bool)
    → (q.session == 0) ≡ false
    → reached w.millis q.sid_until ≡ false
    → has_cookie w q ≡ b
    → (q.sid_ip == 0 || w.ip == q.sid_ip) ≡ true
    → (session_ok w q).1 ≡ b
unfolding session_ok
session_ok-known w q b n r c k = ground (arith, n, r, c, k)

-- Somebody who has signed in is known, for twelve hours and from the same address (from any, if the
-- sign-in came through the relay), by the cookie that the panel has set, whichever other cookies stand
-- in the row; and a row with another value of 32 characters is refused.
pub session_ok-start_session :
    (v w : Visit) (level d : ℕ) (p : Panel) (x tail : Bytes) (os : List Bytes)
    → (level == 0) ≡ false
    → v.millis < 4294967296
    → w.millis ≡ u32 (v.millis + d)
    → d < session_ms
    → (v.is_local ≡ true → w.ip ≡ v.ip)
    → c_string w.request.cookie ≡ cookie_text os x tail
    → All IsOther os
    → AllBytes x
    → NoMark x
    → length x ≡ 32
    → IsTail tail
    → (session_ok w (start_session v level p)).1 ≡ bytes_eq x (start_session v level p).sid
session_ok-start_session v w level d p x tail os n m t u i e a b c l k =
    let started = start_session v level p in
    let sid = sid-AllBytes v level p in
    let row = c_string w.request.cookie in
    let matches : cookie_matches (length row + 1) started.sid row ≡ bytes_eq x started.sid =
      subst (λ (r : Bytes). cookie_matches (length r + 1) started.sid r ≡ bytes_eq x started.sid)
        (sym e)
        (cookie_matches-cookie_text (length (cookie_text os x tail) + 1) started.sid x tail os
          (omega (arith, cookie_text-length os x tail)) a sid.0 b c l sid.1 k) in
    let valid : reached w.millis started.sid_until ≡ false =
      unfold start_session in ground (arith, t, u, m) in
    let known : (started.sid_ip == 0 || w.ip == started.sid_ip) ≡ true =
      unfold start_session in ground (arith, i) in
    session_ok-known w started (bytes_eq x started.sid) (unfold start_session in n) valid
      (unfold has_cookie in matches) known
