-- ===== src/Panel/Session.antt =====
-- WebService.h: the session, its cookie, the tokens of the forms, and the guards.
use Prim.Native.Nat.{bit_or, bit_xor}
use esp8266_dns.Base.{
  Bool, Bytes, Option, [], codes, drop, false, if◌then◌else◌, length, ltb, none, not, reached, some,
  suc, true, u32, zero, ℕ, ◌&&◌, ◌++◌, ◌+◌, ◌/◌, ◌==◌, ◌||◌, ◌∷◌,
}
use esp8266_dns.Base.Hex.{hex8}
use esp8266_dns.Base.{c_string}
use esp8266_dns.HttpServer.{starts_with}
use esp8266_dns.HttpServer.Arguments.{arg}
use esp8266_dns.Panel.{Panel, Reply, Visit, redirect, reply, session_ms}
use esp8266_dns.Panel.Tries.{blocked, tries}
use esp8266_dns.Password.{byte_at, same_from}

-- The two halves of a token, in hexadecimal.
abbrev pub token_text : ℕ → ℕ → Bytes
token_text a b = hex8 (u32 a) ++ hex8 (u32 b)

unfoldable pub generate_csrf : Visit → ℕ → Panel → Panel
generate_csrf v i p = record p { csrf_token = token_text (v.draw i) (v.draw (i + 1)) }

-- 32 digits, in full; `none` is a text that is too short.
unfoldable pub compare_sid : ℕ → ℕ → Bytes → Bytes → Option (ℕ × Bytes)
compare_sid zero d sid c = some (d, c)
compare_sid (suc n) d sid [] = none
compare_sid (suc n) d sid (g ∷ c) =
    let rest = compare_sid n (bit_or d (bit_xor g (byte_at sid))) (drop 1 sid) c in
    if g == b';' then none else rest

-- What is behind the digits ends the cookie.
unfoldable pub sid_matches : Option (ℕ × Bytes) → Bool
sid_matches none = false
sid_matches (some (d, [])) = d == 0
sid_matches (some (d, c ∷ s)) = c == b';' && d == 0

unfoldable pub skip_marks : Bytes → Bytes
skip_marks [] = []
skip_marks (c ∷ s) = let rest = skip_marks s in if c == 32 || c == b';' then rest else c ∷ s

unfoldable pub to_mark : Bytes → Bytes
to_mark [] = []
to_mark (c ∷ s) = let rest = to_mark s in if c == b';' then c ∷ s else rest

-- One cookie of the row: whether it is ours, and what is behind it. `fuel` is the length of the row.
unfoldable pub cookie_matches : ℕ → Bytes → Bytes → Bool
unfolding compare_sid sid_matches skip_marks to_mark starts_with
cookie_matches zero sid s = false
cookie_matches (suc fuel) sid s =
    let c = skip_marks s in
    let rest = cookie_matches fuel sid (to_mark c) in
    if length c == 0
    then false
    else if starts_with (codes "sid=") c
    then sid_matches (compare_sid 32 0 sid (drop 4 c))
    else rest

unfoldable pub has_cookie : Visit → Panel → Bool
unfolding cookie_matches
has_cookie v p = let c = c_string v.request.cookie in cookie_matches (length c + 1) p.sid c

unfoldable pub session_ok : Visit → Panel → Panel × Bool
unfolding has_cookie
session_ok v p =
    if p.session == 0
    then (p, false)
    else if reached v.millis p.sid_until
    then (record p { session = 0; sid = [] }, false)
    else (p, has_cookie v p && (p.sid_ip == 0 || v.ip == p.sid_ip))

unfoldable pub start_session : Visit → ℕ → Panel → Panel
start_session v level p =
    let sid = token_text (v.draw 0) (v.draw 1) ++ token_text (v.draw 2) (v.draw 3) in
    reply (Reply.sets_cookie sid (session_ms / 1000)) (record p {
      sid = sid;
      csrf_sid = token_text (v.draw 4) (v.draw 5);
      session = level;
      sid_until = u32 (v.millis + session_ms);
      sid_ip = if v.is_local then v.ip else 0;
    })

unfoldable pub clear_session : Panel → Panel
clear_session p =
    reply (Reply.sets_cookie [] 0)
      (record p { session = 0; sid = []; csrf_sid = []; pending_set = false })

-- `_spanEq`, with the bytes of `_same` in Password.h.
unfoldable pub span_eq : Bytes → Bytes → ℕ → Bool
unfolding same_from
span_eq a b cap =
    let apart = ltb cap (length a) || ltb cap (length b) || not (length a == length b) in
    same_from cap (if apart then 1 else 0) a b == 0

-- The token of the forms: the session's for a browser that has the cookie. The sign-in form always has
-- the boot one.
unfoldable pub form_token : Bool → Visit → Panel → Panel × Bytes
unfolding session_ok
form_token sign_in v p =
    let checked = session_ok v p in
    if sign_in
    then (p, p.csrf_token)
    else (checked.0, if checked.1 then p.csrf_sid else p.csrf_token)

unfoldable pub check_csrf : Bool → Visit → Panel → Panel × Bool
unfolding form_token span_eq
check_csrf sign_in v p =
    let want = form_token sign_in v p in
    if length want.1 == 0 || not (span_eq (arg v.request (codes "_csrf")) want.1 16)
    then (reply (Reply.sends 403) want.0, false)
    else (want.0, true)

-- `_guard`, once the password is set and the count does not wait.
unfoldable pub guard_session : Visit → Panel → Panel × Bool
unfolding session_ok
guard_session v p =
    let checked = session_ok v p in
    if not checked.1
    then (redirect (codes "/login") checked.0, false)
    else if not (checked.0.session == 2)
    then (redirect (codes "/mfa") checked.0, false)
    else (checked.0, true)

unfoldable pub guard : Bool → Visit → Panel → Panel × Bool
unfolding blocked guard_session tries
guard allow_setup v p =
    let held = blocked v (tries v p) p in
    if length p.webpss == 0
    then (if allow_setup || v.config_mode
        then (p, true)
        else (redirect (codes "/password") p, false))
    else if held.1
    then (held.0, false)
    else guard_session v p

unfoldable pub enroll_guard : Visit → Panel → Panel × Bool
unfolding blocked session_ok tries
enroll_guard v p =
    let held = blocked v (tries v p) p in
    let checked = session_ok v p in
    let again = session_ok v checked.0 in
    if length p.webpss == 0
    then (redirect (codes "/password") p, false)
    else if held.1
    then (held.0, false)
    else if checked.1 && checked.0.session == 1
    then (checked.0, true)
    else (redirect (if again.1 then codes "/" else codes "/login") again.0, false)
