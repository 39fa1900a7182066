-- ===== src/Panel/Proof.antt =====
-- WebService.h: what a form proves, the password and the code of the authenticator. The HMAC is
-- BearSSL's.
use esp8266_dns.Base.{
  Bool, Bytes, Option, [], bytes_eq, codes, false, if◌then◌else◌, length, ltb, map, min, none, not,
  some, true, u32, within, ℕ, ◌&&◌, ◌*◌, ◌+◌, ◌-◌, ◌/◌, ◌==◌, ◌||◌, ◌∷◌,
}
use esp8266_dns.Base.Decimal.{is_digit}
use esp8266_dns.Base.Int.{pos}
use esp8266_dns.Clock.{min_valid_epoch}
use esp8266_dns.Base.{c_string}
use esp8266_dns.HttpServer.Arguments.{arg}
use esp8266_dns.Panel.{Page, Panel, Reply, Visit, min_panel_password_len, reply}
use esp8266_dns.Panel.Session.{span_eq}
use esp8266_dns.Panel.Tries.{login_failed}
use esp8266_dns.Password.{Hmac, byte_at, check, password_text}
use esp8266_dns.Totp.{blank, random_bytes, random_key, verify}

-- `CodeTime`; 0 is no usable time.
pub record CodeTime : Type 0 where
  pub now : ℕ
  pub browser : Bool

abbrev pub no_time : CodeTime
no_time = record { now = 0; browser = false }

-- `strtoul` of digits alone: 32 bits, and no more than the largest. `none` where another byte follows.
unfoldable pub decimal_from : ℕ → Bytes → Option ℕ
decimal_from n [] = some (min n 4294967295)
decimal_from n (c ∷ s) =
    let rest = decimal_from (n * 10 + (c - b'0')) s in if is_digit c then rest else none

unfoldable pub browser_time : Option ℕ → CodeTime
browser_time none = no_time
browser_time (some n) = record {
  now = if ltb min_valid_epoch n && ltb n 4000000000 then n else 0;
  browser = true;
}

-- The device's clock once it is set; until then the browser's, of the field `t`.
unfoldable pub code_time : Visit → CodeTime
unfolding decimal_from browser_time
code_time v =
    let t = arg v.request (codes "t") in
    let s = c_string t in
    if not (v.unix_time == 0)
    then record { now = v.unix_time; browser = false }
    else if ltb 10 (length t) || not (is_digit (byte_at s))
    then no_time
    else browser_time (decimal_from 0 s)

-- The step that a new code must pass.
unfoldable pub floor_step : CodeTime → Panel → ℕ
floor_step t p =
    let b =
      if not t.browser && ltb (u32 t.now / 30 + 1) p.totp_browser_step
      then 0
      else p.totp_browser_step in
    if ltb p.totp_step b then b else p.totp_step

unfoldable pub spend : CodeTime → ℕ → Panel → Panel
spend t step p =
    if t.browser then record p { totp_browser_step = step } else record p { totp_step = step }

abbrev pub mfa_on : Panel → Bool
mfa_on p = not (blank p.totp)

unfoldable pub ensure_pending : Visit → Panel → Panel
ensure_pending v p =
    let drawn = map v.draw (8 ∷ 9 ∷ 10 ∷ 11 ∷ 12 ∷ []) in
    if p.pending_set then p else record p { pending = random_key drawn; pending_set = true }

unfoldable pub is_blank_char : ℕ → Bool
is_blank_char c = c == 32 || within 9 13 c

unfoldable pub trim_left : Bytes → Bytes
unfolding is_blank_char
trim_left [] = []
trim_left (c ∷ s) = let rest = trim_left s in if is_blank_char c then rest else c ∷ s

-- The blanks at the end go, too.
unfoldable pub trim_right : Bytes → Bytes
unfolding is_blank_char
trim_right [] = []
trim_right (c ∷ s) =
    let rest = trim_right s in if is_blank_char c && length rest == 0 then [] else c ∷ rest

module _ (hmac : Hmac) where
  open hmac use {digest}

  unfoldable pub credential_ok : Bytes → Bytes → Panel → Bool
  unfolding span_eq check
  credential_ok user pass p = span_eq user p.webusr 32 && check hmac pass p.webpss

  -- `_codeOk`, with the step that a code has to pass; the step that matched comes back.
  unfoldable pub code_ok : Bytes → ℕ → ℕ → Visit → Bool × ℕ
  unfolding verify blank
  code_ok key now step v =
      let found =
        verify digest key (pos now) (some (c_string (arg v.request (codes "code")))) (some step) in
      if blank key then (false, step) else (found.0, elim found.1 [ none ↦ step | some c ↦ c ])

  -- The current password and a code, once more.
  unfoldable pub confirmed : Visit → Panel → Panel × Bool
  unfolding code_time floor_step credential_ok code_ok login_failed spend
  confirmed v p =
      let t = code_time v in
      let code = code_ok p.totp t.now (floor_step t p) v in
      if t.now == 0
      then (reply (Reply.shows 400 Page.error) p, false)
      else if credential_ok p.webusr (arg v.request (codes "pass")) p && code.0
      then (spend t code.1 p, true)
      else (reply (Reply.shows 400 Page.error) (login_failed v p), false)

  -- The user and the password of a form, and what the panel becomes with them.
  unfoldable pub read_credentials : Visit → Panel → Panel × Bool
  unfolding trim_left trim_right password_text bytes_eq
  read_credentials v p =
      let user = trim_left (trim_right (arg v.request (codes "user"))) in
      let pass = arg v.request (codes "pass1") in
      let salt = random_bytes (map v.draw (13 ∷ 14 ∷ 15 ∷ 16 ∷ [])) in
      if length user == 0 || ltb 32 (length user)
      then (reply (Reply.shows 400 Page.error) p, false)
      else if not (bytes_eq pass (arg v.request (codes "pass2")))
      then (reply (Reply.shows 400 Page.error) p, false)
      else if ltb (length pass) min_panel_password_len || ltb 64 (length pass)
      then (reply (Reply.shows 400 Page.error) p, false)
      else (record p { webusr = user; webpss = password_text hmac pass salt }, true)
