-- ===== src/Panel/Tests.antt =====
-- WebService.h at concrete inputs: the digest is a toy.
use esp8266_dns.Base.{
  All, Bool, Bytes, [], arith, bytes_eq, codes, false, inl, leb, length, ltb, not, refl, replicate,
  some, true, u32, ℕ, ◌&&◌, ◌*◌, ◌++◌, ◌+◌, ◌-◌, ◌==◌, ◌||◌, ◌∷◌, ◌≡◌, ◌≤◌, ◌⊎◌,
}
use esp8266_dns.Base.{c_string}
use esp8266_dns.HttpServer.{Request, no_request, starts_with}
use esp8266_dns.HttpServer.Arguments.{arg, find_piece, pieces_from, url_decode, value_of}
use esp8266_dns.HttpServer.Output.{Out}
use esp8266_dns.HttpServer.Output.Segments.{IsOut, total}
use esp8266_dns.Panel.{Panel, Reply, Throttle, Visit, login_wait_max_ms, reply}
use esp8266_dns.Panel.Access.{HasSignIn, steps-HasSignIn}
use esp8266_dns.Panel.Action.{Action, handle, steps}
use esp8266_dns.Panel.Cookies.{NoMark, cookie_text, session_ok-start_session}
use esp8266_dns.Panel.Escape.{
  IsInert, entity, with_entities, read_html, send_escaped, send_escaped-read_html,
}
use esp8266_dns.Panel.Level.{Enrolls, SignsInFully, handle-raises}
use esp8266_dns.Panel.Proof.{credential_ok, trim_left, trim_right}
use esp8266_dns.Panel.Session.{check_csrf, session_ok, start_session}
use esp8266_dns.Panel.SignIn.{handle_login_post}
use esp8266_dns.Panel.Tries.{fail, tries, wait_for, waiting}
use esp8266_dns.Panel.Waits.{first_guess, guess, guesses, guesses-waited, waited, waiting-fail}
use esp8266_dns.Panel.Wrong.{handle_login_post-guess, handle_login_post-waiting}
use esp8266_dns.Password.{Hmac, hashed, same}
use esp8266_dns.Password.Same.{AllBytes, replicate-AllBytes}
use esp8266_dns.Totp.{blank}

abbrev toy : Hmac
toy = record {
  digest = λ key message. replicate 20 7;
  digest_size = λ key message. refl;
  digest_bytes = λ key message. replicate-AllBytes 20 7 (omega arith);
}

abbrev fresh_count : Throttle
fresh_count = record { fails = 0; until = 0 }

abbrev fresh : Panel
fresh = record {
  api_tries = fresh_count;
  panel_tries = fresh_count;
  owner_tries = fresh_count;
  owner = 0;
  session = 0;
  sid = [];
  sid_until = 0;
  sid_ip = 0;
  pending = [];
  pending_set = false;
  csrf_token = codes "0123456789abcdef";
  csrf_sid = [];
  webusr = codes "admin";
  webpss = codes "secret12";
  totp = replicate 20 0;
  totp_step = 0;
  totp_browser_step = 0;
  api_token = codes "tok";
  replies = [];
}

abbrev form_of : Bytes → Request
form_of body = record no_request { body = body; form = true }

abbrev visit : ℕ → Request → Visit
visit now r = record {
  millis = now;
  ip = 9;
  is_local = true;
  request = r;
  unix_time = 0;
  draw = λ i. i;
  saves = true;
  config_mode = false;
  has_module = true;
}

abbrev right_form : Request
right_form = form_of (codes "_csrf=0123456789abcdef&user=admin&pass=secret12")

abbrev wrong_form : Request
wrong_form = form_of (codes "_csrf=0123456789abcdef&user=admin&pass=secret13")

-- The old plain password is accepted, for the first level.
signed_in_now : (handle toy Action.login_post (visit 5 right_form) fresh).session ≡ 1
unfolding handle arg find_piece pieces_from c_string value_of url_decode hashed same
signed_in_now = refl

refused_now : (handle toy Action.login_post (visit 5 wrong_form) fresh).session ≡ 0
unfolding handle arg find_piece pieces_from c_string value_of url_decode hashed same
refused_now = refl

-- After five mistakes even the right password has to wait.
made_to_wait :
    (steps toy
      ((Action.login_post, visit 1 wrong_form)
        ∷ (Action.login_post, visit 2 wrong_form)
        ∷ (Action.login_post, visit 3 wrong_form)
        ∷ (Action.login_post, visit 4 wrong_form)
        ∷ (Action.login_post, visit 5 wrong_form)
        ∷ (Action.login_post, visit 2004 right_form)
        ∷ [])
      fresh).session
    ≡ 0
unfolding steps arg find_piece pieces_from c_string value_of url_decode hashed same
made_to_wait = refl

steps-HasSignIn_example :
    ((steps toy ((Action.login_post, visit 5 right_form) ∷ []) fresh).session ≡ 0)
    ⊎ HasSignIn toy ((Action.login_post, visit 5 right_form) ∷ []) fresh
steps-HasSignIn_example =
    steps-HasSignIn toy ((Action.login_post, visit 5 right_form) ∷ []) fresh refl

handle-raises_example :
    ((handle toy Action.login_post (visit 5 right_form) fresh).session == 2) ≡ false
    ⊎ SignsInFully toy Action.login_post (visit 5 right_form) fresh
    ⊎ Enrolls toy Action.login_post (visit 5 right_form) fresh
handle-raises_example = handle-raises toy Action.login_post (visit 5 right_form) fresh refl

guesses-waited_example :
    (7 + waited (guesses (1 ∷ 2 ∷ []) (first_guess 7)).made
      ≤ (guesses (1 ∷ 2 ∷ []) (first_guess 7)).at)
    × ((guesses (1 ∷ 2 ∷ []) (first_guess 7)).made * login_wait_max_ms
        ≤ (guesses (1 ∷ 2 ∷ []) (first_guess 7)).at - 7 + 13 * login_wait_max_ms)
guesses-waited_example = guesses-waited 7 (1 ∷ 2 ∷ [])

-- The wait of the fifth mistake is over after two seconds, and comes back after 2 ^ 31 milliseconds.
waiting-fail_example :
    waiting (u32 (1000 + 2147485648)) (fail (u32 1000) (record { fails = 4; until = 0 })) ≡ (
      ltb 2147485648 (wait_for (fail (u32 1000) (record { fails = 4; until = 0 })).fails)
      || leb
          (wait_for (fail (u32 1000) (record { fails = 4; until = 0 })).fails + 2147483648)
          2147485648)
waiting-fail_example =
    waiting-fail 1000 2147485648 (record { fails = 4; until = 0 }) (omega arith) (omega arith)

waits_again :
    waiting (u32 (1000 + 2147485648)) (fail (u32 1000) (record { fails = 4; until = 0 })) ≡ true
unfolding waiting fail
waits_again = refl

handle_login_post-guess_example :
    (tries (visit 5 wrong_form) (handle_login_post toy (visit 5 wrong_form) fresh)
      ≡ (guess 5 (first_guess 0)).count)
    × ((handle_login_post toy (visit 5 wrong_form) fresh).session ≡ 0)
    × ((handle_login_post toy (visit 5 wrong_form) fresh).sid ≡ [])
unfolding arg find_piece pieces_from c_string value_of url_decode hashed same blank trim_left
    trim_right starts_with
handle_login_post-guess_example =
    handle_login_post-guess toy (visit 5 wrong_form) fresh 5 (first_guess 0)
      (record {
        set_up = refl;
        formed = unfold check_csrf in refl;
        timed = refl;
        wrong = unfold credential_ok in refl;
      })
      (unfold tries in refl) refl

handle_login_post-waiting_example :
    handle_login_post toy
      (visit 5 right_form)
      (record fresh { panel_tries = record { fails = 9; until = 900 } })
    ≡ reply (Reply.sends 429) (record fresh { panel_tries = record { fails = 9; until = 900 } })
handle_login_post-waiting_example =
    handle_login_post-waiting toy (visit 5 right_form)
      (record fresh { panel_tries = record { fails = 9; until = 900 } }) refl
      (unfold waiting tries in refl)

-- Bytes without a semicolon, by evaluation.
abbrev are_plain : Bytes → Bool
are_plain [] = true
are_plain (c ∷ s) = ltb c 256 && not (c == b';') && are_plain s

digits_sound : (s : Bytes) → are_plain s ≡ true → AllBytes s × NoMark s
digits_sound [] h = (tt, tt)
digits_sound (c ∷ s) h =
    let rest = digits_sound s (ground (arith, h)) in
    ((ground (arith, h), rest.0), (ground (arith, h), rest.1))

abbrev back : Visit
back =
    visit 1000
      (record no_request { cookie = codes "lang=en; sid=00000000000000010000000200000003" })

session_ok-start_session_example :
    (session_ok back (start_session (visit 5 no_request) 1 fresh)).1
    ≡ bytes_eq
        (codes "00000000000000010000000200000003")
        (start_session (visit 5 no_request) 1 fresh).sid
session_ok-start_session_example =
    session_ok-start_session (visit 5 no_request) back 1 995 fresh
      (codes "00000000000000010000000200000003") [] (codes "lang=en" ∷ []) refl (omega arith) refl
      (omega arith) (λ _. refl) (unfold c_string cookie_text in refl)
      (
        record {
          whole = (digits_sound (codes "lang=en") refl).1;
          some_text = refl;
          foreign = unfold starts_with in refl;
        },
        tt,
      )
      (digits_sound (codes "00000000000000010000000200000003") refl).0
      (digits_sound (codes "00000000000000010000000200000003") refl).1 refl (inl refl)

abbrev new_page : Out
new_page = record { out = codes "<td>"; written = []; headers = []; content_length = some 0 }

send_escaped-read_html_example :
    (total (send_escaped (codes "a<b> & 'c'") new_page)
      ≡ total new_page ++ with_entities (codes "a<b> & 'c'"))
    × IsOut (send_escaped (codes "a<b> & 'c'") new_page)
    × All IsInert (with_entities (codes "a<b> & 'c'"))
    × (read_html (length (codes "a<b> & 'c'")) (with_entities (codes "a<b> & 'c'"))
        ≡ codes "a<b> & 'c'")
send_escaped-read_html_example =
    send_escaped-read_html (codes "a<b> & 'c'") new_page (record { fits = omega arith; full = tt })

with_entities_test : with_entities (codes "<'&") ≡ codes "&lt;&#39;&amp;"
unfolding with_entities entity
with_entities_test = refl
