-- ===== src/Panel.antt =====
-- WebService.h: who may use the panel. The state of the sign-in, and what one request brings. The texts
-- of the pages are left out: a page is which page it is.
pub mod Tries
pub mod Proof
pub mod SignIn
pub mod Api
pub mod Action
pub mod Out
pub mod Access
pub mod Below
pub mod Level
pub mod Waits
pub mod Wrong
pub mod Cookies
pub mod Escape
mod Tests
pub mod Host
pub mod Session
use esp8266_dns.Base.{Bool, Bytes, List, ℕ, ◌∷◌}
use esp8266_dns.HttpServer.{Request}

abbrev pub free_login_fails : ℕ
free_login_fails = 5

abbrev pub login_wait_ms : ℕ
login_wait_ms = 2000

abbrev pub login_wait_max_ms : ℕ
login_wait_max_ms = 300000

abbrev pub session_ms : ℕ
session_ms = 43200000

abbrev pub min_panel_password_len : ℕ
min_panel_password_len = 8

-- `fails` and `until` of a count of mistakes.
pub record Throttle : Type 0 where
  pub fails : ℕ
  pub until : ℕ

pub data Page : Type 0 where
  login : Page
  enroll : Page
  error : Page
  saved : Page

-- What the server does for a request: an answer, a redirect, a page, a cookie with its age, a write of
-- the configuration, and the body of a page or of a call that is behind a guard.
pub data Reply : Type 0 where
  sends : ℕ → Reply
  redirects : Bytes → Reply
  shows : ℕ → Page → Reply
  sets_cookie : Bytes → ℕ → Reply
  stores : Reply
  serves : Reply

-- The fields of WebService, and those of Config that the sign-in reads and writes. `sid` and `csrf_sid`
-- are read only while they are set.
pub record Panel : Type 0 where
  pub api_tries : Throttle
  pub panel_tries : Throttle
  pub owner_tries : Throttle
  pub owner : ℕ
  pub session : ℕ
  pub sid : Bytes
  pub sid_until : ℕ
  pub sid_ip : ℕ
  pub pending : Bytes
  pub pending_set : Bool
  pub csrf_token : Bytes
  pub csrf_sid : Bytes
  pub webusr : Bytes
  pub webpss : Bytes
  pub totp : Bytes
  pub totp_step : ℕ
  pub totp_browser_step : ℕ
  pub api_token : Bytes
  pub replies : List Reply

-- A request, and what the code reads while it answers it: the time, the sender, whether it came on the
-- socket, the clock of the device (0 while it is not set), the numbers of the hardware's generator (each
-- place of the code has its own), whether a save succeeds, whether the setup access point is open, and whether
-- there is a sensor or an actuator.
pub record Visit : Type 0 where
  pub millis : ℕ
  pub ip : ℕ
  pub is_local : Bool
  pub request : Request
  pub unix_time : ℕ
  pub draw : ℕ → ℕ
  pub saves : Bool
  pub config_mode : Bool
  pub has_module : Bool

abbrev pub reply : Reply → Panel → Panel
reply x p = record p { replies = x ∷ p.replies }

abbrev pub redirect : Bytes → Panel → Panel
redirect to p = reply (Reply.redirects to) p
