-- ===== src/Wifi.antt =====
-- WiFiService.h: the association, the setup access point and the watchdogs. `now` is the time of
-- the loop, `ms` what `millis()` returns, and `connected` whether `WiFi.status()` says so. What the
-- code does to the radio is a list of effects, the last first; the texts of the log are left out.
pub mod Reconnect
pub mod Setup
pub mod Watchdogs
pub mod Key
mod Tests
use esp8266_dns.Base.{
  Bool, Bytes, List, Option, [], codes, false, get_or, if◌then◌else◌, leb, length, ltb, none, not,
  reached, some, sub32, take, true, u32, u8, within, ℕ, ◌%◌, ◌&&◌, ◌+◌, ◌==◌, ◌||◌, ◌∷◌,
}

abbrev pub connect_timeout : ℕ
connect_timeout = 10000

abbrev pub status_interval : ℕ
status_interval = 15000

abbrev pub mem_check_interval : ℕ
mem_check_interval = 10000

abbrev pub daily_restart : ℕ
daily_restart = 86400000

abbrev pub reconnect_delay : ℕ
reconnect_delay = 500

abbrev pub max_failures : ℕ
max_failures = 5

abbrev pub mem_limit : ℕ
mem_limit = 3

abbrev pub announce_ms : ℕ
announce_ms = 30000

pub data Radio : Type 0 where
  begin_station disconnect start_ap announce restart : Radio

pub record WifiService : Type 0 where
  pub fail_count : ℕ
  pub config_mode : Bool
  pub connecting : Bool
  pub connect_since : ℕ
  pub reconnecting : Bool
  pub reconnect_at : ℕ
  pub restart_pending : Bool
  pub restart_at : ℕ
  pub last_status : ℕ
  pub last_mem : ℕ
  pub mem_strikes : ℕ
  pub ota_in_progress : Bool
  pub last_announce : ℕ
  pub radio : List Radio

abbrev pub does : Radio → WifiService → WifiService
does x d = record d { radio = x ∷ d.radio }

unfoldable pub announce_ap : ℕ → WifiService → WifiService
announce_ap now d = does Radio.announce (record d { last_announce = now })

unfoldable pub start_config_mode : ℕ → WifiService → WifiService
unfolding announce_ap
start_config_mode ms d = announce_ap ms (does Radio.start_ap (record d { config_mode = true }))

-- `begin`, where the name of a network is configured or not.
unfoldable pub begin : Bool → ℕ → WifiService → WifiService
unfolding start_config_mode
begin configured ms d =
    if not configured
    then start_config_mode ms d
    else does Radio.begin_station (record d { connecting = true; connect_since = ms })

unfoldable pub schedule_restart : ℕ → ℕ → WifiService → WifiService
schedule_restart delay ms d =
    if d.restart_pending
    then d
    else record d { restart_pending = true; restart_at = u32 (ms + delay) }

abbrev pub notify_success : WifiService → WifiService
notify_success d = record d { fail_count = 0 }

unfoldable pub notify_failure : ℕ → WifiService → WifiService
unfolding schedule_restart
notify_failure ms d =
    let e = record d { fail_count = u8 (d.fail_count + 1) } in
    if leb max_failures e.fail_count then schedule_restart 1000 ms e else e

-- The handler of the event that the station got an address.
unfoldable pub got_ip : WifiService → WifiService
got_ip d = record (notify_success d) { config_mode = false }

unfoldable pub tick_connect : ℕ → ℕ → Bool → WifiService → WifiService
tick_connect now ms connected d =
    if connected
    then record d { connecting = false }
    else if ltb (sub32 now d.connect_since) connect_timeout
    then d
    else start_config_mode ms (record d { connecting = false })

unfoldable pub start_reconnect : ℕ → ℕ → WifiService → WifiService
start_reconnect now ms d =
    if d.reconnecting then d else record (does Radio.disconnect (notify_failure ms d)) {
      reconnecting = true;
      reconnect_at = u32 (now + reconnect_delay);
    }

unfoldable pub process_reconnect : ℕ → WifiService → WifiService
process_reconnect now d =
    if not d.reconnecting || not (reached now d.reconnect_at)
    then d
    else record (does Radio.begin_station d) { reconnecting = false }

unfoldable pub check_status : ℕ → ℕ → Bool → WifiService → WifiService
check_status now ms connected d =
    let e = record d { last_status = now } in
    if leb status_interval (sub32 now d.last_status)
    then (if connected then e else start_reconnect now ms e)
    else d

unfoldable pub tick : ℕ → ℕ → Bool → WifiService → WifiService
tick now ms connected d =
    if d.connecting
    then tick_connect now ms connected d
    else if d.config_mode
    then (if leb announce_ms (sub32 now d.last_announce) then announce_ap now d else d)
    else process_reconnect now (check_status now ms connected d)

-- `_checkMemory`, of memory that is critical or not.
unfoldable pub check_memory : Bool → ℕ → WifiService → WifiService
check_memory critical ms d =
    let e = record d { mem_strikes = u8 (d.mem_strikes + 1) } in
    if not critical
    then record d { mem_strikes = 0 }
    else if leb mem_limit e.mem_strikes
    then schedule_restart 1000 ms e
    else e

abbrev pub is_critical : ℕ → ℕ → Bool
is_critical free_heap fragmentation = ltb free_heap 15000 || ltb 50 fragmentation

-- The watchdogs of the memory and of the time since power-on.
unfoldable pub watch : ℕ → ℕ → Bool → WifiService → WifiService
watch now ms critical d =
    let e =
      if leb mem_check_interval (sub32 now d.last_mem)
      then check_memory critical ms (record d { last_mem = now })
      else d in
    if ltb daily_restart now then schedule_restart 1000 ms e else e

unfoldable pub tick_restart : ℕ → ℕ → ℕ → ℕ → WifiService → WifiService
tick_restart now ms free_heap fragmentation d =
    let e =
      if not d.restart_pending && not d.ota_in_progress
      then watch now ms (is_critical free_heap fragmentation) d
      else d in
    if e.restart_pending && reached now e.restart_at then does Radio.restart e else e

-- The characters of the password of the setup access point.
abbrev pub alphabet : Bytes
alphabet = codes "abcdefghijkmnpqrstuvwxyz23456789"

-- A password drawn with the numbers of `ESP.random()`.
unfoldable pub draw_key : List ℕ → Bytes
draw_key [] = []
draw_key (r ∷ rs) = get_or alphabet (r % 32) 0 ∷ draw_key rs

abbrev pub is_key_char : ℕ → Bool
is_key_char c = within b'a' b'z' c || within b'2' b'9' c

unfoldable pub all_key_chars : Bytes → Bool
all_key_chars [] = true
all_key_chars (c ∷ s) = is_key_char c && all_key_chars s

-- The file that a boot finds is used if it holds such a password; 13 bytes of it are read.
unfoldable pub stored_key : Bytes → Option Bytes
unfolding all_key_chars
stored_key file = let s = take 13 file in if length s == 12 && all_key_chars s then some s else none
