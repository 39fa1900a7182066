-- ===== src/Relay.antt =====
-- RelayService.h: the connection to the Worker as a state machine. What the code does outside itself
-- is a list of effects, the last first; the log is left out.
pub mod Frames
pub mod Machine
pub mod Answer
pub mod Paused
mod Tests
use esp8266_dns.Base.{
  Bool, Bytes, List, [], false, if◌then◌else◌, length, ltb, not, true, u32, ℕ, ◌&&◌, ◌*◌, ◌++◌, ◌+◌,
  ◌==◌, ◌∷◌,
}

pub data Effect : Type 0 where
  stops : Effect
  connects : Bytes → Effect
  sends : ℕ → Bytes → Effect
  delivers : Bytes → Effect

abbrev pub protocol : ℕ
protocol = 6

abbrev pub reconnect_ms : ℕ
reconnect_ms = 2000

abbrev pub ping_ms : ℕ
ping_ms = 30000

abbrev pub idle_ms : ℕ
idle_ms = 90000

abbrev pub state_ms : ℕ
state_ms = 1000

abbrev pub tele_ms : ℕ
tele_ms = 300000

abbrev pub backoff_max_s : ℕ
backoff_max_s = 300

abbrev pub frames_per_tick : ℕ
frames_per_tick = 4

abbrev pub grace_ms : ℕ
grace_ms = 60000

-- The opcodes of WsClient.
abbrev pub op_text : ℕ
op_text = 1

abbrev pub op_binary : ℕ
op_binary = 2

abbrev pub op_close : ℕ
op_close = 8

abbrev pub op_ping : ℕ
op_ping = 9

abbrev pub op_pong : ℕ
op_pong = 10

-- `session`: there is one. The texts are without their zero.
pub record RelayService : Type 0 where
  pub session : Bool
  pub is_open : Bool
  pub held : Bool
  pub is_outdated : Bool
  pub next : ℕ
  pub last_in : ℕ
  pub last_ping : ℕ
  pub last_state : ℕ
  pub state_sent : ℕ
  pub down_at : ℕ
  pub backoff : ℕ
  pub id : ℕ
  pub ip : ℕ
  pub sum : ℕ
  pub public_ip : Bytes
  pub latest : Bytes
  pub ip_new : Bool
  pub latest_new : Bool
  pub hello_sum : ℕ
  pub effects : List Effect

abbrev pub perform : Effect → RelayService → RelayService
perform e r = record r { effects = e ∷ r.effects }

-- `clock` is what millis() says at that moment.
unfoldable pub close : ℕ → RelayService → RelayService
close clock r =
    let down = if r.is_open then record r { down_at = clock } else r in
    let stopped = if r.session then perform Effect.stops down else down in
    record stopped { session = false; is_open = false }

unfoldable pub drop_for : ℕ → ℕ → ℕ → RelayService → RelayService
unfolding close
drop_for ms clock now r = record (close clock r) { next = u32 (now + ms) }

unfoldable pub fail : ℕ → ℕ → RelayService → RelayService
unfolding drop_for
fail clock now r = record (drop_for (r.backoff * 1000) clock now r) {
  backoff = if ltb backoff_max_s (r.backoff * 2) then backoff_max_s else r.backoff * 2;
}

unfoldable pub hold : Bool → ℕ → RelayService → RelayService
unfolding close
hold on clock r = let noted = record r { held = on } in if on then close clock noted else noted

unfoldable pub reconnect : ℕ → RelayService → RelayService
unfolding close
reconnect clock r = record (close clock r) { next = clock; backoff = 5; is_outdated = false }

-- `takeIP` and `takeLatest`: each news is told once.
unfoldable pub take_ip : RelayService → RelayService × Bytes
take_ip r = (record r { ip_new = false }, if r.ip_new then r.public_ip else [])

unfoldable pub take_latest : RelayService → RelayService × Bytes
take_latest r = (record r { latest_new = false }, if r.latest_new then r.latest else [])

unfoldable pub knows_ip : RelayService → Bool
knows_ip r = r.is_open && not (length r.public_ip == 0)

-- An ntfy post for the Worker to send; the parts are apart by a zero.
unfoldable pub post : Bytes → Bytes → Bytes → Bytes → RelayService → RelayService × Bool
post host to lines text r =
    let p = host ++ (0 ∷ (to ++ (0 ∷ (lines ++ (0 ∷ text))))) in
    if not r.is_open then (r, false) else (perform (Effect.sends op_binary (b'P' ∷ p)) r, true)
