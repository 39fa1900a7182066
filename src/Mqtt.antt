-- ===== src/Mqtt.antt =====
-- MqttService.h: the MQTT client as a state machine. What the code does outside itself (the network,
-- the commands to the IoT service) is a list of effects, the last first; the log is left out.
pub mod Broker
pub mod Packet
pub mod Machine
mod Tests
use esp8266_dns.Base.{Bool, Bytes, List, false, if◌then◌else◌, ltb, true, u32, ℕ, ◌*◌, ◌+◌, ◌∷◌}

pub data Link : Type 0 where
  idle : Link
  connecting : Link
  up : Link

pub data Rx : Type 0 where
  header : Rx
  remaining : Rx
  body : Rx

pub data Effect : Type 0 where
  stops : Effect
  connects : Bytes → ℕ → Effect
  writes : Bytes → Effect
  commands : Bytes → Effect

abbrev pub keepalive_s : ℕ
keepalive_s = 60

abbrev pub connack_ms : ℕ
connack_ms = 10000

abbrev pub state_ms : ℕ
state_ms = 1000

abbrev pub tele_ms : ℕ
tele_ms = 300000

abbrev pub backoff_min_s : ℕ
backoff_min_s = 5

abbrev pub backoff_max_s : ℕ
backoff_max_s = 300

abbrev pub read_per_tick : ℕ
read_per_tick = 256

abbrev pub rx_size : ℕ
rx_size = 80

abbrev pub cmd_size : ℕ
cmd_size = 40

pub record MqttService : Type 0 where
  pub state : Link
  pub held : Bool
  pub waiting : Bool
  pub next : ℕ
  pub last_in : ℕ
  pub last_out : ℕ
  pub last_state : ℕ
  pub last_sent : ℕ
  pub backoff : ℕ
  pub sum : ℕ
  pub shape : ℕ
  pub rx_state : Rx
  pub rx_header : ℕ
  pub rx_shift : ℕ
  pub rx_len : ℕ
  pub rx_got : ℕ
  pub rx : Bytes
  pub effects : List Effect

abbrev pub is_idle : Link → Bool
is_idle Link.idle = true
is_idle _ = false

abbrev pub is_up : Link → Bool
is_up Link.up = true
is_up _ = false

abbrev pub is_connecting : Link → Bool
is_connecting Link.connecting = true
is_connecting _ = false

abbrev pub perform : Effect → MqttService → MqttService
perform e s = record s { effects = e ∷ s.effects }

-- `_write`
abbrev pub write : ℕ → Bytes → MqttService → MqttService
write now p s = record s { effects = Effect.writes p ∷ s.effects; last_out = now }

unfoldable pub close : MqttService → MqttService
close s =
    let stopped = if is_idle s.state then s else perform Effect.stops s in
    record stopped { state = Link.idle }

unfoldable pub fail : ℕ → MqttService → MqttService
unfolding close
fail now s = record (close s) {
  waiting = true;
  next = u32 (now + s.backoff * 1000);
  backoff = if ltb s.backoff 150 then s.backoff * 2 else backoff_max_s;
}

unfoldable pub hold : Bool → MqttService → MqttService
unfolding close
hold on s = record (if on then close s else s) { held = on }

unfoldable pub reconnect : MqttService → MqttService
unfolding close
reconnect s = record (close s) { waiting = false; backoff = backoff_min_s }
