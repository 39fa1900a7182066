-- ===== src/Relay/Machine.antt =====
-- RelayService.h, `tick`, `_connect`, `_pump` and the states that the other services ask for.
use esp8266_dns.Base.{
  Bool, Bytes, List, Option, [], codes, if◌then◌else◌, leb, ltb, not, reached, sub32, take, true,
  u32, ℕ, ◌&&◌, ◌+◌, ◌==◌, ◌||◌, ◌∷◌,
}
use esp8266_dns.Relay.{
  Effect, RelayService, close, drop_for, fail, frames_per_tick, grace_ms, idle_ms, op_text, perform,
  ping_ms, reconnect_ms, state_ms, tele_ms,
}
use esp8266_dns.Relay.Frames.{Frame, Setup, configured, frame, hello, send_state, settings_sum}

-- What one tick sees: the time, as the loop and as millis() say it, WiFi and the clock, the heap,
-- whether the TLS connection comes about, the code of the handshake, the frames that arrived, whether
-- WsClient found an error, whether the connection stands behind them, and the state as JSON.
pub record Tick : Type 0 where
  pub now : ℕ
  pub clock : ℕ
  pub wifi : Bool
  pub synced : Bool
  pub memory : Bool
  pub joined : Bool
  pub code : ℕ
  pub frames : List Frame
  pub error : Bool
  pub connected : Bool
  pub state : Option Bytes

module _ (setup : Setup) where
  open setup use {relay_host, relay_secret}

  -- The handshake has the code 101.
  unfoldable pub welcome : Tick → RelayService → RelayService
  unfolding hello send_state
  welcome t r = send_state setup t.state true t.now (
      hello setup (record r {
        is_open = true;
        public_ip = [];
        backoff = 5;
        last_in = t.now;
        last_ping = t.now;
        last_state = t.now;
      }))

  -- The answer to the handshake decides.
  unfoldable pub shake : Tick → RelayService → RelayService
  unfolding welcome fail
  shake t r =
      if t.code == 101
      then welcome t r
      else fail t.clock t.now (record r { is_outdated = t.code == 426 })

  unfoldable pub connect : Tick → RelayService → RelayService
  unfolding shake fail
  connect t r =
      let tried = perform (Effect.connects relay_host) (record r { session = true }) in
      if not t.synced
      then record r { next = u32 (t.now + reconnect_ms) }
      else if not t.memory
      then fail t.clock t.now r
      else if not t.joined
      then fail t.clock t.now tried
      else shake t tried

  -- The loop over the frames; it stops at a frame that closes the connection.
  unfoldable pub read_frames : Tick → List Frame → RelayService → RelayService
  unfolding frame
  read_frames t [] r = r
  read_frames t (f ∷ fs) r =
      let after = frame setup f t.clock (record r { last_in = t.now }) in
      let rest = read_frames t fs after in
      if after.is_open then rest else record after { next = u32 (t.now + reconnect_ms) }

  unfoldable pub ping : ℕ → RelayService → RelayService
  ping now r =
      if leb ping_ms (sub32 now r.last_ping)
      then perform (Effect.sends op_text (codes "ping")) (record r { last_ping = now })
      else r

  unfoldable pub report : Tick → RelayService → RelayService
  unfolding hello send_state settings_sum
  report t r =
      let noted = record r { last_state = t.now } in
      let greeted = if settings_sum setup == r.hello_sum then noted else hello setup noted in
      if leb state_ms (sub32 t.now r.last_state)
      then send_state setup t.state (leb tele_ms (sub32 t.now r.state_sent)) t.now greeted
      else r

  -- What `_pump` does behind the frames, if the connection is still open.
  unfoldable pub tend : Tick → RelayService → RelayService
  unfolding drop_for ping report
  tend t r =
      if t.error || not t.connected
      then drop_for reconnect_ms t.clock t.now r
      else if leb idle_ms (sub32 t.now r.last_in)
      then drop_for reconnect_ms t.clock t.now r
      else report t (ping t.now r)

  unfoldable pub pump : Tick → RelayService → RelayService
  unfolding read_frames tend
  pump t r =
      let after = read_frames t (take frames_per_tick t.frames) r in
      if after.is_open then tend t after else after

  unfoldable pub tick : Tick → RelayService → RelayService
  unfolding configured close connect pump
  tick t r =
      if r.held || not (configured setup) || not t.wifi
      then close t.clock r
      else if not r.is_open
      then (if reached t.now r.next then connect t r else r)
      else pump t r

  unfoldable pub wants_net : ℕ → Bool → RelayService → Bool
  unfolding configured
  wants_net now wifi r = configured setup && wifi && (r.is_open || reached now r.next)

  unfoldable pub carries : ℕ → RelayService → Bool
  unfolding configured
  carries now r = r.is_open || configured setup && ltb (sub32 now r.down_at) grace_ms

  unfoldable pub status : RelayService → Bytes
  unfolding configured
  status r =
      if not (configured setup)
      then codes "off"
      else if r.is_open
      then codes "connected"
      else if r.is_outdated
      then codes "outdated"
      else if r.held
      then codes "paused"
      else codes "connecting"
