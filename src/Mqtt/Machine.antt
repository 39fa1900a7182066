-- ===== src/Mqtt/Machine.antt =====
-- MqttService.h, `tick` and `_connect`: the connection to the broker.
pub mod Backoff
use esp8266_dns.Base.{
  Bool, Bytes, Option, [], codes, false, if◌then◌else◌, leb, length, ltb, none, not, reached, some,
  sub32, take, true, ℕ, ◌&&◌, ◌*◌, ◌++◌, ◌+◌, ◌==◌, ◌||◌, ◌∷◌,
}
use esp8266_dns.Json.{opened}
use esp8266_dns.Mqtt.{
  Effect, Link, MqttService, Rx, close, connack_ms, fail, is_connecting, is_idle, keepalive_s,
  perform, read_per_tick, state_ms, tele_ms, write,
}
use esp8266_dns.Mqtt.Broker.{parse_broker}
use esp8266_dns.Mqtt.Packet.{Setup, announce, feed, publish_state, put_header, put_string}
use esp8266_dns.WsClient.{read}

-- What one tick sees: the time, WiFi, the bytes that arrived, and whether the connection stands.
pub record Tick : Type 0 where
  pub now : ℕ
  pub wifi : Bool
  pub incoming : Bytes
  pub connected : Bool

module _ (setup : Setup) where
  open setup use {
    mqtt_host, mqtt_user, mqtt_pass, base, id, state_json, shape_now, discovery, accepts,
  }

  -- The packet CONNECT.
  unfoldable pub greet : ℕ → MqttService → MqttService
  unfolding put_header put_string
  greet now s =
      let client = take 23 (codes "esp8266iot-" ++ id) in
      let will = take 31 (base ++ codes "/avail") in
      let user = not (length mqtt_user == 0) in
      let secret = if user then mqtt_pass else [] in
      let pass = not (length secret == 0) in
      let flags : ℕ =
        0x02 + 0x04 + 0x20 + (if user then 0x80 else 0) + (if pass then 0x40 else 0) in
      let n =
        10
        + 2
        + length client
        + 2
        + length will
        + 2
        + 7
        + (if user then 2 + length mqtt_user else 0)
        + (if pass then 2 + length secret else 0) in
      let head = 0 ∷ 4 ∷ b'M' ∷ b'Q' ∷ b'T' ∷ b'T' ∷ 4 ∷ flags ∷ 0 ∷ keepalive_s ∷ [] in
      let opened = write now head (put_header 0x10 n now s) in
      let named =
        put_string (codes "offline") now (put_string will now (put_string client now opened)) in
      let known = if user then put_string mqtt_user now named else named in
      if pass then put_string secret now known else known

  unfoldable pub connect_to : Option (Bytes × ℕ) → ℕ → MqttService → MqttService
  connect_to none now s = fail now s
  connect_to (some (host, port)) now s =
      let tried = perform (Effect.connects host port) s in
      if not accepts
      then fail now tried
      else greet now (record tried { state = Link.connecting; rx_state = Rx.header; last_in = now })

  unfoldable pub connect : ℕ → MqttService → MqttService
  connect now s = connect_to (parse_broker mqtt_host 64) now s

  -- The reading loop; the flag says that a byte has ended the connection.
  unfoldable pub read_loop : ℕ → Bytes → MqttService → MqttService × Bool
  read_loop now [] s = (s, false)
  read_loop now (c ∷ p) s =
      let fed = feed setup c now (record s { last_in = now }) in
      let rest = read_loop now p fed in if is_idle fed.state then (fed, true) else rest

  unfoldable pub ping : ℕ → MqttService → MqttService
  ping now s =
      if leb (keepalive_s * 500) (sub32 now s.last_out) then write now (0xC0 ∷ 0x00 ∷ []) s else s

  unfoldable pub reannounce : ℕ → MqttService → MqttService
  unfolding announce publish_state
  reannounce now s =
      if shape_now == s.shape then s else publish_state setup true now (announce setup now s)

  unfoldable pub report_state : ℕ → MqttService → MqttService
  unfolding publish_state
  report_state now s =
      if leb state_ms (sub32 now s.last_state)
      then publish_state setup (leb tele_ms (sub32 now s.last_sent)) now
          (record s { last_state = now })
      else s

  -- The rest of the tick, once the bytes are read.
  unfoldable pub tend : Tick → MqttService → MqttService
  tend t s =
      let silent = sub32 t.now s.last_in in
      if not t.connected
      then fail t.now s
      else if is_connecting s.state
      then (if ltb connack_ms silent then fail t.now s else s)
      else if ltb (keepalive_s * 1500) silent
      then fail t.now s
      else report_state t.now (reannounce t.now (ping t.now s))

  unfoldable pub tick : Tick → MqttService → MqttService
  tick t s =
      let read = read_loop t.now (take read_per_tick t.incoming) s in
      if s.held || length mqtt_host == 0 || not t.wifi
      then close s
      else if is_idle s.state
      then (if s.waiting && not (reached t.now s.next) then s else connect t.now s)
      else if read.1
      then read.0
      else tend t read.0
