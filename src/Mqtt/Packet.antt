-- ===== src/Mqtt/Packet.antt =====
-- MqttService.h: the packets, written (`_header`, `_string`, `_publish`, `_connect`, `_announce`) and
-- read (`_feed`, `_packet`, `_command`).
pub mod Lengths
pub mod Commands
use Prim.Native.Nat.{bit_xor}
use esp8266_dns.Base.{c_string}
use esp8266_dns.Base.{
  Bool, Bytes, List, [], codes, drop, false, get_or, if◌then◌else◌, leb, length, ltb, min, not, set,
  suc, take, true, u32, u8, zero, ℕ, ◌%◌, ◌&&◌, ◌*◌, ◌++◌, ◌+◌, ◌-◌, ◌/◌, ◌==◌, ◌^◌, ◌||◌, ◌∷◌,
}
use esp8266_dns.Mqtt.{
  Effect, Link, MqttService, Rx, backoff_min_s, cmd_size, fail, is_connecting, is_up, perform,
  rx_size, write,
}

-- The digits of the length in base 128; more than five of them do not fit the buffer of `_header`,
-- and 32 bits have five at most.
unfoldable pub length_bytes : ℕ → ℕ → Bytes
length_bytes zero n = []
length_bytes (suc fuel) n =
    let rest = length_bytes fuel (n / 128) in
    if n / 128 == 0 then (n % 128) ∷ [] else (n % 128 + 128) ∷ rest

unfoldable pub put_header : ℕ → ℕ → ℕ → MqttService → MqttService
unfolding length_bytes
put_header type n now s = write now (type ∷ length_bytes 5 n) s

-- The length of a string is written in two bytes.
unfoldable pub put_string : Bytes → ℕ → MqttService → MqttService
put_string t now s = write now t (write now (u8 (length t / 256) ∷ u8 (length t) ∷ []) s)

-- The topics: `base` is the text of `_base`.
abbrev pub topic : Bytes → Bytes → Bytes
topic base sub = take 31 (base ++ (b'/' ∷ sub))

unfoldable pub publish : Bytes → Bytes → Bytes → ℕ → MqttService → MqttService
unfolding put_header put_string
publish base sub text now s =
    let t = topic base sub in
    write now text (put_string t now (put_header 0x31 (2 + length t + length text) now s))

-- FNV-1a of the state's text.
unfoldable pub fnv_from : ℕ → Bytes → ℕ
fnv_from sum [] = sum
fnv_from sum (c ∷ s) = fnv_from (u32 (bit_xor sum c * 16777619)) s

abbrev pub fnv : Bytes → ℕ
fnv s = fnv_from 2166136261 s

-- What the client takes from elsewhere: the text of the broker, of the user and of the password, the
-- base of the topics, the state as JSON (any text that the service has at that moment), the module
-- that is configured, the text of the discovery and its topic, and whether the broker accepts.
pub record Setup : Type 0 where
  pub mqtt_host : Bytes
  pub mqtt_user : Bytes
  pub mqtt_pass : Bytes
  pub base : Bytes
  pub id : Bytes
  pub state_json : MqttService → Bytes
  pub shape_now : ℕ
  pub discovery : List Bytes
  pub accepts : Bool

module _ (setup : Setup) where
  open setup use {
    mqtt_host, mqtt_user, mqtt_pass, base, id, state_json, shape_now, discovery, accepts,
  }

  unfoldable pub publish_state : Bool → ℕ → MqttService → MqttService
  unfolding publish fnv_from
  publish_state force now s =
      let json = take 383 (state_json s) in
      if not force && fnv json == s.sum
      then s
      else publish base (codes "state") json now (record s { sum = fnv json; last_sent = now })

  -- `_discovery`: the pieces are counted, or written.
  unfoldable pub count_out : List Bytes → ℕ
  count_out [] = 0
  count_out (p ∷ ps) = length p + count_out ps

  unfoldable pub put_out : List Bytes → MqttService → MqttService
  put_out [] s = s
  put_out (p ∷ ps) s = put_out ps (perform (Effect.writes p) s)

  unfoldable pub announce : ℕ → MqttService → MqttService
  unfolding put_header put_string count_out put_out
  announce now s =
      let t = take 63 (codes "homeassistant/device/esp8266iot_" ++ (id ++ codes "/config")) in
      let shaped = record s { shape = shape_now } in
      put_out discovery
        (put_string t now (put_header 0x31 (2 + length t + count_out discovery) now shaped))

  -- The connection is up: `online` is published, and the commands are asked for.
  unfoldable pub subscribe : ℕ → MqttService → MqttService
  unfolding publish put_header put_string
  subscribe now s =
      let up = record s { state = Link.up; backoff = backoff_min_s; waiting = false } in
      let avail = publish base (codes "avail") (codes "online") now up in
      let t = topic base (codes "cmd") in
      let asked = put_header 0x82 (2 + 2 + length t + 1) now avail in
      write now (0 ∷ []) (put_string t now (write now (0 ∷ 1 ∷ []) asked))

  unfoldable pub online : ℕ → MqttService → MqttService
  online now s = publish_state true now (announce now (subscribe now s))

  -- The command of a PUBLISH: what is behind its topic, cut to 39
  -- characters and at a zero byte.
  unfoldable pub run_command : ℕ → MqttService → MqttService
  unfolding publish_state
  run_command now s =
      let topic_size = get_or s.rx 0 0 * 256 + get_or s.rx 1 0 in
      let n = min (s.rx_len - 2 - topic_size) (cmd_size - 1) in
      if s.rx_header % 2 == 1
      then s
      else if not (s.rx_header / 2 % 4 == 0) || ltb rx_size s.rx_len || ltb s.rx_len 2
      then s
      else if ltb s.rx_len (2 + topic_size)
      then s
      else publish_state true now
          (perform (Effect.commands (c_string (take n (drop (2 + topic_size) s.rx)))) s)

  unfoldable pub packet : ℕ → MqttService → MqttService
  packet now s =
      let type = s.rx_header / 16 in
      let reply = if leb 2 s.rx_len then get_or s.rx 1 0 else 0xFF in
      if type == 2
      then (if not (is_connecting s.state)
          then s
          else if reply == 0
          then online now s
          else fail now s)
      else if type == 3 && is_up s.state
      then run_command now s
      else s

  -- One byte of the length; its upper bit says that another one follows.
  unfoldable pub feed_length : ℕ → ℕ → MqttService → MqttService
  feed_length c now s =
      let s1 = record s {
        rx_len = s.rx_len + c % 128 * 2 ^ s.rx_shift;
        rx_shift = s.rx_shift + 7;
      } in
      let s2 = record s1 { rx_got = 0; rx_state = Rx.body } in
      if leb 128 c
      then (if ltb s1.rx_shift 28 then s1 else fail now s1)
      else if not (s2.rx_len == 0)
      then s2
      else packet now (record s2 { rx_state = Rx.header })

  -- One byte of the body; what does not fit `_rx` is dropped.
  unfoldable pub feed_body : ℕ → ℕ → MqttService → MqttService
  feed_body c now s =
      let kept = if ltb s.rx_got rx_size then set s.rx s.rx_got c else s.rx in
      let s1 = record s { rx = kept; rx_got = s.rx_got + 1 } in
      if ltb s1.rx_got s1.rx_len then s1 else packet now (record s1 { rx_state = Rx.header })

  unfoldable pub feed_in : Rx → ℕ → ℕ → MqttService → MqttService
  feed_in Rx.header c now s = record s {
    rx_header = c;
    rx_len = 0;
    rx_shift = 0;
    rx_state = Rx.remaining;
  }
  feed_in Rx.remaining c now s = feed_length c now s
  feed_in Rx.body c now s = feed_body c now s

  -- `_rxState` decides where the byte belongs.
  unfoldable pub feed : ℕ → ℕ → MqttService → MqttService
  unfolding feed_in
  feed c now s = feed_in s.rx_state c now s
