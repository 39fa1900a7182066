-- ===== src/Relay/Frames.antt =====
-- RelayService.h: the frames, in (`_frame`, `_request`) and out (`_hello`, `_sendState`).
-- The texts of `_hello` are taken to fit its buffer of 384 bytes.
use Prim.Native.Nat.{bit_xor}
use esp8266_dns.Base.{
  Bool, Bytes, List, Option, [], codes, get_or, if◌then◌else◌, leb, length, none, not, some, take,
  true, u16, u32, u8, ℕ, ◌&&◌, ◌*◌, ◌++◌, ◌+◌, ◌-◌, ◌/◌, ◌==◌, ◌||◌, ◌∷◌,
}
use esp8266_dns.Base.Decimal.{decimal}
use esp8266_dns.Mqtt.Packet.{fnv_from}
use esp8266_dns.Password.{to_hex}
use esp8266_dns.Relay.{
  Effect, RelayService, close, op_binary, op_close, op_ping, op_pong, perform, protocol,
}

-- The settings of the ntfy commands, if there are any (`wantsCommands`).
pub record Commands : Type 0 where
  pub host : Bytes
  pub topic : Bytes
  pub token : Bytes
  pub poll : ℕ
  pub last_id : Bytes

-- What the service takes from elsewhere: the settings, the version of the firmware, the keyed hash
-- (HMAC-SHA1 of BearSSL), whether there is an ntfy notifier, and what HttpServer writes for a request
-- from an address, segment by segment.
pub record Setup : Type 0 where
  pub relay_host : Bytes
  pub relay_secret : Bytes
  pub relay_ver : ℕ
  pub api_token : Bytes
  pub firmware : Bytes
  pub hmac : Bytes → Bytes → Bytes
  pub has_ntfy : Bool
  pub commands : Option Commands
  pub serve : ℕ → Bytes → List Bytes

-- A frame as the connection gives it: its opcode, its length, and its bytes until the link ends.
pub record Frame : Type 0 where
  pub op : ℕ
  pub size : ℕ
  pub content : Bytes

-- The buffer of a stream line, NtfyNotifier::LINE_LEN.
abbrev pub line_len : ℕ
line_len = 256

abbrev pub fnv : Bytes → ℕ
fnv s = fnv_from 2166136261 s

unfoldable pub is_id_char : ℕ → Bool
is_id_char c = leb b'0' c && leb c b'9' || leb b'a' c && leb c b'z' || leb b'A' c && leb c b'Z'

unfoldable pub are_id_chars : Bytes → Bool
unfolding is_id_char
are_id_chars [] = true
are_id_chars (c ∷ s) = is_id_char c && are_id_chars s

-- The last message seen, if it is only letters and digits.
unfoldable pub plain_id : Bytes → Bytes
unfolding are_id_chars
plain_id since = if are_id_chars since then since else []

-- A header byte that did not come is the end: `none`.
unfoldable pub split_head : Bytes → Option (Bytes × Bytes)
split_head (a ∷ b ∷ c ∷ d ∷ e ∷ f ∷ q) = some (a ∷ b ∷ c ∷ d ∷ e ∷ f ∷ [], q)
split_head _ = none

-- The segments of an answer, as frames: `Link::write`.
unfoldable pub put_segments : ℕ → List Bytes → RelayService → RelayService
put_segments id [] r = r
put_segments id (s ∷ ss) r =
    put_segments id ss (perform (Effect.sends op_binary (b'D' ∷ u8 (id / 256) ∷ u8 id ∷ s)) r)

module _ (setup : Setup) where
  open setup use {
    relay_host, relay_secret, relay_ver, api_token, firmware, hmac, has_ntfy, commands, serve,
  }

  unfoldable pub configured : Bool
  configured =
      not (length relay_host == 0) && not (length relay_secret == 0) && relay_ver == protocol

  unfoldable pub settings_sum : ℕ
  settings_sum =
      let asked : ℕ = elim commands [
        | none ↦ 0
        | some c ↦ u32 (fnv c.topic * 3 + fnv c.token + fnv c.host * 5 + c.poll)
      ] in
      bit_xor (fnv api_token) asked

  unfoldable pub hello_text : Bytes
  unfolding plain_id decimal to_hex
  hello_text =
      let mac = if length api_token == 0 then [] else to_hex (hmac relay_secret api_token) in
      let asked : Bytes = elim commands [
        | none ↦ []
        | some c ↦
            codes ",\"host\":\""
            ++ (c.host
                ++ (codes "\",\"topic\":\""
                    ++ (c.topic
                        ++ (codes "\",\"token\":\""
                            ++ (c.token
                                ++ (codes "\",\"poll\":"
                                    ++ (decimal c.poll
                                        ++ (codes ",\"since\":\""
                                            ++ (plain_id c.last_id ++ codes "\"")))))))))
      ] in
      codes "H{\"v\":"
      ++ (decimal protocol
          ++ (codes ",\"fw\":\""
              ++ (firmware
                  ++ (codes "\",\"api\":\"" ++ (mac ++ (codes "\"" ++ (asked ++ codes "}")))))))

  unfoldable pub hello : RelayService → RelayService
  unfolding hello_text settings_sum
  hello r = record (perform (Effect.sends op_binary hello_text) r) { hello_sum = settings_sum }

  -- `none` is a device without a sensor and an actuator.
  unfoldable pub send_state : Option Bytes → Bool → ℕ → RelayService → RelayService
  send_state none force now r = r
  send_state (some json) force now r =
      let text = take 383 json in
      let seen = fnv text in
      if not force && seen == r.sum
      then r
      else perform (Effect.sends op_binary (b'S' ∷ text))
          (record r { sum = seen; state_sent = now })

  -- The body of `_request`, once the six bytes of its head are there.
  unfoldable pub serve_request : Bytes → Bytes → RelayService → RelayService
  unfolding put_segments
  serve_request h q r =
      let a = λ (i : ℕ). get_or h i 0 in
      let id = u16 (a 0 * 256 + a 1) in
      let ip = u32 (a 2 + a 3 * 256 + a 4 * 65536 + a 5 * 16777216) in
      let told = put_segments id (serve ip q) (record r { id = id; ip = ip }) in
      perform (Effect.sends op_binary (b'E' ∷ a 0 ∷ a 1 ∷ [])) told

  unfoldable pub request : Bytes → RelayService → RelayService
  unfolding split_head serve_request
  request s r = elim (split_head s) [ none ↦ r | some (h, q) ↦ serve_request h q r ]

  -- A binary frame: its type, and what is behind it. The buffers of the address and of the version
  -- have 16 bytes.
  unfoldable pub binary : ℕ → Bytes → RelayService → RelayService
  unfolding request
  binary size [] r = r
  binary size (type ∷ s) r =
      if type == b'R'
      then request s r
      else if type == b'I'
      then record r { public_ip = take 15 s; ip_new = true }
      else if type == b'V'
      then record r { latest = take 15 s; latest_new = true }
      else if not (type == b'C') || not has_ntfy || leb line_len (size - 1)
      then r
      else perform (Effect.delivers s) r

  unfoldable pub frame : Frame → ℕ → RelayService → RelayService
  unfolding close binary
  frame f clock r =
      if f.op == op_ping
      then perform (Effect.sends op_pong (take 125 f.content)) r
      else if f.op == op_close
      then close clock r
      else if not (f.op == op_binary)
      then r
      else binary f.size f.content r
