-- ===== src/Iot/Saved.antt =====
-- IoTState.h: the file /iot.state. A missing file is `none`.
pub mod Back
mod Tests
use esp8266_dns.Base.{
  Bool, Bytes, List, Option, [], codes, false, if◌then◌else◌, none, not, some, take, true, u8, ℕ,
  ◌-◌, ◌==◌, ◌∷◌,
}
use esp8266_dns.Base.Int.{pos}
use esp8266_dns.Json.{Kind}
use esp8266_dns.Iot.Service.{IoTState}
use esp8266_dns.Json.{Member, Parsed, done, fits, is, object}
use esp8266_dns.Json.Writer.{close_object, open_object, write_bool, write_num, write_unum}
use esp8266_dns.Json.Written.{flag}

abbrev pub max_text : ℕ
max_text = 96

abbrev initial_state : IoTState
initial_state = record { manual = false; on = false; level = 100; angle = 90; rgb = 0xFFFFFF }

abbrev byte_or : Option ℕ → ℕ → ℕ
byte_or none old = old
byte_or (some n) old = u8 n

abbrev word_or : Option ℕ → ℕ → ℕ
word_or none old = old
word_or (some n) old = n

abbrev is_boolean : Kind → Bool
is_boolean Kind.boolean = true
is_boolean _ = false

-- `_member`
unfoldable pub set_member : Member → IoTState → IoTState
unfolding is fits
set_member m s =
    let v = m.value in
    let flag = is_boolean v.kind in
    if is m.key (codes "m")
    then record s { manual = if flag then not (v.mag == 0) else s.manual }
    else if is m.key (codes "on")
    then record s { on = if flag then not (v.mag == 0) else s.on }
    else if is m.key (codes "lv")
    then record s { level = byte_or (fits v (pos 0) 255) s.level }
    else if is m.key (codes "an")
    then record s { angle = byte_or (fits v (pos 0) 255) s.angle }
    else if is m.key (codes "c")
    then record s { rgb = word_or (fits v (pos 0) 4294967295) s.rgb }
    else s

unfoldable pub set_members : List Member → IoTState → IoTState
set_members [] s = s
set_members (m ∷ ms) s = set_members ms (set_member m s)

-- The new state, if the text is an object.
unfoldable pub load_text : Parsed (List Member) → IoTState → IoTState × Bool
unfolding set_members
load_text (done ms) s = (set_members ms initial_state, true)
load_text _ s = (s, false)

unfoldable pub load : Option Bytes → IoTState → IoTState × Bool
unfolding load_text object
load none s = (s, false)
load (some f) s = load_text (object (take (max_text - 1) f)) s

-- What the file holds afterwards, and whether it could be opened.
unfoldable pub save : Bool → Option Bytes → IoTState → Option Bytes × Bool
unfolding open_object write_bool write_num write_unum close_object
save false file s = (file, false)
save true file s =
    let flags =
      write_bool (codes "on") s.on (write_bool (codes "m") s.manual (open_object (some []))) in
    let levels =
      write_num (codes "an") (pos s.angle) (write_num (codes "lv") (pos s.level) flags) in
    ((close_object (write_unum (codes "c") s.rgb levels)).file, true)
