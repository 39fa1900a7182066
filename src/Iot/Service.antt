-- ===== src/Iot/Service.antt =====
-- IoTService.h: the state of the service, and what its operations share. What the code does to the
-- pins, the log and the file /iot.state is a list of effects, the last first.
pub mod Keeps
use Prim.Native.Nat.{bit_or}
use esp8266_dns.Base.{
  is_some, ℕ, zero, suc, ◌+◌, ◌*◌, ◌-◌, ◌/◌, ◌%◌, Bool, true, false, not, ◌&&◌, ◌||◌, Option, none,
  some, List, [], ◌∷◌, ◌++◌, Bytes, codes, take, ltb, ◌==◌, if◌then◌else◌,
}
use esp8266_dns.Base.Int.{ℤ}
use esp8266_dns.Base.Decimal.{decimal}
use esp8266_dns.Base.Hex.{hex6}
use esp8266_dns.Iot.Catalog.{Kind, Cap, SensorDef, ActuatorDef, sensors, actuators}
use esp8266_dns.Iot.Config.{IoTConfig}
use esp8266_dns.Iot.Rule.{to_u8}

-- IoTState.h: the last command, for the next power-up.
pub record IoTState : Type 0 where
  pub manual : Bool
  pub on : Bool
  pub level : ℕ
  pub angle : ℕ
  pub rgb : ℕ

-- What `_drive` sends to the actuator.
pub data Output : Type 0 where
  digital_write : ℕ → Bool → Output
  analog_write : ℕ → ℕ → Output
  servo_write : ℕ → Output
  strip_show : ℕ → ℕ → ℕ → Output

pub data Effect : Type 0 where
  drives : Output → Effect
  saves : IoTState → Effect
  logs : Bytes → Effect

pub record IoTService : Type 0 where
  pub r : IoTConfig
  pub sensor : Option ℕ
  pub act : Option ℕ
  pub unknown_type : Bool
  pub seen : Bool
  pub have_level : Bool
  pub failing : Bool
  pub active : Bool
  pub edge_ready : Bool
  pub candidate : Bool
  pub stable : Bool
  pub hum : ℤ
  pub temp : ℤ
  pub value : ℤ
  pub since : ℕ
  pub on_text : Bytes
  pub off_text : Bytes
  pub sensor_line : Bytes
  pub on : Bool
  pub manual : Bool
  pub servo_ok : Bool
  pub pulsing : Bool
  pub have_rule : Bool
  pub hours_open : Bool
  pub rule_on : Bool
  pub rule_level : ℕ
  pub level : ℕ
  pub angle : ℕ
  pub rgb : ℕ
  pub pulse_until : ℕ
  pub on_since : ℕ
  pub act_line : Bytes
  pub pending : Bytes
  pub urgent : Bool
  pub effects : List Effect

abbrev pub eqb : Bool → Bool → Bool
eqb true b = b
eqb false b = not b

kind_at : List SensorDef → ℕ → Kind
kind_at [] i = Kind.nothing
kind_at (d ∷ ds) zero = d.kind
kind_at (d ∷ ds) (suc i) = kind_at ds i

cap_at : List ActuatorDef → ℕ → Cap
cap_at [] i = Cap.nothing
cap_at (d ∷ ds) zero = d.cap
cap_at (d ∷ ds) (suc i) = cap_at ds i

unfoldable pub kind_of : Option ℕ → Kind
unfolding kind_at
kind_of none = Kind.nothing
kind_of (some i) = kind_at sensors i

unfoldable pub cap_of : Option ℕ → Cap
unfolding cap_at
cap_of none = Cap.nothing
cap_of (some i) = cap_at actuators i

abbrev pub sensor_kind : IoTService → Kind
sensor_kind d = kind_of d.sensor

abbrev pub capability : IoTService → Cap
capability d = cap_of d.act

abbrev pub has_rule : IoTService → Bool
has_rule d = d.r.rule && is_some d.sensor && is_some d.act

-- `angle()`: where the servo stands.
abbrev pub angle_now : IoTService → ℕ
angle_now d = if d.on then d.angle else d.r.angle_off

unfoldable pub proportional : IoTService → Bool
proportional d = d.r.linear && is_level (capability d) && not (is_digital (sensor_kind d))
  where
    is_level : Cap → Bool
    is_level Cap.level = true
    is_level _ = false

    is_digital : Kind → Bool
    is_digital Kind.digital = true
    is_digital _ = false

-- The sensor was read, or it is outside the window.
abbrev pub rule_known : IoTService → Bool
rule_known d = d.have_rule || not d.hours_open

unfoldable pub set_on : Bool → ℕ → IoTService → IoTService
set_on on now d = record d { on_since = if on && not d.on then now else d.on_since; on = on }

abbrev default_level : Cap → IoTService → ℕ
default_level Cap.level d = d.r.duty_on
default_level _ d = 100

refresh : Cap → IoTService → IoTService
refresh Cap.position d = record d { angle = d.r.angle_on }
refresh cap d = record d { level = if d.level == 0 then default_level cap d else d.level }

-- Turning on goes back to the "on" position or level when there is no other.
unfoldable pub turn_on : ℕ → IoTService → IoTService
unfolding refresh set_on
turn_on now d = set_on true now (refresh (capability d) d)

-- `_scale`: each colour of `rgb` at a level in per cent.
unfoldable pub scale_rgb : ℕ → ℕ → ℕ
scale_rgb rgb level =
    let red = rgb / 65536 % 256 * level / 100 in
    let green = rgb / 256 % 256 * level / 100 in
    let blue = rgb % 256 * level / 100 in bit_or (bit_or (red * 65536) (green * 256)) blue

-- What `_drive` sends, if anything: a servo that was not attached gets nothing.
unfoldable pub output_for : Cap → IoTService → Option Output
output_for Cap.onoff d = some (digital_write (to_u8 d.r.actuator_pin) (eqb d.on d.r.actuator_high))
output_for Cap.level d =
    some
      (analog_write (to_u8 d.r.actuator_pin) ((if d.on then d.level else d.r.duty_off) * 255 / 100))
output_for Cap.position d = if d.servo_ok then some (servo_write (angle_now d)) else none
output_for cap d =
    some
      (strip_show (to_u8 d.r.actuator_pin) d.r.leds (if d.on then scale_rgb d.rgb d.level else 0))

abbrev pub output : IoTService → Option Output
output d = output_for (capability d) d

on_off : IoTService → Bytes
on_off d = if d.on then codes "on" else codes "off"

unfoldable pub describe_for : Cap → IoTService → Bytes
unfolding on_off
describe_for Cap.level d = if d.on then codes "on " ++ decimal d.level ++ codes "%" else on_off d
describe_for Cap.position d =
    (if d.on then codes "open" else codes "closed")
    ++ codes " "
    ++ decimal (angle_now d)
    ++ codes " deg"
describe_for Cap.color d =
    if d.on
    then codes "on #" ++ hex6 d.rgb ++ codes " " ++ decimal d.level ++ codes "%"
    else on_off d
describe_for cap d = on_off d

-- `_describe`: the buffer of the line holds 27 characters.
abbrev describe : IoTService → IoTService
describe d = record d { act_line = take 27 (describe_for (capability d) d) }

abbrev push_output : Option Output → List Effect → List Effect
push_output none es = es
push_output (some o) es = drives o ∷ es

unfoldable pub drive : IoTService → IoTService
drive d = describe (record d { effects = push_output (output d) d.effects })

unfoldable pub text_for : Cap → IoTService → Bytes
text_for Cap.position d = if d.servo_ok then d.act_line else codes "error"
text_for cap d = d.act_line

unfoldable pub actuator_text : IoTService → Bytes
actuator_text d = if is_some d.act then text_for (capability d) d else codes "none"

-- The texts that go out stand in buffers of `MSG_LEN` (80) bytes.
abbrev pub msg : Bytes → Bytes
msg s = take 79 s

abbrev pub log_line : Bytes → IoTService → IoTService
log_line s d = record d { effects = logs (codes "IoT: " ++ s) ∷ d.effects }

-- `_changed`: `suffix` is what the format has behind the state.
unfoldable pub changed : Bytes → IoTService → IoTService
unfolding drive
changed suffix d =
    let e = drive d in
    let line = msg (codes "[actuator] " ++ actuator_text e ++ suffix) in
    let l = log_line line e in if d.r.notify then record l { pending = line; urgent = true } else l

unfoldable pub persist : IoTService → IoTService
persist d =
    if d.r.restore
    then record d {
      effects =
          saves
            (record { manual = d.manual; on = d.on; level = d.level; angle = d.angle; rgb = d.rgb })
          ∷ d.effects;
    }
    else d

take_other : Cap → Bool → IoTService → IoTService
take_other Cap.position fresh d = record d { angle = if fresh then d.r.angle_on else d.angle }
take_other Cap.level fresh d = record d { level = if fresh then d.r.duty_on else d.level }
take_other cap fresh d = d

-- `_takeRule`: to the rule's last decision, off outside the window. `ms` is `millis()`.
unfoldable pub take_rule : ℕ → IoTService → IoTService × Bool
unfolding take_other set_on
take_rule ms d =
    let want = d.rule_on && d.hours_open in
    let differs = not (eqb want d.on) in
    let lv = if d.hours_open then d.rule_level else d.r.duty_off in
    if proportional d
    then (set_on want ms (record d { level = lv }), differs || not (lv == d.level))
    else (set_on want ms (take_other (capability d) (want && not d.on) d), differs)
