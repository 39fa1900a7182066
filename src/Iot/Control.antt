-- ===== src/Iot/Control.antt =====
-- IoTService.h: commands and the passing of time. `now` is the time of the loop, `ms` what
-- `millis()` returns inside the call, and `minute` the local minute of the day.
pub mod Shown
pub mod Driven
pub mod Manual
pub mod Pulse
pub mod Limit
pub mod Saved
use esp8266_dns.Base.{
  is_some, ℕ, zero, suc, ◌+◌, ◌*◌, Bool, true, false, not, ◌&&◌, ◌||◌, Option, none, some, List, [],
  ◌∷◌, Bytes, codes, ltb, leb, ◌==◌, if◌then◌else◌, u32, sub32, reached, u8,
}
use esp8266_dns.Base.Int.{ℤ}
use esp8266_dns.Iot.Catalog.{Cap}
use esp8266_dns.Iot.Command.{Op, Command, command_allowed, parse_command}
use esp8266_dns.Iot.Hours.{in_hours}
use esp8266_dns.Iot.Service.{
  IoTService, eqb, capability, has_rule, rule_known, set_on, turn_on, take_rule, changed, persist,
}
use esp8266_dns.Iot.Sensor.{tick_digital, accept, fail}

pub data Result : Type 0 where
  ok invalid unsupported no_actuator : Result

-- `if (hasRule() && _ruleKnown()) _takeRule()`
unfoldable pub take_known : ℕ → IoTService → IoTService
take_known ms d = if has_rule d && rule_known d then (take_rule ms d).0 else d

unfoldable pub run_auto : ℕ → IoTService → IoTService
run_auto ms d = persist (changed [] (take_known ms (record d { manual = false; pulsing = false })))

-- The `switch` of `run`, on a state where no pulse runs.
unfoldable pub act_on : Op → ℕ → ℕ → IoTService → IoTService
act_on Op.on value now d = turn_on now d
act_on Op.off value now d = set_on false now d
act_on Op.toggle value now d = if d.on then set_on false now d else turn_on now d
act_on Op.pulse value now d = record (turn_on now d) {
  pulsing = true;
  pulse_until = u32 (now + value * 1000);
}
act_on Op.level value now d = set_on (ltb 0 value) now (record d { level = u8 value })
act_on Op.angle value now d =
    set_on (not (value == d.r.angle_off)) now (record d { angle = u8 value })
act_on op value now d =
    set_on true now (record d { rgb = value; level = if d.level == 0 then 100 else d.level })

unfoldable pub operate : Op → ℕ → ℕ → IoTService → IoTService
operate op value now d =
    let e = act_on op value now (record d { pulsing = false }) in
    let c = changed [] (record e { manual = has_rule e }) in if c.pulsing then c else persist c

unfoldable pub perform : Op → ℕ → ℕ → ℕ → IoTService → IoTService
perform Op.status value now ms d = d
perform Op.auto value now ms d = run_auto ms d
perform op value now ms d = operate op value now d

unfoldable pub run : Command → ℕ → ℕ → IoTService → IoTService × Result
run c now ms d =
    if not (is_some d.act)
    then (d, no_actuator)
    else if not (command_allowed (capability d) c.op)
    then (d, unsupported)
    else (perform c.op c.value now ms d, ok)

-- `command`: a text from the panel, the API, ntfy or MQTT.
unfoldable pub command : Bytes → ℕ → ℕ → IoTService → IoTService × Result
command text now ms d = elim (parse_command text) [ some c ↦ run c now ms d | none ↦ (d, invalid) ]

-- The window of the rule opens or closes.
unfoldable pub tick_hours : ℕ → Option ℕ → IoTService → IoTService
tick_hours ms minute d =
    let open_now = in_hours d.r minute in
    let e = record d { hours_open = open_now } in
    let (taken, differs) = take_rule ms e in
    let suffix = if open_now then codes " (window opened)" else codes " (window closed)" in
    if eqb open_now d.hours_open
    then d
    else if has_rule e && not e.manual
    then (if differs then changed suffix taken else taken)
    else e

-- A pulse that has run its time ends.
unfoldable pub tick_pulse : ℕ → ℕ → IoTService → IoTService
tick_pulse now ms d =
    let off = set_on false now (record d { pulsing = false }) in
    let e = if has_rule off then take_known ms (record off { manual = false }) else off in
    if d.pulsing && reached now d.pulse_until then persist (changed [] e) else d

-- An actuator that has been on too long turns off.
unfoldable pub tick_limit : ℕ → IoTService → IoTService
tick_limit now d =
    let off = set_on false now (record d { pulsing = false }) in
    if d.on && not (d.r.max_on == 0) && leb (d.r.max_on * 60000) (sub32 now d.on_since)
    then persist (changed (codes " for safety") (record off { manual = has_rule off }))
    else d

unfoldable pub tick_actuator : ℕ → ℕ → Option ℕ → IoTService → IoTService
tick_actuator now ms minute d =
    if is_some d.act then tick_limit now (tick_pulse now ms (tick_hours ms minute d)) else d

-- What the driver of the sensor has for this tick: nothing, an error, the level of the pin, a
-- temperature with a humidity, a temperature alone, or a distance, count or light.
pub data Reading : Type 0 where
  quiet failed : Reading
  pin : Bool → Reading
  climate : ℤ → ℤ → Reading
  degrees : ℤ → Reading
  amount : ℤ → Reading

unfoldable pub tick_sensor : Reading → ℕ → ℕ → IoTService → IoTService
tick_sensor quiet now ms d = d
tick_sensor failed now ms d = fail d
tick_sensor (pin level) now ms d = tick_digital now ms level d
tick_sensor (climate t h) now ms d =
    accept ms (if d.r.metric == 1 then t else h) true (record d { temp = t; hum = h })
tick_sensor (degrees t) now ms d = accept ms t true (record d { temp = t })
tick_sensor (amount v) now ms d = accept ms v false (record d { value = v })

unfoldable pub tick : Reading → ℕ → ℕ → Option ℕ → IoTService → IoTService
tick reading now ms minute d =
    tick_actuator now ms minute (if is_some d.sensor then tick_sensor reading now ms d else d)

-- What happens to the service, the last first.
pub data Event : Type 0 where
  text : Bytes → ℕ → ℕ → Event
  time : Reading → ℕ → ℕ → Option ℕ → Event

unfoldable pub step : Event → IoTService → IoTService
step (text s now ms) d = (command s now ms d).0
step (time reading now ms minute) d = tick reading now ms minute d

unfoldable pub steps : List Event → IoTService → IoTService
steps [] d = d
steps (e ∷ es) d = step e (steps es d)
