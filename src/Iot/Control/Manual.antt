-- ===== src/Iot/Control/Manual.antt =====
-- IoTService.h: a manual command holds until `auto`.
use esp8266_dns.Base.{
  is_some, ℕ, ◌≡◌, Bool, true, false, Option, List, [], ◌∷◌, arith, All, if_cases, if◌then◌else◌,
  take,
}
use esp8266_dns.Base.Int.{ℤ}
use esp8266_dns.Iot.Rule.{in_unit}
use esp8266_dns.Iot.Service.{IoTService, eqb, sensor_kind, has_rule}
use esp8266_dns.Iot.Sensor.{
  report, on_digital, decide_digital, tick_digital, decide, follow_rule, accept, fail, value_text,
}
use esp8266_dns.Iot.Control.{
  Reading, quiet, failed, pin, climate, degrees, amount, Event, text, time, tick_hours, tick_pulse,
  tick_limit, tick_actuator, tick_sensor, tick, step, steps,
}

-- The actuator as a manual command left it: `on`, `level`, `angle` and colour. No pulse runs and no
-- safety limit is set.
pub record Holds (on : Bool) (level angle rgb : ℕ) (d : IoTService) : Type 0 where
  pub by_hand : d.manual ≡ true
  pub no_pulse : d.pulsing ≡ false
  pub no_limit : d.r.max_on ≡ 0
  pub on_same : d.on ≡ on
  pub level_same : d.level ≡ level
  pub angle_same : d.angle ≡ angle
  pub rgb_same : d.rgb ≡ rgb

module _ {on : Bool} {level angle rgb : ℕ} where
  follow_rule-Holds :
      (ms : ℕ) (d : IoTService)
      → Holds on level angle rgb d
      → Holds on level angle rgb (follow_rule ms d).0
  unfolding follow_rule
  follow_rule-Holds ms d h = ground arith

  report-Holds :
      (log : Bool) (d : IoTService)
      → Holds on level angle rgb d
      → Holds on level angle rgb (report log d)
  unfolding report
  report-Holds log d h = ground arith

  on_digital-Holds :
      (ms : ℕ) (active : Bool) (d : IoTService)
      → Holds on level angle rgb d
      → Holds on level angle rgb (on_digital ms active d)
  unfolding on_digital
  on_digital-Holds ms active d h =
      let seen = record d {
        active = active;
        sensor_line = take 31 (if active then d.on_text else d.off_text);
      } in
      let decided : Holds on level angle rgb (decide_digital active seen) =
        unfold decide_digital in ground arith in
      report-Holds true _ (
        if_cases (Holds on level angle rgb) (has_rule d)
          (follow_rule ms (decide_digital active seen)).0 seen
          (λ _. follow_rule-Holds ms (decide_digital active seen) decided) (λ _. ground arith))

  tick_digital-Holds :
      (now ms : ℕ) (high : Bool) (d : IoTService)
      → Holds on level angle rgb d
      → Holds on level angle rgb (tick_digital now ms high d)
  unfolding tick_digital
  tick_digital-Holds now ms high d h =
      let settled = record d { stable = high; have_level = true } in
      let fires = on_digital-Holds ms (eqb high d.r.sensor_high) settled (ground arith) in
      ground (arith, fires)

  accept-Holds :
      (ms : ℕ) (v : ℤ) (tenths : Bool) (d : IoTService)
      → Holds on level angle rgb d
      → Holds on level angle rgb (accept ms v tenths d)
  unfolding accept
  accept-Holds ms v tenths d h =
      let (shown, in_tenths) = in_unit d.r (sensor_kind d) v tenths in
      let read = record d {
        failing = false;
        sensor_line = take 31 (value_text (sensor_kind d) d shown);
        have_level = true;
      } in
      let decided : Holds on level angle rgb (decide shown in_tenths read) =
        unfold decide in ground arith in
      report-Holds _ _ (
        if_cases (Holds on level angle rgb) (has_rule d)
          (follow_rule ms (decide shown in_tenths read)).0 read
          (λ _. follow_rule-Holds ms (decide shown in_tenths read) decided) (λ _. ground arith))

  tick_sensor-Holds :
      (x : Reading) (now ms : ℕ) (d : IoTService)
      → Holds on level angle rgb d
      → Holds on level angle rgb (tick_sensor x now ms d)
  unfolding tick_sensor
  tick_sensor-Holds quiet now ms d h = h
  tick_sensor-Holds failed now ms d h = unfold fail in ground arith
  tick_sensor-Holds (pin high) now ms d h = tick_digital-Holds now ms high d h
  tick_sensor-Holds (climate t u) now ms d h =
      accept-Holds ms _ true (record d { temp = t; hum = u }) (ground arith)
  tick_sensor-Holds (degrees t) now ms d h =
      accept-Holds ms t true (record d { temp = t }) (ground arith)
  tick_sensor-Holds (amount v) now ms d h =
      accept-Holds ms v false (record d { value = v }) (ground arith)

  tick_actuator-Holds :
      (now ms : ℕ) (minute : Option ℕ) (d : IoTService)
      → Holds on level angle rgb d
      → Holds on level angle rgb (tick_actuator now ms minute d)
  unfolding tick_actuator
  tick_actuator-Holds now ms minute d h =
      let opened : Holds on level angle rgb (tick_hours ms minute d) =
        unfold tick_hours in ground arith in
      let ended : Holds on level angle rgb (tick_pulse now ms (tick_hours ms minute d)) =
        unfold tick_pulse in ground arith in
      let limited : Holds on level angle rgb
          (tick_limit now (tick_pulse now ms (tick_hours ms minute d))) =
        unfold tick_limit in ground arith in
      ground (arith, limited)

  tick-Holds :
      (x : Reading) (now ms : ℕ) (minute : Option ℕ) (d : IoTService)
      → Holds on level angle rgb d
      → Holds on level angle rgb (tick x now ms minute d)
  unfolding tick
  tick-Holds x now ms minute d h = tick_actuator-Holds now ms minute _ (
      if_cases (Holds on level angle rgb) (is_some d.sensor) (tick_sensor x now ms d) d
        (λ _. tick_sensor-Holds x now ms d h) (λ _. h))

-- An event that is no command.
abbrev pub IsTime : Event → Type 0
IsTime (time x now ms minute) = Unit
IsTime (text s now ms) = ⊥

-- What a manual command left stays as it is, whatever the sensor reads, the rule decides and the
-- window does, until the next command, where no pulse runs and no safety limit is set.
pub steps-Holds :
    {on : Bool} {level angle rgb : ℕ} (es : List Event) (d : IoTService)
    → All IsTime es
    → Holds on level angle rgb d
    → Holds on level angle rgb (steps es d)
unfolding steps step
steps-Holds [] d o h = h
steps-Holds (time x now ms minute ∷ es) d o h =
    tick-Holds x now ms minute (steps es d) (steps-Holds es d o.1 h)
steps-Holds (text s now ms ∷ es) d o h = absurd o.0
