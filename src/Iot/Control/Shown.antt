-- ===== src/Iot/Control/Shown.antt =====
-- IoTService.h: the readings of the sensor, and what they send to the actuator.
-- What was last sent to the actuator.
use esp8266_dns.Base.{
  Bool, Bytes, List, Option, [], arith, false, if_cases, if◌then◌else◌, none, refl, some, take,
  true, ℕ, ◌∷◌, ◌≡◌, ◌⊎◌,
}
use esp8266_dns.Base.Int.{ℤ}
use esp8266_dns.Iot.Control.{Reading, amount, climate, degrees, failed, pin, quiet, tick_sensor}
use esp8266_dns.Iot.Rule.{in_unit}
use esp8266_dns.Iot.Sensor.{
  accept, decide, decide_digital, fail, follow_rule, on_digital, report, tick_digital, value_text,
}
use esp8266_dns.Iot.Service.{
  Effect, IoTService, Output, changed, drive, drives, eqb, has_rule, logs, output, output_for,
  persist, proportional, saves, sensor_kind, take_rule,
}
use esp8266_dns.Logger.{log}

unfoldable pub last_output : List Effect → Option Output
last_output [] = none
last_output (drives o ∷ es) = some o
last_output (saves st ∷ es) = last_output es
last_output (logs s ∷ es) = last_output es

-- What was last sent to the actuator is what its state asks for, unless it takes nothing (a servo
-- that could not be attached).
pub record IsDriven (d : IoTService) : Type 0 where
  pub shown : (output d ≡ none) ⊎ (last_output d.effects ≡ output d)

pub changed-IsDriven : (s : Bytes) (d : IoTService) → IsDriven (changed s d)
unfolding changed output_for last_output
changed-IsDriven s d = ground arith

drive-IsDriven : (d : IoTService) → IsDriven (drive d)
unfolding drive output_for last_output
drive-IsDriven d = ground arith

pub persist-IsDriven : (d : IoTService) → IsDriven d → IsDriven (persist d)
unfolding persist output_for last_output
persist-IsDriven d h = ground arith

report-IsDriven : (log : Bool) (d : IoTService) → IsDriven d → IsDriven (report log d)
unfolding report output_for last_output
report-IsDriven log d h = ground arith

-- Where the rule changes nothing that is seen, the output stays the same.
pub take_rule-IsDriven :
    (ms : ℕ) (d : IoTService)
    → (take_rule ms d).1 ≡ false
    → IsDriven d
    → IsDriven (take_rule ms d).0
unfolding take_rule output_for last_output proportional
take_rule-IsDriven ms d h k = ground arith

follow_rule-IsDriven : (ms : ℕ) (d : IoTService) → IsDriven d → IsDriven (follow_rule ms d).0
unfolding follow_rule
follow_rule-IsDriven ms d h =
    if_cases IsDriven d.manual d _ (λ _. h)
      (λ _.
        if_cases IsDriven (take_rule ms d).1 (drive (take_rule ms d).0) (take_rule ms d).0
          (λ _. drive-IsDriven (take_rule ms d).0) (λ same. take_rule-IsDriven ms d same h))

-- What the output reads is the same in both states.
pub same-IsDriven :
    (d e : IoTService) → output e ≡ output d → e.effects ≡ d.effects → IsDriven d → IsDriven e
unfolding last_output
same-IsDriven d e o s h = record { shown = rw (o, s) h.shown }

decide_digital-IsDriven :
    (active : Bool) (d : IoTService) → IsDriven d → IsDriven (decide_digital active d)
unfolding decide_digital output_for
decide_digital-IsDriven active d h =
    same-IsDriven d (decide_digital active d) (ground arith) (ground arith) h

decide-IsDriven :
    (shown : ℤ) (tenths : Bool) (d : IoTService) → IsDriven d → IsDriven (decide shown tenths d)
unfolding decide output_for
decide-IsDriven shown tenths d h =
    same-IsDriven d (decide shown tenths d) (ground arith) (ground arith) h

on_digital-IsDriven :
    (ms : ℕ) (active : Bool) (d : IoTService) → IsDriven d → IsDriven (on_digital ms active d)
unfolding on_digital
on_digital-IsDriven ms active d h =
    let seen = record d {
      active = active;
      sensor_line = take 31 (if active then d.on_text else d.off_text);
    } in
    let kept : IsDriven seen = same-IsDriven d seen (unfold output_for in ground arith) refl h in
    report-IsDriven true _ (
      if_cases IsDriven (has_rule d) (follow_rule ms (decide_digital active seen)).0 seen
        (λ _.
          follow_rule-IsDriven ms (decide_digital active seen)
            (decide_digital-IsDriven active seen kept))
        (λ _. kept))

tick_digital-IsDriven :
    (now ms : ℕ) (level : Bool) (d : IoTService)
    → IsDriven d
    → IsDriven (tick_digital now ms level d)
unfolding tick_digital
tick_digital-IsDriven now ms level d h =
    let waits = record d { seen = true; candidate = level; since = now } in
    let settled = record d { stable = level; have_level = true } in
    let active = eqb level d.r.sensor_high in
    let waiting : IsDriven waits =
      same-IsDriven d waits (unfold output_for in ground arith) refl h in
    let fires =
      on_digital-IsDriven ms active settled
        (same-IsDriven d settled (unfold output_for in ground arith) refl h) in
    ground (arith, waiting, fires)

accept-IsDriven :
    (ms : ℕ) (v : ℤ) (tenths : Bool) (d : IoTService) → IsDriven d → IsDriven (accept ms v tenths d)
unfolding accept
accept-IsDriven ms v tenths d h =
    let (shown, in_tenths) = in_unit d.r (sensor_kind d) v tenths in
    let read = record d {
      failing = false;
      sensor_line = take 31 (value_text (sensor_kind d) d shown);
      have_level = true;
    } in
    let kept : IsDriven read = same-IsDriven d read (unfold output_for in ground arith) refl h in
    report-IsDriven _ _ (
      if_cases IsDriven (has_rule d) (follow_rule ms (decide shown in_tenths read)).0 read
        (λ _.
          follow_rule-IsDriven ms (decide shown in_tenths read)
            (decide-IsDriven shown in_tenths read kept))
        (λ _. kept))

fail-IsDriven : (d : IoTService) → IsDriven d → IsDriven (fail d)
unfolding fail output_for last_output
fail-IsDriven d h = ground arith

pub tick_sensor-IsDriven :
    (x : Reading) (now ms : ℕ) (d : IoTService) → IsDriven d → IsDriven (tick_sensor x now ms d)
unfolding tick_sensor
tick_sensor-IsDriven quiet now ms d h = h
tick_sensor-IsDriven failed now ms d h = fail-IsDriven d h
tick_sensor-IsDriven (pin level) now ms d h = tick_digital-IsDriven now ms level d h
tick_sensor-IsDriven (climate t u) now ms d h =
    let e = record d { temp = t; hum = u } in
    accept-IsDriven ms _ true e (same-IsDriven d e (unfold output_for in ground arith) refl h)
tick_sensor-IsDriven (degrees t) now ms d h =
    let e = record d { temp = t } in
    accept-IsDriven ms t true e (same-IsDriven d e (unfold output_for in ground arith) refl h)
tick_sensor-IsDriven (amount v) now ms d h =
    let e = record d { value = v } in
    accept-IsDriven ms v false e (same-IsDriven d e (unfold output_for in ground arith) refl h)
