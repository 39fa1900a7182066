-- ===== src/Iot/Tests.antt =====
-- IoTService.h and IoTCommand.h at concrete inputs: a lock, and a heater with a sensor and a rule.
use esp8266_dns.Iot.Service.{digital_write}
use esp8266_dns.Base.{
  not, ◌&&◌, List, [], arith, codes, false, inr, ltb, none, refl, some, sub32, true, u32, ◌*◌, ◌+◌,
  ◌<◌, ◌∷◌, ◌≡◌, ◌≢◌, ◌≤◌, ◌⊎◌,
}
use esp8266_dns.Base.Decimal.{is_digit}
use esp8266_dns.Base.Int.{negsuc, pos}
use esp8266_dns.Iot.Command.{
  Op, command_allowed, copy, find_word, number, parse_command, parse_copied, parse_split,
  skip_spaces, split_word, trim_end, with_value,
}
use esp8266_dns.Iot.Command.RoundTrip.{parse_command-spell}
use esp8266_dns.Iot.Command.Sound.{IsValid, parse_command-IsValid}
use esp8266_dns.Iot.Command.Spell.{spell}
use esp8266_dns.Iot.Config.{IoTConfig}
use esp8266_dns.Iot.Control.{
  Event, Reading, quiet, run, steps, tick, tick_actuator, tick_hours, tick_limit, tick_pulse,
}
use esp8266_dns.Iot.Control.Driven.{steps-IsDriven}
use esp8266_dns.Iot.Control.Limit.{tick_actuator-lt}
use esp8266_dns.Iot.Control.Manual.{Holds, steps-Holds}
use esp8266_dns.Iot.Control.Pulse.{limit_over, tick-run}
use esp8266_dns.Iot.Control.Saved.{SavedOff, run-auto_stays_on}
use esp8266_dns.Iot.Control.Shown.{IsDriven, last_output}
use esp8266_dns.Iot.Hours.{in_hours}
use esp8266_dns.Iot.Rule.Tank.{full, tank_level, tank_level_marks}
use esp8266_dns.Iot.Service.{IoTService, cap_of, drives, output, output_for}

abbrev wired : IoTConfig
wired = record {
  sensor = codes "none";
  sensor_pin = negsuc 0;
  sensor_high = true;
  on_text = [];
  off_text = [];
  metric = 0;
  unit = 0;
  tank_empty = 120;
  tank_full = 20;
  tank_l = 0;
  ppl = 450;
  notify = true;
  actuator = codes "lock";
  actuator_pin = pos 2;
  actuator_high = true;
  angle_on = 90;
  angle_off = 0;
  duty_on = 100;
  duty_off = 0;
  leds = 8;
  max_on = 0;
  restore = true;
  pulse = 3;
  rule = false;
  above = false;
  threshold = pos 20;
  margin = 1;
  toggle = false;
  linear = false;
  threshold_hi = pos 30;
  window = false;
  win_start = 0;
  win_end = 0;
}

abbrev ruled : IoTConfig
ruled = record wired { rule = true; max_on = 10 }

abbrev lock : IoTService
lock = record {
  r = wired;
  sensor = none;
  act = some 3;
  unknown_type = false;
  seen = false;
  have_level = false;
  failing = false;
  active = false;
  edge_ready = false;
  candidate = false;
  stable = false;
  hum = pos 0;
  temp = pos 0;
  value = pos 0;
  since = 0;
  on_text = [];
  off_text = [];
  sensor_line = [];
  on = false;
  manual = false;
  servo_ok = false;
  pulsing = false;
  have_rule = false;
  hours_open = true;
  rule_on = false;
  rule_level = 0;
  level = 100;
  angle = 0;
  rgb = 16777215;
  pulse_until = 0;
  on_since = 0;
  act_line = [];
  pending = [];
  urgent = false;
  effects = drives (digital_write 2 false) ∷ [];
}

abbrev opened : IoTService
opened = record lock { on = true; pulsing = true; pulse_until = 3000 }

abbrev heater : IoTService
heater = record lock { r = ruled; sensor = some 2; act = some 0 }

abbrev by_hand : IoTService
by_hand = record heater { r = record ruled { max_on = 0 }; manual = true; on = true }

pulse_of_5 : parse_command (codes "Pulse 5s") ≡ some (record { op = Op.pulse; value = 5 })
unfolding parse_command parse_copied copy skip_spaces trim_end parse_split split_word with_value
    find_word number is_digit
pulse_of_5 = refl

parse_command-IsValid_example : IsValid (record { op = Op.pulse; value = 5 })
parse_command-IsValid_example = parse_command-IsValid (codes "Pulse 5s") pulse_of_5

parse_command-spell_example :
    parse_command (spell (record { op = Op.color; value = 1193046 }))
    ≡ some (record { op = Op.color; value = 1193046 })
parse_command-spell_example = parse_command-spell Op.color 1193046 (omega arith)

abbrev tank : IoTConfig
tank = record wired { unit = 1; tank_l = 500 }

tank_level_marks_example :
    (tank_level tank tank.tank_full ≡ full tank)
    × (tank_level tank tank.tank_empty ≡ 0)
    × (tank_level tank 80 ≤ tank_level tank 70)
tank_level_marks_example = tank_level_marks tank 70 80 (omega arith) (omega arith)

abbrev night : List Event
night =
    Event.time (Reading.climate (pos 185) (pos 500)) 5000 5000 (some 600)
    ∷ Event.text (codes "off") 2000 2000
    ∷ Event.text (codes "pulse 3") 1000 1000
    ∷ []

lock-shown : (output lock ≡ none) ⊎ (last_output lock.effects ≡ output lock)
unfolding last_output output_for cap_of
lock-shown = inr refl

steps-IsDriven_example : IsDriven (steps night lock)
steps-IsDriven_example = steps-IsDriven night lock (record { shown = lock-shown })

steps-Holds_example :
    Holds true 100 0 16777215
      (steps (Event.time (Reading.climate (pos 185) (pos 500)) 5000 5000 (some 600) ∷ []) by_hand)
steps-Holds_example =
    steps-Holds {on = true} {level = 100} {angle = 0} {rgb = 16777215}
      (Event.time (Reading.climate (pos 185) (pos 500)) 5000 5000 (some 600) ∷ []) by_hand (tt, tt)
      (record {
        by_hand = refl;
        no_pulse = refl;
        no_limit = refl;
        on_same = refl;
        level_same = refl;
        angle_same = refl;
        rgb_same = refl;
      })

tick-run_example :
    let pulsed = (run (record { op = Op.pulse; value = 3 }) 4294967000 1000 lock).0 in
    let now = u32 (4294967000 + 3000) in
    (pulsed.on ≡ true)
    × ((tick quiet now 4000 none pulsed).on ≡ (ltb 3000 (3 * 1000) && not (limit_over now pulsed)))
unfolding command_allowed cap_of
tick-run_example =
    tick-run 3 4294967000 3000 1000 4000 quiet none lock (omega arith) (omega arith) (omega arith)
      refl refl refl

abbrev warm : IoTService
warm = record heater { on = true; on_since = 4294967000; manual = true }

warm_limit : (tick_actuator 1000 1000 none warm).r.max_on ≢ 0
unfolding tick_actuator tick_limit tick_pulse tick_hours in_hours
warm_limit = omega arith

tick_actuator-lt_example :
    sub32 1000 (tick_actuator 1000 1000 none warm).on_since
    < (tick_actuator 1000 1000 none warm).r.max_on * 60000
unfolding tick_actuator tick_limit tick_pulse tick_hours in_hours
tick_actuator-lt_example = tick_actuator-lt 1000 1000 none warm refl warm_limit refl

run-auto_stays_on_example :
    let e = (run (record { op = Op.auto; value = 0 }) 1000 1000 opened).0 in
    (e.on ≡ true) × (tick_pulse 90000 1000 e ≡ e) × ¬ SavedOff e.effects
unfolding command_allowed cap_of
run-auto_stays_on_example = run-auto_stays_on 0 1000 1000 90000 opened refl refl refl refl refl refl
