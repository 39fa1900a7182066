-- ===== src/Iot/Sensor.antt =====
-- IoTService.h: what a reading does to the service. Reading the pins themselves (DHT, 1-Wire, I2C,
-- ultrasonic timing) is input: a level of the pin, or a value.
use esp8266_dns.Base.{
  is_some, ℕ, zero, suc, ◌+◌, ◌/◌, ◌%◌, Bool, true, false, not, ◌&&◌, ◌||◌, [], ◌∷◌, ◌++◌, Bytes,
  codes, take, drop, ltb, ◌==◌, if◌then◌else◌, sub32,
}
use esp8266_dns.Base.Int.{ℤ, pos, negsuc}
use esp8266_dns.Base.Decimal.{decimal}
use esp8266_dns.Iot.Catalog.{Kind}
use esp8266_dns.Iot.Rule.{rule, map_duty, in_unit, deg}
use esp8266_dns.Iot.Service.{
  IoTService, eqb, sensor_kind, has_rule, proportional, drive, actuator_text, msg, log_line,
  take_rule,
}

abbrev pub debounce_ms : ℕ
debounce_ms = 200

-- `%d`
unfoldable pub int_text : ℤ → Bytes
int_text (pos n) = decimal n
int_text (negsuc n) = b'-' ∷ decimal (n + 1)

-- `_fmtTenths`, for tenths that fit its 16 bits.
unfoldable pub fmt_tenths : ℤ → Bytes
fmt_tenths (pos n) = decimal (n / 10) ++ b'.' ∷ decimal (n % 10)
fmt_tenths (negsuc n) = b'-' ∷ decimal ((n + 1) / 10) ++ b'.' ∷ decimal ((n + 1) % 10)

unfoldable pub sensor_text : IoTService → Bytes
sensor_text d =
    if not (is_some d.sensor)
    then codes "none"
    else if d.failing
    then codes "error"
    else if not d.have_level
    then codes "waiting"
    else d.sensor_line

-- `_report`: to the log and, with ntfy on, to the topic. The log leaves "[sensor] " out.
unfoldable pub report : Bool → IoTService → IoTService
report log d =
    let line = msg (
      codes "[sensor] "
      ++ sensor_text d
      ++ (if is_some d.act then codes " | " ++ actuator_text d else [])) in
    let l = if log then log_line (drop 9 line) d else d in
    if d.r.notify then record l { pending = line; urgent = l.urgent || log } else l

-- `if (!_manual && _takeRule()) _drive()`, and whether it drove.
unfoldable pub follow_rule : ℕ → IoTService → IoTService × Bool
follow_rule ms d =
    let (taken, differs) = take_rule ms d in
    (if d.manual then d else (if differs then drive taken else taken), not d.manual && differs)

unfoldable pub decide_digital : Bool → IoTService → IoTService
decide_digital active d =
    if d.r.toggle
    then record d {
      rule_on = if d.edge_ready && active then not d.on else d.rule_on;
      edge_ready = true;
      have_rule = true;
    }
    else record d { rule_on = active; have_rule = true }

-- `_onDigital`: a stable level of a digital sensor.
unfoldable pub on_digital : ℕ → Bool → IoTService → IoTService
on_digital ms active d =
    let seen = record d {
      active = active;
      sensor_line = take 31 (if active then d.on_text else d.off_text);
    } in
    report true (if has_rule d then (follow_rule ms (decide_digital active seen)).0 else seen)

-- The digital branch of `_tickSensor`; `pin` is the level read. A level counts once it has been the
-- same for `DEBOUNCE_MS`.
unfoldable pub tick_digital : ℕ → ℕ → Bool → IoTService → IoTService
tick_digital now ms pin d =
    if not d.seen || not (eqb pin d.candidate)
    then record d { seen = true; candidate = pin; since = now }
    else if ltb (sub32 now d.since) debounce_ms
    then d
    else if d.have_level && eqb pin d.stable
    then d
    else on_digital ms (eqb pin d.r.sensor_high) (record d { stable = pin; have_level = true })

unfoldable pub fail : IoTService → IoTService
fail d = if d.failing then d else log_line (codes "reading failed") (record d { failing = true })

degree : IoTService → Bytes
degree d = if d.r.unit == 1 then codes " F" else codes " C"

unit_name : ℕ → Bytes
unit_name zero = codes " cm"
unit_name (suc zero) = codes "%"
unit_name _ = codes " L"

-- The text of a reading that is `shown` in the unit set.
unfoldable pub value_text : Kind → IoTService → ℤ → Bytes
unfolding degree unit_name int_text fmt_tenths
value_text Kind.pulse d shown =
    if d.r.unit == 1
    then fmt_tenths shown ++ codes " L/min"
    else int_text shown ++ (if d.r.unit == 0 then codes " pulses/10 s" else codes " mL/min")
value_text Kind.range d shown = int_text shown ++ unit_name d.r.unit
value_text Kind.lux d shown = int_text shown ++ codes " lx"
value_text Kind.ds18 d shown = fmt_tenths shown ++ degree d
value_text kind d shown =
    fmt_tenths (deg d.r d.temp) ++ degree d ++ codes ", " ++ fmt_tenths d.hum ++ codes "%"

-- The rule's decision on a reading in the unit set.
unfoldable pub decide : ℤ → Bool → IoTService → IoTService
decide shown tenths d =
    if proportional d
    then (let lv = map_duty d.r shown tenths in
        record d { rule_level = lv; rule_on = not (lv == d.r.duty_off); have_rule = true })
    else record d { rule_on = rule d.r d.have_rule d.rule_on shown tenths; have_rule = true }

-- `_accept`: a new numeric reading.
unfoldable pub accept : ℕ → ℤ → Bool → IoTService → IoTService
accept ms v tenths d =
    let (shown, in_tenths) = in_unit d.r (sensor_kind d) v tenths in
    let read = record d {
      failing = false;
      sensor_line = take 31 (value_text (sensor_kind d) d shown);
      have_level = true;
    } in
    let ruled = follow_rule ms (decide shown in_tenths read) in
    report (not d.have_level || has_rule d && ruled.1) (if has_rule d then ruled.0 else read)
