-- ===== src/Iot/Control/Pulse.antt =====
-- IoTService.h, `run` and `tick`: a pulse.
use esp8266_dns.Base.{
  is_some, sym, Bool-cases, inl, inr, ap, refl, ◌∙◌, leb, Bool, Option, take, if_cases, not, sub32,
  ◌==◌,
}
use esp8266_dns.Base.Int.{ℤ}
use esp8266_dns.Iot.Rule.{in_unit}
use esp8266_dns.Iot.Sensor.{
  report, on_digital, decide_digital, tick_digital, decide, follow_rule, accept, fail, value_text,
}
use esp8266_dns.Iot.Service.{eqb, sensor_kind, drive, persist}
use esp8266_dns.Iot.Control.{
  Reading, quiet, failed, pin, climate, degrees, amount, tick_hours, tick_limit, tick_actuator,
  tick_sensor, tick,
}
use esp8266_dns.Base.{
  ℕ, ◌+◌, ◌*◌, ◌≡◌, ◌≤◌, ◌<◌, true, false, arith, u32, ltb, reached, [], ◌&&◌, if◌then◌else◌,
}
use esp8266_dns.Iot.Command.{Op, command_allowed}
use esp8266_dns.Iot.Service.{IoTService, capability, set_on, turn_on, changed, has_rule}
use esp8266_dns.Iot.Service.Keeps.{changed-Keeps, persist-Keeps}
use esp8266_dns.Iot.Control.{run, perform, operate, act_on, tick_pulse}

turn_on_lem :
    (now : ℕ) (d : IoTService)
    → ((turn_on now d).on ≡ true)
      × ((turn_on now d).r ≡ d.r)
      × ((turn_on now d).sensor ≡ d.sensor)
      × ((turn_on now d).act ≡ d.act)
unfolding turn_on
turn_on_lem now d = ground arith

-- What a pulse starts.
pub operate-pulse :
    (v start : ℕ) (d : IoTService)
    → let p = operate Op.pulse v start d in
      (p.on ≡ true)
      × (p.pulsing ≡ true)
      × (p.pulse_until ≡ u32 (start + v * 1000))
      × (has_rule p ≡ has_rule d)
      × (p.act ≡ d.act)
      × (p.r ≡ d.r)
unfolding operate act_on
operate-pulse v start d =
    let e = act_on Op.pulse v start (record d { pulsing = false }) in
    let told = changed-Keeps [] (record e { manual = has_rule e }) in
    ground (arith, turn_on_lem start (record d { pulsing = false }), told)

-- The end of a pulse, where no rule takes over.
tick_pulse_plain :
    (now ms : ℕ) (d : IoTService)
    → has_rule d ≡ false
    → ((tick_pulse now ms d).on ≡ (if d.pulsing && reached now d.pulse_until then false else d.on))
      × ((tick_pulse now ms d).pulsing
          ≡ (if d.pulsing && reached now d.pulse_until then false else d.pulsing))
unfolding tick_pulse set_on
tick_pulse_plain now ms d h =
    let off = set_on false now (record d { pulsing = false }) in
    let told = changed-Keeps [] off in
    let kept = persist-Keeps (changed [] off) in ground (arith, told, kept)

-- What a sensor and the window leave as it was, where there is no rule.
record Same (p d : IoTService) : Type 0 where
  same_r : d.r ≡ p.r
  same_act : d.act ≡ p.act
  same_sensor : d.sensor ≡ p.sensor
  same_on : d.on ≡ p.on
  same_pulsing : d.pulsing ≡ p.pulsing
  same_until : d.pulse_until ≡ p.pulse_until
  same_since : d.on_since ≡ p.on_since

report-Same : (log : Bool) (p d : IoTService) → Same p d → Same p (report log d)
unfolding report
report-Same log p d h = ground (arith, h)

accept-Same :
    (ms : ℕ) (v : ℤ) (tenths : Bool) (p d : IoTService)
    → has_rule d ≡ false
    → Same p d
    → Same p (accept ms v tenths d)
unfolding accept
accept-Same ms v tenths p d n h =
    let (shown, in_tenths) = in_unit d.r (sensor_kind d) v tenths in
    let read = record d {
      failing = false;
      sensor_line = take 31 (value_text (sensor_kind d) d shown);
      have_level = true;
    } in
    report-Same _ p _ (
      if_cases (Same p) (has_rule d) (follow_rule ms (decide shown in_tenths read)).0 read
        (λ e. absurd (ground (arith, n, e))) (λ _. ground (arith, h)))

on_digital-Same :
    (ms : ℕ) (active : Bool) (p d : IoTService)
    → has_rule d ≡ false
    → Same p d
    → Same p (on_digital ms active d)
unfolding on_digital
on_digital-Same ms active p d n h =
    let seen = record d {
      active = active;
      sensor_line = take 31 (if active then d.on_text else d.off_text);
    } in
    report-Same true p _ (
      if_cases (Same p) (has_rule d) (follow_rule ms (decide_digital active seen)).0 seen
        (λ e. absurd (ground (arith, n, e))) (λ _. ground (arith, h)))

tick_sensor-Same :
    (x : Reading) (now ms : ℕ) (p d : IoTService)
    → has_rule d ≡ false
    → Same p d
    → Same p (tick_sensor x now ms d)
unfolding tick_sensor
tick_sensor-Same quiet now ms p d n h = h
tick_sensor-Same failed now ms p d n h = unfold fail in ground (arith, h)
tick_sensor-Same (pin high) now ms p d n h =
    let settled = record d { stable = high; have_level = true } in
    let fires = on_digital-Same ms (eqb high d.r.sensor_high) p settled n (ground (arith, h)) in
    unfold tick_digital in ground (arith, fires, h)
tick_sensor-Same (climate t u) now ms p d n h =
    accept-Same ms _ true p (record d { temp = t; hum = u }) n (ground (arith, h))
tick_sensor-Same (degrees t) now ms p d n h =
    accept-Same ms t true p (record d { temp = t }) n (ground (arith, h))
tick_sensor-Same (amount v) now ms p d n h =
    accept-Same ms v false p (record d { value = v }) n (ground (arith, h))

tick_hours-Same :
    (ms : ℕ) (minute : Option ℕ) (p d : IoTService)
    → has_rule d ≡ false
    → Same p d
    → Same p (tick_hours ms minute d)
unfolding tick_hours
tick_hours-Same ms minute p d n h = ground (arith, n, h)

-- Whether the safety limit of an actuator is over.
abbrev pub limit_over : ℕ → IoTService → Bool
limit_over now d = not (d.r.max_on == 0) && leb (d.r.max_on * 60000) (sub32 now d.on_since)

tick_limit_on :
    (now : ℕ) (d : IoTService) → (tick_limit now d).on ≡ (d.on && not (limit_over now d))
unfolding tick_limit persist changed drive set_on
tick_limit_on now d = ground arith

tick_pulse_waits :
    (now ms : ℕ) (d : IoTService) → reached now d.pulse_until ≡ false → tick_pulse now ms d ≡ d
unfolding tick_pulse
tick_pulse_waits now ms d h = ground (arith, h)

has_rule-Same : (p d : IoTService) → Same p d → has_rule d ≡ has_rule p
has_rule-Same p d h = cc (h.same_r, h.same_act, h.same_sensor)

tick_pulse_on :
    (now ms : ℕ) (p d : IoTService)
    → Same p d
    → has_rule p ≡ false
    → p.pulsing ≡ true
    → (tick_limit now (tick_pulse now ms d)).on
      ≡ (not (reached now p.pulse_until) && p.on && not (limit_over now p))
tick_pulse_on now ms p d h n u =
    let limited = tick_limit_on now (tick_pulse now ms d) in
    let left = λ (r : Bool). not r && p.on && not (limit_over now p) in
    let same_deadline : reached now d.pulse_until ≡ reached now p.pulse_until =
      ap (reached now) h.same_until in
    elim (Bool-cases (reached now d.pulse_until)) [
      | inl over ↦
          let off = tick_pulse_plain now ms d (has_rule-Same p d h ∙ n) in
          let ends : (d.pulsing && reached now d.pulse_until) ≡ true =
            ap (λ (b : Bool). b && reached now d.pulse_until) (h.same_pulsing ∙ u) ∙ over in
          limited
          ∙ ap (λ (b : Bool). b && not (limit_over now (tick_pulse now ms d)))
              (off.0 ∙ ap (λ (b : Bool). if b then false else d.on) ends)
          ∙ sym (ap left (sym same_deadline ∙ over))
      | inr waits ↦
          let same_limit : (d.on && not (limit_over now d)) ≡ (p.on && not (limit_over now p)) =
            cc (h.same_on, h.same_r, h.same_since) in
          limited
          ∙ ap (λ (e : IoTService). e.on && not (limit_over now e))
              (tick_pulse_waits now ms d waits)
          ∙ same_limit
          ∙ sym (ap left (sym same_deadline ∙ waits))
    ]

-- A tick, where there is an actuator without a rule.
tick_on :
    (x : Reading) (now ms : ℕ) (minute : Option ℕ) (p : IoTService)
    → is_some p.act ≡ true
    → has_rule p ≡ false
    → p.pulsing ≡ true
    → (tick x now ms minute p).on
      ≡ (not (reached now p.pulse_until) && p.on && not (limit_over now p))
unfolding tick tick_actuator
tick_on x now ms minute p a n u =
    let own : Same p p = record {
      same_r = refl;
      same_act = refl;
      same_sensor = refl;
      same_on = refl;
      same_pulsing = refl;
      same_until = refl;
      same_since = refl;
    } in
    let sensed = if is_some p.sensor then tick_sensor x now ms p else p in
    let h : Same p sensed =
      if_cases (Same p) (is_some p.sensor) (tick_sensor x now ms p) p
        (λ _. tick_sensor-Same x now ms p p n own) (λ _. own) in
    let open_hours = tick_hours-Same ms minute p sensed (has_rule-Same p sensed h ∙ n) h in
    rw (h.same_act) (rw (a) (tick_pulse_on now ms p (tick_hours ms minute sensed) open_hours n u))

drop_true : (a b : Bool) → (a && true && b) ≡ (a && b)
drop_true a b = ground arith

deadline :
    (start d t : ℕ)
    → d ≤ 3600000
    → start < 4294967296
    → t < 2147483648
    → reached (u32 (start + t)) (u32 (start + d)) ≡ leb d t
deadline start d t a b c = ground arith

-- Without a rule, a pulse of `v` seconds from the time `start` turns the actuator on, and a tick `t`
-- milliseconds later, whatever it reads, leaves it on exactly if the `v` seconds have not passed and its
-- safety limit is not over, also across the wrap of the clock (up to 24 days later).
pub tick-run :
    (v start t now_ms ms : ℕ) (x : Reading) (minute : Option ℕ) (d : IoTService)
    → v ≤ 3600
    → start < 4294967296
    → t < 2147483648
    → is_some d.act ≡ true
    → command_allowed (capability d) Op.pulse ≡ true
    → has_rule d ≡ false
    → let pulsed = (run (record { op = Op.pulse; value = v }) start now_ms d).0 in
      let now = u32 (start + t) in
      (pulsed.on ≡ true)
      × ((tick x now ms minute pulsed).on ≡ (ltb t (v * 1000) && not (limit_over now pulsed)))
unfolding run perform
tick-run v start t now_ms ms x minute d a b c e f g =
    let p = operate Op.pulse v start d in
    let starts = operate-pulse v start d in
    let later =
      tick_on x (u32 (start + t)) ms minute p (ap is_some starts.4 ∙ e) (starts.3 ∙ g) starts.1 in
    let limit = not (limit_over (u32 (start + t)) p) in
    let passed : not (reached (u32 (start + t)) p.pulse_until) ≡ ltb t (v * 1000) =
      ground (arith, starts, deadline start (v * 1000) t) in
    let on_now : (tick x (u32 (start + t)) ms minute p).on ≡ (ltb t (v * 1000) && limit) =
      later
      ∙ ap (λ (r : Bool). r && p.on && limit) passed
      ∙ ap (λ (b : Bool). ltb t (v * 1000) && b && limit) starts.0
      ∙ drop_true (ltb t (v * 1000)) limit in
    rw e (rw f (starts.0, on_now))
