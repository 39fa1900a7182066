-- ===== src/Iot/Control/Saved.antt =====
-- IoTService.h, `_persist`: a running pulse is not saved as the state to restore.
use esp8266_dns.Iot.Control.{take_known}
use esp8266_dns.Iot.Control.{run_auto}
use esp8266_dns.Base.{is_some, subst}
use esp8266_dns.Base.{
  ℕ, ◌≡◌, refl, ◌⊎◌, inl, inr, Bool, true, false, Option, none, some, List, [], ◌∷◌, Bytes, arith,
  All, if_cases, if◌then◌else◌, codes, take, Option-cases,
}
use esp8266_dns.Base.Int.{ℤ}
use esp8266_dns.Iot.Command.{Op, Command, command_allowed, parse_command}
use esp8266_dns.Iot.Rule.{in_unit}
use esp8266_dns.Iot.Service.{
  IoTService, Effect, drives, saves, logs, eqb, capability, sensor_kind, set_on, turn_on, changed,
  drive, persist, has_rule,
}
use esp8266_dns.Iot.Service.Keeps.{changed-Keeps, persist-Keeps}
use esp8266_dns.Iot.Sensor.{report, on_digital, tick_digital, accept, fail, value_text}
use esp8266_dns.Iot.Control.{
  Reading, quiet, failed, pin, climate, degrees, amount, Event, text, time, run, command, perform,
  operate, act_on, tick_hours, tick_pulse, tick_limit, tick_actuator, tick_sensor, tick, step,
  steps,
}
use esp8266_dns.Iot.Control.Pulse.{operate-pulse}

-- Every state saved so far is off.
abbrev pub SavedOff : List Effect → Type 0
SavedOff [] = Unit
SavedOff (saves st ∷ es) = (st.on ≡ false) × SavedOff es
SavedOff (drives o ∷ es) = SavedOff es
SavedOff (logs s ∷ es) = SavedOff es

-- No rule, on only while a pulse runs, and nothing saved on: a lock that is opened by pulses.
pub record IsLocked (d : IoTService) : Type 0 where
  pub no_rule : has_rule d ≡ false
  pub only_pulse : (d.on ≡ false) ⊎ (d.pulsing ≡ true)
  pub saved_off : SavedOff d.effects

-- The commands that open such a lock for a while, close it or ask for its state.
abbrev pub OpensOrCloses : Op → Type 0
OpensOrCloses Op.pulse = Unit
OpensOrCloses Op.off = Unit
OpensOrCloses Op.status = Unit
OpensOrCloses _ = ⊥

abbrev CommandOpensOrCloses : Option Command → Type 0
CommandOpensOrCloses none = Unit
CommandOpensOrCloses (some c) = OpensOrCloses c.op

-- The events in which every command is one of those; readings and ticks are free.
abbrev pub EventOpensOrCloses : Event → Type 0
EventOpensOrCloses (text s now ms) = CommandOpensOrCloses (parse_command s)
EventOpensOrCloses (time x now ms minute) = Unit

changed-SavedOff :
    (s : Bytes) (d : IoTService) → SavedOff d.effects → SavedOff (changed s d).effects
unfolding changed drive
changed-SavedOff s d h = ground arith

persist-SavedOff :
    (d : IoTService) → d.on ≡ false → SavedOff d.effects → SavedOff (persist d).effects
unfolding persist
persist-SavedOff d o h = ground arith

-- Telling and saving a state that is off.
off-IsLocked :
    (s : Bytes) (d : IoTService)
    → has_rule d ≡ false
    → d.on ≡ false
    → SavedOff d.effects
    → IsLocked (persist (changed s d))
off-IsLocked s d n o h =
    let told = changed-Keeps s d in
    let kept = persist-Keeps (changed s d) in
    let saved = persist-SavedOff (changed s d) (ground arith) (changed-SavedOff s d h) in
    record { no_rule = ground arith; only_pulse = ground arith; saved_off = saved }

report-IsLocked : (log : Bool) (d : IoTService) → IsLocked d → IsLocked (report log d)
unfolding report
report-IsLocked log d h = ground arith

on_digital-IsLocked :
    (ms : ℕ) (active : Bool) (d : IoTService) → IsLocked d → IsLocked (on_digital ms active d)
unfolding on_digital
on_digital-IsLocked ms active d h =
    let seen = record d {
      active = active;
      sensor_line = take 31 (if active then d.on_text else d.off_text);
    } in
    let kept : IsLocked seen = ground arith in rw (h.no_rule) (report-IsLocked true seen kept)

tick_digital-IsLocked :
    (now ms : ℕ) (level : Bool) (d : IoTService)
    → IsLocked d
    → IsLocked (tick_digital now ms level d)
unfolding tick_digital
tick_digital-IsLocked now ms level d h =
    let settled = record d { stable = level; have_level = true } in
    let fires = on_digital-IsLocked ms (eqb level d.r.sensor_high) settled (ground arith) in
    ground (arith, fires)

accept-IsLocked :
    (ms : ℕ) (v : ℤ) (tenths : Bool) (d : IoTService) → IsLocked d → IsLocked (accept ms v tenths d)
unfolding accept
accept-IsLocked ms v tenths d h =
    let read = record d {
      failing = false;
      sensor_line = take 31 (value_text (sensor_kind d) d (in_unit d.r (sensor_kind d) v tenths).0);
      have_level = true;
    } in
    let kept : IsLocked read = ground arith in rw (h.no_rule) (report-IsLocked _ read kept)

tick_sensor-IsLocked :
    (x : Reading) (now ms : ℕ) (d : IoTService) → IsLocked d → IsLocked (tick_sensor x now ms d)
unfolding tick_sensor
tick_sensor-IsLocked quiet now ms d h = h
tick_sensor-IsLocked failed now ms d h = unfold fail in ground arith
tick_sensor-IsLocked (pin level) now ms d h = tick_digital-IsLocked now ms level d h
tick_sensor-IsLocked (climate t u) now ms d h =
    accept-IsLocked ms _ true (record d { temp = t; hum = u }) (ground arith)
tick_sensor-IsLocked (degrees t) now ms d h =
    accept-IsLocked ms t true (record d { temp = t }) (ground arith)
tick_sensor-IsLocked (amount v) now ms d h =
    accept-IsLocked ms v false (record d { value = v }) (ground arith)

tick_hours-IsLocked :
    (ms : ℕ) (minute : Option ℕ) (d : IoTService) → IsLocked d → IsLocked (tick_hours ms minute d)
unfolding tick_hours
tick_hours-IsLocked ms minute d h = ground arith

tick_pulse-IsLocked : (now ms : ℕ) (d : IoTService) → IsLocked d → IsLocked (tick_pulse now ms d)
unfolding tick_pulse set_on
tick_pulse-IsLocked now ms d h =
    let off = set_on false now (record d { pulsing = false }) in
    ground (arith, off-IsLocked [] off h.no_rule refl h.saved_off)

tick_limit-IsLocked : (now : ℕ) (d : IoTService) → IsLocked d → IsLocked (tick_limit now d)
unfolding tick_limit set_on
tick_limit-IsLocked now d h =
    let off = set_on false now (record d { pulsing = false; manual = has_rule d }) in
    ground (arith, off-IsLocked (codes " for safety") off h.no_rule refl h.saved_off)

turn_on-effects : (now : ℕ) (d : IoTService) → (turn_on now d).effects ≡ d.effects
unfolding turn_on
turn_on-effects now d = ground arith

operate-pulse-SavedOff :
    (value now : ℕ) (d : IoTService)
    → SavedOff d.effects
    → SavedOff (operate Op.pulse value now d).effects
unfolding operate act_on
operate-pulse-SavedOff value now d h =
    let e = act_on Op.pulse value now (record d { pulsing = false }) in
    let told = changed-Keeps [] (record e { manual = has_rule e }) in
    let same = turn_on-effects now (record d { pulsing = false }) in
    let saved : SavedOff e.effects = rw same h in
    ground (arith, told, changed-SavedOff [] (record e { manual = has_rule e }) saved)

perform-IsLocked :
    (op : Op) (value now ms : ℕ) (d : IoTService)
    → OpensOrCloses op
    → IsLocked d
    → IsLocked (perform op value now ms d)
unfolding perform
perform-IsLocked Op.status value now ms d o h = h
perform-IsLocked Op.off value now ms d o h =
    let e = set_on false now (record d { pulsing = false }) in
    let told = changed-Keeps [] (record e { manual = has_rule e }) in
    let ended =
      off-IsLocked [] (record e { manual = has_rule e }) (unfold set_on in h.no_rule)
        (unfold set_on in refl) (unfold set_on in h.saved_off) in
    unfold operate act_on set_on in ground (arith, told, ended)
perform-IsLocked Op.pulse value now ms d o h =
    let p = operate-pulse value now d in
    record {
      no_rule = ground (arith, p);
      only_pulse = inr p.1;
      saved_off = operate-pulse-SavedOff value now d h.saved_off;
    }
perform-IsLocked _ value now ms d o h = absurd o

command-IsLocked :
    (s : Bytes) (now ms : ℕ) (d : IoTService)
    → CommandOpensOrCloses (parse_command s)
    → IsLocked d
    → IsLocked (command s now ms d).0
unfolding command run
command-IsLocked s now ms d o h = elim (Option-cases (parse_command s)) [
  | inl bad ↦ rw (bad, command) h
  | inr (c, good) ↦
      let allowed : OpensOrCloses c.op = subst CommandOpensOrCloses good o in
      rw (good, command) (ground (arith, perform-IsLocked c.op c.value now ms d allowed h))
]

step-IsLocked :
    (e : Event) (d : IoTService) → EventOpensOrCloses e → IsLocked d → IsLocked (step e d)
unfolding step tick tick_actuator
step-IsLocked (text s now ms) d o h = command-IsLocked s now ms d o h
step-IsLocked (time x now ms minute) d o h =
    let e = if is_some d.sensor then tick_sensor x now ms d else d in
    let read : IsLocked e =
      if_cases IsLocked (is_some d.sensor) (tick_sensor x now ms d) d
        (λ _. tick_sensor-IsLocked x now ms d h) (λ _. h) in
    let opened = tick_hours-IsLocked ms minute e read in
    let ended = tick_pulse-IsLocked now ms (tick_hours ms minute e) opened in
    if_cases IsLocked (is_some e.act) (tick_limit now (tick_pulse now ms (tick_hours ms minute e)))
      e (λ _. tick_limit-IsLocked now (tick_pulse now ms (tick_hours ms minute e)) ended)
      (λ _. read)

-- An actuator with no rule that gets only pulses, `off` and `status`, such as a lock, is on only
-- while a pulse runs, and no state that is saved for the next power-up has it on, however the
-- commands, the ticks and the readings of a sensor come.
steps-IsLocked :
    (es : List Event) (d : IoTService)
    → All EventOpensOrCloses es
    → IsLocked d
    → IsLocked (steps es d)
unfolding steps
steps-IsLocked [] d o h = h
steps-IsLocked (e ∷ es) d o h = step-IsLocked e (steps es d) o.0 (steps-IsLocked es d o.1 h)

-- The command `auto` during a pulse ends the pulse but leaves the actuator on where there is no
-- rule: no pulse runs any more, a later tick of `tick_pulse` does nothing, and with `restore` set
-- the state is saved as on.
pub run-auto_stays_on :
    (value now ms later : ℕ) (d : IoTService)
    → is_some d.act ≡ true
    → command_allowed (capability d) Op.auto ≡ true
    → has_rule d ≡ false
    → d.on ≡ true
    → d.pulsing ≡ true
    → d.r.restore ≡ true
    → let e = (run (record { op = Op.auto; value = value }) now ms d).0 in
      (e.on ≡ true) × (tick_pulse later ms e ≡ e) × ¬ SavedOff e.effects
unfolding run perform run_auto take_known tick_pulse persist
run-auto_stays_on value now ms later d a b c o p r =
    let told = changed-Keeps [] (record d { manual = false; pulsing = false }) in
    ground (arith, told)
