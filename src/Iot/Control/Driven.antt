-- ===== src/Iot/Control/Driven.antt =====
-- IoTService.h: commands and ticks, and what they send to the actuator.
use esp8266_dns.Base.{
  Bytes, List, Option, Option-cases, [], arith, codes, false, if_cases, if◌then◌else◌, inl, inr,
  is_some, refl, ℕ, ◌∷◌,
}
use esp8266_dns.Iot.Command.{Command, Op, parse_command}
use esp8266_dns.Iot.Control.{
  Event, act_on, command, operate, perform, run, run_auto, step, steps, take_known, text, tick,
  tick_actuator, tick_hours, tick_limit, tick_pulse, tick_sensor, time,
}
use esp8266_dns.Iot.Control.Shown.{
  IsDriven, changed-IsDriven, persist-IsDriven, same-IsDriven, take_rule-IsDriven,
  tick_sensor-IsDriven,
}
use esp8266_dns.Iot.Hours.{in_hours}
use esp8266_dns.Iot.Service.{IoTService, changed, has_rule, output_for, persist, set_on, take_rule}

tick_hours-IsDriven :
    (ms : ℕ) (minute : Option ℕ) (d : IoTService) → IsDriven d → IsDriven (tick_hours ms minute d)
unfolding tick_hours
tick_hours-IsDriven ms minute d h =
    let open_now = in_hours d.r minute in
    let e = record d { hours_open = open_now } in
    let suffix = if open_now then codes " (window opened)" else codes " (window closed)" in
    let taken = (take_rule ms e).0 in
    let kept : IsDriven e = same-IsDriven d e (unfold output_for in ground arith) refl h in
    ground (arith, changed-IsDriven suffix taken, take_rule-IsDriven ms e, kept)

tick_pulse-IsDriven : (now ms : ℕ) (d : IoTService) → IsDriven d → IsDriven (tick_pulse now ms d)
unfolding tick_pulse
tick_pulse-IsDriven now ms d h =
    let off = set_on false now (record d { pulsing = false }) in
    let e = if has_rule off then take_known ms (record off { manual = false }) else off in
    let sent : IsDriven (persist (changed [] e)) = persist-IsDriven _ (changed-IsDriven [] e) in
    ground (arith, sent)

tick_limit-IsDriven : (now : ℕ) (d : IoTService) → IsDriven d → IsDriven (tick_limit now d)
unfolding tick_limit
tick_limit-IsDriven now d h =
    let off = set_on false now (record d { pulsing = false }) in
    let sent =
      persist-IsDriven _
        (changed-IsDriven (codes " for safety") (record off { manual = has_rule off })) in
    ground (arith, sent)

tick_actuator-IsDriven :
    (now ms : ℕ) (minute : Option ℕ) (d : IoTService)
    → IsDriven d
    → IsDriven (tick_actuator now ms minute d)
unfolding tick_actuator
tick_actuator-IsDriven now ms minute d h =
    let opened = tick_hours-IsDriven ms minute d h in
    let ended = tick_pulse-IsDriven now ms (tick_hours ms minute d) opened in
    ground (arith, tick_limit-IsDriven now _ ended)

perform-IsDriven :
    (op : Op) (value now ms : ℕ) (d : IoTService)
    → IsDriven d
    → IsDriven (perform op value now ms d)
unfolding perform run_auto operate
perform-IsDriven Op.status value now ms d h = h
perform-IsDriven Op.auto value now ms d h = persist-IsDriven _ (changed-IsDriven _ _)
perform-IsDriven op value now ms d h =
    let e = act_on op value now (record d { pulsing = false }) in
    let c = changed [] (record e { manual = has_rule e }) in
    if_cases IsDriven c.pulsing c (persist c) (λ _. changed-IsDriven [] _)
      (λ _. persist-IsDriven c (changed-IsDriven [] _))

run-IsDriven :
    (c : Command) (now ms : ℕ) (d : IoTService) → IsDriven d → IsDriven (run c now ms d).0
unfolding run
run-IsDriven c now ms d h = ground (arith, perform-IsDriven c.op c.value now ms d h)

command-IsDriven :
    (s : Bytes) (now ms : ℕ) (d : IoTService) → IsDriven d → IsDriven (command s now ms d).0
unfolding command
command-IsDriven s now ms d h = elim (Option-cases (parse_command s)) [
  | inl bad ↦ rw (bad, command) h
  | inr (c, good) ↦ rw (good, command) (run-IsDriven c now ms d h)
]

step-IsDriven : (e : Event) (d : IoTService) → IsDriven d → IsDriven (step e d)
unfolding step tick
step-IsDriven (text s now ms) d h = command-IsDriven s now ms d h
step-IsDriven (time x now ms minute) d h = tick_actuator-IsDriven now ms minute _ (
    if_cases IsDriven (is_some d.sensor) (tick_sensor x now ms d) d
      (λ _. tick_sensor-IsDriven x now ms d h) (λ _. h))

-- Whatever commands, readings and ticks come, in any order, what was last sent to the actuator is
-- what the state asks for: the pin level, the duty, the angle or the colour of the state.
pub steps-IsDriven : (es : List Event) (d : IoTService) → IsDriven d → IsDriven (steps es d)
unfolding steps
steps-IsDriven [] d h = h
steps-IsDriven (e ∷ es) d h = step-IsDriven e (steps es d) (steps-IsDriven es d h)
