-- ===== src/Iot/Control/Limit.antt =====
-- IoTService.h, `tick`: the safety limit.
use esp8266_dns.Base.{is_some, ℕ, ◌*◌, ◌≡◌, ◌≢◌, ◌<◌, true, Option, arith, sub32}
use esp8266_dns.Iot.Service.{IoTService, set_on, changed, drive, persist}
use esp8266_dns.Iot.Control.{tick_hours, tick_pulse, tick_limit, tick_actuator}

tick_limit-lt :
    (now : ℕ) (d : IoTService)
    → d.r.max_on ≢ 0
    → (tick_limit now d).on ≡ true
    → sub32 now (tick_limit now d).on_since < d.r.max_on * 60000
unfolding tick_limit persist changed drive set_on
tick_limit-lt now d m h = ground arith

tick_limit_r : (now : ℕ) (d : IoTService) → (tick_limit now d).r ≡ d.r
unfolding tick_limit persist changed drive set_on
tick_limit_r now d = ground arith

-- After every tick, an actuator that is on has been on for less than its limit of `maxOn` minutes,
-- where one is set, by the 32-bit clock of the device.
pub tick_actuator-lt :
    (now ms : ℕ) (minute : Option ℕ) (d : IoTService)
    → is_some d.act ≡ true
    → (tick_actuator now ms minute d).r.max_on ≢ 0
    → (tick_actuator now ms minute d).on ≡ true
    → sub32 now (tick_actuator now ms minute d).on_since
      < (tick_actuator now ms minute d).r.max_on * 60000
unfolding tick_actuator
tick_actuator-lt now ms minute d a m h =
    let before = tick_pulse now ms (tick_hours ms minute d) in
    ground (arith, tick_limit-lt now before, tick_limit_r now before)
