-- ===== src/Iot/Service/Keeps.antt =====
-- IoTService.h: what telling the outside about a state leaves as it was.
use esp8266_dns.Base.{◌≡◌, Bytes, arith}
use esp8266_dns.Iot.Service.{IoTService, drive, changed, persist}

-- The state that decides what happens next is the same.
pub record Keeps (d e : IoTService) : Type 0 where
  pub r : e.r ≡ d.r
  pub sensor : e.sensor ≡ d.sensor
  pub act : e.act ≡ d.act
  pub on : e.on ≡ d.on
  pub manual : e.manual ≡ d.manual
  pub pulsing : e.pulsing ≡ d.pulsing
  pub have_rule : e.have_rule ≡ d.have_rule
  pub hours_open : e.hours_open ≡ d.hours_open
  pub rule_on : e.rule_on ≡ d.rule_on
  pub level : e.level ≡ d.level
  pub angle : e.angle ≡ d.angle
  pub rgb : e.rgb ≡ d.rgb
  pub pulse_until : e.pulse_until ≡ d.pulse_until
  pub on_since : e.on_since ≡ d.on_since

pub changed-Keeps : (s : Bytes) (d : IoTService) → Keeps d (changed s d)
unfolding changed drive
changed-Keeps s d = ground arith

pub persist-Keeps : (d : IoTService) → Keeps d (persist d)
unfolding persist
persist-Keeps d = ground arith
