-- ===== src/Iot/Config.antt =====
-- Config.h, `IoTConfig`: one sensor and one actuator.
use esp8266_dns.Base.{ℕ, Bool, Bytes}
use esp8266_dns.Base.Int.{ℤ}

pub record IoTConfig : Type 0 where
  pub sensor : Bytes
  pub sensor_pin : ℤ
  pub sensor_high : Bool
  pub on_text : Bytes
  pub off_text : Bytes
  pub metric : ℕ
  pub unit : ℕ
  pub tank_empty : ℕ
  pub tank_full : ℕ
  pub tank_l : ℕ
  pub ppl : ℕ
  pub notify : Bool
  pub actuator : Bytes
  pub actuator_pin : ℤ
  pub actuator_high : Bool
  pub angle_on : ℕ
  pub angle_off : ℕ
  pub duty_on : ℕ
  pub duty_off : ℕ
  pub leds : ℕ
  pub max_on : ℕ
  pub restore : Bool
  pub pulse : ℕ
  pub rule : Bool
  pub above : Bool
  pub threshold : ℤ
  pub margin : ℕ
  pub toggle : Bool
  pub linear : Bool
  pub threshold_hi : ℤ
  pub window : Bool
  pub win_start : ℕ
  pub win_end : ℕ
