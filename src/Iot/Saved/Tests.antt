-- ===== src/Iot/Saved/Tests.antt =====
-- IoTState.h: tests.
use esp8266_dns.Base.{arith, false, true}
use esp8266_dns.Iot.Saved.Back.{IsState}
use esp8266_dns.Iot.Service.{IoTState}

abbrev kept_state : IoTState
kept_state = record { manual = true; on = false; level = 7; angle = 180; rgb = 0x00FF10 }

abbrev other_state : IoTState
other_state = record { manual = false; on = true; level = 100; angle = 90; rgb = 0 }

kept-IsState : IsState kept_state
kept-IsState = record { level_fits = omega arith; angle_fits = omega arith; rgb_fits = omega arith }
