-- ===== src/Wifi/Tests.antt =====
-- WiFiService.h at concrete inputs.
use esp8266_dns.Base.{
  Bool, List, [], arith, false, if◌then◌else◌, ltb, refl, true, u32, ℕ, ◌+◌, ◌∷◌, ◌≡◌,
}
use esp8266_dns.Wifi.{
  Radio, WifiService, announce_ap, begin, reconnect_delay, start_config_mode, tick,
}
use esp8266_dns.Wifi.Reconnect.{tick-rejoins}
use esp8266_dns.Wifi.Setup.{IsSetup, touches}
use esp8266_dns.Wifi.Watchdogs.{strikes, three_in_a_row}

abbrev station : WifiService
station = record {
  fail_count = 0;
  config_mode = false;
  connecting = false;
  connect_since = 0;
  reconnecting = false;
  reconnect_at = 0;
  restart_pending = false;
  restart_at = 0;
  last_status = 4294960000;
  last_mem = 0;
  mem_strikes = 0;
  ota_in_progress = false;
  last_announce = 0;
  radio = [];
}

tick-rejoins_example :
    let lost = tick 10000 10000 false station in
    let later = tick (u32 (10000 + 700)) 10700 false lost in
    (lost.radio ≡ Radio.disconnect ∷ station.radio)
    × (later.reconnecting ≡ ltb 700 reconnect_delay)
    × (later.radio
        ≡ (if ltb 700 reconnect_delay then lost.radio else Radio.begin_station ∷ lost.radio))
tick-rejoins_example =
    tick-rejoins 10000 700 10000 10700 station (omega arith) (omega arith) refl refl refl
      (omega arith)

abbrev setup : WifiService
setup = begin false 500 station

setup-IsSetup : IsSetup 0 setup
unfolding begin start_config_mode announce_ap touches
setup-IsSetup = record { in_setup = refl; not_connecting = refl; untouched = refl }

abbrev row : List (Bool × ℕ)
row = (true, 50000) ∷ (true, 40000) ∷ (true, 30000) ∷ (false, 20000) ∷ (true, 10000) ∷ []

three : three_in_a_row row ≡ true
unfolding three_in_a_row strikes
three = refl
