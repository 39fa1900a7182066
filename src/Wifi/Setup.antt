-- ===== src/Wifi/Setup.antt =====
-- WiFiService.h in setup mode: ticks leave the station alone.
use esp8266_dns.Base.{Bool, List, [], arith, false, true, ℕ, ◌+◌, ◌∷◌, ◌≡◌}
use esp8266_dns.Wifi.{Radio, WifiService, announce_ap, tick}

-- How often the radio was told to join or to leave a network.
unfoldable pub touches : List Radio → ℕ
touches [] = 0
touches (Radio.begin_station ∷ xs) = touches xs + 1
touches (Radio.disconnect ∷ xs) = touches xs + 1
touches (_ ∷ xs) = touches xs

-- The access point is up, and the radio was told `n` times to join or to leave a network.
pub record IsSetup (n : ℕ) (d : WifiService) : Type 0 where
  pub in_setup : d.config_mode ≡ true
  pub not_connecting : d.connecting ≡ false
  pub untouched : touches d.radio ≡ n

-- Ticks in a row, the last first: the time, the milliseconds and whether the station is connected.
unfoldable pub ticks : List (ℕ × ℕ × Bool) → WifiService → WifiService
ticks [] d = d
ticks ((now, ms, connected) ∷ ts) d = tick now ms connected (ticks ts d)

tick-IsSetup :
    (n now ms : ℕ) (connected : Bool) (d : WifiService)
    → IsSetup n d
    → IsSetup n (tick now ms connected d)
unfolding tick announce_ap touches
tick-IsSetup n now ms connected d h = ground (arith, h)

-- In setup mode no row of ticks takes the access point down or tells the station to join or to leave
-- a network, whatever the state of the connection.
ticks-IsSetup :
    {n : ℕ} (ts : List (ℕ × ℕ × Bool)) (d : WifiService) → IsSetup n d → IsSetup n (ticks ts d)
unfolding ticks
ticks-IsSetup [] d h = h
ticks-IsSetup {n = n} ((now, ms, connected) ∷ ts) d h =
    tick-IsSetup n now ms connected (ticks ts d) (ticks-IsSetup ts d h)
