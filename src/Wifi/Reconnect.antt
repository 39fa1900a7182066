-- ===== src/Wifi/Reconnect.antt =====
-- WiFiService.h, `tick` of a station that lost its access point.
use esp8266_dns.Base.{
  arith, false, if◌then◌else◌, ltb, sub32, true, u32, ℕ, ◌+◌, ◌<◌, ◌∷◌, ◌≡◌, ◌≤◌,
}
use esp8266_dns.Wifi.{
  Radio, WifiService, check_status, notify_failure, process_reconnect, reconnect_delay,
  schedule_restart, start_reconnect, status_interval, tick,
}

start_reconnect-state :
    (now ms : ℕ) (d : WifiService)
    → d.reconnecting ≡ false
    → let e = start_reconnect now ms d in
      (e.reconnecting ≡ true)
      × (e.reconnect_at ≡ u32 (now + reconnect_delay))
      × (e.connecting ≡ d.connecting)
      × (e.config_mode ≡ d.config_mode)
      × (e.last_status ≡ d.last_status)
      × (e.radio ≡ Radio.disconnect ∷ d.radio)
unfolding start_reconnect notify_failure schedule_restart
start_reconnect-state now ms d h = ground arith

-- A station that finds itself without the access point, at a check of the status 15 s after the last,
-- leaves it at once and joins it again with the first tick half a second later or more, and not
-- before; `e` is the time between the two ticks, short of the next check.
pub tick-rejoins :
    (now e ms ms' : ℕ) (d : WifiService)
    → now < 4294967296
    → e < status_interval
    → d.connecting ≡ false
    → d.config_mode ≡ false
    → d.reconnecting ≡ false
    → status_interval ≤ sub32 now d.last_status
    → let lost = tick now ms false d in
      let later = tick (u32 (now + e)) ms' false lost in
      (lost.radio ≡ Radio.disconnect ∷ d.radio)
      × (later.reconnecting ≡ ltb e reconnect_delay)
      × (later.radio
          ≡ (if ltb e reconnect_delay then lost.radio else Radio.begin_station ∷ lost.radio))
unfolding tick check_status process_reconnect
tick-rejoins now e ms ms' d n b c f r s =
    let started = start_reconnect-state now ms (record d { last_status = now }) r in
    ground (arith, started)
