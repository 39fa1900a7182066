-- ===== src/Iot/Hours.antt =====
-- IoTService.h, `localMinute` and `inHours`: the time window of the rule.
pub mod Window
use esp8266_dns.Base.{
  ℕ, ◌+◌, ◌*◌, ◌-◌, ◌/◌, ◌%◌, Bool, true, false, ◌&&◌, ◌||◌, not, Option, none, some, ltb, leb,
  if◌then◌else◌,
}
use esp8266_dns.Base.Int.{ℤ, pos, negsuc, ◌+ℤ◌, ◌*ℤ◌, pos_part, neg_part, sub_ℕ}
use esp8266_dns.Iot.Config.{IoTConfig}

-- The remainder of C by a positive number: it has the sign of the dividend.
unfoldable pub rem_ℤ : ℤ → ℕ → ℤ
rem_ℤ (pos a) b = pos (a % b)
rem_ℤ (negsuc a) b = sub_ℕ 0 ((a + 1) % b)

-- The minute of the day in local time. `clock` is the time of a clock that is synchronised, and
-- `tz` the zone's minutes from UTC. The cast of the time to 32 bits is exact until 2106.
unfoldable pub local_minute : Option ℕ → ℤ → Option ℕ
unfolding rem_ℤ
local_minute none tz = none
local_minute (some clock) tz =
    let t = pos (clock % 4294967296 % 86400) +ℤ (tz *ℤ pos 60) in
    some (pos_part (rem_ℤ (rem_ℤ t 86400 +ℤ pos 86400) 86400) / 60)

-- The test of the window at the minute `m`; a window that ends before it starts wraps.
unfoldable pub in_window : ℕ → ℕ → ℕ → Bool
in_window start end m = if ltb start end then leb start m && ltb m end else leb start m || ltb m end

unfoldable pub in_hours : IoTConfig → Option ℕ → Bool
unfolding in_window
in_hours r none = not r.window
in_hours r (some m) = if not r.window then true else in_window r.win_start r.win_end m
