-- ===== src/Iot/Hours/Window.antt =====
-- IoTService.h, `localMinute` and `inHours`, against the clock as a circle of 1440 minutes.
use esp8266_dns.Base.{ℕ, ◌+◌, ◌-◌, ◌/◌, ◌%◌, ◌≡◌, ◌<◌, true, some, ltb, if◌then◌else◌, arith, ◌==◌}
use esp8266_dns.Base.Int.{ℤ, pos, negsuc, ◌+ℤ◌, ◌*ℤ◌, pos_part, neg_part}
use esp8266_dns.Iot.Hours.{local_minute, in_window}

-- How many minutes after `start` the minute `m` comes, going round the day.
abbrev pub minutes_after : ℕ → ℕ → ℕ
minutes_after start m = (m + 1440 - start) % 1440

-- A minute is in the window exactly when it comes after the start and before the end, going round the
-- day, whether or not midnight lies between. Where start and end are the same minute, the
-- window is the whole day.
in_window_lem :
    (start end m : ℕ)
    → start < 1440
    → end < 1440
    → m < 1440
    → in_window start end m ≡ (
        if minutes_after start end == 0
        then true
        else ltb (minutes_after start m) (minutes_after start end))
unfolding in_window
in_window_lem start end m a b c = ground arith

-- The local minute lies within a day and is the minute of UTC moved by the zone, for a zone within
-- a day of UTC: adding a day to both sides keeps the sum positive.
local_minute_lem :
    (clock : ℕ) (tz : ℤ)
    → clock < 4294967296
    → pos_part tz < 1440
    → neg_part tz < 1440
    → local_minute (some clock) tz ≡ some ((clock / 60 + 1440 + pos_part tz - neg_part tz) % 1440)
unfolding local_minute ◌+ℤ◌ ◌*ℤ◌
local_minute_lem clock (pos n) c p q = ground arith
local_minute_lem clock (negsuc n) c p q = ground arith
