-- ===== src/Wifi/Watchdogs.antt =====
-- WiFiService.h: the restarts that the watchdogs schedule.
use esp8266_dns.Base.{
  Bool, List, [], arith, false, if◌then◌else◌, inr, leb, true, ℕ, ◌+◌, ◌<◌, ◌||◌, ◌∷◌, ◌≡◌, ◌⊎◌,
}
use esp8266_dns.Wifi.{WifiService, check_memory, schedule_restart}

-- Checks of the memory in a row, the last first.
unfoldable pub checks : List (Bool × ℕ) → WifiService → WifiService
checks [] d = d
checks ((critical, ms) ∷ cs) d = check_memory critical ms (checks cs d)

-- The number of the last checks that found the memory critical.
unfoldable pub strikes : List (Bool × ℕ) → ℕ
strikes [] = 0
strikes ((critical, ms) ∷ cs) = let n = strikes cs in if critical then n + 1 else 0

-- Three critical checks follow one another somewhere.
unfoldable pub three_in_a_row : List (Bool × ℕ) → Bool
three_in_a_row [] = false
three_in_a_row (c ∷ cs) = let before = three_in_a_row cs in leb 3 (strikes (c ∷ cs)) || before

-- The count of the strikes is exact until a restart is scheduled.
record Counts (cs : List (Bool × ℕ)) (d : WifiService) : Type 0 where
  scheduled : d.restart_pending ≡ three_in_a_row cs
  counted : (d.restart_pending ≡ true) ⊎ ((d.mem_strikes ≡ strikes cs) × (strikes cs < 3))

check_memory-Counts :
    (critical : Bool) (ms : ℕ) (cs : List (Bool × ℕ)) (d : WifiService)
    → Counts cs d
    → Counts ((critical, ms) ∷ cs) (check_memory critical ms d)
unfolding check_memory schedule_restart strikes three_in_a_row
check_memory-Counts critical ms cs d h = ground (arith, h)

checks-Counts :
    (cs : List (Bool × ℕ)) (d : WifiService)
    → d.mem_strikes ≡ 0
    → d.restart_pending ≡ false
    → Counts cs (checks cs d)
unfolding checks
checks-Counts [] d m r =
    unfold strikes three_in_a_row in record { scheduled = r; counted = inr (m, omega arith) }
checks-Counts ((critical, ms) ∷ cs) d m r =
    check_memory-Counts critical ms cs (checks cs d) (checks-Counts cs d m r)

-- Over any row of checks of the memory, a restart is scheduled exactly if three of them in a row
-- found it critical.
checks-restart_pending :
    (cs : List (Bool × ℕ)) (d : WifiService)
    → d.mem_strikes ≡ 0
    → d.restart_pending ≡ false
    → (checks cs d).restart_pending ≡ three_in_a_row cs
checks-restart_pending cs d m r = (checks-Counts cs d m r).scheduled
