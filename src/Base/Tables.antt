-- ===== src/Base/Tables.antt =====
-- Facts about bytes and small masks, by evaluation at every value.
use Prim.Native.Nat.{ℕ, zero, suc, ◌<◌}
use mathlib.Core.Bool.{Bool, true, false}
use mathlib.Core.Path.{◌≡◌}
use native.Mathlib.Omega.{arith}
use esp8266_dns.Base.Tests.{if◌then◌else◌}

-- The test succeeds at every number below the bound.
unfoldable pub each_below : (bound : ℕ) (test : ℕ → Bool) → Bool
each_below zero test = true
each_below (suc top) test = let rest = each_below top test in if test top then rest else false

pub each_below_sound :
    (bound : ℕ) (test : ℕ → Bool) (i : ℕ) → each_below bound test ≡ true → i < bound → test i ≡ true
unfolding each_below
each_below_sound zero test i all low = absurd (omega arith)
each_below_sound (suc top) test i all low = ground (arith, each_below_sound top test i)
