-- ===== src/Base/Hex.antt =====
-- Hexadecimal text in lower case, as `%02x`, `%06lx` and `%08x` print it.
use Prim.Native.Nat.{ℕ, ◌+◌, ◌-◌, ◌/◌, ◌%◌}
use mathlib.Core.List.{[], ◌∷◌}
use esp8266_dns.Base.Tests.{ltb, if◌then◌else◌}
use esp8266_dns.Base.Lists.{Bytes}

unfoldable pub hex_digit : ℕ → ℕ
hex_digit d = if ltb d 10 then b'0' + d else b'a' + (d - 10)

-- The six digits of a value of 24 bits.
unfoldable pub hex6 : ℕ → Bytes
hex6 v =
    hex_digit (v / 1048576 % 16)
    ∷ hex_digit (v / 65536 % 16)
    ∷ hex_digit (v / 4096 % 16)
    ∷ hex_digit (v / 256 % 16)
    ∷ hex_digit (v / 16 % 16)
    ∷ hex_digit (v % 16)
    ∷ []

-- The eight digits of a value of 32 bits.
unfoldable pub hex8 : ℕ → Bytes
unfolding hex6
hex8 v = hex_digit (v / 268435456 % 16) ∷ hex_digit (v / 16777216 % 16) ∷ hex6 v
