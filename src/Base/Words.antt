-- ===== src/Base/Words.antt =====
-- Machine words as native numbers: `uint8_t`, `uint16_t`, `uint32_t`. On the ESP8266
-- `unsigned long`, `size_t` and the milliseconds of `millis()` are 32 bits wide.
use Prim.Native.Nat.{ℕ, ◌+◌, ◌-◌, ◌%◌, ◌<◌}
use mathlib.Core.Path.{◌≡◌}
use mathlib.Core.Bool.{Bool}
use native.Mathlib.Omega.{arith}
use esp8266_dns.Base.Tests.{ltb}

-- Arithmetic on 32 bits.
abbrev pub u32 : ℕ → ℕ
u32 v = v % 4294967296

abbrev pub u16 : ℕ → ℕ
u16 v = v % 65536

-- A cast to one byte.
abbrev pub u8 : ℕ → ℕ
u8 v = v % 256

-- `a - b` on 32-bit words: it wraps around below 0.
abbrev pub sub32 : ℕ → ℕ → ℕ
sub32 a b = (a + 4294967296 - b) % 4294967296

-- `(long)(a - b) >= 0`: the time `a` is at or after `b`, across the wrap.
abbrev pub reached : ℕ → ℕ → Bool
reached a b = ltb (sub32 a b) 2147483648

-- A span of time measured across the wrap of the 32-bit clock is the true span.
pub sub32_span :
    (start d : ℕ) → start < 4294967296 → d < 4294967296 → sub32 (u32 (start + d)) start ≡ d
sub32_span start d h k = omega arith
