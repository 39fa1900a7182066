-- ===== src/Totp/Hex.antt =====
-- Totp.h, `toHex` and `fromHex`.
use esp8266_dns.Base.{
  ℕ, ◌+◌, ◌*◌, ◌/◌, ◌%◌, ◌<◌, ◌≡◌, refl, ap, none, some, [], ◌∷◌, Bytes, length, All, arith,
  if◌then◌else◌, u8,
}
use esp8266_dns.Base.Hex.{hex_digit}
use esp8266_dns.Totp.{blank, to_hex, nibble, hex_bytes, from_hex, key_len}

abbrev pub IsByte : ℕ → Type 0
IsByte b = b < 256

nibble-hex_digit : (d : ℕ) → d < 16 → nibble (hex_digit d) ≡ some d
unfolding nibble hex_digit
nibble-hex_digit d h = ground arith

hex_bytes-to_hex : (k : Bytes) → All IsByte k → hex_bytes (to_hex k) ≡ some k
unfolding hex_bytes to_hex
hex_bytes-to_hex [] h = refl
hex_bytes-to_hex (b ∷ k) h =
    let whole : u8 (b / 16 * 16 + b % 16) ≡ b = omega (arith, h.0) in
    rw (nibble-hex_digit (b / 16) (omega (arith, h.0)), nibble-hex_digit (b % 16) (omega arith))
      (rw (hex_bytes-to_hex k h.1) (ap (λ (x : ℕ). some (x ∷ k)) whole))

pub length-to_hex : (k : Bytes) → length (to_hex k) ≡ length k * 2
unfolding to_hex
length-to_hex [] = refl
length-to_hex (b ∷ k) = omega (arith, length-to_hex k)

-- A key of 20 bytes that is not all zeros is read back from its 40 digits; one of zeros is
-- refused.
pub from_hex-to_hex :
    (k : Bytes)
    → All IsByte k
    → length k ≡ key_len
    → from_hex (some (to_hex k)) ≡ (if blank k then none else some k)
unfolding from_hex
from_hex-to_hex k h l = ground (arith, length-to_hex k, hex_bytes-to_hex k h)
