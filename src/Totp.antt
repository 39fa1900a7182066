-- ===== src/Totp.antt =====
-- Totp.h: authenticator codes (RFC 6238) and the texts of the key. The HMAC of BearSSL is a
-- parameter. A text is the list of its bytes before the terminating zero.
pub mod Hex
pub mod Base32
pub mod Digits
pub mod Verify
mod Tests
use Prim.Native.Nat.{bit_or, bit_xor}
use esp8266_dns.Base.{
  ℕ, zero, suc, ◌+◌, ◌*◌, ◌-◌, ◌/◌, ◌%◌, ◌^◌, Bool, true, false, not, ◌&&◌, ◌||◌, Option, none,
  some, List, [], ◌∷◌, ◌++◌, Bytes, codes, length, get_or, replicate, ltb, leb, ◌==◌, within,
  if◌then◌else◌, u8, u32,
}
use esp8266_dns.Base.Int.{ℤ, pos, negsuc}
use esp8266_dns.Base.Decimal.{is_digit}
use esp8266_dns.Base.Hex.{hex_digit}

abbrev pub key_len : ℕ
key_len = 20

-- The bytes joined by `|`.
unfoldable pub join_from : ℕ → Bytes → ℕ
join_from d [] = d
join_from d (b ∷ k) = join_from (bit_or d b) k

-- An all-zero key means "not enrolled".
unfoldable pub blank : Bytes → Bool
unfolding join_from
blank k = join_from 0 k == 0

-- Four bytes of each of five random numbers, the first byte with its low bit on.
unfoldable pub random_bytes : List ℕ → Bytes
random_bytes [] = []
random_bytes (r ∷ rs) = u8 r ∷ u8 (r / 256) ∷ u8 (r / 65536) ∷ u8 (r / 16777216) ∷ random_bytes rs

set_low_bit : Bytes → Bytes
set_low_bit [] = []
set_low_bit (b ∷ k) = bit_or b 1 ∷ k

-- `randomKey`, of the five numbers that `ESP.random()` gave.
unfoldable pub random_key : List ℕ → Bytes
unfolding random_bytes set_low_bit
random_key rs = set_low_bit (random_bytes rs)

unfoldable pub to_hex : Bytes → Bytes
to_hex [] = []
to_hex (b ∷ k) = hex_digit (b / 16) ∷ hex_digit (b % 16) ∷ to_hex k

unfoldable pub nibble : ℕ → Option ℕ
nibble c =
    if within b'0' b'9' c
    then some (c - b'0')
    else if within b'a' b'f' c
    then some (c - b'a' + 10)
    else if within b'A' b'F' c
    then some (c - b'A' + 10)
    else none

-- `(hi << 4) | lo`, of two digits that were read.
abbrev pub pair : Option ℕ → Option ℕ → Option ℕ
pair (some hi) (some lo) = some (u8 (hi * 16 + lo))
pair (some hi) none = none
pair none lo = none

abbrev pub push_front : Option ℕ → Option Bytes → Option Bytes
push_front (some b) (some k) = some (b ∷ k)
push_front (some b) none = none
push_front none k = none

-- The loop of `fromHex`, over pairs of digits.
unfoldable pub hex_bytes : Bytes → Option Bytes
unfolding nibble
hex_bytes [] = some []
hex_bytes (a ∷ []) = none
hex_bytes (a ∷ b ∷ s) = push_front (pair (nibble a) (nibble b)) (hex_bytes s)

-- A key of zeros is refused.
abbrev pub enrolled : Option Bytes → Option Bytes
enrolled none = none
enrolled (some k) = if not (blank k) then some k else none

-- `none` stands for false with the key cleared; so it does below.
unfoldable pub from_hex : Option Bytes → Option Bytes
from_hex none = none
from_hex (some s) = if not (length s == key_len * 2) then none else enrolled (hex_bytes s)

-- `A[v]`, of the alphabet "ABCDEFGHIJKLMNOPQRSTUVWXYZ234567".
unfoldable pub b32_char : ℕ → ℕ
b32_char v = get_or (codes "ABCDEFGHIJKLMNOPQRSTUVWXYZ234567") v 0

-- `while (bits >= 5)`; a round takes five bits, so `bits` rounds are more than enough.
unfoldable pub b32_emit : ℕ → ℕ → ℕ → Bytes × ℕ
unfolding b32_char
b32_emit zero bits buf = ([], bits)
b32_emit (suc fuel) bits buf =
    let (rest, left) = b32_emit fuel (bits - 5) buf in
    if leb 5 bits then (b32_char (buf / 2 ^ (bits - 5) % 32) ∷ rest, left) else ([], bits)

-- The loop of `toBase32`. The low eight bits of `buf << 8` are clear, so `| k[i]` adds.
unfoldable pub b32_from : ℕ → ℕ → Bytes → Bytes
unfolding b32_emit
b32_from buf bits [] = []
b32_from buf bits (b ∷ k) =
    let buf' = (buf * 256 + b) % 65536 in
    let (out, left) = b32_emit (bits + 8) (bits + 8) buf' in out ++ b32_from buf' left k

unfoldable pub to_base32 : Bytes → Bytes
unfolding b32_from
to_base32 k = b32_from 0 0 k

unfoldable pub b32 : ℕ → Option ℕ
b32 c =
    if within b'A' b'Z' c
    then some (c - b'A')
    else if within b'a' b'z' c
    then some (c - b'a')
    else if within b'2' b'7' c
    then some (c - b'2' + 26)
    else none

-- What the loop of `fromBase32` keeps; the bytes of the key so far are `n` in number.
pub record Decoder : Type 0 where
  pub buf : ℕ
  pub bits : ℕ
  pub key : Bytes

-- One character of five bits.
unfoldable pub b32_take : Decoder → Option ℕ → Option Decoder
b32_take d none = none
b32_take d (some v) =
    let buf' = (d.buf * 32 + v) % 65536 in
    let bits' = d.bits + 5 in
    if ltb bits' 8
    then some (record { buf = buf'; bits = bits'; key = d.key })
    else if length d.key == key_len
    then none
    else some (record {
      buf = buf';
      bits = bits' - 8;
      key = d.key ++ (buf' / 2 ^ (bits' - 8) % 256) ∷ [];
    })

b32_end : Decoder → Option Bytes
b32_end d = if not (length d.key == key_len) || not (d.bits == 0) then none else some d.key

unfoldable pub b32_decode : Bytes → Decoder → Option Bytes
unfolding b32_end
b32_decode [] d = b32_end d
b32_decode (c ∷ s) d = elim (c == b'=') [
  | true ↦ b32_end d
  | false ↦ elim (c == b' ') [
    | true ↦ b32_decode s d
    | false ↦ elim (b32_take d (b32 c)) [ none ↦ none | some e ↦ b32_decode s e ]
  ]
]

unfoldable pub from_base32 : Option Bytes → Option Bytes
from_base32 none = none
from_base32 (some s) = b32_decode s (record { buf = 0; bits = 0; key = [] })

-- `format`: six decimal digits.
unfoldable pub format : ℕ → Bytes
format otp =
    (b'0' + otp / 100000 % 10)
    ∷ (b'0' + otp / 10000 % 10)
    ∷ (b'0' + otp / 1000 % 10)
    ∷ (b'0' + otp / 100 % 10)
    ∷ (b'0' + otp / 10 % 10)
    ∷ (b'0' + otp % 10)
    ∷ []

unfoldable pub all_digits : Bytes → Bool
all_digits [] = true
all_digits (c ∷ s) = is_digit c && all_digits s

-- `d |= expect[i] ^ code[i]`, over two codes of the same length.
unfoldable pub difference : ℕ → Bytes → Bytes → ℕ
difference d (a ∷ s) (b ∷ t) = difference (bit_or d (bit_xor a b)) s t
difference d _ _ = d

-- What the loop of `verify` keeps: `ok` and `hit`.
pub record Match : Type 0 where
  pub ok : Bool
  pub hit : ℕ

abbrev pub newer : Option ℕ → ℕ → Bool
newer none c = true
newer (some last) c = ltb last c

-- `if (last) *last = hit`
abbrev pub written : Option ℕ → ℕ → Option ℕ
written none c = none
written (some last) c = some c

-- BearSSL's HMAC-SHA1 of a message of 8 bytes.
module _ (hmac : Bytes → Bytes → Bytes) where
  unfoldable pub hotp : Bytes → ℕ → ℕ
  hotp key counter =
      let mac = hmac key (
        0
        ∷ 0
        ∷ 0
        ∷ 0
        ∷ u8 (counter / 16777216)
        ∷ u8 (counter / 65536)
        ∷ u8 (counter / 256)
        ∷ u8 counter
        ∷ []) in
      let off = get_or mac 19 0 % 16 in
      (get_or mac off 0 % 128 * 16777216
        + get_or mac (off + 1) 0 * 65536
        + get_or mac (off + 2) 0 * 256
        + get_or mac (off + 3) 0)
      % 1000000

  unfoldable pub code_at : Bytes → ℕ → Bytes
  code_at key now = format (hotp key (now / 30))

  -- One round of the window, at the step `c`.
  unfoldable pub check_step : Bytes → Bytes → Option ℕ → ℕ → Match → Match
  check_step key code last c m =
      let hits = difference 0 (format (hotp key c)) code == 0 && newer last c in
      record { ok = m.ok || hits; hit = if hits then c else m.hit }

  -- The three rounds; at step 0 there is none before it.
  unfoldable pub check_window : Bytes → Bytes → Option ℕ → ℕ → Match
  check_window key code last step =
      let start : Match = record { ok = false; hit = 0 } in
      let before = if step == 0 then start else check_step key code last (step - 1) start in
      check_step key code last (step + 1) (check_step key code last step before)

  -- The answer and `*last`, where there is one.
  unfoldable pub verify : Bytes → ℤ → Option Bytes → Option ℕ → Bool × Option ℕ
  verify key now none last = (false, last)
  verify key (negsuc n) (some code) last = (false, last)
  verify key (pos now) (some code) last =
      if now == 0 || not (length code == 6) || not (all_digits code)
      then (false, last)
      else (let m = check_window key code last (u32 now / 30) in
          (m.ok, if m.ok then written last m.hit else last))
