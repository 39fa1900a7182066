-- ===== src/Password.antt =====
-- Password.h: the stored text of the panel's password, and the check of an attempt. HMAC-SHA1 is
-- BearSSL's: it comes as an argument.
pub mod Same
pub mod Check
mod Tests
use Prim.Native.Nat.{bit_or, bit_xor}
use esp8266_dns.Base.{
  All, Bool, Bytes, [], bytes_eq, codes, drop, false, if◌then◌else◌, leb, length, ltb, not, suc,
  take, u8, zero, ℕ, ◌%◌, ◌&&◌, ◌*◌, ◌++◌, ◌+◌, ◌-◌, ◌/◌, ◌<◌, ◌==◌, ◌||◌, ◌∷◌, ◌≡◌,
}
use esp8266_dns.Base.Hex.{hex_digit}
use esp8266_dns.Logger.{count}

-- What the code relies on: a digest has 20 bytes.
pub record Hmac : Type 0 where
  pub digest : Bytes → Bytes → Bytes
  pub digest_size : (key message : Bytes) → length (digest key message) ≡ 20
  pub digest_bytes : (key message : Bytes) → All (λ c. c < 256) (digest key message)

abbrev pub salt_len : ℕ
salt_len = 16

abbrev pub key_len : ℕ
key_len = 20

abbrev pub rounds : ℕ
rounds = 4096

abbrev pub max_len : ℕ
max_len = 64

abbrev pub text_len : ℕ
text_len = 80

abbrev pub prefix : Bytes
prefix = codes "pbkdf2:"

-- `out[i] ^= u[i]`
unfoldable pub xor_bytes : Bytes → Bytes → Bytes
xor_bytes (x ∷ s) (y ∷ t) = bit_xor x y ∷ xor_bytes s t
xor_bytes s _ = s

unfoldable pub to_hex : Bytes → Bytes
unfolding hex_digit
to_hex [] = []
to_hex (b ∷ s) = hex_digit (b / 16) ∷ hex_digit (b % 16) ∷ to_hex s

-- A digit as `_unhex` reads it: it does not check that it is one.
unfoldable pub hex_value : ℕ → ℕ
hex_value c =
    if leb c b'9'
    then (c + 256 - b'0') % 256
    else ((if c / 32 % 2 == 1 then c else c + 32) + 256 - b'a' + 10) % 256

unfoldable pub unhex : ℕ → Bytes → Bytes
unfolding hex_value
unhex zero s = []
unhex (suc n) (a ∷ b ∷ s) = u8 (hex_value a * 16 + hex_value b) ∷ unhex n s
unhex (suc n) s = []

abbrev pub byte_at : Bytes → ℕ
byte_at [] = 0
byte_at (c ∷ s) = c

unfoldable pub same_from : ℕ → ℕ → Bytes → Bytes → ℕ
same_from zero d a b = d
same_from (suc n) d a b =
    same_from n (bit_or d (bit_xor (byte_at a) (byte_at b))) (drop 1 a) (drop 1 b)

-- As many rounds for every attempt of up to 64 characters.
unfoldable pub same : Bytes → Bytes → Bool
unfolding same_from
same a b =
    let turns = if ltb max_len (length a) then length a else max_len in
    same_from turns (if length a == length b then 0 else 1) a b == 0

unfoldable pub hashed : Bytes → Bool
unfolding bytes_eq
hashed stored = length stored == text_len && bytes_eq (take 7 stored) prefix

module _ (hmac : Hmac) where
  open hmac use {digest}

  -- The rounds behind the first.
  unfoldable pub derive_from : ℕ → Bytes → Bytes → Bytes → Bytes
  derive_from zero pass u out = out
  derive_from (suc n) pass u out = let v = digest pass u in derive_from n pass v (xor_bytes out v)

  unfoldable pub derive : Bytes → Bytes → ℕ → Bytes
  derive pass salt count =
      let u = digest pass (salt ++ (0 ∷ 0 ∷ 0 ∷ 1 ∷ [])) in derive_from (count - 1) pass u u

  -- `_text`; `hash` gives it a salt from the random numbers of the hardware.
  unfoldable pub password_text : Bytes → Bytes → Bytes
  password_text pass salt = prefix ++ (to_hex salt ++ (b':' ∷ to_hex (derive pass salt rounds)))

  unfoldable pub check : Bytes → Bytes → Bool
  check attempt stored =
      let salt = unhex salt_len (drop 7 stored) in
      if ltb max_len (length attempt) || length stored == 0
      then false
      else if not (hashed stored)
      then same attempt stored
      else same (password_text attempt salt) stored
