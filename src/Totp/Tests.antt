-- ===== src/Totp/Tests.antt =====
-- Totp.h at concrete inputs. In these runs the MAC is the message with the key behind it, so that
-- the code of a step is its number.
use esp8266_dns.Base.{All, Bytes, List, [], arith, codes, refl, some, take, true, ℕ, ◌++◌, ◌∷◌, ◌≡◌}
use esp8266_dns.Base.Decimal.{is_digit}
use esp8266_dns.Base.Int.{pos, ℤ}
use esp8266_dns.Totp.{
  all_digits, b32_char, b32_emit, b32_from, check_step, check_window, difference, format, hotp,
  to_base32, verify, written,
}
use esp8266_dns.Totp.Hex.{IsByte}
use esp8266_dns.Totp.Verify.{
  Accepts, LaterThan, sign_ins, sign_ins-LaterThan, verify_complete, verify_sound,
}

abbrev mac : Bytes → Bytes → Bytes
mac key message = take 20 (message ++ key)

abbrev secret : Bytes
secret = codes "12345678901434567890"

abbrev code : Bytes
code = codes "000001"

secret-IsByte : All IsByte secret
secret-IsByte = ground arith

base32-text : to_base32 (codes "12345678901234567890") ≡ codes "GEZDGNBVGY3TQOJQGEZDGNBVGY3TQOJQ"
unfolding to_base32 b32_from b32_emit b32_char
base32-text = refl

accepted : (verify mac secret (pos 59) (some code) (some 0)).0 ≡ true
unfolding verify check_window check_step hotp format difference all_digits is_digit
accepted = refl

accepts : Accepts mac secret code (some 0) 59 1
unfolding hotp format
accepts = record { not_early = omega arith; not_late = omega arith; matches = refl; fresh = refl }

verify_sound_example :
    (n : ℕ) × (c : ℕ) × (pos 59 ≡ pos n)
    × Accepts mac secret code (some 0) n c
    × ((verify mac secret (pos 59) (some code) (some 0)).1 ≡ written (some 0) c)
verify_sound_example = verify_sound mac secret (pos 59) code (some 0) accepted

verify_complete_example : (verify mac secret (pos 59) (some code) (some 0)).0 ≡ true
verify_complete_example = verify_complete mac secret 59 1 code (some 0) (omega arith) accepts

-- The same code twice: only the first attempt is accepted.
abbrev attempts : List (ℤ × Bytes)
attempts = (pos 59, code) ∷ (pos 58, code) ∷ []

accepted_once : (sign_ins mac secret attempts 0).0 ≡ 1 ∷ []
unfolding sign_ins verify check_window check_step hotp format difference all_digits is_digit
accepted_once = refl

sign_ins-LaterThan_example : LaterThan 0 (sign_ins mac secret attempts 0).0
sign_ins-LaterThan_example = sign_ins-LaterThan mac secret attempts 0
