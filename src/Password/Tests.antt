-- ===== src/Password/Tests.antt =====
-- Password.h: tests.
use esp8266_dns.Base.{Bytes, arith, codes, length, refl, replicate, true, ◌%◌, ◌≡◌, ◌≤◌}
use esp8266_dns.Password.{Hmac, check, derive, hashed, max_len, password_text, rounds}
use esp8266_dns.Password.Check.{check-password_text, check-plain}
use esp8266_dns.Password.Same.{AllBytes}
use mathlib.Core.Logic.{◌↔◌}

-- A stand-in for HMAC-SHA1 with the size of its digest.
abbrev toy_digest : Bytes → Bytes → Bytes
toy_digest key message = replicate 20 (length key % 256)

toy_digest-bytes : (key message : Bytes) → AllBytes (toy_digest key message)
toy_digest-bytes key message = omega arith

abbrev toy : Hmac
toy = record {
  digest = toy_digest;
  digest_size = λ (key message : Bytes). refl;
  digest_bytes = toy_digest-bytes;
}

abbrev some_salt : Bytes
some_salt = replicate 16 0xA5

check-password_text_example :
    (check toy (codes "secret") (password_text toy (codes "hunter2") some_salt) ≡ true) ↔ (
      (length (codes "secret") ≤ max_len)
      × (derive toy (codes "secret") some_salt rounds
          ≡ derive toy (codes "hunter2") some_salt rounds))
check-password_text_example =
    check-password_text toy (codes "secret") (codes "hunter2") some_salt refl (omega arith)

plain_accepted : check toy (codes "old") (codes "old") ≡ true
plain_accepted =
    (check-plain toy (codes "old") (codes "old") (unfold hashed in refl) (omega arith) (omega arith)
        (omega arith)).1
      (omega arith, refl)
