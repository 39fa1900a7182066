-- ===== src/Totp/Base32/RoundTrip.antt =====
-- Totp.h, `fromBase32` of what `toBase32` wrote: a key of 20 bytes is four blocks of five.
use esp8266_dns.Base.{append-nil}
use esp8266_dns.Base.{
  ℕ, zero, suc, ◌+◌, ◌*◌, ◌≡◌, ap, ◌∙◌, some, List, [], ◌∷◌, ◌++◌, append_assoc, length,
  length-append, All, arith,
}
use esp8266_dns.Totp.{b32_from, to_base32, b32_decode, b32_end, from_base32, key_len}
use esp8266_dns.Totp.Hex.{IsByte}
use esp8266_dns.Totp.Base32.{b32_from-block, b32_decode-block}

finished :
    (e d : ℕ) (key : List ℕ)
    → length key + 0 ≡ 20
    → b32_decode (b32_from e 0 []) (record { buf = d; bits = 0; key = key }) ≡ some (key ++ [])
unfolding b32_decode b32_end b32_from
finished e d key h = ground (arith, append-nil key)

blocks :
    (m e d : ℕ) (key k : List ℕ)
    → length k ≡ m * 5
    → length key + length k ≡ 20
    → All IsByte k
    → b32_decode (b32_from e 0 k) (record { buf = d; bits = 0; key = key }) ≡ some (key ++ k)
blocks zero e d key [] l n h = finished e d key n
blocks zero e d key (a ∷ k) l n h = absurd (omega (arith, l))
blocks (suc m) e d key (a ∷ b ∷ c ∷ x ∷ y ∷ k) l n h =
    let five : All IsByte (a ∷ b ∷ c ∷ x ∷ y ∷ []) =
      (h.0, (h.1.0, (h.1.1.0, (h.1.1.1.0, (h.1.1.1.1.0, tt))))) in
    let (e', out) = b32_from-block e a b c x y k five in
    let (d', back) = b32_decode-block a b c x y five d key (b32_from e' 0 k) (omega (arith, n)) in
    let key' = key ++ a ∷ b ∷ c ∷ x ∷ y ∷ [] in
    let grown = length-append key (a ∷ b ∷ c ∷ x ∷ y ∷ []) in
    ap (λ s. b32_decode s (record { buf = d; bits = 0; key = key })) out
    ∙ back
    ∙ blocks m e' d' key' k (omega (arith, l)) (omega (arith, n, grown)) h.1.1.1.1.1
    ∙ ap some (append_assoc key (a ∷ b ∷ c ∷ x ∷ y ∷ []) k)
blocks (suc m) e d key [] l n h = absurd (omega (arith, l))
blocks (suc m) e d key (a ∷ []) l n h = absurd (omega (arith, l))
blocks (suc m) e d key (a ∷ b ∷ []) l n h = absurd (omega (arith, l))
blocks (suc m) e d key (a ∷ b ∷ c ∷ []) l n h = absurd (omega (arith, l))
blocks (suc m) e d key (a ∷ b ∷ c ∷ x ∷ []) l n h = absurd (omega (arith, l))

-- A key of 20 bytes, written in base 32 and read again, is the same key.
from_base32-to_base32 :
    (k : List ℕ) → length k ≡ key_len → All IsByte k → from_base32 (some (to_base32 k)) ≡ some k
unfolding from_base32 to_base32
from_base32-to_base32 k l h = blocks 4 0 0 [] k l (omega (arith, l)) h
