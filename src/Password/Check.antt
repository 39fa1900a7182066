-- ===== src/Password/Check.antt =====
-- Password.h: which attempts are accepted.
use esp8266_dns.Base.{
  &&-split, Bool, Bytes, [], ap, append-nil, arith, bytes_eq, drop, drop-append, false, length,
  length-append, ltb, not, refl, suc, sym, true, u8, zero, ℕ, ◌%◌, ◌&&◌, ◌*◌, ◌++◌, ◌+◌, ◌-◌, ◌/◌,
  ◌<◌, ◌==◌, ◌∙◌, ◌∷◌, ◌≡◌, ◌≤◌,
}
use esp8266_dns.Base.Hex.{hex_digit}
use esp8266_dns.Logger.{count}
use esp8266_dns.Password.{
  Hmac, check, derive, derive_from, hashed, hex_value, key_len, max_len, password_text, prefix,
  rounds, salt_len, same, text_len, to_hex, unhex, xor_bytes,
}
use esp8266_dns.Password.Same.{AllBytes, bytes_eq_iff, same_lem, xor_byte}
use mathlib.Core.Logic.{◌↔◌}

length-to_hex : (s : Bytes) → length (to_hex s) ≡ 2 * length s
unfolding to_hex
length-to_hex [] = omega arith
length-to_hex (b ∷ s) = omega (arith, length-to_hex s)

to_hex-bytes : (s : Bytes) → AllBytes s → AllBytes (to_hex s)
unfolding to_hex hex_digit
to_hex-bytes [] h = tt
to_hex-bytes (b ∷ s) h = (ground arith, (ground arith, to_hex-bytes s h.1))

hex_value-hex_digit : (d : ℕ) → d < 16 → hex_value (hex_digit d) ≡ d
unfolding hex_value hex_digit
hex_value-hex_digit d h = ground arith

unhex-to_hex : (s rest : Bytes) → AllBytes s → unhex (length s) (to_hex s ++ rest) ≡ s
unfolding unhex to_hex
unhex-to_hex [] rest h = refl
unhex-to_hex (b ∷ s) rest h =
    let hi = hex_value-hex_digit (b / 16) (omega arith) in
    let lo = hex_value-hex_digit (b % 16) (omega arith) in
    let byte : u8 (hex_value (hex_digit (b / 16)) * 16 + hex_value (hex_digit (b % 16))) ≡ b =
      omega (arith, hi, lo) in
    rw byte (ap (◌∷◌ b) (unhex-to_hex s rest h.1))

-- Two keys are the same exactly when their digits are.
to_hex_injective :
    (a b : Bytes) → AllBytes a → AllBytes b → length a ≡ length b → to_hex a ≡ to_hex b → a ≡ b
to_hex_injective a b h k n e =
    sym (unhex-to_hex a [] h)
    ∙ ap (λ (t : Bytes). unhex (length a) (t ++ [])) e
    ∙ ap (λ (m : ℕ). unhex m (to_hex b ++ [])) n
    ∙ unhex-to_hex b [] k

length-xor_bytes : (s t : Bytes) → length (xor_bytes s t) ≡ length s
unfolding xor_bytes
length-xor_bytes [] t = refl
length-xor_bytes (x ∷ s) [] = refl
length-xor_bytes (x ∷ s) (y ∷ t) = ap suc (length-xor_bytes s t)

xor_bytes-bytes : (s t : Bytes) → AllBytes s → AllBytes t → AllBytes (xor_bytes s t)
unfolding xor_bytes
xor_bytes-bytes [] t h k = tt
xor_bytes-bytes (x ∷ s) [] h k = h
xor_bytes-bytes (x ∷ s) (y ∷ t) h k = ((xor_byte x y h.0 k.0).0, xor_bytes-bytes s t h.1 k.1)

All-append : (s t : Bytes) → AllBytes s → AllBytes t → AllBytes (s ++ t)
All-append [] t h k = k
All-append (c ∷ s) t h k = (h.0, All-append s t h.1 k)

hashed-prefix : (s : Bytes) → length (prefix ++ s) ≡ text_len → hashed (prefix ++ s) ≡ true
unfolding hashed
hashed-prefix s h = rw h refl

both :
    {P Q : Type 0} (n : ℕ) (b : Bool)
    → (b ≡ true) ↔ P
    → P ↔ Q
    → ((not (ltb max_len n) && b) ≡ true) ↔ ((n ≤ max_len) × Q)
both n b p q = (
  λ h. (ground (arith, h), q.0 (p.0 (&&-split (not (ltb max_len n)) b h).1)),
  λ h. let low : ltb max_len n ≡ false = ground (arith, h.0) in rw low (p.1 (q.1 h.1)),
)

module _ (hmac : Hmac) where
  open hmac use {digest, digest_size, digest_bytes}

  derive_from-key :
      (n : ℕ) (pass u out : Bytes)
      → length out ≡ key_len
      → AllBytes out
      → (length (derive_from hmac n pass u out) ≡ key_len)
        × AllBytes (derive_from hmac n pass u out)
  unfolding derive_from
  derive_from-key zero pass u out h k = (h, k)
  derive_from-key (suc n) pass u out h k =
      let v = digest pass u in
      derive_from-key n pass v (xor_bytes out v) (length-xor_bytes out v ∙ h)
        (xor_bytes-bytes out v k (digest_bytes pass u))

  derive-key :
      (pass salt : Bytes) (count : ℕ)
      → (length (derive hmac pass salt count) ≡ key_len) × AllBytes (derive hmac pass salt count)
  unfolding derive
  derive-key pass salt count =
      let first_message = salt ++ (0 ∷ 0 ∷ 0 ∷ 1 ∷ []) in
      derive_from-key (count - 1) pass (digest pass first_message) (digest pass first_message)
        (digest_size pass first_message) (digest_bytes pass first_message)

  -- The text of a password, in its parts.
  password_text-parts :
      (pass salt : Bytes)
      → length salt ≡ salt_len
      → AllBytes salt
      → (length (password_text hmac pass salt) ≡ text_len)
        × AllBytes (password_text hmac pass salt)
        × (hashed (password_text hmac pass salt) ≡ true)
        × (unhex salt_len (drop 7 (password_text hmac pass salt)) ≡ salt)
  unfolding password_text
  password_text-parts pass salt h k =
      let key = derive hmac pass salt rounds in
      let end = b':' ∷ to_hex key in
      let size : length (to_hex salt ++ end) ≡ 73 = omega (
        arith,
        length-append (to_hex salt) end,
        length-to_hex salt,
        length-to_hex key,
        (derive-key pass salt rounds).0,
        h,
      ) in
      let whole : length (prefix ++ (to_hex salt ++ end)) ≡ text_len = omega (arith, size) in
      (
        whole,
        All-append prefix (to_hex salt ++ end) (omega arith) (
            All-append (to_hex salt) end (to_hex-bytes salt k)
              (omega arith, to_hex-bytes key (derive-key pass salt rounds).1)),
        hashed-prefix (to_hex salt ++ end) whole,
        ap (λ (n : ℕ). unhex n (to_hex salt ++ end)) (sym h) ∙ unhex-to_hex salt end k,
      )

  -- The key can be read off the text.
  password_text-key :
      (pass salt : Bytes)
      → length salt ≡ salt_len
      → unhex key_len (drop 40 (password_text hmac pass salt)) ≡ derive hmac pass salt rounds
  unfolding password_text
  password_text-key pass salt h =
      let key = derive hmac pass salt rounds in
      let k = derive-key pass salt rounds in
      let end = b':' ∷ to_hex key in
      let size : 33 ≡ length (to_hex salt) + 1 = omega (arith, length-to_hex salt) in
      ap (λ (n : ℕ). unhex key_len (drop n (to_hex salt ++ end))) size
      ∙ ap (unhex key_len) (drop-append (to_hex salt) end 1 ∙ sym (append-nil (to_hex key)))
      ∙ ap (λ (n : ℕ). unhex n (to_hex key ++ [])) (sym k.0)
      ∙ unhex-to_hex key [] k.1

  -- The texts of two passwords with one salt are the same exactly when the keys are.
  password_text_iff :
      (attempt pass salt : Bytes)
      → length salt ≡ salt_len
      → (password_text hmac attempt salt ≡ password_text hmac pass salt)
        ↔ (derive hmac attempt salt rounds ≡ derive hmac pass salt rounds)
  password_text_iff attempt pass salt h = (
    λ e.
        sym (password_text-key attempt salt h)
        ∙ ap (λ (t : Bytes). unhex key_len (drop 40 t)) e
        ∙ password_text-key pass salt h,
    λ e. unfold password_text in ap (λ (k : Bytes). prefix ++ (to_hex salt ++ (b':' ∷ to_hex k))) e,
  )

  check-hashed :
      (attempt stored : Bytes)
      → hashed stored ≡ true
      → 0 < length stored
      → check hmac attempt stored ≡ (
          not (ltb max_len (length attempt))
          && same (password_text hmac attempt (unhex salt_len (drop 7 stored))) stored)
  unfolding check
  check-hashed attempt stored h p =
      let some_text : (length stored == 0) ≡ false = ground arith in
      rw h (rw some_text (ground arith))

  -- A stored hash accepts an attempt exactly when the attempt has 64 characters at most and the same
  -- key comes of it with the stored salt; so the password itself is accepted.
  pub check-password_text :
      (attempt pass salt : Bytes)
      → length salt ≡ salt_len
      → AllBytes salt
      → (check hmac attempt (password_text hmac pass salt) ≡ true) ↔ (
          (length attempt ≤ max_len)
          × (derive hmac attempt salt rounds ≡ derive hmac pass salt rounds))
  check-password_text attempt pass salt h k =
      let t = password_text-parts pass salt h k in
      let u = password_text-parts attempt salt h k in
      let stored = password_text hmac pass salt in
      let tried = password_text hmac attempt salt in
      let opened : check hmac attempt stored
          ≡ (not (ltb max_len (length attempt)) && bytes_eq tried stored) =
        check-hashed attempt stored t.2 (omega (arith, t.0))
        ∙ ap
            (λ (s : Bytes).
              not (ltb max_len (length attempt)) && same (password_text hmac attempt s) stored)
            t.3
        ∙ ap (λ (b : Bool). not (ltb max_len (length attempt)) && b)
            (same_lem tried stored u.1 t.1) in
      rw opened (
        both (length attempt) (bytes_eq tried stored) (bytes_eq_iff tried stored)
          (password_text_iff attempt pass salt h))

  -- A password from before the hash is compared as it is; an empty one accepts nothing.
  pub check-plain :
      (attempt stored : Bytes)
      → hashed stored ≡ false
      → 0 < length stored
      → AllBytes attempt
      → AllBytes stored
      → (check hmac attempt stored ≡ true) ↔ ((length attempt ≤ max_len) × (attempt ≡ stored))
  unfolding check
  check-plain attempt stored h p a b =
      let some_text : (length stored == 0) ≡ false = ground arith in
      let opened : check hmac attempt stored
          ≡ (not (ltb max_len (length attempt)) && bytes_eq attempt stored) =
        rw h (rw some_text (rw (same_lem attempt stored a b) (ground arith))) in
      rw opened (
        both (length attempt) (bytes_eq attempt stored) (bytes_eq_iff attempt stored)
          (λ e. e, λ e. e))
