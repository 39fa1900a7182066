-- ===== src/Json/Utf8.antt =====
-- Json.h: a \\u escape is decoded to the UTF-8 of its code point.
use native.Mathlib.Decide.{dec_lt}
use esp8266_dns.Base.{lt→ltb}
use esp8266_dns.Base.{
  Bytes, [], ap, arith, drop, false, if◌then◌else◌, inl, inr, leb, ltb, refl, true, ℕ, ◌%◌, ◌&&◌,
  ◌*◌, ◌+◌, ◌-◌, ◌/◌, ◌<◌, ◌∙◌, ◌∷◌, ◌≡◌, ◌≤◌, ◌⊎◌,
}
use esp8266_dns.Json.Decode.{decode, decode_unicode, utf8}
use esp8266_dns.Json.Text.{hex4, hex_number-hex4}

-- The code point that a row of bytes stands for.
unfoldable pub utf8_value : Bytes → ℕ
utf8_value (a ∷ []) = a
utf8_value (a ∷ b ∷ []) = (a - 0xC0) * 64 + (b - 0x80)
utf8_value (a ∷ b ∷ c ∷ []) = (a - 0xE0) * 4096 + (b - 0x80) * 64 + (c - 0x80)
utf8_value (a ∷ b ∷ c ∷ d ∷ []) =
    (a - 0xF0) * 262144 + (b - 0x80) * 4096 + (c - 0x80) * 64 + (d - 0x80)
utf8_value _ = 0

-- A code point that is no half of a surrogate pair.
abbrev pub IsScalarValue : ℕ → Type 0
IsScalarValue cp = (cp < 0x110000) × ((cp < 0xD800) ⊎ (0xDFFF < cp))

-- A code point as JSON escapes it: by itself, or as a surrogate pair.
unfoldable pub unicode_escape : ℕ → Bytes → Bytes
unfolding hex4
unicode_escape cp rest =
    if ltb cp 0x10000
    then 92 ∷ b'u' ∷ hex4 cp rest
    else 92
      ∷ b'u'
      ∷ hex4 (0xD800 + (cp - 0x10000) / 1024)
          (92 ∷ b'u' ∷ hex4 (0xDC00 + (cp - 0x10000) % 1024) rest)

utf8_value-utf8 : (cp : ℕ) → cp < 0x110000 → utf8_value (utf8 cp) ≡ cp
unfolding utf8 utf8_value
utf8_value-utf8 cp h = ground arith

drop-hex4 : (v : ℕ) (rest : Bytes) → drop 4 (hex4 v rest) ≡ rest
unfolding hex4
drop-hex4 v rest = refl

decode_unicode-single :
    (cp : ℕ) (rest : Bytes)
    → cp < 0x10000
    → (cp < 0xD800) ⊎ (0xDFFF < cp)
    → decode_unicode (hex4 cp rest) ≡ (utf8 cp, rest)
unfolding decode_unicode
decode_unicode-single cp rest h (inl low) =
    let no_pair : leb 0xD800 cp ≡ false = ground arith in
    rw (hex_number-hex4 cp rest h) (rw no_pair (unfold hex4 in refl))
decode_unicode-single cp rest h (inr high) =
    let no_pair : (leb 0xD800 cp && ltb cp 0xDC00) ≡ false = ground arith in
    rw (hex_number-hex4 cp rest h) (rw no_pair (unfold hex4 in refl))

decode_unicode-pair :
    (hi lo : ℕ) (rest : Bytes)
    → hi < 1024
    → lo < 1024
    → decode_unicode (hex4 (0xD800 + hi) (92 ∷ b'u' ∷ hex4 (0xDC00 + lo) rest))
      ≡ (utf8 (0x10000 + hi * 1024 + lo), rest)
unfolding decode_unicode
decode_unicode-pair hi lo rest h k =
    let high : ℕ = 0xD800 + hi in
    let low : ℕ = 0xDC00 + lo in
    let next : Bytes = 92 ∷ b'u' ∷ hex4 low rest in
    let joined : (leb 0xD800 high
          && ltb high 0xDC00
          && true
          && true
          && leb 0xDC00 low
          && ltb low 0xE000)
        ≡ true =
      ground arith in
    let sum : 0x10000 + (high - 0xD800) * 1024 + (low - 0xDC00) ≡ 0x10000 + hi * 1024 + lo =
      omega arith in
    rw (hex_number-hex4 high next (omega arith)) (
      rw (drop-hex4 high next)
        (rw (hex_number-hex4 low rest (omega arith)) (rw joined (rw sum (unfold hex4 in refl)))))

decode_u : (p : Bytes) → decode (92 ∷ b'u' ∷ p) ≡ decode_unicode p
unfolding decode
decode_u p = refl

escape_single :
    (cp : ℕ) (rest : Bytes) → cp < 0x10000 → unicode_escape cp rest ≡ 92 ∷ b'u' ∷ hex4 cp rest
unfolding unicode_escape
escape_single cp rest h = rw (lt→ltb cp 0x10000 h) refl

escape_pair :
    (cp : ℕ) (rest : Bytes)
    → 0x10000 ≤ cp
    → unicode_escape cp rest
      ≡ 92
        ∷ b'u'
        ∷ hex4
            (0xD800 + (cp - 0x10000) / 1024)
            (92 ∷ b'u' ∷ hex4 (0xDC00 + (cp - 0x10000) % 1024) rest)
unfolding unicode_escape
escape_pair cp rest h = let big : ltb cp 0x10000 ≡ false = ground arith in rw big refl

-- A code point, escaped as JSON prescribes, by one escape or by a surrogate pair, is decoded to bytes
-- that are its UTF-8, and the position goes behind the whole escape.
decode-unicode_escape :
    (cp : ℕ) (rest : Bytes)
    → IsScalarValue cp
    → (decode (unicode_escape cp rest) ≡ (utf8 cp, rest)) × (utf8_value (utf8 cp) ≡ cp)
decode-unicode_escape cp rest h = elim (dec_lt cp 0x10000) [
  | yes small ↦ (
    ap decode (escape_single cp rest small)
        ∙ decode_u (hex4 cp rest)
        ∙ decode_unicode-single cp rest small h.1,
    utf8_value-utf8 cp h.0,
  )
  | no big ↦ (
    let hi = (cp - 0x10000) / 1024 in
        let lo = (cp - 0x10000) % 1024 in
        let sum : 0x10000 + hi * 1024 + lo ≡ cp = omega arith in
        ap decode (escape_pair cp rest (omega arith))
        ∙ decode_u (hex4 (0xD800 + hi) (92 ∷ b'u' ∷ hex4 (0xDC00 + lo) rest))
        ∙ decode_unicode-pair hi lo rest (omega arith) (omega arith)
        ∙ ap (λ (n : ℕ). (utf8 n, rest)) sum,
    utf8_value-utf8 cp h.0,
  )
]
