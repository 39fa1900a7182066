-- ===== src/Totp/Base32.antt =====
-- Totp.h, `toBase32` and `fromBase32`.
pub mod RoundTrip
use esp8266_dns.Base.{◌^◌, map}
use esp8266_dns.Base.{
  ℕ, zero, suc, ◌+◌, ◌*◌, ◌-◌, ◌/◌, ◌%◌, ◌<◌, ◌≤◌, ◌≡◌, ◌≢◌, refl, ap, sym, ◌∙◌, Bool, true, false,
  not, ◌&&◌, Option, none, some, List, [], ◌∷◌, ◌++◌, append_assoc, Bytes, length, length-append,
  All, arith, each_below, each_below_sound, ==_iff, &&-split, ◌==◌, if◌then◌else◌, ltb, leb,
}
use esp8266_dns.Totp.{
  b32_char, b32_emit, b32_from, to_base32, b32, Decoder, b32_take, b32_decode, b32_end, from_base32,
  key_len,
}
use esp8266_dns.Totp.Hex.{IsByte}

-- Every character of the alphabet is read as its place, and none is a blank or the end.
abbrev reads : ℕ → Bool
reads v = value (b32 (b32_char v)) == v && not (b32_char v == b'=') && not (b32_char v == b' ')
  where
    value : Option ℕ → ℕ
    value none = 32
    value (some v) = v

reads_table : each_below 32 reads ≡ true
unfolding each_below b32 b32_char
reads_table = refl

reads_lem :
    (v : ℕ)
    → v < 32
    → (b32 (b32_char v) ≡ some v) × ((b32_char v == b'=') ≡ false) × ((b32_char v == b' ') ≡ false)
reads_lem v h = ground (arith, each_below_sound 32 reads v reads_table h)

-- One character of the alphabet is taken as its five bits.
b32_decode-char :
    (v : ℕ) (s : Bytes) (d e : Decoder)
    → v < 32
    → b32_take d (some v) ≡ some e
    → b32_decode (b32_char v ∷ s) d ≡ b32_decode s e
unfolding b32_decode
b32_decode-char v s d e h t =
    let (value, stop, space) = reads_lem v h in
    rw (stop, b32_decode) (rw (space, b32_decode) (rw (value, b32_decode) (rw (t, b32_decode))))

-- The eight values of five bits that five bytes become.
abbrev five : ℕ → ℕ → ℕ → ℕ → ℕ → List ℕ
five a b c d e =
    (a / 8)
    ∷ (a % 8 * 4 + b / 64)
    ∷ (b / 2 % 32)
    ∷ (b % 2 * 16 + c / 16)
    ∷ (c % 16 * 2 + d / 128)
    ∷ (d / 4 % 32)
    ∷ (d % 4 * 8 + e / 32)
    ∷ (e % 32)
    ∷ []

next : ℕ → ℕ → ℕ
next buf b = (buf * 256 + b) % 65536

next-next : (buf a b : ℕ) → a < 256 → b < 256 → next (next buf a) b ≡ a * 256 + b
unfolding next
next-next buf a b h k = omega arith

next-low : (buf a : ℕ) → a < 256 → next buf a / 8 % 32 ≡ a / 8
unfolding next
next-low buf a h = omega arith

-- What is left in the buffer does not matter, since no bits of it are.
pub b32_from-block :
    (buf a b c d e : ℕ) (k : Bytes)
    → All IsByte (a ∷ b ∷ c ∷ d ∷ e ∷ [])
    → (buf' : ℕ) × (b32_from buf 0 (a ∷ b ∷ c ∷ d ∷ e ∷ k)
        ≡ map b32_char (five a b c d e) ++ b32_from buf' 0 k)
unfolding b32_from b32_emit next
b32_from-block buf a b c d e k h =
    let e1 = next buf a in
    let e2 = next-next buf a b h.0 h.1.0 in
    let e3 = next-next e1 b c h.1.0 h.1.1.0 in
    let e4 = next-next (next e1 b) c d h.1.1.0 h.1.1.1.0 in
    let e5 = next-next (next (next e1 b) c) d e h.1.1.1.0 h.1.1.1.1.0 in
    let q0 = next-low buf a h.0 in
    let q1 : next e1 b / 64 % 32 ≡ a % 8 * 4 + b / 64 = omega (arith, e2) in
    let q2 : next e1 b / 2 % 32 ≡ b / 2 % 32 = omega (arith, e2) in
    let q3 : next (next e1 b) c / 16 % 32 ≡ b % 2 * 16 + c / 16 = omega (arith, e3) in
    let q4 : next (next (next e1 b) c) d / 128 % 32 ≡ c % 16 * 2 + d / 128 = omega (arith, e4) in
    let q5 : next (next (next e1 b) c) d / 4 % 32 ≡ d / 4 % 32 = omega (arith, e4) in
    let q6 : next (next (next (next e1 b) c) d) e / 32 % 32 ≡ d % 4 * 8 + e / 32 =
      omega (arith, e5) in
    let q7 : next (next (next (next e1 b) c) d) e / 1 % 32 ≡ e % 32 = omega (arith, e5) in
    (next (next (next (next (next buf a) b) c) d) e, cc (q0, q1, q2, q3, q4, q5, q6, q7))

feed : ℕ → ℕ → ℕ
feed buf v = (buf * 32 + v) % 65536

feed-feed : (buf v w : ℕ) → w < 32 → feed (feed buf v) w % 1024 ≡ v % 32 * 32 + w
unfolding feed
feed-feed buf v w k = omega arith

module _ (buf v : ℕ) (key s : Bytes) (h : v < 32) where
  fill :
      (bits bits' : ℕ)
      → bits + 5 ≡ bits'
      → bits' < 8
      → b32_decode (b32_char v ∷ s) (record { buf = buf; bits = bits; key = key })
        ≡ b32_decode s (record { buf = feed buf v; bits = bits'; key = key })
  fill bits bits' e l =
      b32_decode-char v s _ (record { buf = feed buf v; bits = bits'; key = key }) h
        (unfold b32_take feed in ground arith)

  flush :
      (x bits bits' : ℕ)
      → bits + 5 ≡ bits' + 8
      → length key < 20
      → feed buf v / 2 ^ (bits + 5 - 8) % 256 ≡ x
      → b32_decode (b32_char v ∷ s) (record { buf = buf; bits = bits; key = key })
        ≡ b32_decode s (record { buf = feed buf v; bits = bits'; key = key ++ x ∷ [] })
  flush x bits bits' e l q =
      b32_decode-char v s _ (record { buf = feed buf v; bits = bits'; key = key ++ x ∷ [] }) h
        (let left : bits + 5 - 8 ≡ bits' = omega arith in
          unfold b32_take feed in ground (arith, q, left))

module _ (a b c d e : ℕ) (h : All IsByte (a ∷ b ∷ c ∷ d ∷ e ∷ [])) where
  -- The bytes that eight values of five bits become, whatever the buffer held.
  pub b32_decode-block :
      (buf : ℕ) (key s : Bytes)
      → length key + 5 ≤ 20
      → (buf' : ℕ) × (b32_decode
            (map b32_char (five a b c d e) ++ s)
            (record { buf = buf; bits = 0; key = key })
          ≡ b32_decode s (record { buf = buf'; bits = 0; key = key ++ a ∷ b ∷ c ∷ d ∷ e ∷ [] }))
  b32_decode-block buf key s l =
      let d1 = feed buf (a / 8) in
      let d2 = feed d1 (a % 8 * 4 + b / 64) in
      let d3 = feed d2 (b / 2 % 32) in
      let d4 = feed d3 (b % 2 * 16 + c / 16) in
      let d5 = feed d4 (c % 16 * 2 + d / 128) in
      let d6 = feed d5 (d / 4 % 32) in
      let d7 = feed d6 (d % 4 * 8 + e / 32) in
      let d8 = feed d7 (e % 32) in
      let k1 = key ++ a ∷ [] in
      let k2 = k1 ++ b ∷ [] in
      let k3 = k2 ++ c ∷ [] in
      let k4 = k3 ++ d ∷ [] in
      let n1 = length-append key (a ∷ []) in
      let n2 = length-append k1 (b ∷ []) in
      let n3 = length-append k2 (c ∷ []) in
      let n4 = length-append k3 (d ∷ []) in
      (
        d8,
        fill buf (a / 8) key _ (omega (arith, h.0)) 0 5 refl (omega arith)
            ∙ flush d1 (a % 8 * 4 + b / 64) key _ (omega (arith, h.1.0)) a 5 2 refl (omega arith)
                (unfold feed in omega (arith, h))
            ∙ fill d2 (b / 2 % 32) k1 _ (omega arith) 2 7 refl (omega arith)
            ∙ flush d3 (b % 2 * 16 + c / 16) k1 _ (omega (arith, h.1.1.0)) b 7 4 refl (omega arith)
                (unfold feed in omega (arith, h))
            ∙ flush d4 (c % 16 * 2 + d / 128) k2 _ (omega (arith, h.1.1.1.0)) c 4 1 refl
                (omega arith) (unfold feed in omega (arith, h))
            ∙ fill d5 (d / 4 % 32) k3 _ (omega arith) 1 6 refl (omega arith)
            ∙ flush d6 (d % 4 * 8 + e / 32) k3 _ (omega (arith, h)) d 6 3 refl (omega arith)
                (unfold feed in omega (arith, h))
            ∙ flush d7 (e % 32) k4 _ (omega arith) e 3 0 refl (omega arith)
                (unfold feed in omega (arith, h))
            ∙ simp append_assoc,
      )
