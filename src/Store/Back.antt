-- ===== src/Store/Back.antt =====
-- ConfigStore.h: what `save` writes, `load` reads.
use esp8266_dns.Base.{u32}
use esp8266_dns.Base.{
  All, Bool, Bytes, List, Option, [], ap, arith, false, if_cases, if◌then◌else◌, inl, inr, length,
  ltb, refl, some, subst, suc, sym, take, take_all, true, ℕ, ◌%◌, ◌+◌, ◌-◌, ◌/◌, ◌<◌, ◌∙◌, ◌∷◌, ◌≡◌,
  ◌≤◌, ◌⊎◌,
}
use esp8266_dns.Base.Hex.{hex_digit}
use esp8266_dns.Base.Int.{neg_part, negsuc, pos, pos_part, ℤ}
use esp8266_dns.Json.{fits, hex}
use esp8266_dns.Json.Decode.{copy, str}
use esp8266_dns.Json.Text.{IsChar, copy_lem, str-escaped_text}
use esp8266_dns.Json.Values.{read_as}
use esp8266_dns.Json.Written.{Content}
use esp8266_dns.Store.File.{
  Cell, blank_key, content_of, flag, from_bits, int, is_string, key20, key_cell, number_cell,
  set_cell, text,
}
use esp8266_dns.Store.Table.{FieldType, Row}
use esp8266_dns.Totp.{blank, from_hex, key_len, to_hex}
use esp8266_dns.Totp.Hex.{IsByte, from_hex-to_hex, length-to_hex}

abbrev pub IsSigned : ℕ → ℤ → Type 0
IsSigned half z = (pos_part z < half) × (neg_part z ≤ half)

abbrev pub IsUnsigned : ℕ → ℤ → Type 0
IsUnsigned top z = (pos_part z < top) × (neg_part z ≡ 0)

-- A value that its field can hold. A key is enrolled, or all zero.
pub data IsCell : FieldType → Cell → Type 0 where
  a_string : (s : Bytes) → All IsChar s → IsCell FieldType.string (text s)
  some_chars :
      (n : ℕ) (s : Bytes) → All IsChar s → length s < n → IsCell (FieldType.chars n) (text s)
  a_key :
      (k : Bytes)
      → All IsByte k
      → length k ≡ key_len
      → (blank k ≡ false) ⊎ (k ≡ blank_key)
      → IsCell FieldType.hex20 (key20 k)
  a_flag : (b : Bool) → IsCell FieldType.boolean (flag b)
  an_i8 : (z : ℤ) → IsSigned 128 z → IsCell FieldType.i8 (int z)
  a_u8 : (z : ℤ) → IsUnsigned 256 z → IsCell FieldType.u8 (int z)
  an_i16 : (z : ℤ) → IsSigned 32768 z → IsCell FieldType.i16 (int z)
  a_u16 : (z : ℤ) → IsUnsigned 65536 z → IsCell FieldType.u16 (int z)
  a_u32 : (z : ℤ) → IsUnsigned 4294967296 z → IsCell FieldType.u32 (int z)

-- A value for every row.
abbrev pub AreCells : List Row → List Cell → Type 0
AreCells [] [] = Unit {0}
AreCells (r ∷ rs) (c ∷ cs) = IsCell r.type c × AreCells rs cs
AreCells _ _ = ⊥

low_bits : (half : ℕ) → half ≤ 32768 → 0 < half → u32 (suc (half - 1) + 4294967296 - 0) ≡ half
low_bits half b p = omega (arith, b, p)

small : (n : ℕ) → n < 32768 → from_bits n ≡ pos n
small n h = ground (arith, h)

large : (n : ℕ) → suc n ≤ 32768 → from_bits (u32 (4294967296 - suc n)) ≡ negsuc n
large n h =
    let bits : u32 (4294967296 - suc n) ≡ 4294967295 - n = omega (arith, h) in
    let big : ltb (4294967295 - n) 2147483648 ≡ false = ground (arith, h) in
    let back : 4294967295 - (4294967295 - n) ≡ n = omega (arith, h) in
    rw (bits) (rw (big) (ap negsuc back))

read_signed :
    (half : ℕ) (z : ℤ) (rest : Bytes) (d : Cell)
    → half ≤ 32768
    → 0 < half
    → IsSigned half z
    → number_cell (fits (read_as (Content.num z) rest) (negsuc (half - 1)) (half - 1)) from_bits d
      ≡ int z
unfolding number_cell fits read_as
read_signed half (pos n) rest d b p h =
    if_cases (λ (o : Option ℕ). number_cell o from_bits d ≡ int (pos n)) (ltb (half - 1) n) _ _
      (λ k. absurd (ground (arith, k, h.0))) (λ _. ap int (small n (omega (arith, h.0, b))))
read_signed half (negsuc n) rest d b p h = rw (low_bits half b p) (
    if_cases (λ (o : Option ℕ). number_cell o from_bits d ≡ int (negsuc n)) (ltb half (suc n)) _ _
      (λ k. absurd (ground (arith, k, h.1))) (λ _. ap int (large n (omega (arith, h.1, b)))))

read_unsigned :
    (top : ℕ) (z : ℤ) (rest : Bytes) (d : Cell)
    → 0 < top
    → top ≤ 65536
    → IsUnsigned top z
    → number_cell (fits (read_as (Content.num z) rest) (pos 0) (top - 1)) pos d ≡ int z
unfolding number_cell fits read_as
read_unsigned top (pos n) rest d p b h =
    if_cases (λ (o : Option ℕ). number_cell o pos d ≡ int (pos n)) (ltb (top - 1) n) _ _
      (λ k. absurd (ground (arith, k, h.0))) (λ _. refl)
read_unsigned top (negsuc n) rest d p b h = absurd (omega (arith, h.1))

read_word :
    (z : ℤ) (rest : Bytes) (d : Cell)
    → IsUnsigned 4294967296 z
    → number_cell (fits (read_as (Content.unum (pos_part z)) rest) (pos 0) 4294967295) pos d ≡ int z
unfolding number_cell fits read_as
read_word (pos n) rest d h =
    if_cases (λ (o : Option ℕ). number_cell o pos d ≡ int (pos n)) (ltb 4294967295 n) _ _
      (λ k. absurd (ground (arith, k, h.0))) (λ _. refl)
read_word (negsuc n) rest d h = absurd (omega (arith, h.1))

read_text :
    (s rest : Bytes)
    → All IsChar s
    → (is_string (read_as (Content.string s) rest).kind ≡ true)
      × (str (read_as (Content.string s) rest) ≡ s)
unfolding read_as
read_text s rest h = (refl, str-escaped_text s rest _ h refl)

copy_text :
    (s rest : Bytes) (n : ℕ)
    → All IsChar s
    → length s < n
    → copy (read_as (Content.string s) rest) n ≡ (s, length s)
copy_text s rest n h l =
    let v = read_as (Content.string s) rest in
    copy_lem v n (omega (arith, l))
    ∙ ap (λ (t : Bytes). (take (n - 1) t, length t)) (read_text s rest h).1
    ∙ ap (λ (t : Bytes). (t, length s)) (take_all (n - 1) s (omega (arith, l)))

hex_digit-IsChar : (d : ℕ) → d < 16 → IsChar (hex_digit d)
unfolding hex_digit
hex_digit-IsChar d h = (ground (arith, h), ground (arith, h))

pub to_hex-IsChar : (k : Bytes) → All IsByte k → All IsChar (to_hex k)
unfolding to_hex
to_hex-IsChar [] h = tt
to_hex-IsChar (b ∷ k) h = (
  hex_digit-IsChar (b / 16) (omega (arith, h.0)),
  (hex_digit-IsChar (b % 16) (omega arith), to_hex-IsChar k h.1),
)

-- The text of a key, as `_set` takes it.
abbrev read_hex : Bytes × ℕ → Cell
read_hex hex = key_cell (from_hex (some (if ltb hex.1 42 then hex.0 else [])))

read_hex-key :
    (k rest : Bytes)
    → All IsByte k
    → length k ≡ key_len
    → blank k ≡ false
    → read_hex (copy (read_as (Content.string (to_hex k)) rest) 42) ≡ key20 k
read_hex-key k rest h l e =
    let size : length (to_hex k) ≡ 40 = omega (arith, length-to_hex k, l) in
    let short : ltb (length (to_hex k)) 42 ≡ true = ground (arith, size) in
    let given : from_hex (some (to_hex k)) ≡ some k = from_hex-to_hex k h l ∙ rw (e) refl in
    ap read_hex (copy_text (to_hex k) rest 42 (to_hex-IsChar k h) (omega (arith, size)))
    ∙ rw (short) (ap key_cell given)

read_key :
    (k : Bytes) (d : Cell) (rest : Bytes)
    → All IsByte k
    → length k ≡ key_len
    → (blank k ≡ false) ⊎ (k ≡ blank_key)
    → set_cell FieldType.hex20 (read_as (content_of FieldType.hex20 (key20 k)) rest) d ≡ key20 k
unfolding set_cell content_of read_as
read_key k d rest h l (inl e) = rw (e) (read_hex-key k rest h l e)
read_key k d rest h l (inr e) =
    subst
      (λ (k : Bytes).
        set_cell FieldType.hex20 (read_as (content_of FieldType.hex20 (key20 k)) rest) d ≡ key20 k)
      (sym e) (unfold blank copy from_hex in refl)

-- What the field of a value is written as is read as the value.
pub set_cell-content_of :
    (t : FieldType) (c d : Cell) (rest : Bytes)
    → IsCell t c
    → set_cell t (read_as (content_of t c) rest) d ≡ c
unfolding set_cell content_of read_as
set_cell-content_of _ _ d rest (a_string s h) = ap text (read_text s rest h).1
set_cell-content_of _ _ d rest (some_chars n s h l) =
    ap (λ (p : Bytes × ℕ). text p.0) (copy_text s rest n h l)
set_cell-content_of _ _ d rest (a_key k h l e) = read_key k d rest h l e
set_cell-content_of _ _ d rest (a_flag true) = refl
set_cell-content_of _ _ d rest (a_flag false) = refl
set_cell-content_of _ _ d rest (an_i8 z h) = read_signed 128 z rest d (omega arith) (omega arith) h
set_cell-content_of _ _ d rest (a_u8 z h) = read_unsigned 256 z rest d (omega arith) (omega arith) h
set_cell-content_of _ _ d rest (an_i16 z h) =
    read_signed 32768 z rest d (omega arith) (omega arith) h
set_cell-content_of _ _ d rest (a_u16 z h) =
    read_unsigned 65536 z rest d (omega arith) (omega arith) h
set_cell-content_of _ _ d rest (a_u32 z h) = read_word z rest d h
