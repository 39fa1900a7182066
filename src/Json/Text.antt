-- ===== src/Json/Text.antt =====
-- Json.h: a string that the writer escapes is read back whole, by `str` and by `copy`.
use esp8266_dns.Base.{
  All, Bool-cases, Bytes, [], ap, append-nil, append_assoc, arith, false, if◌then◌else◌, inl, inr,
  length, length-append, ltb, ltb→lt, refl, some, suc, sym, take, zero, ℕ, ◌%◌, ◌++◌, ◌+◌, ◌-◌, ◌/◌,
  ◌<◌, ◌==◌, ◌∙◌, ◌∷◌, ◌≡◌, ◌≤◌,
}
use esp8266_dns.Base.Hex.{hex_digit}
use esp8266_dns.Json.{Value, char_at, hex, plain, string_end}
use esp8266_dns.Json.Decode.{
  copy, copy_loop, decode, decode_unicode, hex_number, put_chars, str, str_loop, unescape, utf8,
}
use esp8266_dns.Json.Writer.{escape}

-- A byte of a C string.
abbrev pub IsChar : ℕ → Type 0
IsChar c = (0 < c) × (c < 256)

-- The text between the quotes.
unfoldable pub escaped_text : Bytes → Bytes
unfolding escape
escaped_text [] = []
escaped_text (c ∷ s) = escape c ++ escaped_text s

digit_value-hex_digit : (d : ℕ) → d < 16 → hex (hex_digit d) ≡ some d
unfolding hex hex_digit
digit_value-hex_digit d h = ground arith

string_end-escape :
    (c : ℕ) (rest : Bytes) → IsChar c → string_end plain (escape c ++ rest) ≡ string_end plain rest
unfolding string_end escape
string_end-escape c rest h =
    ground (arith, digit_value-hex_digit (c / 16), digit_value-hex_digit (c % 16))

pub string_end-escaped_text :
    (s rest : Bytes) → All IsChar s → string_end plain (escaped_text s ++ (b'"' ∷ rest)) ≡ some rest
unfolding escaped_text
string_end-escaped_text [] rest h = unfold string_end in refl
string_end-escaped_text (c ∷ s) rest h =
    ap (string_end plain) (append_assoc (escape c) (escaped_text s) (b'"' ∷ rest))
    ∙ string_end-escape c (escaped_text s ++ (b'"' ∷ rest)) h.0
    ∙ string_end-escaped_text s rest h.1

-- Four digits, as `\\u` is followed by.
unfoldable pub hex4 : ℕ → Bytes → Bytes
unfolding hex_digit
hex4 v rest =
    hex_digit (v / 4096 % 16)
    ∷ hex_digit (v / 256 % 16)
    ∷ hex_digit (v / 16 % 16)
    ∷ hex_digit (v % 16)
    ∷ rest

pub hex_number-hex4 : (v : ℕ) (rest : Bytes) → v < 65536 → hex_number 4 0 (hex4 v rest) ≡ v
unfolding hex_number
hex_number-hex4 v rest h =
    unfold hex4 in
    ground (
      arith,
      digit_value-hex_digit (v / 4096 % 16),
      digit_value-hex_digit (v / 256 % 16),
      digit_value-hex_digit (v / 16 % 16),
      digit_value-hex_digit (v % 16),
    )

decode_unicode-control :
    (c : ℕ) (rest : Bytes) → c < 32 → decode_unicode (hex4 c rest) ≡ (c ∷ [], rest)
unfolding decode_unicode utf8
decode_unicode-control c rest h =
    rw (hex_number-hex4 c rest (omega arith)) (unfold hex4 in ground arith)

escape_control : (c : ℕ) (rest : Bytes) → c < 32 → escape c ++ rest ≡ 92 ∷ b'u' ∷ hex4 c rest
unfolding escape hex4 hex_digit
escape_control c rest h = ground arith

decode-escape : (c : ℕ) (rest : Bytes) → IsChar c → decode (escape c ++ rest) ≡ (c ∷ [], rest)
unfolding decode
decode-escape c rest h = elim (Bool-cases (ltb c 32)) [
  | inl e ↦
      rw (escape_control c rest (ltb→lt c 32 e)) (decode_unicode-control c rest (ltb→lt c 32 e))
  | inr e ↦ unfold escape unescape in ground arith
]

escape_opens : (c : ℕ) (rest : Bytes) → (char_at (escape c ++ rest) == b'"') ≡ false
unfolding escape
escape_opens c rest = ground arith

str_loop-escape :
    (c fuel : ℕ) (rest out : Bytes)
    → IsChar c
    → str_loop (suc fuel) (escape c ++ rest) out ≡ str_loop fuel rest (out ++ c ∷ [])
unfolding str_loop
str_loop-escape c fuel rest out h = rw (escape_opens c rest, decode-escape c rest h) refl

str_loop-escaped_text :
    (s rest out : Bytes) (fuel : ℕ)
    → All IsChar s
    → length s ≤ fuel
    → str_loop (suc fuel) (escaped_text s ++ (b'"' ∷ rest)) out ≡ out ++ s
unfolding escaped_text
str_loop-escaped_text [] rest out fuel h w = unfold str_loop in sym (append-nil out)
str_loop-escaped_text (c ∷ s) rest out zero h w = absurd (omega arith)
str_loop-escaped_text (c ∷ s) rest out (suc fuel) h w =
    ap (λ p. str_loop (suc (suc fuel)) p out)
      (append_assoc (escape c) (escaped_text s) (b'"' ∷ rest))
    ∙ str_loop-escape c (suc fuel) (escaped_text s ++ (b'"' ∷ rest)) out h.0
    ∙ str_loop-escaped_text s rest (out ++ c ∷ []) fuel h.1 (omega arith)
    ∙ append_assoc out (c ∷ []) s

length-escaped_text : (s : Bytes) → length s ≤ length (escaped_text s)
unfolding escaped_text escape
length-escaped_text [] = omega arith
length-escaped_text (c ∷ s) =
    ground (arith, length-append (escape c) (escaped_text s), length-escaped_text s)

-- The whole text of a string that was written with its escapes.
pub str-escaped_text :
    (s rest : Bytes) (v : Value) → All IsChar s → v.at ≡ escaped_text s ++ (b'"' ∷ rest) → str v ≡ s
unfolding str
str-escaped_text s rest v h e =
    let body = escaped_text s ++ (b'"' ∷ rest) in
    let n = length (escaped_text s) + length rest in
    let all_of_it : length body ≡ suc n =
      omega (arith, length-append (escaped_text s) (b'"' ∷ rest)) in
    rw (e, all_of_it) (str_loop-escaped_text s rest [] n h (omega (arith, length-escaped_text s)))

take-nil : (n : ℕ) → take {A = ℕ} n [] ≡ []
take-nil zero = refl
take-nil (suc n) = refl

take-snoc :
    (n : ℕ) (t : Bytes) (c : ℕ)
    → take n (t ++ c ∷ []) ≡ (if ltb (length t) n then take n t ++ c ∷ [] else take n t)
take-snoc zero [] c = refl
take-snoc zero (x ∷ t) c = ground arith
take-snoc (suc n) [] c = ground (arith, take-nil n)
take-snoc (suc n) (x ∷ t) c = ground (arith, take-snoc n t c)

put_chars_lem :
    (size : ℕ) (cs t : Bytes)
    → 0 < size
    → put_chars size cs (take (size - 1) t, length t)
      ≡ (take (size - 1) (t ++ cs), length (t ++ cs))
unfolding put_chars
put_chars_lem size [] t h = rw (append-nil t) refl
put_chars_lem size (c ∷ cs) t h =
    ap (λ (d : Bytes × ℕ). put_chars size cs d)
      (ground (arith, take-snoc (size - 1) t c, length-append t (c ∷ [])))
    ∙ put_chars_lem size cs (t ++ c ∷ []) h
    ∙ ap (λ (d : Bytes). (take (size - 1) d, length d)) (append_assoc t (c ∷ []) cs)

copy_loop_lem :
    (fuel size : ℕ) (p t : Bytes)
    → 0 < size
    → copy_loop fuel size p (take (size - 1) t, length t)
      ≡ (take (size - 1) (str_loop fuel p t), length (str_loop fuel p t))
unfolding copy_loop str_loop
copy_loop_lem zero size p t h = refl
copy_loop_lem (suc fuel) size p t h = elim (Bool-cases (char_at p == b'"')) [
  | inl e ↦ rw e refl
  | inr e ↦ rw e (
      rw (put_chars_lem size (decode p).0 t h)
        (copy_loop_lem fuel size (decode p).1 (t ++ (decode p).0) h))
]

-- `copy` puts as much of the decoded text as the destination holds beside the zero, and returns
-- the length of the whole of it.
pub copy_lem :
    (v : Value) (size : ℕ) → 0 < size → copy v size ≡ (take (size - 1) (str v), length (str v))
unfolding copy str
copy_lem v size h =
    ap (λ (d : Bytes). copy_loop (length v.at) size v.at (d, 0)) (sym (take-nil (size - 1)))
    ∙ copy_loop_lem (length v.at) size v.at [] h
