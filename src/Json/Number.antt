-- ===== src/Json/Number.antt =====
-- Json.h: a number that the writer prints is read back, with its sign.
use esp8266_dns.Base.{
  Bool, Bytes, [], ap, arith, false, if◌then◌else◌, is_some, length, none, refl, some, suc, true,
  u32, ℕ, ◌&&◌, ◌*◌, ◌++◌, ◌+◌, ◌-◌, ◌<◌, ◌==◌, ◌∙◌, ◌∷◌, ◌≡◌, ◌≢◌, ◌≤◌,
}
use esp8266_dns.Base.Decimal.{
  AllDigits, decimal, decimal_digits, decimal_value, is_digit, length-decimal, value_from,
}
use esp8266_dns.Base.Int.{leb_ℤ, neg_part, negsuc, pos, pos_part, ℤ}
use esp8266_dns.Json.{
  Kind, Value, add_digit, char_at, digits, exponent, fits, fraction, fresh, magnitude, read_number,
  scalar, starts,
}
use esp8266_dns.Json.Writer.{signed_text}

-- The digits stop here.
abbrev pub Stops : Bytes → Type 0
Stops p =
    (is_digit (char_at p) ≡ false) × (char_at p ≢ b'.') × (char_at p ≢ b'e') × (char_at p ≢ b'E')

value_from-ge : (v : ℕ) (s : Bytes) → v ≤ value_from v s
value_from-ge v [] = omega arith
value_from-ge v (c ∷ s) = omega (arith, value_from-ge (v * 10 + (c - b'0')) s)

abbrev with_mag : ℕ → Value → Value
with_mag n v = record v { mag = n }

add_digit_fits :
    (d : ℕ) (v : Value)
    → d < 10
    → v.mag * 10 + d ≤ 4294967295
    → add_digit d v ≡ with_mag (v.mag * 10 + d) v
unfolding add_digit
add_digit_fits d v h k = ground arith

magnitude-append :
    (s rest : Bytes) (v : Value)
    → AllDigits s
    → is_digit (char_at rest) ≡ false
    → value_from v.mag s ≤ 4294967295
    → magnitude v (s ++ rest) ≡ (with_mag (value_from v.mag s) v, rest)
unfolding magnitude
magnitude-append [] [] v h k w = refl
magnitude-append [] (c ∷ rest) v h k w = rw k refl
magnitude-append (c ∷ s) rest v h k w =
    let d = c - b'0' in
    let low : d < 10 = unfold is_digit in ground (arith, h.0) in
    let more : v.mag * 10 + d ≤ 4294967295 = omega (arith, value_from-ge (v.mag * 10 + d) s) in
    rw (h.0) (
      rw (add_digit_fits d v low more)
        (magnitude-append s rest (with_mag (v.mag * 10 + d) v) h.1 k w))

digits-some :
    (c : ℕ) (s rest : Bytes) → is_digit c ≡ true → is_some (digits (c ∷ (s ++ rest))) ≡ true
unfolding digits
digits-some c s rest h = rw h refl

fraction-Stops : (v : Value) (p : Bytes) → Stops p → fraction v p ≡ some (v, p)
unfolding fraction
fraction-Stops v p h = ground arith

exponent-Stops : (v : Value) (p : Bytes) → Stops p → exponent v p ≡ some (v, p)
unfolding exponent
exponent-Stops v p h = ground arith

-- The number that is read.
abbrev pub integer_at : Bytes → Bool → ℕ → Value
integer_at p neg n = record { kind = Kind.integer; neg = neg; mag = n; at = p }

module _ (c : ℕ) (s rest p : Bytes) (numeric : AllDigits (c ∷ s)) (stop : Stops rest)
    (low : value_from 0 (c ∷ s) ≤ 4294967295) where
  behind_digits :
      (neg : Bool)
      → magnitude (integer_at p neg 0) (c ∷ (s ++ rest))
        ≡ (integer_at p neg (value_from 0 (c ∷ s)), rest)
  behind_digits neg = magnitude-append (c ∷ s) rest (integer_at p neg 0) numeric stop.0 low

  read_number_pos :
      read_number (fresh p) (c ∷ (s ++ rest))
      ≡ some (integer_at p false (value_from 0 (c ∷ s)), rest)
  unfolding read_number
  read_number_pos =
      let no_sign : (c == b'-') ≡ false = unfold is_digit in ground (arith, numeric.0) in
      rw no_sign (
        rw (digits-some c s rest numeric.0) (
          rw (behind_digits false) (
            rw (fraction-Stops (integer_at p false (value_from 0 (c ∷ s))) rest stop)
              (exponent-Stops (integer_at p false (value_from 0 (c ∷ s))) rest stop))))

  read_number_neg :
      read_number (fresh p) (b'-' ∷ c ∷ (s ++ rest))
      ≡ some (integer_at p true (value_from 0 (c ∷ s)), rest)
  unfolding read_number
  read_number_neg = rw (digits-some c s rest numeric.0) (
      rw (behind_digits true) (
        rw (fraction-Stops (integer_at p true (value_from 0 (c ∷ s))) rest stop)
          (exponent-Stops (integer_at p true (value_from 0 (c ∷ s))) rest stop)))

-- A text that opens with a digit or a sign is no word.
scalar_number :
    (c : ℕ) (p : Bytes) → c < b'f' → scalar (c ∷ p) ≡ read_number (fresh (c ∷ p)) (c ∷ p)
unfolding scalar starts
scalar_number c p h = ground arith

digit-lt : (c : ℕ) → is_digit c ≡ true → c < b'f'
unfolding is_digit
digit-lt c h = ground arith

scalar_pos :
    (s rest : Bytes)
    → 0 < length s
    → AllDigits s
    → Stops rest
    → value_from 0 s ≤ 4294967295
    → scalar (s ++ rest) ≡ some (integer_at (s ++ rest) false (value_from 0 s), rest)
scalar_pos [] rest l h k w = absurd (omega arith)
scalar_pos (c ∷ s) rest l h k w =
    scalar_number c (s ++ rest) (digit-lt c h.0) ∙ read_number_pos c s rest (c ∷ (s ++ rest)) h k w

scalar_neg :
    (s rest : Bytes)
    → 0 < length s
    → AllDigits s
    → Stops rest
    → value_from 0 s ≤ 4294967295
    → scalar (b'-' ∷ (s ++ rest))
      ≡ some (integer_at (b'-' ∷ (s ++ rest)) true (value_from 0 s), rest)
scalar_neg [] rest l h k w = absurd (omega arith)
scalar_neg (c ∷ s) rest l h k w =
    scalar_number b'-' (c ∷ (s ++ rest)) (omega arith)
    ∙ read_number_neg c s rest (b'-' ∷ c ∷ (s ++ rest)) h k w

-- An unsigned number of 32 bits, as `%lu` prints it.
pub scalar-decimal :
    (n : ℕ) (rest : Bytes)
    → n < 4294967296
    → Stops rest
    → scalar (decimal n ++ rest) ≡ some (integer_at (decimal n ++ rest) false n, rest)
scalar-decimal n rest h k =
    let back = decimal_value n (omega arith) in
    scalar_pos (decimal n) rest (length-decimal n 10 (omega arith) (omega arith) (omega arith)).0
      (decimal_digits n) k (omega (arith, back))
    ∙ ap (λ (m : ℕ). some (integer_at (decimal n ++ rest) false m, rest)) back

scalar-decimal_neg :
    (n : ℕ) (rest : Bytes)
    → n < 4294967296
    → Stops rest
    → scalar (b'-' ∷ (decimal n ++ rest))
      ≡ some (integer_at (b'-' ∷ (decimal n ++ rest)) true n, rest)
scalar-decimal_neg n rest h k =
    let back = decimal_value n (omega arith) in
    scalar_neg (decimal n) rest (length-decimal n 10 (omega arith) (omega arith) (omega arith)).0
      (decimal_digits n) k (omega (arith, back))
    ∙ ap (λ (m : ℕ). some (integer_at (b'-' ∷ (decimal n ++ rest)) true m, rest)) back

-- A `long`, as `%ld` prints it.
abbrev pub IsLong : ℤ → Type 0
IsLong z = (pos_part z < 2147483648) × (neg_part z ≤ 2147483648)

abbrev pub signed_at : Bytes → ℤ → Value
signed_at p (pos n) = integer_at p false n
signed_at p (negsuc n) = integer_at p true (suc n)

pub scalar-signed_text :
    (z : ℤ) (rest : Bytes)
    → IsLong z
    → Stops rest
    → scalar (signed_text z ++ rest) ≡ some (signed_at (signed_text z ++ rest) z, rest)
unfolding signed_text
scalar-signed_text (pos n) rest h k = scalar-decimal n rest (omega arith) k
scalar-signed_text (negsuc n) rest h k = scalar-decimal_neg (suc n) rest (omega arith) k

-- What `fits` gives for the number read: its bits in two's complement, if it lies in the range.
pub fits-signed_at :
    (p : Bytes) (z lo : ℤ) (hi : ℕ)
    → IsLong z
    → pos_part lo ≡ 0
    → neg_part lo ≤ 2147483648
    → hi < 4294967296
    → fits (signed_at p z) lo hi ≡ (
        if leb_ℤ lo z && leb_ℤ z (pos hi)
        then some (u32 (pos_part z + 4294967296 - neg_part z))
        else none)
unfolding fits
fits-signed_at p (pos n) lo hi h a b c = ground arith
fits-signed_at p (negsuc n) lo hi h a b c = ground arith
