-- ===== src/Base/Decimal.antt =====
-- Decimal text, as `%u` prints it, and its value.
use Prim.Native.Nat.{ℕ, zero, suc, ◌+◌, ◌-◌, ◌*◌, ◌/◌, ◌%◌, ◌^◌, ◌≤◌, ◌<◌}
use mathlib.Core.Path.{◌≡◌, refl, ◌∙◌}
use mathlib.Core.Bool.{Bool, true}
use mathlib.Core.List.{[], ◌∷◌, ◌++◌}
use native.Mathlib.Nat.{pow-suc}
use native.Mathlib.Numerals.{add-one}
use native.Mathlib.Omega.{arith}
use esp8266_dns.Base.Tests.{ltb, within, if◌then◌else◌, Bool-cases}
use esp8266_dns.Base.Lists.{Bytes, All, length, length-append}
use mathlib.Core.Logic.{inl, inr}

unfoldable pub is_digit : ℕ → Bool
is_digit c = within b'0' b'9' c

pub pow_add_one : (b n : ℕ) → b ^ (n + 1) ≡ b ^ n * b
pow_add_one b n = rw add-one (omega (arith, pow-suc b n))

-- `fuel` digits at most.
unfoldable pub decimal_fuel : ℕ → ℕ → Bytes
decimal_fuel zero n = []
decimal_fuel (suc f) n =
    let upper = decimal_fuel f (n / 10) in
    if ltb n 10 then (b'0' + n) ∷ [] else upper ++ (b'0' + n % 10) ∷ []

-- A 32-bit number has ten digits at most.
unfoldable pub decimal : ℕ → Bytes
unfolding decimal_fuel
decimal n = decimal_fuel 10 n

-- The value of a row of digits, behind those read so far.
abbrev pub value_from : ℕ → Bytes → ℕ
value_from v [] = v
value_from v (c ∷ cs) = value_from (v * 10 + (c - b'0')) cs

abbrev pub AllDigits : Bytes → Type 0
AllDigits = All (λ c. is_digit c ≡ true)

value_from-append : (v : ℕ) (s t : Bytes) → value_from v (s ++ t) ≡ value_from (value_from v s) t
value_from-append v [] t = refl
value_from-append v (c ∷ s) t = value_from-append (v * 10 + (c - b'0')) s t

AllDigits-append : (s t : Bytes) → AllDigits s → AllDigits t → AllDigits (s ++ t)
AllDigits-append [] t hs ht = ht
AllDigits-append (c ∷ s) t hs ht = (hs.0, AllDigits-append s t hs.1 ht)

decimal_fuel_value : (f n : ℕ) → n < 10 ^ f → value_from 0 (decimal_fuel f n) ≡ n
unfolding decimal_fuel
decimal_fuel_value zero n h = omega arith
decimal_fuel_value (suc f) n h = elim (Bool-cases (ltb n 10)) [
  | inl small ↦ rw small (omega arith)
  | inr big ↦ rw big (
      value_from-append 0 (decimal_fuel f (n / 10)) ((b'0' + n % 10) ∷ [])
      ∙ omega (arith, decimal_fuel_value f (n / 10) (omega (arith, pow-suc 10 f))))
]

decimal_fuel_digits : (f n : ℕ) → AllDigits (decimal_fuel f n)
unfolding decimal_fuel is_digit
decimal_fuel_digits zero n = tt
decimal_fuel_digits (suc f) n = elim (Bool-cases (ltb n 10)) [
  | inl small ↦ rw small (ground arith, tt)
  | inr big ↦ rw big (
      AllDigits-append (decimal_fuel f (n / 10)) ((b'0' + n % 10) ∷ [])
        (decimal_fuel_digits f (n / 10)) (ground arith, tt))
]

-- A number below 10 ^ k has k digits at most.
length-decimal_fuel : (f k n : ℕ) → k ≤ f → n < 10 ^ k → 0 < k → length (decimal_fuel f n) ≤ k
unfolding decimal_fuel
length-decimal_fuel zero k n h b p = omega arith
length-decimal_fuel (suc f) zero n h b p = absurd (omega arith)
length-decimal_fuel (suc f) (suc zero) n h b p = ground arith
length-decimal_fuel (suc f) (suc (suc k)) n h b p = elim (Bool-cases (ltb n 10)) [
  | inl small ↦ rw small (omega arith)
  | inr big ↦ rw big (
      omega (
        arith,
        length-append (decimal_fuel f (n / 10)) ((b'0' + n % 10) ∷ []),
        length-decimal_fuel f (suc k) (n / 10) (omega arith) (omega (arith, pow-suc 10 (suc k)))
            (omega arith),
      ))
]

decimal_fuel_pos : (f n : ℕ) → 0 < f → 0 < length (decimal_fuel f n)
unfolding decimal_fuel
decimal_fuel_pos zero n h = absurd (omega arith)
decimal_fuel_pos (suc f) n h = elim (Bool-cases (ltb n 10)) [
  | inl small ↦ rw small (omega arith)
  | inr big ↦ rw big (omega (arith, length-append (decimal_fuel f (n / 10)) ((b'0' + n % 10) ∷ [])))
]

pub decimal_value : (n : ℕ) → n < 10000000000 → value_from 0 (decimal n) ≡ n
unfolding decimal
decimal_value n h = decimal_fuel_value 10 n h

pub decimal_digits : (n : ℕ) → AllDigits (decimal n)
unfolding decimal
decimal_digits n = decimal_fuel_digits 10 n

pub length-decimal :
    (n k : ℕ) → k ≤ 10 → n < 10 ^ k → 0 < k → (0 < length (decimal n)) × (length (decimal n) ≤ k)
unfolding decimal
length-decimal n k h b p = (decimal_fuel_pos 10 n (omega arith), length-decimal_fuel 10 k n h b p)
