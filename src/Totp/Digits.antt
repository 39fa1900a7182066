-- ===== src/Totp/Digits.antt =====
-- Totp.h, `verify`: two codes of six digits are compared by the digits that differ.
-- Over four bits, `|` is 0 only of zeros.
use Prim.Native.Nat.{bit_or, bit_xor}
use esp8266_dns.Base.{
  &&-split, Bool, Bytes, [], arith, each_below, each_below_sound, if◌then◌else◌, length, ltb, not,
  refl, true, ℕ, ◌&&◌, ◌+◌, ◌-◌, ◌<◌, ◌==◌, ◌∷◌, ◌≡◌,
}
use esp8266_dns.Base.Decimal.{AllDigits, is_digit}
use esp8266_dns.Totp.{all_digits, difference, format}
use mathlib.Core.Logic.{◌↔◌}

abbrev ors : ℕ → ℕ → Bool
ors d x =
    ltb (bit_or d x) 16 && (if bit_or d x == 0 then d == 0 && x == 0 else not (d == 0 && x == 0))

ors_table : each_below 16 (λ d. each_below 16 (ors d)) ≡ true
unfolding each_below
ors_table = refl

bit_or_zero :
    (d x : ℕ) → d < 16 → x < 16 → (bit_or d x < 16) × ((bit_or d x ≡ 0) ↔ ((d ≡ 0) × (x ≡ 0)))
bit_or_zero d x h k =
    let row = each_below_sound 16 (λ d. each_below 16 (ors d)) d ors_table h in
    let cell = each_below_sound 16 (ors d) x row k in ground (arith, cell)

-- `^` of two digits is 0 only of equal ones.
abbrev xors : ℕ → ℕ → Bool
xors i j =
    let x = bit_xor (b'0' + i) (b'0' + j) in ltb x 16 && (if x == 0 then i == j else not (i == j))

xors_table : each_below 10 (λ i. each_below 10 (xors i)) ≡ true
unfolding each_below
xors_table = refl

bit_xor_digits :
    (a b : ℕ)
    → is_digit a ≡ true
    → is_digit b ≡ true
    → (bit_xor a b < 16) × ((bit_xor a b ≡ 0) ↔ (a ≡ b))
unfolding is_digit
bit_xor_digits a b h k =
    let da : b'0' + (a - b'0') ≡ a = ground arith in
    let db : b'0' + (b - b'0') ≡ b = ground arith in
    let row =
      each_below_sound 10 (λ i. each_below 10 (xors i)) (a - b'0') xors_table (ground arith) in
    let cell = each_below_sound 10 (xors (a - b'0')) (b - b'0') row (ground arith) in
    let cell' : (ltb (bit_xor a b) 16
          && (if bit_xor a b == 0
              then (a - b'0') == (b - b'0')
              else not ((a - b'0') == (b - b'0'))))
        ≡ true =
      rw (da, db) at cell in
    ground (arith, cell')

-- The comparison of two codes finds every difference.
pub difference_lem :
    (d : ℕ) (s t : Bytes)
    → d < 16
    → length s ≡ length t
    → AllDigits s
    → AllDigits t
    → (difference d s t ≡ 0) ↔ ((d ≡ 0) × (s ≡ t))
unfolding difference
difference_lem d [] [] h l p q = (λ e. (e, refl), λ e. e.0)
difference_lem d [] (b ∷ t) h l p q = absurd (omega arith)
difference_lem d (a ∷ s) [] h l p q = absurd (omega arith)
difference_lem d (a ∷ s) (b ∷ t) h l p q =
    let x = bit_xor_digits a b p.0 q.0 in
    let o = bit_or_zero d (bit_xor a b) h x.0 in
    let rest = difference_lem (bit_or d (bit_xor a b)) s t o.0 (omega arith) p.1 q.1 in
    ground (arith, x, o, rest)

pub format-AllDigits : (otp : ℕ) → AllDigits (format otp) × (length (format otp) ≡ 6)
unfolding format is_digit
format-AllDigits otp = ground arith

pub all_digits_lem : (s : Bytes) → all_digits s ≡ true → AllDigits s
unfolding all_digits
all_digits_lem [] h = tt
all_digits_lem (c ∷ s) h =
    let both = &&-split (is_digit c) (all_digits s) h in (both.0, all_digits_lem s both.1)

pub all_digits_iff : (s : Bytes) → AllDigits s → all_digits s ≡ true
unfolding all_digits
all_digits_iff [] h = refl
all_digits_iff (c ∷ s) h = ground (arith, all_digits_iff s h.1)
