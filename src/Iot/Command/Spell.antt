-- ===== src/Iot/Command/Spell.antt =====
-- How a command is written, and how the parser's steps take a word and an argument apart.
use esp8266_dns.Base.{
  ℕ, zero, suc, ◌+◌, ◌*◌, ◌-◌, ◌/◌, ◌%◌, ◌≤◌, ◌<◌, ◌≡◌, ◌≢◌, refl, ap, ◌∙◌, Bool, true, not, ◌&&◌,
  some, [], ◌∷◌, ◌++◌, Bytes, codes, arith, within, u32, All, length,
}
use esp8266_dns.Base.Decimal.{
  is_digit, decimal, AllDigits, value_from, decimal_value, decimal_digits, length-decimal,
}
use esp8266_dns.Base.Hex.{hex_digit, hex6}
use esp8266_dns.Iot.Command.{
  Op, Command, number, number_from, hex_from, hex_value, hex_color, is_blank, skip_spaces, copy,
  trim_end, split_word,
}

-- A byte that the parser copies as it is and never trims: no capital, no blank.
abbrev pub is_plain : ℕ → Bool
is_plain c = not (within b'A' b'Z' c) && not (is_blank c)

abbrev pub AllPlain : Bytes → Type 0
AllPlain = All (λ c. is_plain c ≡ true)

-- The command as a user types it.
unfoldable pub spell : Command → Bytes
spell c = text c.op
  where
    text : Op → Bytes
    text Op.none = []
    text Op.on = codes "on"
    text Op.off = codes "off"
    text Op.toggle = codes "toggle"
    text Op.auto = codes "auto"
    text Op.status = codes "status"
    text Op.pulse = codes "pulse" ++ b' ' ∷ decimal c.value
    text Op.level = codes "level" ++ b' ' ∷ decimal c.value
    text Op.angle = codes "angle" ++ b' ' ∷ decimal c.value
    text Op.color = codes "color" ++ b' ' ∷ b'#' ∷ hex6 c.value

pub skip_spaces-AllPlain : (a : Bytes) → AllPlain a → skip_spaces a ≡ a
unfolding skip_spaces
skip_spaces-AllPlain [] h = refl
skip_spaces-AllPlain (c ∷ s) h = ground arith

pub skip_spaces-append :
    (w a : Bytes) → AllPlain w → w ≢ [] → skip_spaces (w ++ b' ' ∷ a) ≡ w ++ b' ' ∷ a
unfolding skip_spaces
skip_spaces-append [] a h ne = absurd (ne refl)
skip_spaces-append (c ∷ w) a h ne = ground arith

copy-AllPlain : (n : ℕ) (s : Bytes) → AllPlain s → length s ≤ n → copy n s ≡ (s, [])
unfolding copy
copy-AllPlain zero [] h l = refl
copy-AllPlain zero (c ∷ s) h l = absurd (omega arith)
copy-AllPlain (suc n) [] h l = refl
copy-AllPlain (suc n) (c ∷ s) h l = ground (arith, copy-AllPlain n s h.1)

pub copy-append :
    (n : ℕ) (w a : Bytes)
    → AllPlain w
    → AllPlain a
    → length w + 1 + length a ≤ n
    → copy n (w ++ b' ' ∷ a) ≡ (w ++ b' ' ∷ a, [])
unfolding copy
copy-append zero w a hw ha l = absurd (omega arith)
copy-append (suc n) [] a hw ha l = ground (arith, copy-AllPlain n a ha)
copy-append (suc n) (c ∷ w) a hw ha l = ground (arith, copy-append n w a hw.1 ha)

trim_end-AllPlain : (s : Bytes) → AllPlain s → trim_end s ≡ s
unfolding trim_end
trim_end-AllPlain [] h = refl
trim_end-AllPlain (c ∷ s) h = ground (arith, trim_end-AllPlain s h.1)

pub trim_end-append : (w a : Bytes) → AllPlain a → a ≢ [] → trim_end (w ++ b' ' ∷ a) ≡ w ++ b' ' ∷ a
unfolding trim_end
trim_end-append [] [] ha ne = absurd (ne refl)
trim_end-append [] (c ∷ a) ha ne = ground (arith, trim_end-AllPlain a ha.1)
trim_end-append (c ∷ []) a ha ne = ground (arith, trim_end-append [] a ha ne)
trim_end-append (c ∷ d ∷ w) a ha ne = ground (arith, trim_end-append (d ∷ w) a ha ne)

pub split_word-append : (w a : Bytes) → AllPlain w → split_word (w ++ b' ' ∷ a) ≡ (w, some a)
unfolding split_word
split_word-append [] a hw = refl
split_word-append (c ∷ w) a hw = ground (arith, split_word-append w a hw.1)

is_plain_digit : (c : ℕ) → is_digit c ≡ true → is_plain c ≡ true
unfolding is_digit
is_plain_digit c h = ground arith

pub AllPlain-digits : (s : Bytes) → AllDigits s → AllPlain s
AllPlain-digits [] h = tt
AllPlain-digits (c ∷ s) h = (is_plain_digit c h.0, AllPlain-digits s h.1)

value_from-le : (v : ℕ) (s : Bytes) → v ≤ value_from v s
value_from-le v [] = omega arith
value_from-le v (c ∷ s) = omega (arith, value_from-le (v * 10 + (c - b'0')) s)

-- At most five digits are read as their value.
number_from-digits :
    (s : Bytes) (suffix k v : ℕ)
    → AllDigits s
    → k + length s ≤ 5
    → 0 < k + length s
    → value_from v s < 4294967296
    → number_from s suffix k v ≡ some (value_from v s)
unfolding number_from
number_from-digits [] suffix k v h l p b = ground arith
number_from-digits (c ∷ s) suffix k v h l p b =
    let same : u32 (v * 10 + (c - b'0')) ≡ v * 10 + (c - b'0') =
      omega (arith, value_from-le (v * 10 + (c - b'0')) s) in
    ground (
      arith,
      h.0,
      same,
      number_from-digits s suffix (k + 1) (v * 10 + (c - b'0')) h.1 (omega arith) (omega arith),
    )

pub number-decimal : (v suffix : ℕ) → v < 100000 → number (decimal v) suffix ≡ some v
unfolding number
number-decimal v suffix h =
    let size = length-decimal v 5 (omega arith) (omega arith) (omega arith) in
    number_from-digits (decimal v) suffix 0 0 (decimal_digits v) (omega arith) (omega arith)
      (omega (arith, decimal_value v (omega arith)))
    ∙ ap some (decimal_value v (omega arith))

hex_value-hex_digit :
    (d : ℕ) → d < 16 → (hex_value (hex_digit d) ≡ some d) × (is_plain (hex_digit d) ≡ true)
unfolding hex_value hex_digit
hex_value-hex_digit d h = ground arith

hex_from-hex_digit :
    (d n v : ℕ) (s : Bytes)
    → d < 16
    → v < 268435456
    → hex_from (hex_digit d ∷ s) n v ≡ hex_from s (n + 1) (v * 16 + d)
unfolding hex_from
hex_from-hex_digit d n v s h b =
    let same : u32 (v * 16 + d) ≡ v * 16 + d = omega arith in
    rw ((hex_value-hex_digit d h).0, hex_from) (rw same)

pub hex6-AllPlain : (v : ℕ) → AllPlain (hex6 v)
unfolding hex6
hex6-AllPlain v = (
  (hex_value-hex_digit _ (omega arith)).1,
  (
    (hex_value-hex_digit _ (omega arith)).1,
    (
      (hex_value-hex_digit _ (omega arith)).1,
      (
        (hex_value-hex_digit _ (omega arith)).1,
        ((hex_value-hex_digit _ (omega arith)).1, ((hex_value-hex_digit _ (omega arith)).1, tt)),
      ),
    ),
  ),
)

pub hex_color-hex6 : (v : ℕ) → v < 16777216 → hex_color (b'#' ∷ hex6 v) ≡ some v
unfolding hex_color hex6
hex_color-hex6 v h =
    let a : ℕ = v / 1048576 % 16 in
    let b : ℕ = v / 65536 % 16 in
    let c : ℕ = v / 4096 % 16 in
    let d : ℕ = v / 256 % 16 in
    let e : ℕ = v / 16 % 16 in
    rw (hex_from-hex_digit a 0 0 _ (omega arith) (omega arith)) (
      rw (hex_from-hex_digit b 1 (0 * 16 + a) _ (omega arith) (omega arith)) (
        rw (hex_from-hex_digit c 2 ((0 * 16 + a) * 16 + b) _ (omega arith) (omega arith)) (
          rw
            (hex_from-hex_digit d 3 (((0 * 16 + a) * 16 + b) * 16 + c) _ (omega arith)
              (omega arith))
            (rw
              (hex_from-hex_digit e 4 ((((0 * 16 + a) * 16 + b) * 16 + c) * 16 + d) _ (omega arith)
                (omega arith))
              (rw
                (hex_from-hex_digit (v % 16) 5
                  (((((0 * 16 + a) * 16 + b) * 16 + c) * 16 + d) * 16 + e) [] (omega arith)
                  (omega arith))
                (unfold hex_from in ap some (omega arith)))))))
