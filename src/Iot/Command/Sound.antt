-- ===== src/Iot/Command/Sound.antt =====
-- IoTCommand.h, `parseCommand`: every command that it accepts has a value in its range.
use esp8266_dns.Base.{
  ℕ, ◌+◌, ◌*◌, ◌^◌, ◌≤◌, ◌<◌, ◌≡◌, refl, subst, Option, some, [], ◌∷◌, Bytes, arith, Option-cases,
  Bool-cases, inl, inr, u32, ◌==◌,
}
use esp8266_dns.Base.Decimal.{pow_add_one}
use esp8266_dns.Iot.Command.{
  Op, Command, hex_from, hex_value, hex_color, with_value, parse_split, parse_copied, parse_command,
  skip_spaces, copy, find_word, words, trim_end, split_word, skip_arg,
}

-- The values that each command may hold. Those with no value hold 0.
abbrev pub IsValid : Command → Type 0
IsValid c = InRange c.op c.value
  where
    InRange : Op → ℕ → Type 0
    InRange Op.none v = ⊥
    InRange Op.pulse v = (1 ≤ v) × (v ≤ 3600)
    InRange Op.level v = v ≤ 100
    InRange Op.angle v = v ≤ 180
    InRange Op.color v = v < 16777216
    InRange _ v = v ≡ 0

abbrev IsValid? : Option Command → Type 0
IsValid? (some c) = IsValid c
IsValid? Option.none = Unit

hex_value-lt : (c d : ℕ) → hex_value c ≡ some d → d < 16
unfolding hex_value
hex_value-lt c d h = ground arith

hex_from-lt : (s : Bytes) (n v w : ℕ) → v < 16 ^ n → hex_from s n v ≡ some w → w < 16777216
unfolding hex_from
hex_from-lt [] n v w h e = ground arith
hex_from-lt (c ∷ s) n v w h e = elim (Option-cases (hex_value c)) [
  | inl bad ↦ absurd (ground arith)
  | inr (d, good) ↦
      let below : u32 (v * 16 + d) < 16 ^ (n + 1) =
        omega (arith, pow_add_one 16 n, hex_value-lt c d good) in
      hex_from-lt s (n + 1) (u32 (v * 16 + d)) w below (ground arith)
]

hex_color-lt : (s : Bytes) (w : ℕ) → hex_color s ≡ some w → w < 16777216
unfolding hex_color
hex_color-lt [] w e = hex_from-lt [] 0 0 w (omega arith) e
hex_color-lt (c ∷ s) w e = elim (Bool-cases (c == b'#')) [
  | inl mark ↦ hex_from-lt s 0 0 w (omega arith) (rw mark at e)
  | inr plain ↦ hex_from-lt (c ∷ s) 0 0 w (omega arith) (rw plain at e)
]

with_value-IsValid : (op : Op) (arg : Option Bytes) → IsValid? (with_value op arg)
unfolding with_value
with_value-IsValid Op.none arg = tt
with_value-IsValid Op.color Option.none = tt
with_value-IsValid Op.color (some arg) = elim (Option-cases (hex_color arg)) [
  | inl bad ↦ ground arith
  | inr (w, good) ↦ ground (arith, hex_color-lt arg w good)
]
with_value-IsValid Op.pulse Option.none = tt
with_value-IsValid Op.pulse (some arg) = ground arith
with_value-IsValid Op.level Option.none = tt
with_value-IsValid Op.level (some arg) = ground arith
with_value-IsValid Op.angle Option.none = tt
with_value-IsValid Op.angle (some arg) = ground arith
with_value-IsValid _ Option.none = refl
with_value-IsValid _ (some arg) = tt

parse_split-IsValid :
    (buf word : Bytes) (arg : Option Bytes) → IsValid? (parse_split buf (word, arg))
unfolding parse_split
parse_split-IsValid buf word (some arg) =
    with_value-IsValid (find_word word words) (skip_arg (some arg))
parse_split-IsValid buf word Option.none =
    ground (arith, with_value-IsValid (find_word word words) Option.none)

parse_copied-IsValid : (b rest : Bytes) → IsValid? (parse_copied (b, rest))
unfolding parse_copied
parse_copied-IsValid b rest =
    let split = split_word (trim_end b) in
    ground (arith, parse_split-IsValid (trim_end b) split.0 split.1)

parse_command-IsValid? : (text : Bytes) → IsValid? (parse_command text)
unfolding parse_command
parse_command-IsValid? text =
    let copied = copy 39 (skip_spaces text) in parse_copied-IsValid copied.0 copied.1

-- Whatever the text, a command that the parser accepts holds a value in the range of its word: a
-- pulse of 1 to 3600 seconds, a level of at most 100 %, an angle of at most 180 degrees, a colour
-- of 24 bits, and 0 for the words that take no value.
pub parse_command-IsValid : (text : Bytes) {c : Command} → parse_command text ≡ some c → IsValid c
parse_command-IsValid text e = subst IsValid? e (parse_command-IsValid? text)
