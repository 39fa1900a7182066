-- ===== src/Iot/Command.antt =====
-- IoTCommand.h: the text commands of the panel, the local API, ntfy and MQTT. A text is the list of
-- its bytes before the terminating zero.
pub mod Spell
pub mod Sound
pub mod RoundTrip
pub mod Spacing
use esp8266_dns.Base.{
  ℕ, zero, suc, ◌+◌, ◌-◌, ◌*◌, Bool, true, false, not, ◌&&◌, ◌||◌, Option, some, List, [], ◌∷◌,
  Bytes, codes, bytes_eq, ltb, leb, ◌==◌, within, if◌then◌else◌, u32,
}
use esp8266_dns.Base.Decimal.{is_digit}
use esp8266_dns.Iot.Catalog.{Cap}

pub data Op : Type 0 where
  none on off toggle pulse level angle color auto status : Op

-- `value` is seconds, %, degrees or 0xRRGGBB.
pub record Command : Type 0 where
  pub op : Op
  pub value : ℕ

abbrev pub words : List (Bytes × Op)
words =
    (codes "on", Op.on)
    ∷ (codes "open", Op.on)
    ∷ (codes "off", Op.off)
    ∷ (codes "close", Op.off)
    ∷ (codes "toggle", Op.toggle)
    ∷ (codes "pulse", Op.pulse)
    ∷ (codes "level", Op.level)
    ∷ (codes "brightness", Op.level)
    ∷ (codes "angle", Op.angle)
    ∷ (codes "color", Op.color)
    ∷ (codes "auto", Op.auto)
    ∷ (codes "status", Op.status)
    ∷ []

-- `_range`: the least and the greatest value, for the words that take a decimal one.
abbrev pub range : Op → Option (ℕ × ℕ)
range Op.pulse = some (1, 3600)
range Op.level = some (0, 100)
range Op.angle = some (0, 180)
range _ = Option.none

-- What stands behind the digits: an optional suffix, then the end. `0` is no suffix.
unfoldable pub number_end : Bytes → ℕ → ℕ → ℕ → Option ℕ
number_end [] suffix digits v = if digits == 0 then Option.none else some v
number_end (c ∷ []) suffix digits v =
    if digits == 0
    then Option.none
    else if c == suffix && not (suffix == 0)
    then some v
    else Option.none
number_end (c ∷ d ∷ s) suffix digits v = Option.none

-- The loop of `_number`, with the digits counted and the value read so far.
unfoldable pub number_from : Bytes → ℕ → ℕ → ℕ → Option ℕ
unfolding number_end
number_from [] suffix digits v = number_end [] suffix digits v
number_from (c ∷ s) suffix digits v = elim (is_digit c) [
  | true ↦
      if ltb 5 (digits + 1)
      then Option.none
      else number_from s suffix (digits + 1) (u32 (v * 10 + (c - b'0')))
  | false ↦ number_end (c ∷ s) suffix digits v
]

unfoldable pub number : Bytes → ℕ → Option ℕ
unfolding number_from
number s suffix = number_from s suffix 0 0

-- The value of a lower-case hexadecimal digit.
unfoldable pub hex_value : ℕ → Option ℕ
unfolding is_digit
hex_value c =
    if is_digit c
    then some (c - b'0')
    else if within b'a' b'f' c
    then some (c - b'a' + 10)
    else Option.none

abbrev pub hex_step : Option ℕ → ℕ → Option ℕ
hex_step (some d) v = some (u32 (v * 16 + d))
hex_step Option.none v = Option.none

-- The loop of `_hexColor`. The low four bits of `v << 4` are clear, so `| d` adds.
unfoldable pub hex_from : Bytes → ℕ → ℕ → Option ℕ
unfolding hex_value
hex_from [] n v = if n == 6 then some v else Option.none
hex_from (c ∷ s) n v = elim (hex_step (hex_value c) v) [
  | some w ↦ hex_from s (n + 1) w
  | Option.none ↦ Option.none
]

unfoldable pub hex_color : Bytes → Option ℕ
unfolding hex_from
hex_color [] = hex_from [] 0 0
hex_color (c ∷ s) = if c == b'#' then hex_from s 0 0 else hex_from (c ∷ s) 0 0

-- `tolower` of a byte, in the C locale.
abbrev pub to_lower : ℕ → ℕ
to_lower c = if within b'A' b'Z' c then c + 32 else c

unfoldable pub skip_spaces : Bytes → Bytes
skip_spaces [] = []
skip_spaces (c ∷ s) = elim (c == b' ') [ true ↦ skip_spaces s | false ↦ c ∷ s ]

-- The copy in lower case into a buffer with room for `n`, and what was not copied.
unfoldable pub copy : ℕ → Bytes → Bytes × Bytes
copy zero s = ([], s)
copy (suc n) [] = ([], [])
copy (suc n) (c ∷ s) = let (b, r) = copy n s in (to_lower c ∷ b, r)

abbrev pub is_blank : ℕ → Bool
is_blank c = c == b' ' || c == b'\n' || c == b'\r'

abbrev pub is_empty : Bytes → Bool
is_empty [] = true
is_empty (c ∷ s) = false

unfoldable pub trim_end : Bytes → Bytes
trim_end [] = []
trim_end (c ∷ s) = let r = trim_end s in if is_empty r && is_blank c then [] else c ∷ r

-- `strchr(buf, ' ')`: the word before the first space, and what follows it, if there is one.
unfoldable pub split_word : Bytes → Bytes × Option Bytes
split_word [] = ([], Option.none)
split_word (c ∷ s) = let (w, arg) = split_word s in if c == b' ' then ([], some s) else (c ∷ w, arg)

abbrev pub last_is : ℕ → Bytes → Bool
last_is b [] = false
last_is b (c ∷ []) = c == b
last_is b (c ∷ d ∷ s) = last_is b (d ∷ s)

unfoldable pub find_word : Bytes → List (Bytes × Op) → Op
unfolding bytes_eq
find_word s [] = Op.none
find_word s ((w, op) ∷ ws) = let later = find_word s ws in if bytes_eq s w then op else later

abbrev command : Op → ℕ → Option Command
command op value = some (record { op = op; value = value })

-- `"50%"` alone is the level.
bare_level : Bytes → Option Command
bare_level buf = elim (number buf b'%') [
  | some v ↦ if ltb 100 v then Option.none else command Op.level v
  | Option.none ↦ Option.none
]

abbrev suffix_of : Op → ℕ
suffix_of Op.pulse = b's'
suffix_of Op.level = b'%'
suffix_of _ = 0

ranged : Op → ℕ × ℕ → Bytes → Option Command
ranged op (lo, hi) arg = elim (number arg (suffix_of op)) [
  | some v ↦ if ltb v lo || ltb hi v then Option.none else command op v
  | Option.none ↦ Option.none
]

colored : Bytes → Option Command
colored arg = elim (hex_color arg) [ some v ↦ command Op.color v | Option.none ↦ Option.none ]

with_range : Op → Option (ℕ × ℕ) → Option Bytes → Option Command
unfolding ranged
with_range op (some r) (some arg) = ranged op r arg
with_range op (some r) Option.none = Option.none
with_range op Option.none (some arg) = Option.none
with_range op Option.none Option.none = command op 0

-- The value, for a word that takes one, or nothing. `arg` is what follows the word and its spaces.
unfoldable pub with_value : Op → Option Bytes → Option Command
unfolding with_range colored
with_value Op.none arg = Option.none
with_value Op.color (some arg) = colored arg
with_value Op.color Option.none = Option.none
with_value op arg = with_range op (range op) arg

abbrev pub skip_arg : Option Bytes → Option Bytes
skip_arg (some arg) = some (skip_spaces arg)
skip_arg Option.none = Option.none

-- The word and its argument, in lower case and trimmed.
unfoldable pub parse_split : Bytes → Bytes × Option Bytes → Option Command
unfolding bare_level
parse_split buf (word, some arg) = with_value (find_word word words) (skip_arg (some arg))
parse_split buf (word, Option.none) =
    if last_is b'%' buf then bare_level buf else with_value (find_word word words) Option.none

-- The text once the leading spaces are gone.
unfoldable pub parse_copied : Bytes × Bytes → Option Command
parse_copied (b, rest) =
    let buf = trim_end b in
    if not (is_empty rest)
    then Option.none
    else if is_empty buf
    then Option.none
    else parse_split buf (split_word buf)

unfoldable pub parse_command : Bytes → Option Command
parse_command text = parse_copied (copy 39 (skip_spaces text))

-- Does the command make sense for this capability?
unfoldable pub command_allowed : Cap → Op → Bool
command_allowed Cap.nothing op = false
command_allowed Cap.level Op.level = true
command_allowed Cap.color Op.level = true
command_allowed cap Op.level = false
command_allowed Cap.position Op.angle = true
command_allowed cap Op.angle = false
command_allowed Cap.color Op.color = true
command_allowed cap Op.color = false
command_allowed cap op = true
