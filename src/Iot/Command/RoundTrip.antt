-- ===== src/Iot/Command/RoundTrip.antt =====
-- IoTCommand.h, `parseCommand`: it reads back every command that a user can write.
use esp8266_dns.Base.{
  ℕ, ◌+◌, ◌≤◌, ◌<◌, ◌≡◌, ◌≢◌, refl, ap, ◌∙◌, some, [], ◌∷◌, ◌++◌, Bytes, codes, arith, length,
}
use esp8266_dns.Base.Decimal.{decimal, decimal_digits, length-decimal}
use esp8266_dns.Base.Hex.{hex6}
use esp8266_dns.Iot.Command.{
  Op, skip_spaces, copy, trim_end, split_word, find_word, words, with_value, parse_split,
  parse_copied, parse_command,
}
use esp8266_dns.Iot.Command.Sound.{IsValid}
use esp8266_dns.Iot.Command.Spell.{
  AllPlain, AllPlain-digits, hex6-AllPlain, hex_color-hex6, number-decimal, spell,
  skip_spaces-AllPlain, skip_spaces-append, copy-append, trim_end-append, split_word-append,
}

parse_copied-append :
    (c : ℕ) (w a : Bytes)
    → AllPlain (c ∷ w)
    → AllPlain a
    → a ≢ []
    → parse_copied (c ∷ w ++ b' ' ∷ a, []) ≡ with_value (find_word (c ∷ w) words) (some a)
unfolding parse_copied
parse_copied-append c w a hw ha na =
    rw (trim_end-append (c ∷ w) a ha na)
      (rw (split_word-append (c ∷ w) a hw) (unfold parse_split in rw (skip_spaces-AllPlain a ha)))

-- A word, one space and an argument reach `with_value` as they are.
parse_command-append :
    (c : ℕ) (w a : Bytes)
    → AllPlain (c ∷ w)
    → AllPlain a
    → a ≢ []
    → length (c ∷ w) + 1 + length a ≤ 39
    → parse_command (c ∷ w ++ b' ' ∷ a) ≡ with_value (find_word (c ∷ w) words) (some a)
unfolding parse_command
parse_command-append c w a hw ha na l =
    rw (skip_spaces-append (c ∷ w) a hw (λ e. cc))
      (rw (copy-append 39 (c ∷ w) a hw ha l) (parse_copied-append c w a hw ha na))

decimal-ne-nil : (v : ℕ) → v < 100000 → decimal v ≢ []
decimal-ne-nil v h e =
    let size = length-decimal v 5 (omega arith) (omega arith) (omega arith) in
    omega (arith, size.0, ap length e)

with_decimal :
    (c : ℕ) (w : Bytes) (v : ℕ)
    → AllPlain (c ∷ w)
    → length (c ∷ w) ≤ 33
    → v < 100000
    → parse_command (c ∷ w ++ b' ' ∷ decimal v)
      ≡ with_value (find_word (c ∷ w) words) (some (decimal v))
with_decimal c w v hw l h =
    let size = length-decimal v 5 (omega arith) (omega arith) (omega arith) in
    parse_command-append c w (decimal v) hw (AllPlain-digits (decimal v) (decimal_digits v))
      (decimal-ne-nil v h) (omega arith)

-- Every valid command, written as its word and its value, is read back as itself.
pub parse_command-spell :
    (op : Op) (v : ℕ)
    → IsValid (record { op = op; value = v })
    → parse_command (spell (record { op = op; value = v })) ≡ some (record { op = op; value = v })
unfolding spell
parse_command-spell Op.none v h = absurd h
parse_command-spell Op.pulse v h =
    with_decimal b'p' (codes "ulse") v (ground arith) (omega arith) (omega arith)
    ∙ (unfold find_word with_value in ground (arith, number-decimal v b's'))
parse_command-spell Op.level v h =
    with_decimal b'l' (codes "evel") v (ground arith) (omega arith) (omega arith)
    ∙ (unfold find_word with_value in ground (arith, number-decimal v b'%'))
parse_command-spell Op.angle v h =
    with_decimal b'a' (codes "ngle") v (ground arith) (omega arith) (omega arith)
    ∙ (unfold find_word with_value in ground (arith, number-decimal v 0))
parse_command-spell Op.color v h =
    parse_command-append b'c' (codes "olor") (b'#' ∷ hex6 v) (ground arith) (refl, hex6-AllPlain v)
      (λ e. cc) (unfold hex6 in omega arith)
    ∙ (unfold find_word with_value in ground (arith, hex_color-hex6 v h))
parse_command-spell Op.on v h = rw h (
    unfold parse_command parse_copied parse_split copy skip_spaces trim_end split_word find_word
      with_value in
    refl)
parse_command-spell _ v h = rw h (
    unfold parse_command parse_copied parse_split copy skip_spaces trim_end split_word find_word
      with_value in
    refl)
