-- ===== src/Json/Writer.antt =====
-- Json.h, `Writer`: a flat object, written to a file or only measured.
use mathlib.Core.Option
use esp8266_dns.Base.{
  Bool, Bytes, Option, [], codes, false, if◌then◌else◌, length, ltb, suc, take, true, ℕ, ◌%◌, ◌++◌,
  ◌+◌, ◌/◌, ◌==◌, ◌||◌, ◌∷◌,
}
use esp8266_dns.Base.Decimal.{decimal}
use esp8266_dns.Base.Hex.{hex_digit}
use esp8266_dns.Base.Int.{negsuc, pos, ℤ}
use esp8266_dns.NetArbiter.{name}

-- `file` is what the file holds; `none` is the null pointer.
pub record Writer : Type 0 where
  pub file : Option Bytes
  pub n : ℕ
  pub first : Bool

unfoldable pub put : Bytes → Writer → Writer
put s w = record w { n = w.n + length s; file = Option.map (λ f. f ++ s) w.file }

unfoldable pub open_object : Option Bytes → Writer
unfolding put
open_object file = put (codes "{") (record { file = file; n = 0; first = true })

-- What one byte of a string is written as.
unfoldable pub escape : ℕ → Bytes
unfolding hex_digit
escape c =
    if c == b'"' || c == 92
    then 92 ∷ c ∷ []
    else if ltb c 32
    then 92 ∷ b'u' ∷ b'0' ∷ b'0' ∷ hex_digit (c / 16) ∷ hex_digit (c % 16) ∷ []
    else c ∷ []

unfoldable pub put_escaped : Bytes → Writer → Writer
unfolding put escape
put_escaped [] w = w
put_escaped (c ∷ s) w = put_escaped s (put (escape c) w)

-- A name is cut to 23 characters.
unfoldable pub put_key : Bytes → Writer → Writer
unfolding put
put_key name w =
    let behind = if w.first then w else put (codes ",") w in
    let quoted = put (take 23 name) (put (b'"' ∷ []) (record behind { first = false })) in
    put (b'"' ∷ b':' ∷ []) quoted

unfoldable pub write_str : Bytes → Bytes → Writer → Writer
unfolding put put_key put_escaped
write_str name s w = put (b'"' ∷ []) (put_escaped s (put (b'"' ∷ []) (put_key name w)))

-- `%ld`
unfoldable pub signed_text : ℤ → Bytes
unfolding decimal
signed_text (pos n) = decimal n
signed_text (negsuc n) = b'-' ∷ decimal (suc n)

unfoldable pub write_num : Bytes → ℤ → Writer → Writer
unfolding put put_key signed_text
write_num name v w = put (signed_text v) (put_key name w)

unfoldable pub write_unum : Bytes → ℕ → Writer → Writer
unfolding put put_key decimal
write_unum name v w = put (decimal v) (put_key name w)

unfoldable pub write_bool : Bytes → Bool → Writer → Writer
unfolding put put_key
write_bool name v w = put (if v then codes "true" else codes "false") (put_key name w)

unfoldable pub close_object : Writer → Writer
unfolding put
close_object w = put (codes "}") w
