-- ===== src/Json/Values.antt =====
-- Json.h: each part of a member that `Writer` has written is read back.
use esp8266_dns.Base.{take-append}
use esp8266_dns.Base.{
  All, Bytes, List, Option, [], ap, append_assoc, arith, codes, false, length, length-append, refl,
  some, suc, take, true, ℕ, ◌++◌, ◌-◌, ◌<◌, ◌==◌, ◌||◌, ◌∙◌, ◌∷◌, ◌≡◌, ◌≢◌, ◌≤◌,
}
use esp8266_dns.Base.Decimal.{AllDigits, decimal, decimal_digits, is_digit, length-decimal}
use esp8266_dns.Base.Int.{negsuc, pos}
use esp8266_dns.Json.{
  Kind, Value, done, expect, fresh, from_option, is_space, key_at, plain, scalar, starts,
  string_end, value, ws, ◌>>=◌,
}
use esp8266_dns.Json.Number.{
  IsLong, Stops, integer_at, scalar-decimal, scalar-signed_text, signed_at,
}
use esp8266_dns.Json.Text.{IsChar, escaped_text, string_end-escaped_text}
use esp8266_dns.Json.Writer.{signed_text}
use esp8266_dns.Json.Written.{
  Content, Field, content_text, entry, flag, num, string, tail_text, unum,
}

-- A character that a name may hold: it is neither escaped nor the end of the text.
abbrev pub IsPlain : ℕ → Type 0
IsPlain c = (c ≢ b'"') × (c ≢ 92) × (0 < c)

abbrev pub IsContent : Content → Type 0
IsContent (string s) = All IsChar s
IsContent (num z) = IsLong z
IsContent (unum n) = n < 4294967296
IsContent (flag b) = Unit {0}

abbrev pub IsField : Field → Type 0
IsField f = (length f.name ≤ 23) × All IsPlain f.name × IsContent f.content

-- The value that the reader hands over; `rest` stands behind it in the text.
unfoldable pub read_as : Content → Bytes → Value
unfolding escaped_text signed_text decimal content_text
read_as (string s) rest = record (fresh (escaped_text s ++ (b'"' ∷ rest))) { kind = Kind.string }
read_as (num z) rest = signed_at (signed_text z ++ rest) z
read_as (unum n) rest = integer_at (decimal n ++ rest) false n
read_as (flag true) rest = record (fresh (codes "true" ++ rest)) { kind = Kind.boolean; mag = 1 }
read_as (flag false) rest = record (fresh (codes "false" ++ rest)) { kind = Kind.boolean }

string_end-plain :
    (s rest : Bytes) → All IsPlain s → string_end plain (s ++ (b'"' ∷ rest)) ≡ some rest
unfolding string_end
string_end-plain [] rest h = refl
string_end-plain (c ∷ s) rest h = ground (arith, string_end-plain s rest)

pub key_at-name :
    (s rest : Bytes) → All IsPlain s → key_at (b'"' ∷ (s ++ (b'"' ∷ rest))) ≡ done (s, rest)
unfolding key_at
key_at-name s rest h =
    let size : length (s ++ (b'"' ∷ rest)) - length rest - 1 ≡ length s =
      omega (arith, length-append s (b'"' ∷ rest)) in
    rw (string_end-plain s rest h) (
      ap (λ (t : Bytes). done (t, rest))
        (ap (λ n. take n (s ++ (b'"' ∷ rest))) size ∙ take-append s (b'"' ∷ rest)))

pub expect-here : (c : ℕ) (p : Bytes) → is_space c ≡ false → expect c (c ∷ p) ≡ done p
unfolding expect ws
expect-here c p h = rw h (ground arith)

ws-here : (c : ℕ) (p : Bytes) → is_space c ≡ false → ws (c ∷ p) ≡ c ∷ p
unfolding ws
ws-here c p h = rw h refl

-- A word or a number is no bracket and no string.
abbrev pub IsScalar : ℕ → Type 0
IsScalar c = (is_space c ≡ false) × (c ≢ b'"') × (c ≢ b'{') × (c ≢ b'[')

value-scalar :
    (fuel c depth : ℕ) (p : Bytes)
    → IsScalar c
    → value (suc fuel) (c ∷ p) depth ≡ from_option (scalar (c ∷ p))
unfolding value
value-scalar fuel c depth p h =
    let no_quote : (c == b'"') ≡ false = ground arith in
    let no_bracket : (c == b'{' || c == b'[') ≡ false = ground arith in
    rw (ws-here c p h.0) (rw no_quote (rw no_bracket refl))

value-string :
    (fuel depth : ℕ) (s rest : Bytes)
    → All IsChar s
    → value (suc fuel) (b'"' ∷ (escaped_text s ++ (b'"' ∷ rest))) depth
      ≡ done (record (fresh (escaped_text s ++ (b'"' ∷ rest))) { kind = Kind.string }, rest)
unfolding value
value-string fuel depth s rest h =
    ap
      (λ (o : Option Bytes). from_option o >>= λ (end : Bytes).
        done (record (fresh (escaped_text s ++ (b'"' ∷ rest))) { kind = Kind.string }, end))
      (string_end-escaped_text s rest h)

digit-IsScalar : (c : ℕ) → is_digit c ≡ true → IsScalar c
unfolding is_digit is_space
digit-IsScalar c h = (ground arith, ground arith, ground arith, ground arith)

value-digits :
    (fuel depth : ℕ) (s rest : Bytes)
    → 0 < length s
    → AllDigits s
    → value (suc fuel) (s ++ rest) depth ≡ from_option (scalar (s ++ rest))
value-digits fuel depth [] rest l h = absurd (omega arith)
value-digits fuel depth (c ∷ s) rest l h =
    value-scalar fuel c depth (s ++ rest) (digit-IsScalar c h.0)

value-decimal :
    (fuel depth n : ℕ) (rest : Bytes)
    → n < 4294967296
    → value (suc fuel) (decimal n ++ rest) depth ≡ from_option (scalar (decimal n ++ rest))
value-decimal fuel depth n rest h =
    value-digits fuel depth (decimal n) rest
      (length-decimal n 10 (omega arith) (omega arith) (omega arith)).0 (decimal_digits n)

-- The content of a member is read, wherever it stands.
pub value-content :
    (c : Content) (rest : Bytes) (fuel depth : ℕ)
    → IsContent c
    → Stops rest
    → value (suc fuel) (content_text c ++ rest) depth ≡ done (read_as c rest, rest)
unfolding content_text read_as
value-content (string s) rest fuel depth h k =
    ap (λ (t : Bytes). value (suc fuel) (b'"' ∷ t) depth)
      (append_assoc (escaped_text s) (b'"' ∷ []) rest)
    ∙ value-string fuel depth s rest h
value-content (num (pos n)) rest fuel depth h k =
    unfold signed_text in
    value-decimal fuel depth n rest (omega arith)
    ∙ ap from_option (scalar-signed_text (pos n) rest h k)
value-content (num (negsuc n)) rest fuel depth h k =
    unfold signed_text in
    value-scalar fuel b'-' depth (decimal (suc n) ++ rest)
      (unfold is_space in (refl, omega arith, omega arith, omega arith))
    ∙ ap from_option (scalar-signed_text (negsuc n) rest h k)
value-content (unum n) rest fuel depth h k =
    value-decimal fuel depth n rest h ∙ ap from_option (scalar-decimal n rest h k)
value-content (flag true) rest fuel depth h k =
    value-scalar fuel b't' depth (codes "rue" ++ rest)
      (unfold is_space in (refl, omega arith, omega arith, omega arith))
    ∙ unfold scalar starts in refl
value-content (flag false) rest fuel depth h k =
    value-scalar fuel b'f' depth (codes "alse" ++ rest)
      (unfold is_space in (refl, omega arith, omega arith, omega arith))
    ∙ unfold scalar starts in refl

pub entry-append :
    (f : Field) (rest : Bytes)
    → entry f ++ rest ≡ b'"' ∷ (f.name ++ (b'"' ∷ b':' ∷ (content_text f.content ++ rest)))
unfolding entry
entry-append f rest =
    ap (◌∷◌ b'"') (append_assoc f.name (b'"' ∷ b':' ∷ content_text f.content) rest)

pub tail-Stops : (fs : List Field) (rest : Bytes) → Stops (tail_text fs ++ rest)
unfolding tail_text is_digit
tail-Stops [] rest = (refl, omega arith, omega arith, omega arith)
tail-Stops (f ∷ fs) rest = (refl, omega arith, omega arith, omega arith)
