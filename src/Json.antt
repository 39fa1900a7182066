-- ===== src/Json.antt =====
-- Json.h, the reader: a position in the text is the row of bytes from there on, and the end of the
-- row is the zero behind the text. The recursion goes on fuel; `spent` says that it ran out.
pub mod Decode
pub mod Writer
pub mod Lengths
pub mod Ends
pub mod Text
pub mod Number
pub mod Written
pub mod Values
pub mod RoundTrip
pub mod Utf8
mod Tests
mod Kinds
pub use Kinds.{Kind, is_integer}
use esp8266_dns.Base.{
  Bool, Bytes, List, Option, [], bytes_eq, codes, drop, false, if◌then◌else◌, inl, inr, is_some,
  leb, length, ltb, none, not, some, suc, take, true, u32, within, zero, ℕ, ◌%◌, ◌&&◌, ◌*◌, ◌+◌,
  ◌-◌, ◌/◌, ◌==◌, ◌||◌, ◌∷◌, ◌⊎◌,
}
use esp8266_dns.Base.Decimal.{is_digit}
use esp8266_dns.Base.Int.{neg_part, pos_part, ℤ}
use mathlib.Core.Option

abbrev pub max_depth : ℕ
max_depth = 10

pub record Value : Type 0 where
  pub kind : Kind
  pub neg : Bool
  pub mag : ℕ
  pub at : Bytes

abbrev pub fresh : Bytes → Value
fresh p = record { kind = Kind.bad; neg = false; mag = 0; at = p }

-- The bits of an integer in [lo, hi].
unfoldable pub fits : Value → ℤ → ℕ → Option ℕ
fits v lo hi =
    let low = u32 (neg_part lo + 4294967296 - pos_part lo) in
    if not (is_integer v.kind) || (if v.neg then ltb low v.mag else ltb hi v.mag)
    then none
    else some (if v.neg then u32 (4294967296 - v.mag) else v.mag)

pub data Parsed {ℓ} (A : Type ℓ) : Type ℓ where
  spent : Parsed A
  invalid : Parsed A
  done : A → Parsed A

infixl 5 ◌>>=◌
abbrev pub ◌>>=◌ {ℓ κ} : {A : Type ℓ} {B : Type κ} → Parsed A → (A → Parsed B) → Parsed B
spent >>= f = spent
invalid >>= f = invalid
done a >>= f = f a

abbrev pub from_option {ℓ} : {A : Type ℓ} → Option A → Parsed A
from_option none = invalid
from_option (some a) = done a

-- `*p`
abbrev pub char_at : Bytes → ℕ
char_at [] = 0
char_at (c ∷ p) = c

unfoldable pub is_space : ℕ → Bool
is_space c = c == 32 || c == 10 || c == 13 || c == 9

unfoldable pub ws : Bytes → Bytes
unfolding is_space
ws [] = []
ws (c ∷ p) = let rest = ws p in if is_space c then rest else c ∷ p

-- `c | 0x20`
abbrev pub lower : ℕ → ℕ
lower c = if c / 32 % 2 == 1 then c else c + 32

unfoldable pub hex : ℕ → Option ℕ
hex c =
    if within b'0' b'9' c
    then some (c - b'0')
    else if within b'a' b'f' (lower c)
    then some (lower c - b'a' + 10)
    else none

-- Where the scan of a string stands: in plain text, behind a backslash, or with `left + 1`
-- hexadecimal digits to come.
pub data Scan : Type 0 where
  plain : Scan
  escaped : Scan
  digits_left : ℕ → Scan

unfoldable pub is_escape : ℕ → Bool
is_escape c =
    c == b'"'
    || c == 92
    || c == b'/'
    || c == b'b'
    || c == b'f'
    || c == b'n'
    || c == b'r'
    || c == b't'

unfoldable pub string_end : Scan → Bytes → Option Bytes
unfolding hex is_escape
string_end scan [] = none
string_end plain (c ∷ p) =
    let rest = string_end (if c == 92 then escaped else plain) p in
    if c == b'"' then some p else if c == 0 then none else rest
string_end escaped (c ∷ p) =
    let rest = string_end (if c == b'u' then digits_left 3 else plain) p in
    if c == b'u' || is_escape c then rest else none
string_end (digits_left zero) (c ∷ p) =
    let rest = string_end plain p in if is_some (hex c) then rest else none
string_end (digits_left (suc left)) (c ∷ p) =
    let rest = string_end (digits_left left) p in if is_some (hex c) then rest else none

unfoldable pub skip_digits : Bytes → Bytes
unfolding is_digit
skip_digits [] = []
skip_digits (c ∷ p) = let rest = skip_digits p in if is_digit c then rest else c ∷ p

unfoldable pub digits : Bytes → Option Bytes
unfolding skip_digits is_digit
digits p = if is_digit (char_at p) then some (skip_digits p) else none

unfoldable pub add_digit : ℕ → Value → Value
add_digit d v = record v {
  kind = if ltb ((4294967295 - d) / 10) v.mag then Kind.number else v.kind;
  mag = u32 (v.mag * 10 + d);
}

-- The loop over the digits, up to the first byte that is none.
unfoldable pub magnitude : Value → Bytes → Value × Bytes
unfolding add_digit is_digit
magnitude v [] = (v, [])
magnitude v (c ∷ p) =
    let rest = magnitude (add_digit (c - b'0') v) p in if is_digit c then rest else (v, c ∷ p)

unfoldable pub fraction : Value → Bytes → Option (Value × Bytes)
unfolding digits
fraction v p =
    if char_at p == b'.'
    then Option.map (λ q. (record v { kind = Kind.number }, q)) (digits (drop 1 p))
    else some (v, p)

unfoldable pub exponent : Value → Bytes → Option (Value × Bytes)
unfolding digits
exponent v p =
    let q = drop 1 p in
    if char_at p == b'e' || char_at p == b'E'
    then Option.map (λ r. (record v { kind = Kind.number }, r))
        (digits (if char_at q == b'+' || char_at q == b'-' then drop 1 q else q))
    else some (v, p)

unfoldable pub read_number : Value → Bytes → Option (Value × Bytes)
unfolding digits magnitude fraction exponent
read_number v p =
    let minus = char_at p == b'-' in
    let q = if minus then drop 1 p else p in
    let whole = magnitude (record v { neg = minus; kind = Kind.integer }) q in
    if is_some (digits q)
    then elim (fraction whole.0 whole.1) [ none ↦ none | some (w, r) ↦ exponent w r ]
    else none

-- `strncmp(p, word, n) == 0` for a word of n bytes.
unfoldable pub starts : Bytes → Bytes → Bool
starts [] p = true
starts (w ∷ word) [] = false
starts (w ∷ word) (c ∷ p) = w == c && starts word p

unfoldable pub scalar : Bytes → Option (Value × Bytes)
unfolding starts read_number
scalar p =
    let v = fresh p in
    if starts (codes "true") p || starts (codes "false") p
    then (let yes_it_is = char_at p == b't' in
        some (
          record v { kind = Kind.boolean; mag = if yes_it_is then 1 else 0 },
          drop (if yes_it_is then 4 else 5) p,
        ))
    else if starts (codes "null") p
    then some (record v { kind = Kind.nul }, drop 4 p)
    else read_number v p

-- A call of the callback: the name as it is written, and the value.
pub record Member : Type 0 where
  pub key : Bytes
  pub value : Value

unfoldable pub expect : ℕ → Bytes → Parsed Bytes
unfolding ws
expect c p = let q = ws p in if char_at q == c then done (drop 1 q) else invalid

-- The name of a member, and the position behind its closing quote.
unfoldable pub key_at : Bytes → Parsed (Bytes × Bytes)
unfolding string_end
key_at p =
    let name = drop 1 p in
    if not (char_at p == b'"') then invalid else elim (string_end plain name) [
      | none ↦ invalid
      | some end ↦ done (take (length name - length end - 1) name, end)
    ]

-- Behind an element: the closing bracket (left), or a comma (right).
unfoldable pub separator : ℕ → Bytes → Parsed (Bytes ⊎ Bytes)
unfolding ws
separator close p =
    let q = ws p in
    if char_at q == close
    then done (inl (drop 1 q))
    else if char_at q == b','
    then done (inr (drop 1 q))
    else invalid

-- The two ways on behind an element.
abbrev pub continue_by {ℓ} :
    {A : Type ℓ} → (Bytes → Parsed A) → (Bytes → Parsed A) → Bytes ⊎ Bytes → Parsed A
continue_by end more (inl p) = end p
continue_by end more (inr p) = more p

-- An opening bracket's contents: nothing before the closing one, or the loop.
unfoldable pub opened {ℓ} : {A : Type ℓ} → ℕ → A → Bytes → Parsed (A × Bytes) → Parsed (A × Bytes)
opened close empty p loop = if char_at p == close then done (empty, drop 1 p) else loop

unfoldable mutual
  unfolding ws string_end scalar expect key_at separator opened

  pub value : ℕ → Bytes → ℕ → Parsed (Value × Bytes)
  value zero p depth = spent
  value (suc fuel) p depth =
      let q = ws p in
      let c = char_at q in
      let inside = drop 1 q in
      let fields = opened b'}' [] (ws inside) (members_loop fuel (ws inside) (depth + 1)) in
      let row = opened b']' (fresh []) (ws inside) (items_loop fuel (ws inside) (depth + 1)) in
      if c == b'"'
      then (do
        end ← from_option (string_end plain inside)
        done (record (fresh inside) { kind = Kind.string }, end))
      else if c == b'{' || c == b'['
      then (if leb max_depth depth
          then invalid
          else if c == b'{'
          then (fields >>= λ r. done (record (fresh q) { kind = Kind.object }, r.1))
          else (row >>= λ r. done (record (fresh q) { kind = Kind.array }, r.1)))
      else from_option (scalar q)

  pub members_loop : ℕ → Bytes → ℕ → Parsed (List Member × Bytes)
  members_loop zero p depth = spent
  members_loop (suc fuel) p depth = do
    k ← key_at p
    q ← expect b':' k.1
    v ← value fuel q depth
    s ← separator b'}' v.1
    let m : Member = record { key = k.0; value = v.0 }
    continue_by (λ end. done (m ∷ [], end))
        (λ more. members_loop fuel (ws more) depth >>= λ r. done (m ∷ r.0, r.1)) s

  pub items_loop : ℕ → Bytes → ℕ → Parsed (Value × Bytes)
  items_loop zero p depth = spent
  items_loop (suc fuel) p depth = do
    v ← value fuel p depth
    s ← separator b']' v.1
    continue_by (λ end. done (v.0, end))
        (λ more. items_loop fuel more depth >>= λ r. done (v.0, r.1)) s

-- Fuel for a whole text: two calls of the recursion read a byte at least.
abbrev pub fuel_for : Bytes → ℕ
fuel_for p = 2 * length p + 2

-- `p` stands at the bracket.
unfoldable pub members_at : Bytes → Parsed (List Member × Bytes)
unfolding ws opened members_loop
members_at p = let q = ws (drop 1 p) in opened b'}' [] q (members_loop (fuel_for p) q 1)

-- The members of a valid object; the first pass makes no call.
unfoldable pub object : Bytes → Parsed (List Member)
unfolding ws members_at
object text =
    let p = ws text in
    if char_at p == b'{'
    then (members_at p >>= λ valid. members_at p >>= λ r. done r.0)
    else invalid

unfoldable pub members : Value → Parsed (List Member)
unfolding members_at
members v = members_at v.at >>= λ r. done r.0

-- Element 0 of an array.
unfoldable pub first : Value → Parsed Value
unfolding ws opened items_loop
first v =
    let q = ws (drop 1 v.at) in
    opened b']' (fresh []) q (items_loop (fuel_for v.at) q 1) >>= λ r. done r.0

-- The name of a member is exactly `name`.
unfoldable pub is : Bytes → Bytes → Bool
unfolding bytes_eq
is key name = length name == length key && bytes_eq key name
