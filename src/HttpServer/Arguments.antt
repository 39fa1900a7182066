-- ===== src/HttpServer/Arguments.antt =====
-- HttpServer.h, `_find` and `arg`: the arguments of the query and of the body.
use esp8266_dns.Base.{
  Bytes, List, Option, [], bytes_eq, codes, drop, if◌then◌else◌, length, none, some, suc, within,
  zero, ℕ, ◌*◌, ◌++◌, ◌+◌, ◌-◌, ◌==◌, ◌∷◌,
}
use esp8266_dns.Base.{c_string}
use esp8266_dns.HttpServer.{Request, starts_with}

-- The pieces between the `&`; behind the last one the text ends.
unfoldable pub pieces_from : Bytes → Bytes → List Bytes
pieces_from [] [] = []
pieces_from (x ∷ piece) [] = (x ∷ piece) ∷ []
pieces_from piece (c ∷ s) =
    let cut = piece ∷ pieces_from [] s in
    let longer = pieces_from (piece ++ c ∷ []) s in if c == b'&' then cut else longer

unfoldable pub hex_value : ℕ → Option ℕ
hex_value c =
    if within b'0' b'9' c
    then some (c - b'0')
    else if within b'a' b'f' c
    then some (c - b'a' + 10)
    else if within b'A' b'F' c
    then some (c - b'A' + 10)
    else none

-- A character of the value behind a percent sign, if two digits follow.
unfoldable pub percent : Bytes → Option (ℕ × Bytes)
unfolding hex_value
percent (a ∷ b ∷ s) = elim (hex_value a) [
  | none ↦ none
  | some x ↦ elim (hex_value b) [ none ↦ none | some y ↦ some (x * 16 + y, s) ]
]
percent _ = none

abbrev pub or_else {ℓ} : {A : Type ℓ} → Option A → A → A
or_else none a = a
or_else (some b) a = b

-- One character of the value, and what is left behind it.
unfoldable pub decoded_char : ℕ → Bytes → ℕ × Bytes
decoded_char c v =
    if c == b'+' then (32, v) else if c == b'%' then or_else (percent v) (c, v) else (c, v)

-- Every turn of the loop takes a byte at least.
unfoldable pub url_decode : ℕ → Bytes → Bytes
unfolding decoded_char
url_decode zero v = []
url_decode (suc fuel) [] = []
url_decode (suc fuel) (c ∷ v) = let d = decoded_char c v in d.0 ∷ url_decode fuel d.1

-- `name=value`, or `name` alone.
unfoldable pub value_of : Bytes → Bytes → Option Bytes
value_of name piece =
    let rest = drop (length name) piece in
    if starts_with name piece
    then elim rest [
      | [] ↦ some []
      | c ∷ v ↦ if c == b'=' then some (url_decode (length v) v) else none
    ]
    else none

unfoldable pub find_piece : Bytes → List Bytes → Option Bytes
find_piece name [] = none
find_piece name (p ∷ ps) =
    let rest = find_piece name ps in elim (value_of name p) [ none ↦ rest | some v ↦ some v ]

unfoldable pub find : Bytes → Bytes → Option Bytes
find s name = find_piece name (pieces_from [] (c_string s))

unfoldable pub arg : Request → Bytes → Bytes
unfolding find bytes_eq
arg r name = if bytes_eq name (codes "plain") then r.body else elim (find r.query name) [
  | some v ↦ v
  | none ↦ if r.form then elim (find r.body name) [ none ↦ [] | some v ↦ v ] else []
]
