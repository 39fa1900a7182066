-- ===== src/HttpServer/Query.antt =====
-- HttpServer.h: the arguments of a form, encoded as a browser does, are found again.
use esp8266_dns.Base.{All-append}
use esp8266_dns.Base.{
  ==_iff, All, Bool, Bool-cases, Bytes, List, Option, [], ap, append-nil, append_assoc, arith,
  bytes_eq, false, if◌then◌else◌, inl, inr, length, length-append, map, none, refl, some, suc, sym,
  within, zero, ℕ, ◌%◌, ◌++◌, ◌/◌, ◌<◌, ◌==◌, ◌||◌, ◌∙◌, ◌∷◌, ◌≡◌, ◌≢◌, ◌≤◌,
}
use esp8266_dns.Base.Hex.{hex_digit}
use esp8266_dns.Base.{c_string}
use esp8266_dns.HttpServer.{starts_with}
use esp8266_dns.HttpServer.Arguments.{
  find, find_piece, hex_value, percent, pieces_from, url_decode, value_of,
}

abbrev IsByte : ℕ → Type 0
IsByte c = c < 256

-- A byte of a value: a letter or digit by itself, a space as a plus, the rest in hexadecimal.
unfoldable pub url_char : ℕ → Bytes
unfolding hex_digit
url_char c =
    if within b'0' b'9' c || within b'a' b'z' c || within b'A' b'Z' c
    then c ∷ []
    else if c == 32
    then b'+' ∷ []
    else b'%' ∷ hex_digit (c / 16) ∷ hex_digit (c % 16) ∷ []

unfoldable pub url_encode : Bytes → Bytes
url_encode [] = []
url_encode (c ∷ s) = url_char c ++ url_encode s

abbrev pub Pair : Type 0
Pair = Bytes × Bytes

unfoldable pub pair_text : Pair → Bytes
pair_text p = p.0 ++ (b'=' ∷ url_encode p.1)

unfoldable pub query_text : List Pair → Bytes
query_text [] = []
query_text (p ∷ []) = pair_text p
query_text (p ∷ q ∷ ps) = pair_text p ++ (b'&' ∷ query_text (q ∷ ps))

-- The first pair with the name.
unfoldable pub first_value : Bytes → List Pair → Option Bytes
first_value name [] = none
first_value name (p ∷ ps) =
    let rest = first_value name ps in if bytes_eq p.0 name then some p.1 else rest

abbrev pub IsArgument : ℕ → Type 0
IsArgument c = (c ≢ b'&') × (c ≢ b'=') × (0 < c)

abbrev pub IsPair : Pair → Type 0
IsPair p = All IsArgument p.0 × All (λ c. c < 256) p.1

hex_value-hex_digit : (d : ℕ) → d < 16 → hex_value (hex_digit d) ≡ some d
unfolding hex_value hex_digit
hex_value-hex_digit d h = ground arith

percent-digits :
    (c : ℕ) (rest : Bytes)
    → c < 256
    → percent (hex_digit (c / 16) ∷ hex_digit (c % 16) ∷ rest) ≡ some (c, rest)
unfolding percent
percent-digits c rest h = ground (arith, hex_value-hex_digit (c / 16), hex_value-hex_digit (c % 16))

abbrev is_plain : ℕ → Bool
is_plain c = within b'0' b'9' c || within b'a' b'z' c || within b'A' b'Z' c

url_decode-plain :
    (c fuel : ℕ) (rest : Bytes)
    → (c == b'+') ≡ false
    → (c == b'%') ≡ false
    → url_decode (suc fuel) (c ∷ rest) ≡ c ∷ url_decode fuel rest
unfolding url_decode
url_decode-plain c fuel rest p q = rw p (rw q refl)

url_decode-percent :
    (c fuel : ℕ) (rest : Bytes)
    → c < 256
    → url_decode (suc fuel) (b'%' ∷ hex_digit (c / 16) ∷ hex_digit (c % 16) ∷ rest)
      ≡ c ∷ url_decode fuel rest
unfolding url_decode
url_decode-percent c fuel rest h = rw (percent-digits c rest h) refl

url_decode-char :
    (c fuel : ℕ) (rest : Bytes)
    → c < 256
    → url_decode (suc fuel) (url_char c ++ rest) ≡ c ∷ url_decode fuel rest
unfolding url_char
url_decode-char c fuel rest h = elim (Bool-cases (is_plain c)) [
  | inl e ↦ rw e (url_decode-plain c fuel rest (ground (arith, e)) (ground (arith, e)))
  | inr e ↦ rw e (elim (Bool-cases (c == 32)) [
    | inl d ↦
        rw d
          (unfold url_decode in ap (λ (n : ℕ). n ∷ url_decode fuel rest) (sym ((==_iff c 32).0 d)))
    | inr d ↦ rw d (url_decode-percent c fuel rest h)
  ])
]

url_decode-url_encode :
    (s : Bytes) (fuel : ℕ)
    → All (λ c. c < 256) s
    → length s ≤ fuel
    → url_decode fuel (url_encode s) ≡ s
unfolding url_encode
url_decode-url_encode [] zero h w = unfold url_decode in refl
url_decode-url_encode [] (suc fuel) h w = unfold url_decode in refl
url_decode-url_encode (c ∷ s) zero h w = absurd (omega arith)
url_decode-url_encode (c ∷ s) (suc fuel) h w =
    url_decode-char c fuel (url_encode s) h.0
    ∙ ap (◌∷◌ c) (url_decode-url_encode s fuel h.1 (omega arith))

url_char_text : (c : ℕ) → c < 256 → All IsArgument (url_char c) × (0 < length (url_char c))
unfolding url_char hex_digit
url_char_text c h = ground arith

url_encode_text : (s : Bytes) → All (λ c. c < 256) s → All IsArgument (url_encode s)
unfolding url_encode
url_encode_text [] h = tt
url_encode_text (c ∷ s) h =
    All-append IsArgument (url_char c) (url_encode s) (url_char_text c h.0).0
      (url_encode_text s h.1)

length-url_encode : (s : Bytes) → All (λ c. c < 256) s → length s ≤ length (url_encode s)
unfolding url_encode
length-url_encode [] h = omega arith
length-url_encode (c ∷ s) h = omega (
  arith,
  length-append (url_char c) (url_encode s),
  (url_char_text c h.0).1,
  length-url_encode s h.1,
)

value_of-cons :
    (c d : ℕ) (name piece : Bytes)
    → value_of (c ∷ name) (d ∷ piece) ≡ (if c == d then value_of name piece else none)
unfolding value_of starts_with
value_of-cons c d name piece = elim (Bool-cases (c == d)) [ inl e ↦ rw e refl | inr e ↦ rw e refl ]

-- The value of a piece, where its name is the one that is looked for.
value_of-pair :
    (name n v : Bytes)
    → All IsArgument name
    → All IsArgument n
    → value_of name (n ++ (b'=' ∷ v))
      ≡ (if bytes_eq n name then some (url_decode (length v) v) else none)
unfolding bytes_eq
value_of-pair [] [] v h k = unfold value_of starts_with in refl
value_of-pair [] (c ∷ n) v h k = unfold value_of starts_with in ground (arith, k.0)
value_of-pair (c ∷ name) [] v h k = value_of-cons c b'=' name v ∙ ground (arith, h.0)
value_of-pair (c ∷ name) (d ∷ n) v h k =
    value_of-cons c d name (n ++ (b'=' ∷ v)) ∙ ground (arith, value_of-pair name n v)

pieces_from-end :
    (piece : Bytes) (c : ℕ) → pieces_from (piece ++ c ∷ []) [] ≡ (piece ++ c ∷ []) ∷ []
unfolding pieces_from
pieces_from-end [] c = refl
pieces_from-end (x ∷ piece) c = refl

abbrev NoCut : ℕ → Type 0
NoCut c = c ≢ b'&'

pieces_from-char :
    (piece s : Bytes) (c : ℕ)
    → NoCut c
    → pieces_from piece (c ∷ s) ≡ pieces_from (piece ++ c ∷ []) s
unfolding pieces_from
pieces_from-char [] s c h = let other : (c == b'&') ≡ false = ground arith in rw other refl
pieces_from-char (x ∷ piece) s c h = let other : (c == b'&') ≡ false = ground arith in rw other refl

pieces_from-amp : (piece s : Bytes) → pieces_from piece (b'&' ∷ s) ≡ piece ∷ pieces_from [] s
unfolding pieces_from
pieces_from-amp [] s = refl
pieces_from-amp (x ∷ piece) s = refl

pieces_from-piece :
    (piece s : Bytes) → All NoCut s → 0 < length s → pieces_from piece s ≡ (piece ++ s) ∷ []
pieces_from-piece piece [] h l = absurd (omega arith)
pieces_from-piece piece (c ∷ []) h l = pieces_from-char piece [] c h.0 ∙ pieces_from-end piece c
pieces_from-piece piece (c ∷ d ∷ s) h l =
    pieces_from-char piece (d ∷ s) c h.0
    ∙ pieces_from-piece (piece ++ c ∷ []) (d ∷ s) h.1 (omega arith)
    ∙ ap (λ (t : Bytes). t ∷ []) (append_assoc piece (c ∷ []) (d ∷ s))

pieces_from-cut :
    (piece s rest : Bytes)
    → All NoCut s
    → pieces_from piece (s ++ (b'&' ∷ rest)) ≡ (piece ++ s) ∷ pieces_from [] rest
pieces_from-cut piece [] rest h =
    pieces_from-amp piece rest
    ∙ ap (λ (t : Bytes). t ∷ pieces_from [] rest) (sym (append-nil piece))
pieces_from-cut piece (c ∷ s) rest h =
    pieces_from-char piece (s ++ (b'&' ∷ rest)) c h.0
    ∙ pieces_from-cut (piece ++ c ∷ []) s rest h.1
    ∙ ap (λ (t : Bytes). t ∷ pieces_from [] rest) (append_assoc piece (c ∷ []) s)

Weaker : (s : Bytes) → All IsArgument s → All NoCut s
Weaker [] h = tt
Weaker (c ∷ s) h = (h.0.0, Weaker s h.1)

pair_text-NoCut : (p : Pair) → IsPair p → All NoCut (pair_text p) × (0 < length (pair_text p))
unfolding pair_text
pair_text-NoCut p h = (
  All-append NoCut p.0 (b'=' ∷ url_encode p.1) (Weaker p.0 h.0)
      (omega arith, Weaker (url_encode p.1) (url_encode_text p.1 h.1)),
  omega (arith, length-append p.0 (b'=' ∷ url_encode p.1)),
)

pieces_from-query_text :
    (ps : List Pair) → All IsPair ps → pieces_from [] (query_text ps) ≡ map pair_text ps
unfolding query_text
pieces_from-query_text [] h = unfold pieces_from in refl
pieces_from-query_text (p ∷ []) h =
    let text = pair_text-NoCut p h.0 in pieces_from-piece [] (pair_text p) text.0 text.1
pieces_from-query_text (p ∷ q ∷ ps) h =
    pieces_from-cut [] (pair_text p) (query_text (q ∷ ps)) (pair_text-NoCut p h.0).0
    ∙ ap (◌∷◌ (pair_text p)) (pieces_from-query_text (q ∷ ps) h.1)

value_of-pair_text :
    (name : Bytes) (p : Pair)
    → All IsArgument name
    → IsPair p
    → value_of name (pair_text p) ≡ (if bytes_eq p.0 name then some p.1 else none)
unfolding pair_text
value_of-pair_text name p h k =
    value_of-pair name p.0 (url_encode p.1) h k.0
    ∙ ap (λ (v : Bytes). if bytes_eq p.0 name then some v else none)
        (url_decode-url_encode p.1 (length (url_encode p.1)) k.1 (length-url_encode p.1 k.1))

find_piece-pairs :
    (name : Bytes) (ps : List Pair)
    → All IsArgument name
    → All IsPair ps
    → find_piece name (map pair_text ps) ≡ first_value name ps
unfolding find_piece first_value
find_piece-pairs name [] h k = refl
find_piece-pairs name (p ∷ ps) h k =
    ground (arith, value_of-pair_text name p h k.0, find_piece-pairs name ps)

c_string-text : (s : Bytes) → All (λ c. 0 < c) s → c_string s ≡ s
unfolding c_string
c_string-text [] h = refl
c_string-text (c ∷ s) h = ground (arith, c_string-text s h.1)

NonZero : (s : Bytes) → All IsArgument s → All (λ c. 0 < c) s
NonZero [] h = tt
NonZero (c ∷ s) h = (h.0.2, NonZero s h.1)

pair_text-nonzero : (p : Pair) → IsPair p → All (λ c. 0 < c) (pair_text p)
unfolding pair_text
pair_text-nonzero p h =
    All-append (λ c. 0 < c) p.0 (b'=' ∷ url_encode p.1) (NonZero p.0 h.0)
      (omega arith, NonZero (url_encode p.1) (url_encode_text p.1 h.1))

query_text-nonzero : (ps : List Pair) → All IsPair ps → All (λ c. 0 < c) (query_text ps)
unfolding query_text
query_text-nonzero [] h = tt
query_text-nonzero (p ∷ []) h = pair_text-nonzero p h.0
query_text-nonzero (p ∷ q ∷ ps) h =
    All-append (λ c. 0 < c) (pair_text p) (b'&' ∷ query_text (q ∷ ps)) (pair_text-nonzero p h.0)
      (omega arith, query_text-nonzero (q ∷ ps) h.1)

-- A form that is encoded as browsers do, with names that need no escape: an argument is found by its
-- name with the value that was encoded, the first one where a name comes twice, and no argument is
-- found for a name that the form does not have.
pub find-query_text :
    (name : Bytes) (ps : List Pair)
    → All IsArgument name
    → All IsPair ps
    → find (query_text ps) name ≡ first_value name ps
unfolding find
find-query_text name ps h k =
    ap (λ (s : Bytes). find_piece name (pieces_from [] s))
      (c_string-text (query_text ps) (query_text-nonzero ps k))
    ∙ ap (find_piece name) (pieces_from-query_text ps k)
    ∙ find_piece-pairs name ps h k
