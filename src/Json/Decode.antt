-- ===== src/Json/Decode.antt =====
-- Json.h, `_decode`, `copy` and `str`: the text of a valid string, its escapes decoded to UTF-8.
use esp8266_dns.Base.{
  Bytes, [], drop, if◌then◌else◌, leb, length, ltb, none, not, some, suc, zero, ℕ, ◌%◌, ◌&&◌, ◌*◌,
  ◌++◌, ◌+◌, ◌-◌, ◌/◌, ◌==◌, ◌∷◌,
}
use esp8266_dns.Json.{Value, char_at, hex}

-- `strchr(MAP, c)[1]`; a valid string has no other letter behind a backslash.
unfoldable pub unescape : ℕ → ℕ
unescape c =
    if c == b'b'
    then 8
    else if c == b'f'
    then 12
    else if c == b'n'
    then 10
    else if c == b'r'
    then 13
    else if c == b't'
    then 9
    else c

abbrev pub digit_value : ℕ → ℕ
digit_value c = elim (hex c) [ none ↦ 0 | some d ↦ d ]

-- `cp = cp << 4 | _hex(*p++)`, `n` times.
unfoldable pub hex_number : ℕ → ℕ → Bytes → ℕ
unfolding hex
hex_number zero cp p = cp
hex_number (suc n) cp p = hex_number n (cp * 16 + digit_value (char_at p)) (drop 1 p)

unfoldable pub utf8 : ℕ → Bytes
utf8 cp =
    if ltb cp 0x80
    then cp ∷ []
    else if ltb cp 0x800
    then (0xC0 + cp / 64) ∷ (0x80 + cp % 64) ∷ []
    else if ltb cp 0x10000
    then (0xE0 + cp / 4096) ∷ (0x80 + cp / 64 % 64) ∷ (0x80 + cp % 64) ∷ []
    else (0xF0 + cp / 262144)
      ∷ (0x80 + cp / 4096 % 64)
      ∷ (0x80 + cp / 64 % 64)
      ∷ (0x80 + cp % 64)
      ∷ []

-- The text of a \u escape, `p` behind the `u`: a high surrogate takes the low one behind it.
unfoldable pub decode_unicode : Bytes → Bytes × Bytes
unfolding hex_number utf8
decode_unicode p =
    let cp = hex_number 4 0 p in
    let q = drop 4 p in
    let low = hex_number 4 0 (drop 2 q) in
    if leb 0xD800 cp
      && ltb cp 0xDC00
      && char_at q == 92
      && char_at (drop 1 q) == b'u'
      && leb 0xDC00 low
      && ltb low 0xE000
    then (utf8 (0x10000 + (cp - 0xD800) * 1024 + (low - 0xDC00)), drop 6 q)
    else (utf8 cp, q)

-- One decoded character, and the position behind it.
unfoldable pub decode : Bytes → Bytes × Bytes
unfolding unescape decode_unicode
decode p =
    let q = drop 1 p in
    if not (char_at p == 92)
    then (char_at p ∷ [], q)
    else if not (char_at q == b'u')
    then (unescape (char_at q) ∷ [], drop 1 q)
    else decode_unicode (drop 1 q)

-- The bytes that reach the destination of `cap` bytes, and the length so far.
unfoldable pub put_chars : ℕ → Bytes → Bytes × ℕ → Bytes × ℕ
put_chars cap [] s = s
put_chars cap (c ∷ cs) (dst, n) =
    put_chars cap cs ((if ltb (n + 1) cap then dst ++ c ∷ [] else dst), n + 1)

unfoldable pub copy_loop : ℕ → ℕ → Bytes → Bytes × ℕ → Bytes × ℕ
unfolding decode put_chars
copy_loop zero cap p s = s
copy_loop (suc fuel) cap p s =
    let d = decode p in
    let rest = copy_loop fuel cap d.1 (put_chars cap d.0 s) in if char_at p == b'"' then s else rest

-- The text in the destination, before its zero, and the whole decoded length.
unfoldable pub copy : Value → ℕ → Bytes × ℕ
unfolding copy_loop
copy v cap = copy_loop (length v.at) cap v.at ([], 0)

unfoldable pub str_loop : ℕ → Bytes → Bytes → Bytes
unfolding decode
str_loop zero p out = out
str_loop (suc fuel) p out =
    let d = decode p in
    let rest = str_loop fuel d.1 (out ++ d.0) in if char_at p == b'"' then out else rest

unfoldable pub str : Value → Bytes
unfolding str_loop
str v = str_loop (length v.at) v.at []
