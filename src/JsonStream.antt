-- ===== src/JsonStream.antt =====
-- JsonStream.h: JSON read one byte at a time. The calls of the callback are a list, the last first.
pub mod Bounds
pub mod Members
mod Tests
use esp8266_dns.Base.{c_string, set}
use Prim.Native.Nat.{bit_and}
use Prim.Native.Nat.{bit_or}
use esp8266_dns.Base.{
  Bool, Bytes, List, Option, [], false, get_or, if◌then◌else◌, leb, length, ltb, none, not, some,
  take, true, ℕ, ◌%◌, ◌&&◌, ◌++◌, ◌+◌, ◌-◌, ◌/◌, ◌==◌, ◌^◌, ◌||◌, ◌∷◌,
}

abbrev pub max_depth : ℕ
max_depth = 5

abbrev pub key_size : ℕ
key_size = 12

abbrev pub value_size : ℕ
value_size = 72

-- What the callback sees: `depth()`, `key`, `cut()` and the value, if there is one.
pub record Call : Type 0 where
  pub depth : ℕ
  pub keys : List Bytes
  pub cut : Bool
  pub value : Option Bytes

-- `buf` holds the `_n` bytes read of the text, and `hex` the digits of \u still to skip. `overrun` is not
-- of the code: it tells that a write was not inside `_buf` or `_keys`.
pub record JsonStream : Type 0 where
  pub keys : List Bytes
  pub objects : ℕ
  pub depth : ℕ
  pub str : Bool
  pub esc : Bool
  pub bare : Bool
  pub want_key : Bool
  pub cut : Bool
  pub hex : ℕ
  pub buf : Bytes
  pub overrun : Bool
  pub calls : List Call

abbrev pub in_range : ℕ → Bool
in_range depth = leb 1 depth && leb depth max_depth

-- The write of `_keys[level - 1]`: the array has as many rows as `keys`, and level 0 is before its start.
unfoldable pub write_key : ℕ → Bytes → JsonStream → JsonStream
write_key level k d =
    if ltb 0 level && leb level (length d.keys)
    then record d { keys = set d.keys (level - 1) k }
    else record d { overrun = true }

-- `_buf[_n++] = c`
unfoldable pub write_char : ℕ → JsonStream → JsonStream
write_char c d =
    if ltb (length d.buf) value_size
    then record d { buf = d.buf ++ c ∷ [] }
    else record d { overrun = true }

-- `_buf[_n] = 0`
unfoldable pub end_text : JsonStream → JsonStream
end_text d = if ltb (length d.buf) value_size then d else record d { overrun = true }

-- `key(level)`: the key at a level, from 1.
unfoldable pub key_at : ℕ → JsonStream → Bytes
key_at level d = if in_range level then get_or d.keys (level - 1) [] else []

unfoldable pub in_object : JsonStream → Bool
in_object d = leb 1 d.depth && leb d.depth 8 && d.objects / 2 ^ (d.depth - 1) % 2 == 1

unfoldable pub call_back : Option Bytes → JsonStream → JsonStream
call_back value d =
    if in_range d.depth
    then record d {
      calls = record { depth = d.depth; keys = d.keys; cut = d.cut; value = value } ∷ d.calls;
    }
    else d

-- `_emit`: the callback gets a C string.
unfoldable pub emit : JsonStream → JsonStream
unfolding call_back
emit d = call_back (some (c_string d.buf)) d

-- `_scalar`: a number or a literal ends.
unfoldable pub end_scalar : JsonStream → JsonStream
unfolding end_text
end_scalar d =
    if d.bare then record (emit (end_text (record d { bare = false }))) { buf = [] } else d

-- `_put`
unfoldable pub put : ℕ → JsonStream → JsonStream
unfolding write_char
put c d = if ltb (length d.buf + 1) value_size then write_char c d else record d { cut = true }

-- `_open`, at the depth that is one more.
unfoldable pub open_level : Bool → JsonStream → JsonStream
unfolding write_key
open_level object d =
    let bit = 2 ^ d.depth in
    let mask = if object then bit_or d.objects bit else bit_and d.objects (255 - bit) in
    let deeper = record d {
      depth = d.depth + 1;
      objects = if leb (d.depth + 1) 8 then mask else d.objects;
    } in
    let named = if leb deeper.depth max_depth then write_key deeper.depth [] deeper else deeper in
    if d.depth == 255 then d else record named { want_key = object }

-- `}` and `]`, of which the first tells the end of an object.
unfoldable pub close_level : Bool → JsonStream → JsonStream
close_level object d =
    let e = if object then call_back none d else d in record e { depth = e.depth - 1 }

-- The end of a string: a key, which `strlcpy` cuts, or a value.
unfoldable pub end_string : JsonStream → JsonStream
unfolding end_text write_key
end_string d =
    let e = end_text (record d { str = false }) in
    let named =
      if in_range e.depth then write_key e.depth (take (key_size - 1) (c_string e.buf)) e else e in
    record (if e.want_key then record named { want_key = false } else emit e) { buf = [] }

-- `_string`
unfoldable pub feed_string : ℕ → JsonStream → JsonStream
feed_string c d =
    if not (d.hex == 0)
    then record d { hex = d.hex - 1 }
    else if d.esc
    then (if c == b'u'
        then put b'?' (record d { esc = false; hex = 4 })
        else put c (record d { esc = false }))
    else if c == b'\\'
    then record d { esc = true }
    else if not (c == b'"')
    then put c d
    else end_string d

abbrev pub is_space : ℕ → Bool
is_space c = c == b' ' || c == 9 || c == 13 || c == 10

-- The `switch` of `feed`.
unfoldable pub feed_plain : ℕ → JsonStream → JsonStream
feed_plain c d =
    if c == b'"'
    then record (end_scalar d) { str = true; buf = []; cut = false }
    else if c == b'{' || c == b'['
    then open_level (c == b'{') (end_scalar d)
    else if c == b'}' || c == b']'
    then close_level (c == b'}') (end_scalar d)
    else if c == b','
    then (let e = end_scalar d in record e { want_key = in_object e })
    else if c == b':'
    then record d { want_key = false }
    else if is_space c
    then end_scalar d
    else record (put c (record d { cut = if length d.buf == 0 then false else d.cut })) {
      bare = true;
    }

unfoldable pub feed : ℕ → JsonStream → JsonStream
feed c d = if d.str then feed_string c d else feed_plain c d

-- The bytes of an answer, one after another.
unfoldable pub feeds : Bytes → JsonStream → JsonStream
feeds [] d = d
feeds (c ∷ s) d = feeds s (feed c d)
