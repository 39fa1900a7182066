-- ===== src/JsonStream/Members.antt =====
-- JsonStream.h: the members of an object whose values are texts.
use esp8266_dns.Base.{c_string, none}
use esp8266_dns.Base.{
  Bytes, List, [], false, if◌then◌else◌, length, set, some, take, true, ◌++◌, ◌-◌, ◌<◌, ◌==◌, ◌||◌,
  ◌∷◌, ◌≡◌,
}
use esp8266_dns.JsonStream.{JsonStream, max_depth, in_object, in_range, key_size, value_size}

-- A text between quotes: a quote and a backslash stand behind a backslash.
unfoldable pub escape : Bytes → Bytes
escape [] = []
escape (c ∷ s) =
    let rest = escape s in if c == b'"' || c == b'\\' then b'\\' ∷ c ∷ rest else c ∷ rest

abbrev pub quoted : Bytes → Bytes → Bytes
quoted s rest = b'"' ∷ (escape s ++ b'"' ∷ rest)

-- One member, with the text behind its value.
abbrev pub member : Bytes → Bytes → Bytes → Bytes
member k v rest = quoted k (b':' ∷ quoted v rest)

-- Inside a string, no digit of \u and no backslash open.
record InText (d : JsonStream) : Type 0 where
  string_open : d.str ≡ true
  no_escape : d.esc ≡ false
  no_digits : d.hex ≡ 0

-- Before the key of a member.
pub record AtMember (d : JsonStream) : Type 0 where
  pub no_string : d.str ≡ false
  pub no_escape : d.esc ≡ false
  pub no_digits : d.hex ≡ 0
  pub no_scalar : d.bare ≡ false
  pub no_text : d.buf ≡ []
  pub key_next : d.want_key ≡ true
  pub reported : in_range d.depth ≡ true
  pub object : in_object d ≡ true
  pub rows : length d.keys ≡ max_depth

-- The state behind the value of a member: its key stands at its level, and the callback has had its
-- value, both up to a zero byte.
unfoldable pub valued : Bytes → Bytes → JsonStream → JsonStream
valued k v d =
    let keys = set d.keys (d.depth - 1) (take (key_size - 1) (c_string k)) in
    record d {
      str = false;
      want_key = false;
      buf = [];
      keys = keys;
      cut = false;
      calls =
          record { depth = d.depth; keys = keys; cut = false; value = some (c_string v) } ∷ d.calls;
    }

-- Behind the comma, and behind the brace, where the callback has been told of the end of the object.
unfoldable pub told : Bytes → Bytes → JsonStream → JsonStream
unfolding valued
told k v d = record (valued k v d) { want_key = true }

unfoldable pub ended : Bytes → Bytes → JsonStream → JsonStream
unfolding valued
ended k v d =
    let e = valued k v d in
    record e {
      depth = d.depth - 1;
      calls = record { depth = d.depth; keys = e.keys; cut = false; value = none } ∷ e.calls;
    }

-- The members of an object, the last one apart, and its brace, with the state behind them.
unfoldable pub members : List (Bytes × Bytes) → Bytes × Bytes → Bytes → Bytes
members [] last rest = member last.0 last.1 (b'}' ∷ rest)
members ((k, v) ∷ ms) last rest = member k v (b',' ∷ members ms last rest)

unfoldable pub told_all : List (Bytes × Bytes) → Bytes × Bytes → JsonStream → JsonStream
told_all [] last d = ended last.0 last.1 d
told_all ((k, v) ∷ ms) last d = told_all ms last (told k v d)

abbrev pub IsShort : Bytes × Bytes → Type 0
IsShort m = (length m.0 < value_size) × (length m.1 < value_size)
