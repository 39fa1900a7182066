-- ===== src/Logger.antt =====
-- Logger.h: the last ten lines, in a ring.
pub mod Ring
mod Tests
use esp8266_dns.Base.{
  Bool, Bytes, List, [], codes, false, get_or, if◌then◌else◌, leb, length, replicate, set, take,
  true, ℕ, ◌%◌, ◌++◌, ◌+◌, ◌-◌, ◌/◌, ◌∷◌,
}
use esp8266_dns.Base.Decimal.{decimal}

abbrev pub buffer_size : ℕ
buffer_size = 10

abbrev pub line_size : ℕ
line_size = 128

pub record Logger : Type 0 where
  pub buf : List Bytes
  pub head : ℕ
  pub wrapped : Bool

unfoldable pub initial : Logger
initial = record { buf = replicate 10 []; head = 0; wrapped = false }

-- The line of a message that was formatted, at `ms` milliseconds: the time in front, cut to the
-- size of a line.
unfoldable pub line : ℕ → Bytes → Bytes
line ms m =
    let prefix = b'[' ∷ (decimal (ms / 1000) ++ codes "s] ") in
    prefix ++ take (line_size - length prefix - 1) (take (line_size - 1) m)

-- The line goes to the slot of the head, and the head moves on.
unfoldable pub store : Bytes → Logger → Logger
store entry d =
    let e = record d { buf = set d.buf d.head entry; head = d.head + 1 } in
    if leb buffer_size e.head then record e { head = 0; wrapped = true } else e

-- `log`, at `ms` milliseconds.
unfoldable pub log : ℕ → Bytes → Logger → Logger
unfolding line store
log ms m d = store (line ms m) d

unfoldable pub count : Logger → ℕ
count d = if d.wrapped then buffer_size else d.head

unfoldable pub start_index : Logger → ℕ
start_index d = if d.wrapped then d.head else 0

unfoldable pub entry : ℕ → Logger → Bytes
entry i d = get_or d.buf (i % buffer_size) []
