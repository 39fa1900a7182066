-- ===== src/ReverseDns.antt =====
-- ReverseDNS.h: the query for the name of an address, and the reading of the answer. A message is
-- the list of its bytes; a read past its end, a write past the end of the caller's buffer and a
-- loop that spends its fuel are `none`.
pub mod Safe
pub mod Names
pub mod Answer
mod Tests
use Prim.Native.Char.{code}
use esp8266_dns.Base.{
  Bool, Bytes, Option, [], codes, drop, false, get_elem?, if◌then◌else◌, leb, length, ltb, none,
  some, suc, take, true, u8, zero, ℕ, ◌%◌, ◌&&◌, ◌*◌, ◌++◌, ◌+◌, ◌/◌, ◌==◌, ◌||◌, ◌∷◌,
}
use esp8266_dns.Base.Decimal.{decimal}

-- `_u16`: two bytes, the high one first.
unfoldable pub u16_at : Bytes → ℕ → Option ℕ
u16_at m i = elim (get_elem? m i) [
  | none ↦ none
  | some hi ↦ elim (get_elem? m (i + 1)) [ none ↦ none | some lo ↦ some (hi * 256 + lo) ]
]

-- `memcpy` out of the message.
unfoldable pub read_bytes : Bytes → ℕ → ℕ → Option Bytes
read_bytes m i c = if leb (i + c) (length m) then some (take c (drop i m)) else none

-- A write behind the text `out`, in a buffer of `len` bytes.
unfoldable pub write_bytes : ℕ → Bytes → Bytes → Option Bytes
write_bytes len out s = if leb (length out + length s) len then some (out ++ s) else none

-- `(c & 0xC0) == 0xC0`: the byte starts a compression pointer.
abbrev pub is_pointer : ℕ → Bool
is_pointer c = c / 64 % 4 == 3

-- The loop of `_skip`: the position after a name, or one past the end.
unfoldable pub skip_from : ℕ → Bytes → ℕ → Option ℕ
skip_from zero m i = none
skip_from (suc fuel) m i = elim (ltb i (length m)) [
  | false ↦ some (length m + 1)
  | true ↦ elim (get_elem? m i) [
    | none ↦ none
    | some c ↦ elim (c == 0) [
      | true ↦ some (i + 1)
      | false ↦ elim (is_pointer c) [ true ↦ some (i + 2) | false ↦ skip_from fuel m (i + 1 + c) ]
    ]
  ]
]

-- Every round moves on, so there are no more of them than bytes.
unfoldable pub skip : Bytes → ℕ → Option ℕ
skip m i = skip_from (length m + 1) m i

-- `out[o] = '\0'` behind the name, and the answer.
unfoldable pub end_name : ℕ → Bytes → Option (Option Bytes)
unfolding write_bytes
end_name len out = elim (write_bytes len out (0 ∷ [])) [
  | none ↦ none
  | some _ ↦ some (if ltb 0 (length out) then some out else none)
]

-- `out[0] = '\0'; return false`.
unfoldable pub give_up : ℕ → Option (Option Bytes)
unfolding write_bytes
give_up len = elim (write_bytes len [] (0 ∷ [])) [ none ↦ none | some _ ↦ some none ]

-- The dot before every label but the first.
abbrev pub dot : Bytes → Bytes
dot [] = []
dot (c ∷ out) = b'.' ∷ []

-- The loop of `_name`: the text of the name at `i`, behind what `out` holds already.
unfoldable pub name_from : ℕ → Bytes → ℕ → ℕ → ℕ → Bytes → Option (Option Bytes)
unfolding end_name give_up
name_from zero m len i jumps out = none
name_from (suc fuel) m len i jumps out = elim (ltb i (length m)) [
  | false ↦ give_up len
  | true ↦ elim (get_elem? m i) [
    | none ↦ none
    | some c ↦ elim (c == 0) [
      | true ↦ end_name len out
      | false ↦ elim (is_pointer c) [
        | true ↦ elim (leb (length m) (i + 1) || ltb 8 (jumps + 1)) [
          | true ↦ give_up len
          | false ↦ elim (get_elem? m (i + 1)) [
            | none ↦ none
            | some d ↦ name_from fuel m len (c % 64 * 256 + d) (jumps + 1) out
          ]
        ]
        | false ↦ elim (ltb (length m) (i + 1 + c) || ltb len (length out + c + 2)) [
          | true ↦ give_up len
          | false ↦ elim (read_bytes m (i + 1) c) [
            | none ↦ none
            | some s ↦ elim (write_bytes len out (dot out ++ s)) [
              | none ↦ none
              | some out' ↦ name_from fuel m len (i + 1 + c) jumps out'
            ]
          ]
        ]
      ]
    ]
  ]
]

-- At most 8 jumps, with at most as many labels as bytes before, between and after them.
unfoldable pub name_at : Bytes → ℕ → ℕ → Option (Option Bytes)
name_at m i len = name_from (9 * (length m + 1)) m len i 0 []

-- The loop over the questions of an answer.
unfoldable pub skip_questions : ℕ → Bytes → ℕ → Option ℕ
skip_questions zero m i = some i
skip_questions (suc q) m i = elim (skip m i) [ none ↦ none | some j ↦ skip_questions q m (j + 4) ]

-- The loop over the records: the name of the first PTR, of type 12.
unfoldable pub find_ptr : ℕ → Bytes → ℕ → ℕ → Option (Option Bytes)
find_ptr zero m i len = some none
find_ptr (suc a) m i len = elim (skip m i) [
  | none ↦ none
  | some j ↦ elim (ltb (length m) (j + 10)) [
    | true ↦ some none
    | false ↦ elim (u16_at m j) [
      | none ↦ none
      | some type_ ↦ elim (u16_at m (j + 8)) [
        | none ↦ none
        | some rd ↦ elim (ltb (length m) (j + 10 + rd)) [
          | true ↦ some none
          | false ↦ elim (type_ == 12) [
            | true ↦ name_at m (j + 10) len
            | false ↦ find_ptr a m (j + 10 + rd) len
          ]
        ]
      ]
    ]
  ]
]

-- The flags of a message: an answer, without an error.
abbrev pub is_answer : ℕ → ℕ → Bool
is_answer flags code = flags / 128 % 2 == 1 && code % 16 == 0

-- What `parse` does behind the header, with the counts of questions and of answers.
unfoldable pub parse_records : Bytes → ℕ → ℕ → ℕ → Option (Option Bytes)
parse_records m qs as_ len = elim (skip_questions qs m 12) [
  | none ↦ none
  | some i ↦ find_ptr as_ m i len
]

-- `some (some name)` is true with the name in `out`, `some none` is false.
unfoldable pub parse : Bytes → ℕ → ℕ → Option (Option Bytes)
parse m id len = elim (ltb (length m) 12) [
  | true ↦ some none
  | false ↦ elim (u16_at m 0) [
    | none ↦ none
    | some answer_id ↦ elim (get_elem? m 2) [
      | none ↦ none
      | some flags ↦ elim (get_elem? m 3) [
        | none ↦ none
        | some code ↦ elim (answer_id == id && is_answer flags code) [
          | false ↦ some none
          | true ↦ elim (u16_at m 4) [
            | none ↦ none
            | some qs ↦ elim (u16_at m 6) [ none ↦ none | some as_ ↦ parse_records m qs as_ len ]
          ]
        ]
      ]
    ]
  ]
]

-- The bytes of an IPv4 address, `a[0]` to `a[3]`.
pub record Address : Type 0 where
  pub a0 : ℕ
  pub a1 : ℕ
  pub a2 : ℕ
  pub a3 : ℕ

-- One byte of the address as a label: `snprintf` with room for three digits.
unfoldable pub octet : ℕ → Bytes
octet a = let s = decimal a in u8 (length s) ∷ take 3 s

-- `HEAD` and `TAIL`: recursion wanted and one question; "in-addr.arpa", PTR, IN.
abbrev pub query_tail : Bytes
query_tail = 7 ∷ (codes "in-addr" ++ 4 ∷ (codes "arpa" ++ 0 ∷ 0 ∷ 12 ∷ 0 ∷ 1 ∷ []))

-- The query, for the address that `IPAddress::fromString` read; `none` stands for 0.
unfoldable pub query : Option Address → ℕ → ℕ → Option Bytes
unfolding octet
query none id cap = none
query (some a) id cap =
    if ltb cap 46
    then none
    else some (
        (u8 (id / 256) ∷ u8 id ∷ 1 ∷ 0 ∷ 0 ∷ 1 ∷ 0 ∷ 0 ∷ 0 ∷ 0 ∷ 0 ∷ 0 ∷ [])
        ++ (octet a.a3 ++ (octet a.a2 ++ (octet a.a1 ++ (octet a.a0 ++ query_tail)))))
