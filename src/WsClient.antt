-- ===== src/WsClient.antt =====
-- WsClient.h: the frames of a WebSocket (RFC 6455). `input` is what the connection still gives: at
-- its end the connection has closed, or a byte did not come in time.
pub mod Send
pub mod Receive
mod Tests
use Prim.Native.Nat.{bit_or, bit_xor, min}
use esp8266_dns.Base.{
  Bool, Bytes, Option, [], drop, false, get_or, if◌then◌else◌, length, ltb, none, not, some, suc,
  take, true, u8, zero, ℕ, ◌%◌, ◌*◌, ◌++◌, ◌+◌, ◌/◌, ◌==◌, ◌||◌, ◌∷◌,
}

abbrev pub max_frame : ℕ
max_frame = 8192

pub record WsClient : Type 0 where
  pub op : ℕ
  pub left : ℕ
  pub error : Bool
  pub input : Bytes

-- `_fail`
unfoldable pub fail_frame : WsClient → WsClient × Bool
fail_frame d = (record d { error = true }, false)

-- What is left of the input, and the length that was read, if any.
pub record Size : Type 0 where
  pub n : Option ℕ
  pub rest : Bytes

-- The loop over the `bytes` bytes of a longer length: `n` never leaves 32 bits, and `n << 8` has its
-- low byte clear.
unfoldable pub size_from : ℕ → ℕ → Bytes → Size
size_from zero n s = record { n = some n; rest = s }
size_from (suc bytes) n [] = record { n = none; rest = [] }
size_from (suc bytes) n (c ∷ s) =
    let size = size_from bytes (n * 256 + c) s in
    if ltb (max_frame / 256) n then record { n = none; rest = s } else size

unfoldable pub size_of : ℕ → Bytes → Size
unfolding size_from
size_of b1 s =
    if ltb (b1 % 128) 126
    then record { n = some (b1 % 128); rest = s }
    else size_from (if b1 % 128 == 126 then 2 else 8) 0 s

-- The end of `frame`, with the length that was read.
unfoldable pub check_frame : ℕ → ℕ → Size → WsClient → WsClient × Bool
unfolding fail_frame
check_frame b0 b1 size d = elim size.n [
  | none ↦ fail_frame (record d { op = b0 % 16; input = size.rest })
  | some n ↦
      let e = record d { op = b0 % 16; left = n; input = size.rest } in
      if not (b0 / 16 == 8) || b1 / 128 % 2 == 1 || b0 % 16 == 0 || ltb max_frame n
      then fail_frame e
      else (e, true)
]

-- `frame`, with the number of bytes that have arrived. Without input `_c.read()` gives -1.
unfoldable pub frame : ℕ → WsClient → WsClient × Bool
unfolding size_of check_frame
frame available d =
    if ltb available 2
    then (d, false)
    else (let b0 = get_or d.input 0 255 in
        let b1 = get_or d.input 1 255 in check_frame b0 b1 (size_of b1 (drop 2 d.input)) d)

-- `next`: a byte of the payload, if any.
unfoldable pub next_byte : WsClient → WsClient × Option ℕ
next_byte d = elim d.left [
  | zero ↦ (d, none)
  | suc n ↦ elim d.input [
    | [] ↦ (record d { error = true }, none)
    | c ∷ s ↦ (record d { left = n; input = s }, some c)
  ]
]

-- The loop of `read`, which keeps at most `cap - 1` bytes.
unfoldable pub read_from : ℕ → ℕ → Bytes → WsClient → WsClient × Bytes
read_from zero cap buf d = (d, buf)
read_from (suc fuel) cap buf d =
    let (e, got) = next_byte d in
    elim got [
      | none ↦ (e, buf)
      | some c ↦ read_from fuel cap (if ltb (length buf + 1) cap then buf ++ c ∷ [] else buf) e
    ]

-- `next` fails at the latest when nothing of the payload is left.
unfoldable pub read : ℕ → WsClient → WsClient × Bytes
read cap d = read_from (d.left + 1) cap [] d

unfoldable pub skip_from : ℕ → WsClient → WsClient
skip_from zero d = d
skip_from (suc fuel) d =
    let (e, got) = next_byte d in elim got [ none ↦ e | some c ↦ skip_from fuel e ]

unfoldable pub skip : WsClient → WsClient
skip d = skip_from (d.left + 1) d

-- `buf[i] = p[i] ^ mask[at & 3]` over one buffer, from the position `at`.
unfoldable pub xor_from : Bytes → ℕ → Bytes → Bytes
xor_from mask at [] = []
xor_from mask at (b ∷ p) = bit_xor b (get_or mask (at % 4) 0) ∷ xor_from mask (at + 1) p

-- `_masked`: the bytes go out 64 at a time. Every round sends a byte at least.
unfoldable pub masked_from : ℕ → Bytes → ℕ → Bytes → Bytes
unfolding xor_from
masked_from zero mask at p = []
masked_from (suc fuel) mask at [] = []
masked_from (suc fuel) mask at (b ∷ p) =
    let k = min (length (b ∷ p)) 64 in
    xor_from mask at (take k (b ∷ p)) ++ masked_from fuel mask (at + k) (drop k (b ∷ p))

unfoldable pub masked : Bytes → ℕ → Bytes → Bytes
masked mask at p = masked_from (length p) mask at p

-- The four bytes of a number.
abbrev pub bytes4 : ℕ → Bytes
bytes4 r = u8 r ∷ u8 (r / 256) ∷ u8 (r / 65536) ∷ u8 (r / 16777216) ∷ []

-- `0x80 | n`, of a number below 128.
abbrev pub frame_head : ℕ → ℕ → Bytes
frame_head op n =
    if ltb n 126
    then bit_or 128 op ∷ (128 + n) ∷ []
    else bit_or 128 op ∷ 254 ∷ u8 (n / 256) ∷ u8 n ∷ []

-- `send`: what goes out, of a head and a body, with the random number `r`.
unfoldable pub send : ℕ → Bytes → Bytes → ℕ → Bytes
unfolding masked
send op head body r =
    let mask = bytes4 r in
    frame_head op (length head + length body)
    ++ (mask ++ (masked mask 0 head ++ masked mask (length head) body))
