-- ===== src/NetArbiter.antt =====
-- NetArbiter.h: one TLS session at a time. The services queue by priority, the turn waits for the
-- heap, and the place of the loop is kept through a reset.
pub mod Grant
pub mod Ready
pub mod Queue
pub mod Crumb
mod Tests
use Prim.Native.Nat.{bit_or}
use esp8266_dns.Base.Hex.{hex8}
use esp8266_dns.Base.{
  take, length, ℕ, zero, suc, ◌+◌, ◌*◌, ◌/◌, ◌%◌, ◌^◌, ◌-◌, Bool, true, false, not, ◌&&◌, ◌||◌,
  Option, some, List, [], ◌∷◌, ◌++◌, Bytes, codes, length, take, get_or, ltb, leb, ◌==◌,
  if◌then◌else◌, u8, u16, u32, sub32,
}

-- `enum Who`, in priority order. `none` is also `COUNT`.
pub data Who : Type 0 where
  ota ip dns setup post relay stream none : Who

abbrev pub count : ℕ
count = 7

unfoldable pub to_index : Who → ℕ
to_index Who.ota = 0
to_index Who.ip = 1
to_index Who.dns = 2
to_index Who.setup = 3
to_index Who.post = 4
to_index Who.relay = 5
to_index Who.stream = 6
to_index Who.none = 7

-- `(Who)i`, for the indices of the enumeration.
unfoldable pub of_index : ℕ → Who
of_index zero = Who.ota
of_index (suc zero) = Who.ip
of_index (suc (suc zero)) = Who.dns
of_index (suc (suc (suc zero))) = Who.setup
of_index (suc (suc (suc (suc zero)))) = Who.post
of_index (suc (suc (suc (suc (suc zero))))) = Who.relay
of_index (suc (suc (suc (suc (suc (suc zero)))))) = Who.stream
of_index _ = Who.none

-- `enum At` goes on where `Who` ends: WEB, WIFI, IOT and MQTT are 8 to 11.
abbrev pub mqtt : ℕ
mqtt = 11

abbrev pub wait_ms : ℕ
wait_ms = 30000

abbrev pub slow_ms : ℕ
slow_ms = 200

-- The heap that a turn needs: in total, and its largest block.
pub record Need : Type 0 where
  pub heap : ℕ
  pub block : ℕ

-- The private fields; `wants` and `queue` are masks of 8 bits with bit `i` for the service `i`.
pub record NetArbiter : Type 0 where
  pub wants : ℕ
  pub queue : ℕ
  pub at : ℕ
  pub owner : Who
  pub worst_who : Who
  pub starved : Bool
  pub wait_from : ℕ
  pub worst : ℕ
  pub slow : ℕ
  pub late : ℕ

unfoldable pub initial : NetArbiter
initial = record {
  wants = 0;
  queue = 0;
  at = 255;
  owner = Who.none;
  worst_who = Who.none;
  starved = false;
  wait_from = 0;
  worst = 0;
  slow = 0;
  late = 0;
}

-- `mask >> i & 1`
abbrev pub has_bit : ℕ → ℕ → Bool
has_bit mask i = mask / 2 ^ i % 2 == 1

unfoldable pub want : Who → NetArbiter → NetArbiter
unfolding to_index
want w a = record a { wants = bit_or a.wants (u8 (2 ^ to_index w)) }

-- The loop of `grant`: `n` rounds left, from the service `i`.
unfoldable pub first_wanted : ℕ → ℕ → ℕ → Who
unfolding of_index
first_wanted zero i wants = Who.none
first_wanted (suc n) i wants = elim (has_bit wants i) [
  | true ↦ of_index i
  | false ↦ first_wanted n (suc i) wants
]

unfoldable pub grant : NetArbiter → NetArbiter × Who
unfolding first_wanted to_index
grant a =
    let w = first_wanted count 0 a.wants in
    let b = record a { queue = a.wants; wants = 0 } in
    (if to_index w == to_index a.owner then b else record b { owner = w; starved = false }, w)

-- What `ESP.getFreeHeap()` and `ESP.getMaxFreeBlockSize()` return is an argument.
unfoldable pub ready : ℕ → Need → Bool → ℕ → ℕ → NetArbiter → NetArbiter × Bool
ready now need running free_heap max_block a =
    if running || leb need.heap free_heap && leb need.block max_block
    then (record a { starved = false }, true)
    else (let b = if a.starved then a else record a { starved = true; wait_from = now } in
        if ltb (sub32 now b.wait_from) wait_ms
        then (b, false)
        else (record b { starved = false; late = u16 (b.late + 1) }, true))

-- One loop took `ms`.
unfoldable pub loop : ℕ → NetArbiter → NetArbiter
loop ms a =
    if ltb ms slow_ms
    then a
    else (let b = if ltb a.slow 65535 then record a { slow = a.slow + 1 } else a in
        if ltb b.worst ms then record b { worst = ms; worst_who = b.owner } else b)

unfoldable pub name : ℕ → Bytes
name w =
    get_or
      (codes "ota"
        ∷ codes "ip"
        ∷ codes "dns"
        ∷ codes "cloudflare"
        ∷ codes "ntfy post"
        ∷ codes "relay"
        ∷ codes "ntfy stream"
        ∷ codes "-"
        ∷ codes "web"
        ∷ codes "wifi"
        ∷ codes "iot"
        ∷ codes "mqtt"
        ∷ [])
      w []

-- `CRUMB`, "CRU" in the upper three bytes.
abbrev pub crumb : ℕ
crumb = 0x43525500

-- Notes the part of the loop. The second component is the RTC slot, written when the part changes.
unfoldable pub at_part : ℕ → NetArbiter → ℕ → NetArbiter × ℕ
at_part where_ a slot =
    if where_ == a.at then (a, slot) else (record a { at = where_ }, bit_or crumb where_)

-- `lastCrash`: the part of the loop that the RTC slot `v` holds, if the reset `reason` was a crash
-- or a watchdog (reasons 1 to 3), and the address `epc` of the crash. The buffer is 40 bytes long.
unfoldable pub last_crash : ℕ → ℕ → ℕ → Option Bytes
unfolding name hex8
last_crash reason epc v =
    if ltb reason 1 || ltb 3 reason || not (v - v % 256 == crumb) || ltb mqtt (v % 256)
    then Option.none
    else some (take 39 (name (v % 256) ++ (codes " near 0x" ++ hex8 epc)))

abbrev pub queue_len : ℕ
queue_len = 96

-- A text in a buffer of `QUEUE_LEN` bytes, and the count `n` that `snprintf` keeps adding to.
pub record Printed : Type 0 where
  pub text : Bytes
  pub n : ℕ

-- `n += snprintf(out + n, QUEUE_LEN - n, …)`: the text is cut to the room left, the count is not.
unfoldable pub print_at : Printed → Bytes → Printed
print_at p s = record { text = p.text ++ take (sub32 queue_len p.n - 1) s; n = p.n + length s }

-- The loop of `queue`: `rounds` services left, from the service `i`, with the separator to print.
unfoldable pub queue_from : ℕ → ℕ → ℕ → ℕ → Bytes → Printed → Printed
unfolding print_at name
queue_from zero i mask owner sep p = p
queue_from (suc rounds) i mask owner sep p =
    let skip = not (has_bit mask i) || i == owner in
    queue_from rounds (suc i) mask owner (if skip then sep else codes ", ")
      (if skip then p else print_at p (sep ++ name i))

unfoldable pub queue_text : NetArbiter → Printed
unfolding queue_from to_index
queue_text a = queue_from count 0 a.queue (to_index a.owner) (codes ", waiting: ") (
    print_at (record { text = []; n = 0 })
      (name (to_index a.owner) ++ (if a.starved then codes " (memory)" else [])))
