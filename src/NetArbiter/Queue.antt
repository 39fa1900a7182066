-- ===== src/NetArbiter/Queue.antt =====
-- NetArbiter.h, `queue`: the text fits its buffer.
use esp8266_dns.Base.{
  ℕ, zero, suc, ◌+◌, ◌-◌, ◌≤◌, ◌<◌, ◌≡◌, refl, Bool, true, false, [], ◌++◌, Bytes, codes, length,
  take, length-append, if◌then◌else◌, arith, sub32, length-take,
}
use esp8266_dns.NetArbiter.{
  Who, to_index, NetArbiter, name, Printed, print_at, queue_from, queue_text, queue_len,
}

-- The most that the services from `i` on can add, with a separator of two bytes before each.
abbrev budget : ℕ → ℕ → ℕ
budget zero i = 0
budget (suc n) i = length (name i) + 2 + budget n (suc i)

abbrev Kept : Printed → Type 0
Kept p = length p.text ≡ p.n

print_at_lem :
    (p : Printed) (s : Bytes)
    → Kept p
    → p.n + length s < queue_len
    → Kept (print_at p s) × ((print_at p s).n ≡ p.n + length s)
unfolding print_at
print_at_lem p s k h = (
  omega (
    arith,
    length-append p.text (take (sub32 queue_len p.n - 1) s),
    length-take (sub32 queue_len p.n - 1) s,
  ),
  refl,
)

queue_from_lem :
    (n i mask owner : ℕ) (sep : Bytes) (p : Printed)
    → Kept p
    → 2 ≤ length sep
    → p.n + length sep + budget n i < queue_len
    → Kept (queue_from n i mask owner sep p)
      × ((queue_from n i mask owner sep p).n ≤ p.n + length sep + budget n i)
unfolding queue_from
queue_from_lem zero i mask owner sep p k l h = (k, omega arith)
queue_from_lem (suc n) i mask owner sep p k l h = ground (
  arith,
  print_at_lem p (sep ++ name i) k,
  length-append sep (name i),
  queue_from_lem n (suc i) mask owner sep p k l,
  queue_from_lem n (suc i) mask owner (codes ", ") (print_at p (sep ++ name i)),
)

head_fits :
    (w : Who) (s : Bool) → length (name (to_index w) ++ (if s then codes " (memory)" else [])) ≤ 20
unfolding name to_index
head_fits Who.ota true = omega arith
head_fits Who.ota false = omega arith
head_fits w true = omega arith
head_fits w false = omega arith

-- Whatever is queued, the text for the panel fits its buffer of `QUEUE_LEN` bytes with its
-- terminating zero: no call of `snprintf` cuts it, so `QUEUE_LEN - n` never wraps.
queue_text-lt : (a : NetArbiter) → Kept (queue_text a) × ((queue_text a).n < queue_len)
unfolding queue_text
queue_text-lt a =
    let head = name (to_index a.owner) ++ (if a.starved then codes " (memory)" else []) in
    let p : Printed = record { text = []; n = 0 } in
    let (kept, size) = print_at_lem p head refl (omega (arith, head_fits a.owner a.starved)) in
    let short : length head ≤ 20 = head_fits a.owner a.starved in
    let (kept', bound) =
      queue_from_lem 7 0 a.queue (to_index a.owner) (codes ", waiting: ") (print_at p head) kept
        (omega arith) (unfold name in omega arith) in
    (kept', unfold name in omega arith)
