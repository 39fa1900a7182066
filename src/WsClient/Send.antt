-- ===== src/WsClient/Send.antt =====
-- WsClient.h, `send`: a receiver that follows RFC 6455 takes the message that was sent.
use Prim.Native.Nat.{bit_or, bit_xor, min}
use esp8266_dns.Base.{
  ==_iff, All, Bool, Bool-cases, Bytes, Option, [], ap, arith, drop, each_below, each_below_sound,
  get_or, if◌then◌else◌, inl, inr, length, length-append, length-drop, length-take, ltb, none, not,
  refl, some, suc, sym, take, take_all, true, u8, zero, ℕ, ◌%◌, ◌*◌, ◌++◌, ◌+◌, ◌/◌, ◌<◌, ◌==◌,
  ◌||◌, ◌∙◌, ◌∷◌, ◌≡◌, ◌≤◌,
}
use esp8266_dns.Totp.Hex.{IsByte}
use esp8266_dns.WsClient.{bytes4, frame_head, masked, masked_from, send, xor_from}

xor_bytes : ℕ → ℕ → Bool
xor_bytes b k = bit_xor (bit_xor b k) k == b

xor_table : each_below 256 (λ b. each_below 256 (xor_bytes b)) ≡ true
unfolding each_below xor_bytes
xor_table = refl

xor_twice : (b k : ℕ) → b < 256 → k < 256 → bit_xor (bit_xor b k) k ≡ b
unfolding xor_bytes
xor_twice b k h l =
    let row = each_below_sound 256 (λ b. each_below 256 (xor_bytes b)) b xor_table h in
    (==_iff _ _).0 (each_below_sound 256 (xor_bytes b) k row l)

xor_from-append :
    (mask p q : Bytes) (at : ℕ)
    → xor_from mask at (p ++ q) ≡ xor_from mask at p ++ xor_from mask (at + length p) q
unfolding xor_from
xor_from-append mask [] q at = ap (λ i. xor_from mask i q) (omega arith)
xor_from-append mask (b ∷ p) q at =
    let ih = xor_from-append mask p q (at + 1) in
    let same : at + 1 + length p ≡ at + suc (length p) = omega arith in
    ap (◌∷◌ (bit_xor b (get_or mask (at % 4) 0)))
      (ih ∙ ap (λ i. xor_from mask (at + 1) p ++ xor_from mask i q) same)

take-drop : (k : ℕ) (p : Bytes) → take k p ++ drop k p ≡ p
take-drop zero p = refl
take-drop (suc k) [] = refl
take-drop (suc k) (b ∷ p) = ap (◌∷◌ b) (take-drop k p)

-- Sending 64 bytes at a time makes no difference.
masked_from_lem :
    (fuel : ℕ) (mask p : Bytes) (at : ℕ)
    → length p ≤ fuel
    → masked_from fuel mask at p ≡ xor_from mask at p
unfolding masked_from
masked_from_lem zero mask [] at h = unfold xor_from in refl
masked_from_lem zero mask (b ∷ p) at h = absurd (omega arith)
masked_from_lem (suc fuel) mask [] at h = unfold xor_from in refl
masked_from_lem (suc fuel) mask (b ∷ p) at h =
    let q = b ∷ p in
    let k = min (length q) 64 in
    let left = length-drop k q in
    let sent = length-take k q in
    let ih = masked_from_lem fuel mask (drop k q) (at + k) (omega (arith, left)) in
    let size : at + k ≡ at + length (take k q) = omega (arith, sent) in
    ap (λ s. xor_from mask at (take k q) ++ s) (ih ∙ ap (λ i. xor_from mask i (drop k q)) size)
    ∙ sym (xor_from-append mask (take k q) (drop k q) at)
    ∙ ap (xor_from mask at) (take-drop k q)

masked_both :
    (mask head body : Bytes)
    → masked mask 0 head ++ masked mask (length head) body ≡ xor_from mask 0 (head ++ body)
unfolding masked
masked_both mask head body =
    let one = masked_from_lem (length head) mask head 0 (omega arith) in
    let two = masked_from_lem (length body) mask body (length head) (omega arith) in
    let size : length head ≡ 0 + length head = omega arith in
    ap (λ s. s ++ masked_from (length body) mask (length head) body) one
    ∙ ap (λ s. xor_from mask 0 head ++ s) (two ∙ ap (λ i. xor_from mask i body) size)
    ∙ sym (xor_from-append mask head body 0)

-- RFC 6455, 5.3: the keys take turns.
unfoldable pub unmask : ℕ → ℕ → ℕ → ℕ → Bytes → Bytes
unmask a b c d [] = []
unmask a b c d (x ∷ s) = bit_xor x a ∷ unmask b c d a s

key_at : ℕ → ℕ → ℕ
key_at r i = get_or (bytes4 r) (i % 4) 0

get_or-IsByte : (s : Bytes) (i : ℕ) → All IsByte s → get_or s i 0 < 256
get_or-IsByte [] i h = omega arith
get_or-IsByte (b ∷ s) zero h = h.0
get_or-IsByte (b ∷ s) (suc i) h = get_or-IsByte s i h.1

key_at-lt : (r i : ℕ) → key_at r i < 256
unfolding key_at
key_at-lt r i =
    get_or-IsByte (bytes4 r) (i % 4) (omega arith, (omega arith, (omega arith, (omega arith, tt))))

unmask-xor_from :
    (r at : ℕ) (p : Bytes)
    → All IsByte p
    → unmask
        (key_at r at)
        (key_at r (at + 1))
        (key_at r (at + 2))
        (key_at r (at + 3))
        (xor_from (bytes4 r) at p)
      ≡ p
unfolding unmask xor_from key_at
unmask-xor_from r at [] h = refl
unmask-xor_from r at (x ∷ p) h =
    let again : key_at r at ≡ key_at r (at + 1 + 3) =
      unfold key_at in
      (let same : at % 4 ≡ (at + 1 + 3) % 4 = omega arith in
        ap (λ j. get_or (bytes4 r) j 0) same) in
    let second : key_at r (at + 2) ≡ key_at r (at + 1 + 1) = ap (key_at r) (omega arith) in
    let third : key_at r (at + 3) ≡ key_at r (at + 1 + 2) = ap (key_at r) (omega arith) in
    let ih = unmask-xor_from r (at + 1) p h.1 in
    let here : bit_xor (bit_xor x (get_or (bytes4 r) (at % 4) 0)) (key_at r at) ≡ x =
      xor_twice x (key_at r at) h.0 (key_at-lt r at) in
    cc (again, second, third, ih, here)

-- A receiver that follows RFC 6455: the opcode and the payload of a frame that is whole and masked.
unfoldable pub open_payload : ℕ → ℕ → Bytes → Option (ℕ × Bytes)
unfolding unmask
open_payload op n (a ∷ b ∷ c ∷ d ∷ s) = some (op, unmask a b c d (take n s))
open_payload op n _ = none

unfoldable pub receive : Bytes → Option (ℕ × Bytes)
unfolding open_payload
receive (b0 ∷ b1 ∷ s) =
    if not (b0 / 128 == 1) || not (b1 / 128 == 1)
    then none
    else if ltb (b1 % 128) 126
    then open_payload (b0 % 16) (b1 % 128) s
    else if b1 % 128 == 126
    then long (b0 % 16) s
    else none
  where
    long : ℕ → Bytes → Option (ℕ × Bytes)
    long op (hi ∷ lo ∷ s) = open_payload op (hi * 256 + lo) s
    long op _ = none
receive _ = none

length-xor_from : (mask p : Bytes) (at : ℕ) → length (xor_from mask at p) ≡ length p
unfolding xor_from
length-xor_from mask [] at = refl
length-xor_from mask (b ∷ p) at = ap suc (length-xor_from mask p (at + 1))

opened :
    (op r : ℕ) (p : Bytes)
    → All IsByte p
    → open_payload op (length p) (bytes4 r ++ xor_from (bytes4 r) 0 p) ≡ some (op, p)
unfolding open_payload key_at
opened op r p h =
    let size : length (xor_from (bytes4 r) 0 p) ≤ length p =
      omega (arith, length-xor_from (bytes4 r) p 0) in
    let all = take_all (length p) (xor_from (bytes4 r) 0 p) size in
    let clear = unmask-xor_from r 0 p h in
    ap (λ t. some (op, unmask (u8 r) (u8 (r / 256)) (u8 (r / 65536)) (u8 (r / 16777216)) t)) all
    ∙ ap (λ t. some (op, t)) clear

ops_table : each_below 16 (λ op. bit_or 128 op == 128 + op) ≡ true
unfolding each_below
ops_table = refl

receive-frame_head :
    (op n : ℕ) (s : Bytes)
    → op < 16
    → n < 65536
    → receive (frame_head op n ++ s) ≡ open_payload op n s
receive-frame_head op n s h k =
    let first : bit_or 128 op ≡ 128 + op =
      (==_iff _ _).0 (each_below_sound 16 (λ op. bit_or 128 op == 128 + op) op ops_table h) in
    elim (Bool-cases (ltb n 126)) [
      | inl short ↦
          let sent : frame_head op n ++ s ≡ (128 + op) ∷ (128 + n) ∷ s = ground (arith, first) in
          ap receive sent ∙ (unfold receive in ground arith)
      | inr long ↦
          let sent : frame_head op n ++ s ≡ (128 + op) ∷ 254 ∷ u8 (n / 256) ∷ u8 n ∷ s =
            ground (arith, first) in
          let whole : u8 (n / 256) * 256 + u8 n ≡ n = omega arith in
          ap receive sent ∙ (unfold receive in ground (arith, whole))
    ]

-- A receiver that follows RFC 6455 takes the opcode and the message from what `send` sends, whatever
-- the random number of the mask, for a message shorter than 65536 bytes.
pub receive-send :
    (op r : ℕ) (head body : Bytes)
    → op < 16
    → length head + length body < 65536
    → All IsByte (head ++ body)
    → receive (send op head body r) ≡ some (op, head ++ body)
unfolding send
receive-send op r head body h k b =
    let size : length head + length body ≡ length (head ++ body) = sym (length-append head body) in
    ap (λ s. receive (frame_head op (length head + length body) ++ (bytes4 r ++ s)))
      (masked_both (bytes4 r) head body)
    ∙ receive-frame_head op (length head + length body) _ h k
    ∙ ap (λ n. open_payload op n (bytes4 r ++ xor_from (bytes4 r) 0 (head ++ body))) size
    ∙ opened op r (head ++ body) b
