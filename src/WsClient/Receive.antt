-- ===== src/WsClient/Receive.antt =====
-- WsClient.h, `frame`, `next` and `read`: what a server sends, without a mask.
use esp8266_dns.Base.{
  Bool, Bool-cases, Bytes, Option-cases, [], ap, append-nil, append_assoc, arith, drop, false,
  get_or, if◌then◌else◌, inl, inr, length, length-append, ltb, ltb→lt, none, refl, some, suc, sym,
  take, true, zero, ℕ, ◌%◌, ◌*◌, ◌++◌, ◌+◌, ◌-◌, ◌/◌, ◌<◌, ◌∙◌, ◌∷◌, ◌≡◌, ◌≤◌,
}
use esp8266_dns.WsClient.{
  WsClient, check_frame, frame, max_frame, next_byte, read, read_from, size_from, size_of,
}

-- A frame that a server sends, whole and shorter than 65536 bytes.
abbrev pub size_bytes : ℕ → Bytes
size_bytes n = if ltb n 126 then n ∷ [] else 126 ∷ n / 256 ∷ n % 256 ∷ []

abbrev pub server_frame : ℕ → Bytes → Bytes
server_frame op p = (128 + op) ∷ (size_bytes (length p) ++ p)

abbrev frame_on : ℕ → Bytes → WsClient → WsClient × Bool
frame_on available s d =
    if ltb available 2
    then (d, false)
    else check_frame (get_or s 0 255) (get_or s 1 255) (size_of (get_or s 1 255) (drop 2 s)) d

frame-server_frame :
    (available op : ℕ) (p rest : Bytes) (d : WsClient)
    → 2 ≤ available
    → 0 < op
    → op < 16
    → length p ≤ max_frame
    → d.input ≡ server_frame op p ++ rest
    → frame available d ≡ (record d { op = op; left = length p; input = p ++ rest }, true)
unfolding frame
frame-server_frame available op p rest d a o h n e = elim (Bool-cases (ltb (length p) 126)) [
  | inl short ↦
      let sent : d.input ≡ (128 + op) ∷ length p ∷ (p ++ rest) = e ∙ ground arith in
      (unfold frame in ap (λ s. frame_on available s d) sent)
      ∙ (unfold check_frame size_of in ground arith)
  | inr long ↦
      let sent : d.input ≡ (128 + op) ∷ 126 ∷ length p / 256 ∷ length p % 256 ∷ (p ++ rest) =
        e ∙ ground arith in
      let whole : length p / 256 * 256 + length p % 256 ≡ length p = omega arith in
      (unfold frame in ap (λ s. frame_on available s d) sent)
      ∙ (unfold check_frame size_of size_from in ground (arith, whole))
]

read_from-none :
    (fuel cap : ℕ) (buf : Bytes) (d e : WsClient)
    → next_byte d ≡ (e, none)
    → read_from (suc fuel) cap buf d ≡ (e, buf)
unfolding read_from
read_from-none fuel cap buf d e h = ground (arith, h)

read_from-some :
    (fuel cap c : ℕ) (buf : Bytes) (d e : WsClient)
    → next_byte d ≡ (e, some c)
    → read_from (suc fuel) cap buf d
      ≡ read_from fuel cap (if ltb (length buf + 1) cap then buf ++ c ∷ [] else buf) e
unfolding read_from
read_from-some fuel cap c buf d e h = ground (arith, h)

take_nil : (n : ℕ) → take {A = ℕ} n [] ≡ []
take_nil zero = refl
take_nil (suc n) = refl

-- What `read` keeps of a payload.
read_from-append :
    (p rest buf : Bytes) (cap : ℕ) (d : WsClient)
    → d.left ≡ length p
    → d.input ≡ p ++ rest
    → 0 < cap
    → length buf < cap
    → read_from (suc (length p)) cap buf d
      ≡ (record d { left = 0; input = rest }, buf ++ take (cap - 1 - length buf) p)
read_from-append [] rest buf cap d l i c h =
    let same : record d { left = 0; input = rest } ≡ d =
      ap (λ n. record d { left = n; input = rest }) (sym l)
      ∙ ap (λ s. record d { input = s }) (sym i) in
    let nothing = take_nil (cap - 1 - length buf) in
    read_from-none 0 cap buf d d (unfold next_byte in ground arith)
    ∙ cc (same, nothing, append-nil buf)
read_from-append (b ∷ p) rest buf cap d l i c h =
    let e = record d { left = length p; input = p ++ rest } in
    let got : next_byte d ≡ (e, some b) = unfold next_byte in ground arith in
    read_from-some (suc (length p)) cap b buf d e got
    ∙ elim (Bool-cases (ltb (length buf + 1) cap)) [
      | inl more ↦
          let size = length-append buf (b ∷ []) in
          let ih =
            read_from-append p rest (buf ++ b ∷ []) cap e refl refl c (ground (arith, size)) in
          let count : cap - 1 - length buf ≡ suc (cap - 1 - length (buf ++ b ∷ [])) =
            omega (arith, size, ltb→lt _ _ more) in
          ap (λ t. read_from (suc (length p)) cap (if t then buf ++ b ∷ [] else buf) e) more
          ∙ ih
          ∙ ap (λ s. (record d { left = 0; input = rest }, s))
              (append_assoc buf (b ∷ []) _ ∙ ap (λ k. buf ++ take k (b ∷ p)) (sym count))
      | inr done ↦
          let ih = read_from-append p rest buf cap e refl refl c h in
          let count : cap - 1 - length buf ≡ 0 = ground (arith, done) in
          ap (λ t. read_from (suc (length p)) cap (if t then buf ++ b ∷ [] else buf) e) done
          ∙ ih
          ∙ ap (λ s. (record d { left = 0; input = rest }, s))
              (ap (λ k. buf ++ take k p) count ∙ ap (λ k. buf ++ take k (b ∷ p)) (sym count))
    ]

read_from-lt :
    (fuel cap : ℕ) (buf : Bytes) (d : WsClient)
    → length buf < cap
    → length (read_from fuel cap buf d).1 < cap
unfolding read_from
read_from-lt zero cap buf d h = h
read_from-lt (suc fuel) cap buf d h = elim (Option-cases (next_byte d).1) [
  | inl over ↦ ground arith
  | inr (c, got) ↦
      let more = read_from-lt fuel cap (buf ++ c ∷ []) (next_byte d).0 in
      let same = read_from-lt fuel cap buf (next_byte d).0 h in
      ground (arith, more, same, length-append buf (c ∷ []))
]

-- A frame that a server sends, with an opcode other than 0 and at most 8192 bytes of payload, is read as
-- its opcode and as much of its payload as the buffer takes; the next frame is then at the front.
pub read-server_frame :
    (available op cap : ℕ) (p rest : Bytes) (d : WsClient)
    → 2 ≤ available
    → 0 < op
    → op < 16
    → length p ≤ max_frame
    → 0 < cap
    → d.input ≡ server_frame op p ++ rest
    → (frame available d).1 ≡ true
      × (read cap (frame available d).0
          ≡ (record d { op = op; left = 0; input = rest }, take (cap - 1) p))
read-server_frame available op cap p rest d a o h n c e =
    let got = frame-server_frame available op p rest d a o h n e in
    let framed = record d { op = op; left = length p; input = p ++ rest } in
    let fuel : length p + 1 ≡ suc (length p) = omega arith in
    let none_yet : cap - 1 - 0 ≡ cap - 1 = omega arith in
    let payload =
      ap (λ f. read_from f cap [] framed) fuel
      ∙ read_from-append p rest [] cap framed refl refl c c
      ∙ ap (λ k. (record framed { left = 0; input = rest }, take k p)) none_yet in
    (ap (λ r. r.1) got, ap (λ r. read cap r.0) got ∙ (unfold read in payload))

-- `read` keeps fewer bytes than the buffer holds, whatever the server sends.
read-lt : (cap : ℕ) (d : WsClient) → 0 < cap → length (read cap d).1 < cap
unfolding read
read-lt cap d h = read_from-lt (d.left + 1) cap [] d h
