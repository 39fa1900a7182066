-- ===== src/Mqtt/Packet/Commands.antt =====
-- MqttService.h: a published command reaches the service, and nothing else does.
use esp8266_dns.Base.{c_string}
use esp8266_dns.Base.{
  Bytes, [], ap, append_assoc, arith, drop, drop-append, false, get_or, if◌then◌else◌, inl, inr,
  length, length-append, ltb, lt→ltb, min, not, refl, set, suc, sym, take, true, zero, ℕ, ◌%◌, ◌*◌,
  ◌++◌, ◌+◌, ◌-◌, ◌/◌, ◌<◌, ◌==◌, ◌||◌, ◌∙◌, ◌∷◌, ◌≡◌, ◌≤◌, ◌⊎◌,
}
use esp8266_dns.Json.{fits}
use esp8266_dns.Mqtt.{Effect, Link, MqttService, Rx, cmd_size, is_up, perform, rx_size}
use esp8266_dns.Mqtt.Packet.{
  Setup, feed, feed_body, feed_in, length_bytes, packet, publish_state, run_command,
}
use esp8266_dns.Mqtt.Packet.Lengths.{AtBody, feed_all, feed_all-header}

abbrev IsBuffer : MqttService → Type 0
IsBuffer s = length s.rx ≡ rx_size

set-append :
    (pre rest : Bytes) (o c : ℕ) → set (pre ++ (o ∷ rest)) (length pre) c ≡ pre ++ (c ∷ rest)
set-append [] rest o c = refl
set-append (x ∷ pre) rest o c = ap (◌∷◌ x) (set-append pre rest o c)

take-min : (k : ℕ) (cmd old : Bytes) → take (min (length cmd) k) (cmd ++ old) ≡ take k cmd
take-min zero cmd old =
    let none_left : min (length cmd) 0 ≡ 0 = omega arith in
    ap (λ (n : ℕ). take n (cmd ++ old)) none_left
take-min (suc k) [] old =
    let none_left : min 0 (suc k) ≡ 0 = omega arith in ap (λ (n : ℕ). take n old) none_left
take-min (suc k) (c ∷ cmd) old =
    let one_more : min (suc (length cmd)) (suc k) ≡ suc (min (length cmd) k) = omega arith in
    ap (λ (n : ℕ). take n (c ∷ (cmd ++ old))) one_more ∙ ap (◌∷◌ c) (take-min k cmd old)

drop_head :
    (t cmd old : Bytes) → drop (2 + length t) ((0 ∷ length t ∷ (t ++ cmd)) ++ old) ≡ cmd ++ old
drop_head t cmd old =
    let two : 2 + length t ≡ suc (suc (length t)) = omega arith in
    let here : length t ≡ length t + 0 = omega arith in
    ap (λ (n : ℕ). drop n ((0 ∷ length t ∷ (t ++ cmd)) ++ old)) two
    ∙ ap (drop (length t)) (append_assoc t cmd old)
    ∙ ap (λ (n : ℕ). drop n (t ++ (cmd ++ old))) here
    ∙ drop-append t (cmd ++ old) 0

publish_type : (type n : ℕ) → (type ≡ 0x31) ⊎ ((type ≡ 0x30) × (rx_size < n)) → type / 16 ≡ 3
publish_type type n (inl h) = omega arith
publish_type type n (inr h) = omega arith

dropped_kind :
    (type n : ℕ) (t : MqttService)
    → t.rx_header ≡ type
    → t.rx_len ≡ n
    → (type ≡ 0x31) ⊎ ((type ≡ 0x30) × (rx_size < n))
    → (t.rx_header ≡ 0x31) ⊎ ((t.rx_header ≡ 0x30) × (rx_size < t.rx_len))
dropped_kind type n t h l (inl k) = inl (h ∙ k)
dropped_kind type n t h l (inr k) = inr (h ∙ k.0, omega (arith, l, k.1))

module _ (setup : Setup) (now : ℕ) where
  feed_body_of :
      (c : ℕ) (s : MqttService)
      → s.rx_state ≡ Rx.body
      → feed setup c now s ≡ feed_body setup c now s
  unfolding feed
  feed_body_of c s e = ap (λ (r : Rx). feed_in setup r c now s) e

  -- A byte of the body that is not the last.
  kept : ℕ → MqttService → MqttService
  kept c s = record s {
    rx = if ltb s.rx_got rx_size then set s.rx s.rx_got c else s.rx;
    rx_got = s.rx_got + 1;
  }

  feed_body-more :
      (c : ℕ) (s : MqttService) → s.rx_got + 1 < s.rx_len → feed_body setup c now s ≡ kept c s
  unfolding feed_body kept
  feed_body-more c s h = rw (lt→ltb (s.rx_got + 1) s.rx_len h) refl

  feed_body-last :
      (c : ℕ) (s : MqttService)
      → s.rx_got + 1 ≡ s.rx_len
      → feed_body setup c now s ≡ packet setup now (record (kept c s) { rx_state = Rx.header })
  unfolding feed_body kept
  feed_body-last c s h =
      let last : ltb (s.rx_got + 1) s.rx_len ≡ false = ground arith in rw last refl

  -- What the whole body leaves in the buffer, when it starts at `got`.
  unfoldable pub filled : Bytes → ℕ → Bytes → Bytes
  filled [] got rx = rx
  filled (c ∷ p) got rx = filled p (got + 1) (if ltb got rx_size then set rx got c else rx)

  -- The state in which `_packet` is called, behind a body that begins at `rx_got`.
  unfoldable pub at_packet : Bytes → MqttService → MqttService
  at_packet p s = record s {
    rx = filled p s.rx_got s.rx;
    rx_got = s.rx_got + length p;
    rx_state = Rx.header;
  }

  feed_all-body :
      (c : ℕ) (p : Bytes) (s : MqttService)
      → s.rx_state ≡ Rx.body
      → s.rx_got + length (c ∷ p) ≡ s.rx_len
      → feed_all setup now (c ∷ p) s ≡ packet setup now (at_packet (c ∷ p) s)
  unfolding feed_all at_packet filled
  feed_all-body c [] s e h =
      feed_body_of c s e
      ∙ feed_body-last c s (omega arith)
      ∙ ap (packet setup now) (unfold kept in refl)
  feed_all-body c (d ∷ p) s e h =
      let step = feed_body_of c s e ∙ feed_body-more c s (omega arith) in
      ap (feed_all setup now (d ∷ p)) step
      ∙ feed_all-body d p (kept c s) (unfold kept in e) (unfold kept in omega arith)
      ∙ ap (packet setup now) (
          unfold kept in
          ap (λ (g : ℕ). record (at_packet (c ∷ d ∷ p) s) { rx_got = g }) (omega arith))

  filled-buffer :
      (pre p old : Bytes)
      → length pre + length old ≡ rx_size
      → length p ≤ length old
      → filled p (length pre) (pre ++ old) ≡ pre ++ (p ++ drop (length p) old)
  unfolding filled
  filled-buffer pre [] old h w = refl
  filled-buffer pre (c ∷ p) [] h w = absurd (omega arith)
  filled-buffer pre (c ∷ p) (o ∷ old) h w =
      let room : ltb (length pre) rx_size ≡ true = ground arith in
      let size : length pre + 1 ≡ length (pre ++ c ∷ []) =
        omega (arith, length-append pre (c ∷ [])) in
      rw room (
        ap (λ (rx : Bytes). filled p (length pre + 1) rx)
          (set-append pre old o c ∙ sym (append_assoc pre (c ∷ []) old))
        ∙ ap (λ (g : ℕ). filled p g ((pre ++ c ∷ []) ++ old)) size
        ∙ filled-buffer (pre ++ c ∷ []) p old (omega (arith, size)) (omega arith)
        ∙ append_assoc pre (c ∷ []) (p ++ drop (length p) old))

  feed_all-append :
      (p q : Bytes) (s : MqttService)
      → feed_all setup now (p ++ q) s ≡ feed_all setup now q (feed_all setup now p s)
  unfolding feed_all
  feed_all-append [] q s = refl
  feed_all-append (c ∷ p) q s = feed_all-append p q (feed setup c now s)

  -- A packet whose body is not empty: `_packet` is called with the body in the buffer.
  feed_all-packet :
      (type c : ℕ) (p : Bytes) (s : MqttService)
      → length (c ∷ p) < 268435456
      → s.rx_state ≡ Rx.header
      → (t : MqttService) × (feed_all setup now
            ((type ∷ length_bytes 5 (length (c ∷ p))) ++ (c ∷ p))
            s
          ≡ packet setup now (at_packet (c ∷ p) t))
        × AtBody setup now (length (c ∷ p)) (record s { rx_header = type }) t
  feed_all-packet type c p s h e =
      let n = length (c ∷ p) in
      let t = feed_all setup now (type ∷ length_bytes 5 n) s in
      let b = feed_all-header setup now type n s (omega arith) h e in
      (
        t,
        feed_all-append (type ∷ length_bytes 5 n) (c ∷ p) s
            ∙ feed_all-body c p t b.at_body (omega (arith, b.len, b.none_yet)),
        b,
      )

  packet-publish :
      (s : MqttService)
      → s.rx_header / 16 ≡ 3
      → s.state ≡ Link.up
      → packet setup now s ≡ run_command setup now s
  unfolding packet
  packet-publish s h e =
      let type : (s.rx_header / 16 == 2) ≡ false = ground arith in
      let message : (s.rx_header / 16 == 3) ≡ true = ground arith in
      let joined : is_up s.state ≡ true = ap is_up e in rw type (rw message (rw joined refl))

  run_command-retained : (s : MqttService) → s.rx_header % 2 ≡ 1 → run_command setup now s ≡ s
  unfolding run_command
  run_command-retained s h =
      let retained : (s.rx_header % 2 == 1) ≡ true = ground arith in rw retained refl

  run_command-long :
      (s : MqttService) → s.rx_header % 2 ≡ 0 → rx_size < s.rx_len → run_command setup now s ≡ s
  unfolding run_command
  run_command-long s h k =
      let fresh_one : (s.rx_header % 2 == 1) ≡ false = ground arith in
      let long : (not (s.rx_header / 2 % 4 == 0) || ltb rx_size s.rx_len || ltb s.rx_len 2) ≡ true =
        ground arith in
      rw fresh_one (rw long refl)

  run_command-delivered :
      (s : MqttService) (t cmd old : Bytes)
      → s.rx_header ≡ 0x30
      → s.rx_len ≡ 2 + length t + length cmd
      → s.rx_len ≤ rx_size
      → s.rx ≡ (0 ∷ length t ∷ (t ++ cmd)) ++ old
      → run_command setup now s
        ≡ publish_state setup true now
            (perform (Effect.commands (c_string (take (cmd_size - 1) cmd))) s)
  unfolding run_command
  run_command-delivered s t cmd old h n w e =
      let size : get_or s.rx 0 0 * 256 + get_or s.rx 1 0 ≡ length t =
        ap (λ (r : Bytes). get_or r 0 0 * 256 + get_or r 1 0) e ∙ omega arith in
      let fresh_one : (s.rx_header % 2 == 1) ≡ false = ground (arith, h) in
      let whole : (not (s.rx_header / 2 % 4 == 0) || ltb rx_size s.rx_len || ltb s.rx_len 2)
          ≡ false =
        ground (arith, h, n, w) in
      let room : ltb s.rx_len (2 + length t) ≡ false = ground (arith, n) in
      let n_bytes : min (s.rx_len - 2 - length t) (cmd_size - 1) ≡ min (length cmd) 39 =
        omega (arith, n) in
      let behind : drop (2 + length t) s.rx ≡ cmd ++ old =
        ap (drop (2 + length t)) e ∙ drop_head t cmd old in
      rw fresh_one (
        rw whole (
          rw size (
            rw room (
              ap
                (λ (p : Bytes).
                  publish_state setup true now (perform (Effect.commands (c_string p)) s))
                (ap (λ (k : ℕ). take k (drop (2 + length t) s.rx)) n_bytes
                  ∙ ap (take (min (length cmd) 39)) behind
                  ∙ take-min 39 cmd old)))))

  -- A PUBLISH that arrives while the connection is up: `_command` is called behind its body.
  feed_all-publish :
      (type c : ℕ) (p : Bytes) (s : MqttService)
      → length (c ∷ p) < 268435456
      → s.rx_state ≡ Rx.header
      → s.state ≡ Link.up
      → type / 16 ≡ 3
      → (t : MqttService) × (feed_all setup now
            ((type ∷ length_bytes 5 (length (c ∷ p))) ++ (c ∷ p))
            s
          ≡ run_command setup now (at_packet (c ∷ p) t))
        × AtBody setup now (length (c ∷ p)) (record s { rx_header = type }) t
  feed_all-publish type c p s h e up k =
      let whole = feed_all-packet type c p s h e in
      let t = whole.0 in
      let b = whole.2 in
      (
        t,
        whole.1
            ∙ packet-publish (at_packet (c ∷ p) t)
                (unfold at_packet in ap (λ (n : ℕ). n / 16) b.same_header ∙ k)
                (unfold at_packet in b.same_state ∙ up),
        b,
      )

  -- A command of up to 78 bytes with its topic, not retained, that arrives while the connection is
  -- up: it reaches the service, cut to 39 characters and at a zero byte, and the state is published behind it. Nothing
  -- else is done, and the reader waits for the next packet.
  pub feed_all-command :
      (t cmd : Bytes) (s : MqttService)
      → s.rx_state ≡ Rx.header
      → s.state ≡ Link.up
      → length s.rx ≡ rx_size
      → 2 + length t + length cmd ≤ rx_size
      → (u : MqttService) × (feed_all setup now
            ((0x30 ∷ length_bytes 5 (length (0 ∷ length t ∷ (t ++ cmd))))
              ++ (0 ∷ length t ∷ (t ++ cmd)))
            s
          ≡ publish_state setup true now u)
        × (u.effects ≡ Effect.commands (c_string (take (cmd_size - 1) cmd)) ∷ s.effects)
        × (u.state ≡ Link.up)
        × (u.rx_state ≡ Rx.header)
  feed_all-command t cmd s e up buffer fits =
      let p = length t ∷ (t ++ cmd) in
      let n = length (0 ∷ p) in
      let size : n ≡ 2 + length t + length cmd = omega (arith, length-append t cmd) in
      let got = feed_all-publish 0x30 0 p s (omega (arith, size)) e up (omega arith) in
      let b = got.2 in
      let v = at_packet (0 ∷ p) got.0 in
      let text : v.rx ≡ (0 ∷ p) ++ drop n s.rx =
        unfold at_packet in
        ap (λ (g : ℕ). filled (0 ∷ p) g got.0.rx) b.none_yet
        ∙ ap (filled (0 ∷ p) 0) b.same_rx
        ∙ filled-buffer [] (0 ∷ p) s.rx (omega (arith, buffer)) (omega (arith, size, buffer)) in
      let len : v.rx_len ≡ n = unfold at_packet in b.len in
      let delivered =
        run_command-delivered v t cmd (drop n s.rx) (unfold at_packet in b.same_header)
          (omega (arith, len, size)) (omega (arith, len, size)) text in
      (
        perform (Effect.commands (c_string (take (cmd_size - 1) cmd))) v,
        got.1 ∙ delivered,
        ap (◌∷◌ (Effect.commands (c_string (take (cmd_size - 1) cmd))))
            (unfold at_packet in b.same_effects),
        unfold at_packet in b.same_state ∙ up,
        unfold at_packet in refl,
      )

  ignored :
      (v : MqttService)
      → (v.rx_header ≡ 0x31) ⊎ ((v.rx_header ≡ 0x30) × (rx_size < v.rx_len))
      → run_command setup now v ≡ v
  ignored v (inl h) = run_command-retained v (omega (arith, h))
  ignored v (inr h) = run_command-long v (omega (arith, h.0)) h.1

  -- A retained message, or one whose body is longer than the buffer, is read to its end and dropped:
  -- nothing is done, and the reader waits for the next packet.
  pub feed_all-dropped :
      (type c : ℕ) (p : Bytes) (s : MqttService)
      → length (c ∷ p) < 268435456
      → s.rx_state ≡ Rx.header
      → s.state ≡ Link.up
      → (type ≡ 0x31) ⊎ ((type ≡ 0x30) × (rx_size < length (c ∷ p)))
      → (u : MqttService) × (feed_all setup now
            ((type ∷ length_bytes 5 (length (c ∷ p))) ++ (c ∷ p))
            s
          ≡ u)
        × (u.effects ≡ s.effects)
        × (u.state ≡ Link.up)
        × (u.rx_state ≡ Rx.header)
  feed_all-dropped type c p s h e up k =
      let got = feed_all-publish type c p s h e up (publish_type type (length (c ∷ p)) k) in
      let b = got.2 in
      let v = at_packet (c ∷ p) got.0 in
      (
        v,
        got.1
            ∙ ignored v (
                unfold at_packet in dropped_kind type (length (c ∷ p)) got.0 b.same_header b.len k),
        unfold at_packet in b.same_effects,
        unfold at_packet in b.same_state ∙ up,
        unfold at_packet in refl,
      )
