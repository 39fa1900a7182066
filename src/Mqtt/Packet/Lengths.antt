-- ===== src/Mqtt/Packet/Lengths.antt =====
-- MqttService.h: the length that `_header` writes is the one that `_feed` reads.
use esp8266_dns.Base.{
  Bool-cases, Bytes, [], ap, arith, false, inl, inr, ltb, ltb→lt, refl, subst, suc, sym, true, ℕ,
  ◌%◌, ◌*◌, ◌+◌, ◌/◌, ◌<◌, ◌==◌, ◌^◌, ◌∙◌, ◌∷◌, ◌≡◌, ◌≤◌,
}
use esp8266_dns.Mqtt.{MqttService, Rx}
use esp8266_dns.Mqtt.Packet.{Setup, feed, feed_in, feed_length, length_bytes}

module _ (setup : Setup) (now : ℕ) where
  unfoldable pub feed_all : Bytes → MqttService → MqttService
  feed_all [] s = s
  feed_all (c ∷ p) s = feed_all p (feed setup c now s)

  -- The reading has come to a body of `n` bytes, and nothing else has changed.
  pub record AtBody (n : ℕ) (before s : MqttService) : Type 0 where
    pub len : s.rx_len ≡ n
    pub at_body : s.rx_state ≡ Rx.body
    pub none_yet : s.rx_got ≡ 0
    pub same_header : s.rx_header ≡ before.rx_header
    pub same_rx : s.rx ≡ before.rx
    pub same_state : s.state ≡ before.state
    pub same_effects : s.effects ≡ before.effects

  -- The state behind one byte of the length.
  longer : ℕ → MqttService → MqttService
  longer c s = record s { rx_len = s.rx_len + c % 128 * 2 ^ s.rx_shift; rx_shift = s.rx_shift + 7 }

  feed_remaining :
      (c : ℕ) (s : MqttService)
      → s.rx_state ≡ Rx.remaining
      → feed setup c now s ≡ feed_length setup c now s
  unfolding feed
  feed_remaining c s e = ap (λ (r : Rx). feed_in setup r c now s) e

  feed_length-last :
      (c : ℕ) (s : MqttService)
      → c < 128
      → 0 < (longer c s).rx_len
      → feed_length setup c now s ≡ record (longer c s) { rx_got = 0; rx_state = Rx.body }
  unfolding feed_length longer
  feed_length-last c s h k = ground arith

  feed_length-more :
      (c : ℕ) (s : MqttService)
      → 128 ≤ c
      → s.rx_shift + 7 < 28
      → feed_length setup c now s ≡ longer c s
  unfolding feed_length longer
  feed_length-more c s h k = ground arith

  -- All lengths below `m` are read from the bit `shift` on, where `suc fuel` digits are written.
  abbrev Reads : ℕ → ℕ → ℕ → Type 0
  Reads fuel shift m =
      (n : ℕ) (s : MqttService)
      → n < m
      → s.rx_shift ≡ shift
      → s.rx_state ≡ Rx.remaining
      → 0 < s.rx_len + n * 2 ^ shift
      → AtBody (s.rx_len + n * 2 ^ shift) s (feed_all (length_bytes (suc fuel) n) s)

  reads_one :
      (n : ℕ) (s : MqttService)
      → n < 128
      → s.rx_state ≡ Rx.remaining
      → 0 < s.rx_len + n * 2 ^ s.rx_shift
      → AtBody (s.rx_len + n * 2 ^ s.rx_shift) s (feed_all (n ∷ []) s)
  unfolding feed_all
  reads_one n s h e p =
      let small : n % 128 ≡ n = omega arith in
      let sum : s.rx_len + n % 128 * 2 ^ s.rx_shift ≡ s.rx_len + n * 2 ^ s.rx_shift =
        ap (λ (d : ℕ). s.rx_len + d * 2 ^ s.rx_shift) small in
      subst (AtBody (s.rx_len + n * 2 ^ s.rx_shift) s)
        (sym (feed_remaining n s e ∙ feed_length-last n s h (unfold longer in omega (arith, sum))))
        (unfold longer in
          record {
            len = sum;
            at_body = refl;
            none_yet = refl;
            same_header = refl;
            same_rx = refl;
            same_state = refl;
            same_effects = refl;
          })

  short-Reads : (fuel shift : ℕ) → Reads fuel shift 128
  unfolding length_bytes
  short-Reads fuel shift n s h e r p =
      let last : (n / 128 == 0) ≡ true = ground arith in
      let small : n % 128 ≡ n = omega arith in
      let same : n * 2 ^ s.rx_shift ≡ n * 2 ^ shift = ap (λ (k : ℕ). n * 2 ^ k) e in
      let one = reads_one n s h r (omega (arith, same)) in
      rw last (rw small (subst (λ k. AtBody k s (feed_all (n ∷ []) s)) (omega (arith, same)) one))

  -- What follows a byte with its upper bit set starts seven bits further on.
  AtBody-longer : (m c : ℕ) (s t : MqttService) → AtBody m (longer c s) t → AtBody m s t
  unfolding longer
  AtBody-longer m c s t b = record {
    len = b.len;
    at_body = b.at_body;
    none_yet = b.none_yet;
    same_header = b.same_header;
    same_rx = b.same_rx;
    same_state = b.same_state;
    same_effects = b.same_effects;
  }

  more-Reads :
      (fuel shift m : ℕ)
      → shift + 7 < 28
      → 2 ^ (shift + 7) ≡ 128 * 2 ^ shift
      → Reads fuel (shift + 7) m
      → Reads (suc fuel) shift (128 * m)
  unfolding length_bytes feed_all
  more-Reads fuel shift m w pw next n s h e r p =
      let q = n / 128 in
      let c = n % 128 + 128 in
      let digit : c % 128 ≡ n % 128 = omega arith in
      let parts : n ≡ n % 128 + 128 * q = omega arith in
      let scaled : (n % 128 + 128 * q) * 2 ^ shift ≡ n * 2 ^ shift =
        ap (λ (k : ℕ). k * 2 ^ shift) (sym parts) in
      let upper : q * 2 ^ (shift + 7) ≡ q * (128 * 2 ^ shift) = ap (λ (k : ℕ). q * k) pw in
      let low : c % 128 * 2 ^ s.rx_shift ≡ n % 128 * 2 ^ shift =
        ap (λ (k : ℕ). k * 2 ^ s.rx_shift) digit ∙ ap (λ (k : ℕ). n % 128 * 2 ^ k) e in
      let total : (longer c s).rx_len + q * 2 ^ (shift + 7) ≡ s.rx_len + n * 2 ^ shift =
        unfold longer in grind (arith, low, upper, scaled) in
      elim (Bool-cases (ltb n 128)) [
        | inl small ↦ short-Reads (suc fuel) shift n s (ltb→lt n 128 small) e r p
        | inr big ↦
            let more : (q == 0) ≡ false = ground arith in
            let fed : feed setup c now s ≡ longer c s =
              feed_remaining c s r ∙ feed_length-more c s (omega arith) (omega (arith, e)) in
            let rest =
              next q (longer c s) (ground arith) (unfold longer in ap (λ (k : ℕ). k + 7) e)
                (unfold longer in r) (omega (arith, total)) in
            rw more (
              subst
                (λ (t : MqttService).
                  AtBody (s.rx_len + n * 2 ^ shift) s (feed_all (length_bytes (suc fuel) q) t))
                (sym fed)
                (AtBody-longer (s.rx_len + n * 2 ^ shift) c s _ (
                  subst
                    (λ k. AtBody k (longer c s) (feed_all (length_bytes (suc fuel) q) (longer c s)))
                    total rest)))
      ]

  all-Reads : Reads 4 0 268435456
  all-Reads = more-Reads 3 0 2097152 (omega arith) refl (
      more-Reads 2 7 16384 (omega arith) refl
        (more-Reads 1 14 128 (omega arith) refl (short-Reads 1 21)))

  opened : ℕ → MqttService → MqttService
  opened type s = record s { rx_header = type; rx_len = 0; rx_shift = 0; rx_state = Rx.remaining }

  from_opened :
      (type n : ℕ) (s t : MqttService)
      → AtBody ((opened type s).rx_len + n * 1) (opened type s) t
      → AtBody n (record s { rx_header = type }) t
  unfolding opened
  from_opened type n s t b = record {
    len = omega (arith, b.len);
    at_body = b.at_body;
    none_yet = b.none_yet;
    same_header = b.same_header;
    same_rx = b.same_rx;
    same_state = b.same_state;
    same_effects = b.same_effects;
  }

  -- A header as the client writes it, for any length below 2 ^ 28 but 0: the reader comes to the body
  -- with that length and that header, and nothing else has changed.
  pub feed_all-header :
      (type n : ℕ) (s : MqttService)
      → 0 < n
      → n < 268435456
      → s.rx_state ≡ Rx.header
      → AtBody n (record s { rx_header = type }) (feed_all (type ∷ length_bytes 5 n) s)
  unfolding feed_all
  feed_all-header type n s p h e =
      let start : feed setup type now s ≡ opened type s =
        unfold feed opened in ap (λ (r : Rx). feed_in setup r type now s) e in
      let read =
        all-Reads n (opened type s) h (unfold opened in refl) (unfold opened in refl)
          (unfold opened in omega arith) in
      let fits : AtBody n (record s { rx_header = type })
          (feed_all (length_bytes 5 n) (opened type s)) =
        from_opened type n s (feed_all (length_bytes 5 n) (opened type s)) read in
      subst
        (λ (u : MqttService).
          AtBody n (record s { rx_header = type }) (feed_all (length_bytes 5 n) u))
        (sym start) fits
