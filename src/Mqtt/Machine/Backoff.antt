-- ===== src/Mqtt/Machine/Backoff.antt =====
-- MqttService.h: the wait before the next connection stays between 5 seconds and 5 minutes.
use esp8266_dns.Base.{c_string}
use esp8266_dns.Base.{
  Bool, Bytes, List, Option, [], arith, drop, get_or, if_cases, if◌then◌else◌, leb, length, ltb,
  min, none, not, reached, refl, set, some, sub32, take, true, ℕ, ◌%◌, ◌&&◌, ◌*◌, ◌+◌, ◌-◌, ◌/◌,
  ◌==◌, ◌^◌, ◌||◌, ◌∙◌, ◌∷◌, ◌≡◌, ◌≤◌,
}
use esp8266_dns.Mqtt.{
  Effect, MqttService, Rx, backoff_max_s, backoff_min_s, close, cmd_size, connack_ms, fail, hold,
  is_connecting, is_idle, is_up, keepalive_s, perform, read_per_tick, reconnect, rx_size, state_ms,
  tele_ms,
}
use esp8266_dns.Mqtt.Broker.{parse_broker}
use esp8266_dns.Mqtt.Machine.{
  Tick, connect, connect_to, greet, ping, read_loop, reannounce, report_state, tend, tick,
}
use esp8266_dns.Mqtt.Packet.{
  Setup, announce, feed, feed_body, feed_in, feed_length, online, packet, publish, publish_state,
  put_header, put_out, put_string, run_command, subscribe,
}

pub record IsPaced (s : MqttService) : Type 0 where
  pub low : backoff_min_s ≤ s.backoff
  pub high : s.backoff ≤ backoff_max_s

fail-IsPaced : (now : ℕ) (s : MqttService) → IsPaced s → IsPaced (fail now s)
unfolding fail
fail-IsPaced now s p = ground arith

close-IsPaced : (s : MqttService) → IsPaced s → IsPaced (close s)
unfolding close
close-IsPaced s p = ground arith

module _ (setup : Setup) where
  publish_state-backoff :
      (force : Bool) (now : ℕ) (s : MqttService)
      → (publish_state setup force now s).backoff ≡ s.backoff
  unfolding publish_state
  publish_state-backoff force now s = ground arith

  put_out-backoff : (ps : List Bytes) (s : MqttService) → (put_out setup ps s).backoff ≡ s.backoff
  unfolding put_out
  put_out-backoff [] s = refl
  put_out-backoff (p ∷ ps) s = put_out-backoff ps (perform (Effect.writes p) s)

  announce-backoff : (now : ℕ) (s : MqttService) → (announce setup now s).backoff ≡ s.backoff
  unfolding announce
  announce-backoff now s = put_out-backoff setup.discovery _

  online-backoff : (now : ℕ) (s : MqttService) → (online setup now s).backoff ≡ backoff_min_s
  unfolding online
  online-backoff now s =
      let asked = subscribe setup now s in
      publish_state-backoff true now (announce setup now asked)
      ∙ announce-backoff now asked
      ∙ unfold subscribe publish put_header put_string in refl

  online-IsPaced : (now : ℕ) (s : MqttService) → IsPaced (online setup now s)
  online-IsPaced now s = record {
    low = omega (arith, online-backoff now s);
    high = omega (arith, online-backoff now s);
  }

  -- A step that leaves the wait as it is.
  IsPaced-same : (s t : MqttService) → t.backoff ≡ s.backoff → IsPaced s → IsPaced t
  IsPaced-same s t e p = record { low = omega (arith, p.low); high = omega (arith, p.high) }

  delivered : ℕ → MqttService → MqttService
  delivered size s =
      let n = min (s.rx_len - 2 - size) (cmd_size - 1) in
      perform (Effect.commands (c_string (take n (drop (2 + size) s.rx)))) s

  run_command-backoff : (now : ℕ) (s : MqttService) → (run_command setup now s).backoff ≡ s.backoff
  unfolding run_command delivered
  run_command-backoff now s =
      let size = get_or s.rx 0 0 * 256 + get_or s.rx 1 0 in
      let same = λ (t : MqttService). t.backoff ≡ s.backoff in
      if_cases same (s.rx_header % 2 == 1) _ _ (λ _. refl)
        (λ _.
          if_cases same (not (s.rx_header / 2 % 4 == 0) || ltb rx_size s.rx_len || ltb s.rx_len 2) _
            _ (λ _. refl)
            (λ _.
              if_cases same (ltb s.rx_len (2 + size)) _ _ (λ _. refl)
                (λ _. publish_state-backoff true now (delivered size s))))

  packet-IsPaced : (now : ℕ) (s : MqttService) → IsPaced s → IsPaced (packet setup now s)
  unfolding packet
  packet-IsPaced now s p =
      if_cases IsPaced (s.rx_header / 16 == 2) _ _
        (λ _.
          if_cases IsPaced (not (is_connecting s.state)) _ _ (λ _. p)
            (λ _.
              if_cases IsPaced ((if leb 2 s.rx_len then get_or s.rx 1 0 else 0xFF) == 0) _ _
                (λ _. online-IsPaced now s) (λ _. fail-IsPaced now s p)))
        (λ _.
          if_cases IsPaced (s.rx_header / 16 == 3 && is_up s.state) _ _
            (λ _. IsPaced-same s (run_command setup now s) (run_command-backoff now s) p) (λ _. p))

  feed_length-IsPaced :
      (c now : ℕ) (s : MqttService) → IsPaced s → IsPaced (feed_length setup c now s)
  unfolding feed_length
  feed_length-IsPaced c now s p =
      let s1 = record s {
        rx_len = s.rx_len + c % 128 * 2 ^ s.rx_shift;
        rx_shift = s.rx_shift + 7;
      } in
      let s2 = record s1 { rx_got = 0; rx_state = Rx.body } in
      let same : IsPaced s1 = IsPaced-same s s1 refl p in
      if_cases IsPaced (leb 128 c) _ _
        (λ _. if_cases IsPaced (ltb s1.rx_shift 28) _ _ (λ _. same) (λ _. fail-IsPaced now s1 same))
        (λ _.
          if_cases IsPaced (not (s2.rx_len == 0)) _ _ (λ _. IsPaced-same s s2 refl p)
            (λ _.
              packet-IsPaced now (record s2 { rx_state = Rx.header })
                (IsPaced-same s (record s2 { rx_state = Rx.header }) refl p)))

  feed_body-IsPaced : (c now : ℕ) (s : MqttService) → IsPaced s → IsPaced (feed_body setup c now s)
  unfolding feed_body
  feed_body-IsPaced c now s p =
      let kept = if ltb s.rx_got rx_size then set s.rx s.rx_got c else s.rx in
      let s1 = record s { rx = kept; rx_got = s.rx_got + 1 } in
      if_cases IsPaced (ltb s1.rx_got s1.rx_len) _ _ (λ _. IsPaced-same s s1 refl p)
        (λ _.
          packet-IsPaced now (record s1 { rx_state = Rx.header })
            (IsPaced-same s (record s1 { rx_state = Rx.header }) refl p))

  feed_in-IsPaced :
      (r : Rx) (c now : ℕ) (s : MqttService) → IsPaced s → IsPaced (feed_in setup r c now s)
  unfolding feed_in
  feed_in-IsPaced Rx.header c now s p = IsPaced-same s (feed_in setup Rx.header c now s) refl p
  feed_in-IsPaced Rx.remaining c now s p = feed_length-IsPaced c now s p
  feed_in-IsPaced Rx.body c now s p = feed_body-IsPaced c now s p

  feed-IsPaced : (c now : ℕ) (s : MqttService) → IsPaced s → IsPaced (feed setup c now s)
  unfolding feed
  feed-IsPaced c now s p = feed_in-IsPaced s.rx_state c now s p

  read_loop-IsPaced :
      (now : ℕ) (bytes : Bytes) (s : MqttService)
      → IsPaced s
      → IsPaced (read_loop setup now bytes s).0
  unfolding read_loop
  read_loop-IsPaced now [] s p = p
  read_loop-IsPaced now (c ∷ bytes) s p =
      let fed = feed setup c now (record s { last_in = now }) in
      let paced =
        feed-IsPaced c now (record s { last_in = now })
          (IsPaced-same s (record s { last_in = now }) refl p) in
      if_cases (λ (r : MqttService × Bool). IsPaced r.0) (is_idle fed.state) _ _ (λ _. paced)
        (λ _. read_loop-IsPaced now bytes fed paced)

  connect_to-IsPaced :
      (o : Option (Bytes × ℕ)) (now : ℕ) (s : MqttService)
      → IsPaced s
      → IsPaced (connect_to setup o now s)
  unfolding connect_to
  connect_to-IsPaced none now s p = fail-IsPaced now s p
  connect_to-IsPaced (some (host, port)) now s p =
      let tried = perform (Effect.connects host port) s in
      if_cases IsPaced (not setup.accepts) _ _
        (λ _. fail-IsPaced now tried (IsPaced-same s tried refl p))
        (λ _. unfold greet put_header put_string in ground (arith, p.low, p.high))

  connect-IsPaced : (now : ℕ) (s : MqttService) → IsPaced s → IsPaced (connect setup now s)
  unfolding connect
  connect-IsPaced now s p = connect_to-IsPaced (parse_broker setup.mqtt_host 64) now s p

  ping-backoff : (now : ℕ) (s : MqttService) → (ping setup now s).backoff ≡ s.backoff
  unfolding ping
  ping-backoff now s = ground arith

  reannounce-backoff : (now : ℕ) (s : MqttService) → (reannounce setup now s).backoff ≡ s.backoff
  unfolding reannounce
  reannounce-backoff now s =
      if_cases (λ (t : MqttService). t.backoff ≡ s.backoff) (setup.shape_now == s.shape) _ _
        (λ _. refl)
        (λ _. publish_state-backoff true now (announce setup now s) ∙ announce-backoff now s)

  report_state-backoff :
      (now : ℕ) (s : MqttService) → (report_state setup now s).backoff ≡ s.backoff
  unfolding report_state
  report_state-backoff now s =
      if_cases (λ (t : MqttService). t.backoff ≡ s.backoff) (leb state_ms (sub32 now s.last_state))
        _ _
        (λ _.
          publish_state-backoff (leb tele_ms (sub32 now s.last_sent)) now
            (record s { last_state = now }))
        (λ _. refl)

  tend-IsPaced : (t : Tick) (s : MqttService) → IsPaced s → IsPaced (tend setup t s)
  unfolding tend
  tend-IsPaced t s p =
      let pinged = ping setup t.now s in
      let announced = reannounce setup t.now pinged in
      if_cases IsPaced (not t.connected) _ _ (λ _. fail-IsPaced t.now s p)
        (λ _.
          if_cases IsPaced (is_connecting s.state) _ _
            (λ _.
              if_cases IsPaced (ltb connack_ms (sub32 t.now s.last_in)) _ _
                (λ _. fail-IsPaced t.now s p) (λ _. p))
            (λ _.
              if_cases IsPaced (ltb (keepalive_s * 1500) (sub32 t.now s.last_in)) _ _
                (λ _. fail-IsPaced t.now s p)
                (λ _.
                  IsPaced-same s (report_state setup t.now announced)
                    (report_state-backoff t.now announced
                      ∙ reannounce-backoff t.now pinged
                      ∙ ping-backoff t.now s)
                    p)))

  tick-IsPaced : (t : Tick) (s : MqttService) → IsPaced s → IsPaced (tick setup t s)
  unfolding tick
  tick-IsPaced t s p =
      let read = read_loop setup t.now (take read_per_tick t.incoming) s in
      let paced = read_loop-IsPaced t.now (take read_per_tick t.incoming) s p in
      if_cases IsPaced (s.held || length setup.mqtt_host == 0 || not t.wifi) _ _
        (λ _. close-IsPaced s p)
        (λ _.
          if_cases IsPaced (is_idle s.state) _ _
            (λ _.
              if_cases IsPaced (s.waiting && not (reached t.now s.next)) _ _ (λ _. p)
                (λ _. connect-IsPaced t.now s p))
            (λ _. if_cases IsPaced read.1 _ _ (λ _. paced) (λ _. tend-IsPaced t read.0 paced)))

-- What happens to the service: a tick, `hold` around a download, and a new configuration.
pub data Event : Type 0 where
  ticks : Setup → Tick → Event
  holds : Bool → Event
  reconnects : Event

unfoldable pub step : Event → MqttService → MqttService
step (ticks setup t) s = tick setup t s
step (holds on) s = hold on s
step reconnects s = reconnect s

unfoldable pub steps : List Event → MqttService → MqttService
steps [] s = s
steps (e ∷ es) s = steps es (step e s)

step-IsPaced : (e : Event) (s : MqttService) → IsPaced s → IsPaced (step e s)
unfolding step
step-IsPaced (ticks setup t) s p = tick-IsPaced setup t s p
step-IsPaced (holds on) s p = unfold hold in ground arith
step-IsPaced reconnects s p = unfold reconnect in ground arith

-- However ticks, downloads and new configurations follow one another, whatever the broker sends, the
-- wait before the next connection is between 5 and 300 seconds.
steps-IsPaced : (es : List Event) (s : MqttService) → IsPaced s → IsPaced (steps es s)
unfolding steps
steps-IsPaced [] s p = p
steps-IsPaced (e ∷ es) s p = steps-IsPaced es (step e s) (step-IsPaced e s p)
