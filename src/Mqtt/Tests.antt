-- ===== src/Mqtt/Tests.antt =====
-- MqttService.h: tests.
use esp8266_dns.Base.{c_string}
use esp8266_dns.Base.{
  Bytes, List, [], arith, codes, false, inl, length, refl, replicate, take, true, ◌++◌, ◌-◌, ◌∷◌,
  ◌≡◌,
}
use esp8266_dns.Mqtt.{Effect, Link, MqttService, Rx, backoff_min_s, cmd_size, fail, hold}
use esp8266_dns.Mqtt.Broker.{before_colon, has_space, parse_broker, port_from}
use esp8266_dns.Mqtt.Machine.{connect, connect_to, greet, read_loop, tend, tick}
use esp8266_dns.Mqtt.Machine.Backoff.{Event, IsPaced, holds, step, steps, ticks}
use esp8266_dns.Mqtt.Packet.{
  Setup, feed, feed_body, feed_length, length_bytes, packet, publish_state,
}
use esp8266_dns.Mqtt.Packet.Commands.{feed_all-command, feed_all-dropped}
use esp8266_dns.Mqtt.Packet.Lengths.{feed_all}

abbrev start : MqttService
start = record {
  state = Link.idle;
  held = false;
  waiting = false;
  next = 0;
  last_in = 0;
  last_out = 0;
  last_state = 0;
  last_sent = 0;
  backoff = backoff_min_s;
  sum = 0;
  shape = 0;
  rx_state = Rx.header;
  rx_header = 0;
  rx_shift = 0;
  rx_len = 0;
  rx_got = 0;
  rx = replicate 80 0;
  effects = [];
}

abbrev running : MqttService
running = record start { state = Link.up }

abbrev panel : Setup
panel = record {
  mqtt_host = codes "ha.lan:1884";
  mqtt_user = codes "u";
  mqtt_pass = codes "p";
  base = codes "esp8266iot/0a1b2c";
  id = codes "0a1b2c";
  state_json = λ (s : MqttService). codes "{}";
  shape_now = 7;
  discovery = codes "{" ∷ codes "}" ∷ [];
  accepts = true;
}

abbrev on_text : Bytes
on_text = codes "on"

abbrev on_topic : Bytes
on_topic = codes "x/cmd"

feed_all-command_example :
    (u : MqttService) × (feed_all panel 1000
        ((0x30 ∷ length_bytes 5 (length (0 ∷ length on_topic ∷ (on_topic ++ on_text))))
          ++ (0 ∷ length on_topic ∷ (on_topic ++ on_text)))
        running
      ≡ publish_state panel true 1000 u)
    × (u.effects ≡ Effect.commands (c_string (take (cmd_size - 1) on_text)) ∷ running.effects)
    × (u.state ≡ Link.up)
    × (u.rx_state ≡ Rx.header)
feed_all-command_example =
    feed_all-command panel 1000 on_topic on_text running refl refl refl (omega arith)

feed_all-dropped_example :
    (u : MqttService) × (feed_all panel 1000
        ((0x31 ∷ length_bytes 5 (length (0 ∷ 2 ∷ codes "abon"))) ++ (0 ∷ 2 ∷ codes "abon"))
        running
      ≡ u)
    × (u.effects ≡ running.effects)
    × (u.state ≡ Link.up)
    × (u.rx_state ≡ Rx.header)
feed_all-dropped_example =
    feed_all-dropped panel 1000 0x31 0 (2 ∷ codes "abon") running (omega arith) refl refl (inl refl)

abbrev events : List Event
events =
    ticks panel (record { now = 1000; wifi = true; incoming = []; connected = true })
    ∷ ticks panel
        (record { now = 1100; wifi = true; incoming = 0x20 ∷ 2 ∷ 0 ∷ 5 ∷ []; connected = true })
    ∷ holds true
    ∷ []

start-IsPaced : IsPaced start
start-IsPaced = record { low = omega arith; high = omega arith }

-- A broker that refuses the password: the next try comes ten seconds later than the first.
refused_wait : (steps events start).backoff ≡ 10
unfolding steps step tick connect connect_to parse_broker read_loop feed feed_length feed_body
    packet greet tend fail hold before_colon has_space port_from
refused_wait = refl
