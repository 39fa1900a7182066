-- ===== src/Relay/Tests.antt =====
-- RelayService.h at concrete inputs.
use esp8266_dns.Base.{
  Bytes, List, [], arith, codes, false, none, refl, some, true, ℕ, ◌++◌, ◌∷◌, ◌≡◌,
}
use esp8266_dns.HttpServer.Output.Segments.{concat}
use esp8266_dns.Relay.{RelayService, hold}
use esp8266_dns.Relay.Answer.{assemble, request-assemble}
use esp8266_dns.Relay.Frames.{Setup, request}
use esp8266_dns.Relay.Machine.{Tick, status, tick}
use esp8266_dns.Relay.Paused.{Event, steps, steps-hold_quiet}

abbrev echo : ℕ → Bytes → List Bytes
echo ip q = (ip ∷ []) ∷ q ∷ []

abbrev device : Setup
device = record {
  relay_host = codes "r.dev";
  relay_secret = codes "s";
  relay_ver = 6;
  api_token = codes "t";
  firmware = codes "1.0";
  hmac = λ key text. key ++ text;
  has_ntfy = false;
  commands = none;
  serve = echo;
}

abbrev fresh : RelayService
fresh = record {
  session = false;
  is_open = false;
  held = false;
  is_outdated = false;
  next = 0;
  last_in = 0;
  last_ping = 0;
  last_state = 0;
  state_sent = 0;
  down_at = 0;
  backoff = 5;
  id = 0;
  ip = 0;
  sum = 0;
  public_ip = [];
  latest = [];
  ip_new = false;
  latest_new = false;
  hello_sum = 0;
  effects = [];
}

abbrev turn : Tick
turn = record {
  now = 1000;
  clock = 1000;
  wifi = true;
  synced = true;
  memory = true;
  joined = true;
  code = 101;
  frames = [];
  error = false;
  connected = true;
  state = some (codes "{}");
}

-- The first tick connects, greets and sends the state.
connected_at_once : (tick device turn fresh).is_open ≡ true
unfolding tick
connected_at_once = refl

-- A version that the Worker refuses.
refused_version : status device (tick device (record turn { code = 426 }) fresh) ≡ codes "outdated"
unfolding tick status
refused_version = refl

request-assemble_example :
    assemble 258
      (request device (1 ∷ 2 ∷ 9 ∷ 0 ∷ 0 ∷ 0 ∷ 71 ∷ 69 ∷ []) fresh).effects
      (record { got = []; whole = false })
    ≡ record { got = 9 ∷ 71 ∷ 69 ∷ []; whole = true }
unfolding assemble concat
request-assemble_example =
    request-assemble device 1 2 9 0 0 0 (71 ∷ 69 ∷ []) fresh (omega arith) (omega arith) refl

steps-hold_quiet_example :
    ((steps device
        (Event.ticks turn ∷ Event.reconnects 5 ∷ Event.ticks turn ∷ [])
        (hold true 7 (tick device turn fresh))).effects
      ≡ (hold true 7 (tick device turn fresh)).effects)
    × ((steps device
          (Event.ticks turn ∷ Event.reconnects 5 ∷ Event.ticks turn ∷ [])
          (hold true 7 (tick device turn fresh))).session
        ≡ false)
steps-hold_quiet_example =
    steps-hold_quiet device (Event.ticks turn ∷ Event.reconnects 5 ∷ Event.ticks turn ∷ []) 7
      (tick device turn fresh)
