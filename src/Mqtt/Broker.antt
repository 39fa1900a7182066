-- ===== src/Mqtt/Broker.antt =====
-- MqttService.h, `parseBroker`: "host" or "host:port".
use esp8266_dns.Base.{
  All, Bool, Bytes, Option, [], ap, arith, false, if◌then◌else◌, leb, length, ltb, none, not, refl,
  some, ℕ, ◌*◌, ◌++◌, ◌+◌, ◌-◌, ◌<◌, ◌==◌, ◌||◌, ◌∙◌, ◌∷◌, ◌≡◌, ◌≢◌, ◌≤◌,
}
use esp8266_dns.Base.Decimal.{
  AllDigits, decimal, decimal_digits, decimal_value, is_digit, length-decimal, value_from,
}

-- `strchr(s, ':')`
unfoldable pub before_colon : Bytes → Bytes × Option Bytes
before_colon [] = ([], none)
before_colon (c ∷ s) =
    let rest = before_colon s in if c == b':' then ([], some s) else (c ∷ rest.0, rest.1)

unfoldable pub has_space : Bytes → Bool
has_space [] = false
has_space (c ∷ s) = c == 32 || has_space s

-- The digits of the port, one at least: the loop refuses a value above 65535 at once.
unfoldable pub port_from : ℕ → Bytes → Option ℕ
unfolding is_digit
port_from v [] = none
port_from v (c ∷ s) =
    let w = v * 10 + (c - b'0') in
    let rest = port_from w s in
    if not (is_digit c) || ltb 65535 w then none else elim s [ [] ↦ some w | _ ∷ _ ↦ rest ]

-- `return v != 0`
abbrev pub with_port : Bytes → Option ℕ → Option (Bytes × ℕ)
with_port host none = none
with_port host (some v) = if v == 0 then none else some (host, v)

unfoldable pub broker_of : Bytes → Option Bytes → Option (Bytes × ℕ)
broker_of host none = some (host, 1883)
broker_of host (some p) = with_port host (port_from 0 p)

-- The host and the port; the host has to fit a buffer of `size` bytes.
unfoldable pub parse_broker : Bytes → ℕ → Option (Bytes × ℕ)
unfolding broker_of
parse_broker s size =
    let parts = before_colon s in
    if length parts.0 == 0 || leb size (length parts.0) || has_space parts.0
    then none
    else broker_of parts.0 parts.1

abbrev pub IsHostChar : ℕ → Type 0
IsHostChar c = (c ≢ b':') × (c ≢ 32)

before_colon-host :
    (host p : Bytes) → All IsHostChar host → before_colon (host ++ (b':' ∷ p)) ≡ (host, some p)
unfolding before_colon
before_colon-host [] p h = refl
before_colon-host (c ∷ host) p h = ground (arith, before_colon-host host p)

before_colon-plain : (host : Bytes) → All IsHostChar host → before_colon host ≡ (host, none)
unfolding before_colon
before_colon-plain [] h = refl
before_colon-plain (c ∷ host) h = ground (arith, before_colon-plain host)

has_space-host : (host : Bytes) → All IsHostChar host → has_space host ≡ false
unfolding has_space
has_space-host [] h = refl
has_space-host (c ∷ host) h = ground (arith, has_space-host host)

value_from-ge : (v : ℕ) (s : Bytes) → v ≤ value_from v s
value_from-ge v [] = omega arith
value_from-ge v (c ∷ s) = omega (arith, value_from-ge (v * 10 + (c - b'0')) s)

-- The port is the value of the digits where it fits 16 bits, and refused where it does not.
port_from-digits :
    (v c : ℕ) (s : Bytes)
    → AllDigits (c ∷ s)
    → port_from v (c ∷ s)
      ≡ (if ltb 65535 (value_from v (c ∷ s)) then none else some (value_from v (c ∷ s)))
unfolding port_from
port_from-digits v c [] h = ground arith
port_from-digits v c (d ∷ s) h =
    let w = v * 10 + (c - b'0') in ground (arith, port_from-digits w d s, value_from-ge w (d ∷ s))

port_from-nonempty :
    (s : Bytes)
    → AllDigits s
    → 0 < length s
    → port_from 0 s ≡ (if ltb 65535 (value_from 0 s) then none else some (value_from 0 s))
port_from-nonempty [] h l = absurd (omega arith)
port_from-nonempty (c ∷ s) h l = port_from-digits 0 c s h

port_from-decimal :
    (port : ℕ)
    → port < 4294967296
    → port_from 0 (decimal port) ≡ (if ltb 65535 port then none else some port)
port_from-decimal port h =
    port_from-nonempty (decimal port) (decimal_digits port)
      (length-decimal port 10 (omega arith) (omega arith) (omega arith)).0
    ∙ ap (λ (v : ℕ). if ltb 65535 v then none else some v) (decimal_value port (omega arith))

parse_broker-parts :
    (s host : Bytes) (size : ℕ) (port : Option Bytes)
    → All IsHostChar host
    → 0 < length host
    → length host < size
    → before_colon s ≡ (host, port)
    → parse_broker s size ≡ broker_of host port
unfolding parse_broker
parse_broker-parts s host size port h l m e =
    let good : (length host == 0 || leb size (length host) || has_space host) ≡ false =
      ground (arith, has_space-host host h) in
    rw e (rw good refl)

-- A broker as the panel takes it: the host alone has the port 1883, and a host with the decimal text
-- of a port gives both back, for every port from 1 to 65535; any larger number is refused.
parse_broker-text :
    (host : Bytes) (size port : ℕ)
    → All IsHostChar host
    → 0 < length host
    → length host < size
    → 0 < port
    → port < 4294967296
    → (parse_broker host size ≡ some (host, 1883))
      × (parse_broker (host ++ (b':' ∷ decimal port)) size
          ≡ (if ltb 65535 port then none else some (host, port)))
unfolding broker_of
parse_broker-text host size port h l m p q = (
  parse_broker-parts host host size none h l m (before_colon-plain host h),
  parse_broker-parts (host ++ (b':' ∷ decimal port)) host size (some (decimal port)) h l m
        (before_colon-host host (decimal port) h)
      ∙ ap (with_port host) (port_from-decimal port q)
      ∙ ground arith,
)
