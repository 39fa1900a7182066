-- ===== src/PublicIp.antt =====
-- PublicIPResolver.h: the public address. An address comes as the text that IPAddress makes of what a
-- service answers; `none` is an answer that is no address. The reverse lookup's own turn is left out.
pub mod Told
mod Tests
use esp8266_dns.Base.{
  Bool, Bytes, List, Option, [], bytes_eq, false, if◌then◌else◌, leb, none, not, some, sub32, take,
  true, ℕ, ◌&&◌, ◌||◌, ◌∷◌,
}

pub data Effect : Type 0 where
  tells : Bytes → Effect
  fails : Effect
  looks_up : Bytes → Effect

abbrev pub check_interval : ℕ
check_interval = 300000

abbrev pub retry_interval : ℕ
retry_interval = 60000

abbrev pub num_ip_services : ℕ
num_ip_services = 3

pub record PublicIp : Type 0 where
  pub last_check : ℕ
  pub checked : Bool
  pub failing : Bool
  pub public_ip : Bytes
  pub ip_checked : ℕ
  pub ip_changed : ℕ
  pub effects : List Effect

-- What one tick sees: the time, WiFi, the clock, the heap, and what each service would answer.
pub record Look : Type 0 where
  pub now : ℕ
  pub wifi : Bool
  pub synced : Bool
  pub memory : Bool
  pub answers : List (Option Bytes)

unfoldable pub memory_ok : ℕ → ℕ → Bool
memory_ok heap block = leb 18000 heap && leb 8192 block

unfoldable pub apply : Bytes → ℕ → PublicIp → PublicIp
unfolding bytes_eq
apply ip now r =
    let seen = record r { ip_checked = now } in
    if bytes_eq ip seen.public_ip then seen else record seen {
      public_ip = take 15 ip;
      ip_changed = now;
      effects = Effect.looks_up ip ∷ Effect.tells ip ∷ seen.effects;
    }

-- Only the first failure is told.
unfoldable pub fail_once : PublicIp → PublicIp
fail_once r =
    let told = if r.failing then r else record r { effects = Effect.fails ∷ r.effects } in
    record told { failing = true }

-- The services in their order, until one answers.
unfoldable pub ask : List (Option Bytes) → Option Bytes
ask [] = none
ask (none ∷ answers) = ask answers
ask (some ip ∷ answers) = some ip

-- What the services gave, or nothing.
unfoldable pub settle : Option Bytes → ℕ → PublicIp → PublicIp
unfolding apply fail_once
settle none now r = fail_once r
settle (some ip) now r = apply ip now (record r { failing = false })

unfoldable pub check : Look → PublicIp → PublicIp
unfolding ask settle fail_once
check l r =
    if not l.memory then fail_once r else settle (ask (take num_ip_services l.answers)) l.now r

unfoldable pub due : Look → PublicIp → Bool
due l r =
    l.wifi
    && l.synced
    && (not r.checked
        || leb (if r.failing then retry_interval else check_interval) (sub32 l.now r.last_check))

unfoldable pub tick : Look → PublicIp → PublicIp
unfolding due check
tick l r = if not (due l r) then r else check l (record r { checked = true; last_check = l.now })

unfoldable pub offer : Option Bytes → ℕ → PublicIp → PublicIp
unfolding apply
offer none now r = r
offer (some ip) now r =
    apply ip now (record r { checked = true; last_check = now; failing = false })
