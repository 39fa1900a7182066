-- ===== src/PublicIp/Told.antt =====
-- PublicIPResolver.h: the log has every change of the address.
use esp8266_dns.Base.{
  Bytes, List, Option, [], bytes_eq, false, if_cases, none, not, refl, some, take, true, ℕ, ◌∷◌,
  ◌≡◌,
}
use esp8266_dns.PublicIp.{
  Effect, Look, PublicIp, apply, ask, check, due, fail_once, num_ip_services, offer, settle, tick,
}

-- The address that the log told last.
unfoldable pub last_told : List Effect → Bytes
last_told [] = []
last_told (Effect.tells ip ∷ es) = take 15 ip
last_told (Effect.fails ∷ es) = last_told es
last_told (Effect.looks_up ip ∷ es) = last_told es

pub data Event : Type 0 where
  ticks : Look → Event
  offers : Option Bytes → ℕ → Event

unfoldable pub steps : List Event → PublicIp → PublicIp
unfolding tick offer
steps [] r = r
steps (Event.ticks l ∷ es) r = steps es (tick l r)
steps (Event.offers ip now ∷ es) r = steps es (offer ip now r)

abbrev pub IsTold : PublicIp → Type 0
IsTold r = last_told r.effects ≡ r.public_ip

apply-IsTold : (ip : Bytes) (now : ℕ) (r : PublicIp) → IsTold r → IsTold (apply ip now r)
unfolding apply last_told
apply-IsTold ip now r h =
    if_cases IsTold (bytes_eq ip r.public_ip) (record r { ip_checked = now })
      (record r {
        ip_checked = now;
        public_ip = take 15 ip;
        ip_changed = now;
        effects = Effect.looks_up ip ∷ Effect.tells ip ∷ r.effects;
      })
      (λ _. h) (λ _. refl)

fail_once-IsTold : (r : PublicIp) → IsTold r → IsTold (fail_once r)
unfolding fail_once last_told
fail_once-IsTold r h =
    if_cases (λ (x : PublicIp). IsTold (record x { failing = true })) r.failing _ _ (λ _. h)
      (λ _. h)

settle-IsTold :
    (found : Option Bytes) (now : ℕ) (r : PublicIp) → IsTold r → IsTold (settle found now r)
unfolding settle
settle-IsTold none now r h = fail_once-IsTold r h
settle-IsTold (some ip) now r h = apply-IsTold ip now (record r { failing = false }) h

check-IsTold : (l : Look) (r : PublicIp) → IsTold r → IsTold (check l r)
unfolding check
check-IsTold l r h =
    if_cases IsTold (not l.memory) _ _ (λ _. fail_once-IsTold r h)
      (λ _. settle-IsTold (ask (take num_ip_services l.answers)) l.now r h)

tick-IsTold : (l : Look) (r : PublicIp) → IsTold r → IsTold (tick l r)
unfolding tick
tick-IsTold l r h =
    if_cases IsTold (not (due l r)) _ _ (λ _. h)
      (λ _. check-IsTold l (record r { checked = true; last_check = l.now }) h)

offer-IsTold : (ip : Option Bytes) (now : ℕ) (r : PublicIp) → IsTold r → IsTold (offer ip now r)
unfolding offer
offer-IsTold none now r h = h
offer-IsTold (some ip) now r h =
    apply-IsTold ip now (record r { checked = true; last_check = now; failing = false }) h

-- However checks and offers follow one another, the address that the log told last is the one that the
-- device has.
steps-IsTold : (es : List Event) (r : PublicIp) → IsTold r → IsTold (steps es r)
unfolding steps
steps-IsTold [] r h = h
steps-IsTold (Event.ticks l ∷ es) r h = steps-IsTold es (tick l r) (tick-IsTold l r h)
steps-IsTold (Event.offers ip now ∷ es) r h =
    steps-IsTold es (offer ip now r) (offer-IsTold ip now r h)
