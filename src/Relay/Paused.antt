-- ===== src/Relay/Paused.antt =====
-- RelayService.h: from `hold(true)` to `hold(false)` the relay has no session and uses no network.
use esp8266_dns.Base.{
  Bool, Bytes, List, [], arith, false, if_cases, not, refl, true, ℕ, ◌||◌, ◌∙◌, ◌∷◌, ◌≡◌,
}
use esp8266_dns.Relay.{RelayService, close, hold, post, reconnect}
use esp8266_dns.Relay.Frames.{Setup, configured}
use esp8266_dns.Relay.Machine.{Tick, tick}

-- What happens to the service between two holds.
pub data Event : Type 0 where
  ticks : Tick → Event
  holds : ℕ → Event
  reconnects : ℕ → Event
  posts : Bytes → Bytes → Bytes → Bytes → Event

module _ (setup : Setup) where
  unfoldable pub step : Event → RelayService → RelayService
  unfolding tick hold reconnect post
  step (Event.ticks t) r = tick setup t r
  step (Event.holds clock) r = hold true clock r
  step (Event.reconnects clock) r = reconnect clock r
  step (Event.posts host to lines text) r = (post host to lines text r).0

  unfoldable pub steps : List Event → RelayService → RelayService
  unfolding step
  steps [] r = r
  steps (e ∷ es) r = steps es (step e r)

-- Held, and without a session.
pub record IsPaused (r : RelayService) : Type 0 where
  pub held : r.held ≡ true
  pub shut : r.is_open ≡ false
  pub none_left : r.session ≡ false

hold-IsPaused : (clock : ℕ) (r : RelayService) → IsPaused (hold true clock r)
unfolding hold close
hold-IsPaused clock r = record {
  held = ground arith;
  shut = ground arith;
  none_left = ground arith;
}

-- Closing what is closed does nothing.
close-IsPaused :
    (clock : ℕ) (r : RelayService)
    → IsPaused r
    → IsPaused (close clock r) × ((close clock r).effects ≡ r.effects)
unfolding close
close-IsPaused clock r p = (
  record {
    held = ground (arith, p.held, p.shut, p.none_left);
    shut = ground (arith, p.held, p.shut, p.none_left);
    none_left = ground (arith, p.held, p.shut, p.none_left);
  },
  rw (p.none_left, p.shut) refl,
)

module _ (setup : Setup) where
  step-IsPaused :
      (e : Event) (r : RelayService)
      → IsPaused r
      → IsPaused (step setup e r) × ((step setup e r).effects ≡ r.effects)
  unfolding step tick hold reconnect post
  step-IsPaused (Event.ticks t) r p =
      if_cases (λ (x : RelayService). IsPaused x × (x.effects ≡ r.effects))
        (r.held || not (configured setup) || not t.wifi) _ _ (λ _. close-IsPaused t.clock r p)
        (λ k. absurd (grind (arith, p.held, k)))
  step-IsPaused (Event.holds clock) r p =
      let noted = record r { held = true } in
      close-IsPaused clock noted (record { held = refl; shut = p.shut; none_left = p.none_left })
  step-IsPaused (Event.reconnects clock) r p =
      let shut = close-IsPaused clock r p in
      (record { held = shut.0.held; shut = shut.0.shut; none_left = shut.0.none_left }, shut.1)
  step-IsPaused (Event.posts host to lines text) r p =
      if_cases (λ (x : RelayService × Bool). IsPaused x.0 × (x.0.effects ≡ r.effects))
        (not r.is_open) _ _ (λ _. (p, refl)) (λ k. absurd (grind (arith, p.shut, k)))

  steps-IsPaused :
      (es : List Event) (r : RelayService)
      → IsPaused r
      → IsPaused (steps setup es r) × ((steps setup es r).effects ≡ r.effects)
  unfolding steps
  steps-IsPaused [] r p = (p, refl)
  steps-IsPaused (e ∷ es) r p =
      let once = step-IsPaused e r p in
      let rest = steps-IsPaused es (step setup e r) once.0 in (rest.0, rest.1 ∙ once.1)

  -- From the moment that the relay is held, whatever the loop, the Worker, new settings and posts of
  -- ntfy do until it is released, it opens no connection and sends nothing, and it has no session.
  pub steps-hold_quiet :
      (es : List Event) (clock : ℕ) (r : RelayService)
      → ((steps setup es (hold true clock r)).effects ≡ (hold true clock r).effects)
        × ((steps setup es (hold true clock r)).session ≡ false)
  steps-hold_quiet es clock r =
      let quiet = steps-IsPaused es (hold true clock r) (hold-IsPaused clock r) in
      (quiet.1, quiet.0.none_left)
