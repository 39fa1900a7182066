-- ===== src/Clock.antt =====
-- Clock.h: the time over SNTP. What the system says the time is comes as an argument; the servers that
-- were asked are a list, the last first.
use esp8266_dns.Base.{
  Bool, Bytes, List, arith, codes, false, if_cases, if◌then◌else◌, ltb, not, refl, sub32, ℕ, ◌<◌,
  ◌||◌, ◌∷◌, ◌≡◌, ◌≤◌,
}

abbrev pub min_valid_epoch : ℕ
min_valid_epoch = 1700000000

abbrev pub retry_ms : ℕ
retry_ms = 60000

pub record Clock : Type 0 where
  pub alt : Bool
  pub last : ℕ
  pub asked : List Bytes

unfoldable pub synced : ℕ → Bool
synced epoch = ltb min_valid_epoch epoch

unfoldable pub configure : Clock → Clock
configure c = record c {
  asked = (if c.alt then codes "time.google.com" else codes "pool.ntp.org") ∷ c.asked;
}

unfoldable pub begin : Clock → Clock
unfolding configure
begin c = configure (record c { alt = false; last = 0 })

unfoldable pub tick : ℕ → ℕ → Clock → Clock
unfolding synced configure
tick epoch ms c =
    if synced epoch || ltb (sub32 ms c.last) retry_ms
    then c
    else configure (record c { last = ms; alt = not c.alt })

-- The clock that is not set asks the other server a minute after it asked, and not before; the one
-- that is set asks nothing.
tick-asks :
    (epoch ms : ℕ) (c : Clock)
    → (min_valid_epoch < epoch → (tick epoch ms c).asked ≡ c.asked)
      × (sub32 ms c.last < retry_ms → (tick epoch ms c).asked ≡ c.asked)
      × (epoch ≤ min_valid_epoch
          → retry_ms ≤ sub32 ms c.last
          → ((tick epoch ms c).alt ≡ not c.alt) × ((tick epoch ms c).last ≡ ms))
unfolding tick synced configure
tick-asks epoch ms c = (
  λ h.
      if_cases (λ (x : Clock). x.asked ≡ c.asked) (synced epoch || ltb (sub32 ms c.last) retry_ms) _
        _ (λ _. refl) (λ k. absurd (grind (arith, h, k))),
  λ h.
      if_cases (λ (x : Clock). x.asked ≡ c.asked) (synced epoch || ltb (sub32 ms c.last) retry_ms) _
        _ (λ _. refl) (λ k. absurd (grind (arith, h, k))),
  λ h g.
      if_cases (λ (x : Clock). (x.alt ≡ not c.alt) × (x.last ≡ ms))
        (synced epoch || ltb (sub32 ms c.last) retry_ms) _ _ (λ k. absurd (grind (arith, h, g, k)))
        (λ _. (refl, refl)),
)
