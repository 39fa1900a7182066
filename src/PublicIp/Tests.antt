-- ===== src/PublicIp/Tests.antt =====
-- PublicIPResolver.h at concrete inputs.
use esp8266_dns.Base.{Bytes, List, Option, [], codes, false, none, refl, some, true, ℕ, ◌∷◌, ◌≡◌}
use esp8266_dns.PublicIp.{Look, PublicIp}
use esp8266_dns.PublicIp.Told.{Event, steps}

abbrev fresh : PublicIp
fresh = record {
  last_check = 0;
  checked = false;
  failing = false;
  public_ip = [];
  ip_checked = 0;
  ip_changed = 0;
  effects = [];
}

abbrev glance : ℕ → List (Option Bytes) → Look
glance now answers = record {
  now = now;
  wifi = true;
  synced = true;
  memory = true;
  answers = answers;
}

-- The second service answers; a minute later nothing is due.
second_answers :
    (steps
      (Event.ticks (glance 5 (none ∷ some (codes "1.2.3.4") ∷ none ∷ []))
        ∷ Event.ticks (glance 60005 (some (codes "9.9.9.9") ∷ []))
        ∷ [])
      fresh).public_ip
    ≡ codes "1.2.3.4"
unfolding steps
second_answers = refl

-- After a failure the next check is due in a minute.
tries_again :
    (steps
      (Event.ticks (glance 5 (none ∷ none ∷ none ∷ []))
        ∷ Event.ticks (glance 60005 (some (codes "9.9.9.9") ∷ []))
        ∷ [])
      fresh).public_ip
    ≡ codes "9.9.9.9"
unfolding steps
tries_again = refl
