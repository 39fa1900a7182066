-- ===== src/NetArbiter/Tests.antt =====
-- NetArbiter.h at concrete inputs, after test/test_net_arbiter.
use esp8266_dns.Base.{
  All, List, [], arith, codes, false, if◌then◌else◌, refl, true, ℕ, ◌<◌, ◌==◌, ◌∷◌, ◌≡◌,
}
use esp8266_dns.NetArbiter.{Need, NetArbiter, Who, grant, initial, queue_text, to_index, wait_ms}
use esp8266_dns.NetArbiter.Grant.{grant-want_all, most_important, want_all}
use esp8266_dns.NetArbiter.Ready.{Poll, all_refused, all_refused-lt_wait_ms}

abbrev asked : List Who
asked = Who.stream ∷ Who.dns ∷ Who.relay ∷ []

dns_first : most_important asked ≡ Who.dns
unfolding most_important
dns_first = refl

grant-want_all_example :
    let (b, w) = grant (want_all asked initial) in
    (w ≡ most_important asked)
    × (b.owner ≡ most_important asked)
    × (b.wants ≡ 0)
    × (b.starved ≡ (if to_index w == to_index initial.owner then initial.starved else false))
grant-want_all_example = grant-want_all asked initial (unfold initial in refl)

abbrev github : Need
github = record { heap = 30000; block = 20000 }

abbrev short_at : ℕ → Poll
short_at t = record { elapsed = t; running = false; free_heap = 25000; max_block = 24000 }

refused_twice : all_refused github 4294960000 (short_at 0 ∷ short_at 20000 ∷ []) initial ≡ true
unfolding all_refused initial
refused_twice = refl

all_refused-lt_wait_ms_example : All (λ q. q.elapsed < wait_ms) (short_at 20000 ∷ [])
all_refused-lt_wait_ms_example =
    all_refused-lt_wait_ms github 4294960000 (short_at 0) (short_at 20000 ∷ []) initial
      (omega arith) (omega arith) refl (unfold initial in refl) refused_twice

abbrev waiting : NetArbiter
waiting = record {
  wants = 0;
  queue = 100;
  at = 255;
  owner = Who.dns;
  worst_who = Who.none;
  starved = true;
  wait_from = 0;
  worst = 0;
  slow = 0;
  late = 0;
}

queue_text-waiting : (queue_text waiting).text ≡ codes "dns (memory), waiting: relay, ntfy stream"
unfolding queue_text
queue_text-waiting = refl
