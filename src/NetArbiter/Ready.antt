-- ===== src/NetArbiter/Ready.antt =====
-- NetArbiter.h, `ready` and `loop`: the wait for the heap is bounded; the stalls that are kept.
use Prim.Native.Nat.{max}
use esp8266_dns.Base.{
  ℕ, ◌+◌, ◌<◌, ◌≡◌, Bool, true, false, List, [], ◌∷◌, ltb, if◌then◌else◌, All, arith, u32,
  sub32_span, min, inl, inr, Bool-cases,
}
use esp8266_dns.NetArbiter.{Need, NetArbiter, ready, wait_ms, slow_ms, loop}

-- One call of `ready`: the time passed since the first, and the state of the heap.
pub record Poll : Type 0 where
  pub elapsed : ℕ
  pub running : Bool
  pub free_heap : ℕ
  pub max_block : ℕ

module _ (need : Need) (start : ℕ) where
  unfoldable pub poll : Poll → NetArbiter → NetArbiter × Bool
  unfolding ready
  poll p a = ready (u32 (start + p.elapsed)) need p.running p.free_heap p.max_block a

  -- Every call of the row was refused.
  unfoldable pub all_refused : List Poll → NetArbiter → Bool
  unfolding poll
  all_refused [] a = true
  all_refused (p ∷ ps) a =
      let later = all_refused ps (poll p a).0 in if (poll p a).1 then false else later

  refused_waits :
      (p : Poll) (a : NetArbiter)
      → start < 4294967296
      → p.elapsed < 4294967296
      → a.starved ≡ true
      → a.wait_from ≡ start
      → (poll p a).1 ≡ false
      → (p.elapsed < wait_ms) × ((poll p a).0.starved ≡ true) × ((poll p a).0.wait_from ≡ start)
  unfolding poll
  refused_waits p a hs hp s w r = ground (arith, sub32_span start p.elapsed hs hp)

  all_refused_waits :
      (ps : List Poll) (a : NetArbiter)
      → start < 4294967296
      → All (λ p. p.elapsed < 4294967296) ps
      → a.starved ≡ true
      → a.wait_from ≡ start
      → all_refused ps a ≡ true
      → All (λ p. p.elapsed < wait_ms) ps
  unfolding all_refused
  all_refused_waits [] a hs hp s w r = tt
  all_refused_waits (p ∷ ps) a hs hp s w r = elim (Bool-cases (poll p a).1) [
    | inl granted ↦ absurd (ground arith)
    | inr refused ↦
        let (soon, s', w') = refused_waits p a hs hp.0 s w refused in
        (soon, all_refused_waits ps (poll p a).0 hs hp.1 s' w' (ground arith))
  ]

-- A turn waits less than `WAIT_MS`: if the calls of `ready` from the time `start` on, the first by
-- an owner that was not waiting, are all refused, then each came less than `WAIT_MS` after the
-- first, whatever the heap did and also across the wrap of the clock. So a call that comes later
-- lets the owner run.
pub all_refused-lt_wait_ms :
    (need : Need) (start : ℕ) (p : Poll) (ps : List Poll) (a : NetArbiter)
    → start < 4294967296
    → All (λ q. q.elapsed < 4294967296) ps
    → p.elapsed ≡ 0
    → a.starved ≡ false
    → all_refused need start (p ∷ ps) a ≡ true
    → All (λ q. q.elapsed < wait_ms) ps
unfolding all_refused poll
all_refused-lt_wait_ms need start p ps a hs hp z s r =
    let e : u32 (start + p.elapsed) ≡ start = omega arith in
    let b : NetArbiter = (poll need start p a).0 in
    elim (Bool-cases (poll need start p a).1) [
      | inl granted ↦ absurd (ground arith)
      | inr refused ↦
          all_refused_waits need start ps b hs hp (ground arith) (ground arith) (ground arith)
    ]

-- The loops of a run, the last first.
unfoldable pub loops : List ℕ → NetArbiter → NetArbiter
unfolding loop
loops [] a = a
loops (ms ∷ rest) a = loop ms (loops rest a)

unfoldable pub longest_stall : List ℕ → ℕ
longest_stall [] = 0
longest_stall (ms ∷ rest) = max (longest_stall rest) (if ltb ms slow_ms then 0 else ms)

unfoldable pub stalls : List ℕ → ℕ
stalls [] = 0
stalls (ms ∷ rest) = stalls rest + (if ltb ms slow_ms then 0 else 1)

-- From a state with no stall yet, the arbiter keeps the longest loop of `SLOW_MS` or more, and
-- counts those loops up to 65535, where the count stays.
loops_lem :
    (ms : List ℕ) (a : NetArbiter)
    → a.worst ≡ 0
    → a.slow ≡ 0
    → ((loops ms a).worst ≡ longest_stall ms) × ((loops ms a).slow ≡ min 65535 (stalls ms))
unfolding loops longest_stall stalls
loops_lem [] a w s = (w, omega arith)
loops_lem (m ∷ ms) a w s = ground (arith, loops_lem ms a w s)
