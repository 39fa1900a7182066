-- ===== src/NetArbiter/Crumb.antt =====
-- NetArbiter.h, `at` and `lastCrash`: the part of the loop that a crash report names.
use esp8266_dns.Base.{take_all}
use esp8266_dns.Base.{leb→le}
use Prim.Native.Nat.{bit_or}
use esp8266_dns.Base.{
  &&-split, ==_iff, Bool, Bytes, List, [], each_below, each_below_sound, arith, codes, inl, leb,
  length, length-append, refl, some, take, true, ℕ, ◌%◌, ◌&&◌, ◌++◌, ◌+◌, ◌-◌, ◌<◌, ◌==◌, ◌∷◌, ◌≡◌,
  ◌≤◌, ◌⊎◌,
}
use esp8266_dns.Base.Hex.{hex6, hex8}
use esp8266_dns.NetArbiter.{NetArbiter, at_part, crumb, last_crash, mqtt, name}

abbrev packs : ℕ → Bool
packs w = bit_or crumb w % 256 == w && (bit_or crumb w - bit_or crumb w % 256) == crumb

packs_table : each_below 256 packs ≡ true
unfolding each_below
packs_table = refl

packs_lem :
    (w : ℕ) → w < 256 → (bit_or crumb w % 256 ≡ w) × (bit_or crumb w - bit_or crumb w % 256 ≡ crumb)
packs_lem w h =
    let both = &&-split _ _ (each_below_sound 256 packs w packs_table h) in
    ((==_iff _ _).0 both.0, (==_iff _ _).0 both.1)

-- The parts of the loop that ran, the last first. `slot` is what the RTC memory held at power-on.
unfoldable pub visit : List ℕ → NetArbiter → ℕ → NetArbiter × ℕ
unfolding at_part
visit [] a slot = (a, slot)
visit (w ∷ ws) a slot = let (b, s) = visit ws a slot in at_part w b s

-- The slot holds the part that the arbiter knows, if it has noted one.
abbrev Noted : NetArbiter × ℕ → Type 0
Noted r = (r.0.at ≡ 255) ⊎ (r.1 ≡ bit_or crumb r.0.at)

visit-Noted : (ws : List ℕ) (a : NetArbiter) (slot : ℕ) → a.at ≡ 255 → Noted (visit ws a slot)
unfolding visit
visit-Noted [] a slot e = inl e
visit-Noted (w ∷ ws) a slot e = ground (arith, visit-Noted ws a slot e)

-- A report: the part and the address, at most 27 bytes.
unfoldable pub crash_report : ℕ → ℕ → Bytes
crash_report w epc = name w ++ (codes " near 0x" ++ hex8 epc)

name-short : (w : ℕ) → w ≤ mqtt → leb (length (name w)) 11 ≡ true
unfolding name each_below
name-short w h = ground (arith, each_below_sound 12 (λ x. leb (length (name x)) 11) w refl)

crash_report-short : (w epc : ℕ) → w ≤ mqtt → take 39 (crash_report w epc) ≡ crash_report w epc
unfolding crash_report hex8 hex6
crash_report-short w epc h =
    let front : length (crash_report w epc) ≡ length (name w) + 16 =
      length-append (name w) (codes " near 0x" ++ hex8 epc) in
    let short = leb→le (length (name w)) 11 (name-short w h) in
    take_all 39 (crash_report w epc) (omega (arith, front, short))

last_crash-bit_or :
    (reason epc w : ℕ)
    → 1 ≤ reason
    → reason ≤ 3
    → w ≤ mqtt
    → last_crash reason epc (bit_or crumb w) ≡ some (crash_report w epc)
unfolding last_crash crash_report
last_crash-bit_or reason epc w lo hi h = ground (arith, packs_lem w)

-- Whatever the RTC memory held at power-on, after a crash or a watchdog reset (reasons 1 to 3) the
-- report names the part of the loop that ran last, and the address of the crash in full: nothing of it is
-- cut.
last_crash-visit :
    (ws : List ℕ) (w : ℕ) (a : NetArbiter) (slot reason epc : ℕ)
    → a.at ≡ 255
    → w ≤ mqtt
    → 1 ≤ reason
    → reason ≤ 3
    → last_crash reason epc (visit (w ∷ ws) a slot).1 ≡ some (crash_report w epc)
unfolding visit
last_crash-visit ws w a slot reason epc e h lo hi =
    let noted : Noted (visit ws a slot) = visit-Noted ws a slot e in
    let named = last_crash-bit_or reason epc w lo hi h in ground arith
