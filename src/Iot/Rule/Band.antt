-- ===== src/Iot/Rule/Band.antt =====
-- IoTService.h, `_rule`: the margin keeps a reading that hovers at the limit from chattering.
use esp8266_dns.Base.{
  ℕ, ◌*◌, ◌≡◌, refl, Bool, true, false, ◌&&◌, List, [], ◌∷◌, All, arith, Bool-cases, inl, inr,
  if◌then◌else◌,
}
use esp8266_dns.Base.Int.{ℤ, pos, ◌+ℤ◌, ◌-ℤ◌, ◌*ℤ◌, leb_ℤ, ltb_ℤ, +ℤ_parts, -ℤ_parts}
use esp8266_dns.Iot.Config.{IoTConfig}
use esp8266_dns.Iot.Rule.{rule, scale}

-- The decisions for a row of readings, after a first one. The last reading stands first.
unfoldable pub rule_run : IoTConfig → Bool → List ℤ → Bool → Bool
rule_run r tenths [] rule_on = rule_on
rule_run r tenths (v ∷ vs) rule_on = rule r true (rule_run r tenths vs rule_on) v tenths

-- The readings that switch nothing: above the point of turning off, short of that of turning on.
unfoldable pub in_band : IoTConfig → Bool → ℤ → Bool
in_band r tenths v =
    let limit = r.threshold *ℤ pos (scale tenths) in
    let margin = pos (r.margin * scale tenths) in
    if r.above
    then leb_ℤ (limit -ℤ margin) v && ltb_ℤ v limit
    else ltb_ℤ limit v && leb_ℤ v (limit +ℤ margin)

rule-in_band :
    (r : IoTConfig) (tenths rule_on : Bool) (v : ℤ)
    → in_band r tenths v ≡ true
    → rule r true rule_on v tenths ≡ rule_on
unfolding in_band rule ◌+ℤ◌ ◌-ℤ◌
rule-in_band r tenths rule_on v h = ground arith

-- However long the readings stay within the margin below the limit (above it, for a rule that turns
-- on below a limit), the decision stays as it was.
rule_run-in_band :
    (r : IoTConfig) (tenths rule_on : Bool) (vs : List ℤ)
    → All (λ v. in_band r tenths v ≡ true) vs
    → rule_run r tenths vs rule_on ≡ rule_on
unfolding rule_run
rule_run-in_band r tenths rule_on [] h = refl
rule_run-in_band r tenths rule_on (v ∷ vs) h =
    rw (rule_run-in_band r tenths rule_on vs h.1) (rule-in_band r tenths rule_on v h.0)

travel_above :
    (l v w : ℤ) (m : ℕ)
    → leb_ℤ l v ≡ true
    → leb_ℤ (l -ℤ pos m) w ≡ false
    → ltb_ℤ (w +ℤ pos m) v ≡ true
travel_above l v w m h k = ground (arith, -ℤ_parts l (pos m), +ℤ_parts w (pos m))

travel_below :
    (l v w : ℤ) (m : ℕ)
    → leb_ℤ v l ≡ true
    → leb_ℤ w (l +ℤ pos m) ≡ false
    → ltb_ℤ (v +ℤ pos m) w ≡ true
travel_below l v w m h k = ground (arith, +ℤ_parts l (pos m), +ℤ_parts v (pos m))

-- Turning on at `v` and off again at `w` takes a change of more than the margin: downwards for a
-- rule that turns on above its limit, upwards for one that turns on below it.
rule_travel :
    (r : IoTConfig) (tenths : Bool) (v w : ℤ)
    → rule r true false v tenths ≡ true
    → rule r true true w tenths ≡ false
    → let margin = pos (r.margin * scale tenths) in
      (if r.above then ltb_ℤ (w +ℤ margin) v else ltb_ℤ (v +ℤ margin) w) ≡ true
unfolding rule
rule_travel r tenths v w h k =
    let limit = r.threshold *ℤ pos (scale tenths) in
    let margin = r.margin * scale tenths in
    elim (Bool-cases r.above) [
      | inl up ↦ rw up (travel_above limit v w margin (rw up at h) (rw up at k))
      | inr down ↦ rw down (travel_below limit v w margin (rw down at h) (rw down at k))
    ]
