-- ===== src/Iot/Rule/Tank.antt =====
-- IoTService.h, `_inUnit`: the level of a tank and the flow of a meter.
use esp8266_dns.Base.{
  ◌≢◌, ℕ, ◌*◌, ◌-◌, ◌/◌, ◌≡◌, ◌<◌, ◌≤◌, Bool, false, arith, if◌then◌else◌, min, leb, ◌==◌,
}
use esp8266_dns.Base.Int.{pos, ◌-ℤ◌, ◌*ℤ◌, div_ℤ}
use esp8266_dns.Iot.Catalog.{Kind}
use esp8266_dns.Iot.Config.{IoTConfig}
use esp8266_dns.Iot.Rule.{in_tank, in_flow, in_unit}

-- What a full tank holds in the unit set.
abbrev pub full : IoTConfig → ℕ
full r = if r.unit == 1 then 100 else r.tank_l

-- The level of a tank over natural numbers: the part of the height that is under water.
unfoldable pub tank_level : IoTConfig → ℕ → ℕ
tank_level r v =
    if leb r.tank_empty r.tank_full
    then 0
    else min (full r) ((r.tank_empty - v) * full r / (r.tank_empty - r.tank_full))

-- The level or volume shown for a distance of `v` cm is the share of the tank's height that is under
-- water, from 0 at the empty mark or beyond it to a full tank and never more; a tank with no height
-- shows 0. The height times what the tank holds fits an `int`.
in_unit-range :
    (r : IoTConfig) (v : ℕ) (tenths : Bool)
    → r.unit ≢ 0
    → r.tank_empty * full r < 2147483648
    → in_unit r Kind.range (pos v) tenths ≡ (pos (tank_level r v), tenths)
unfolding in_unit in_tank tank_level ◌-ℤ◌ ◌*ℤ◌ div_ℤ
in_unit-range r v tenths h fits = ground arith

whole_share : (x n : ℕ) → 0 < x → x * n / x ≡ n
whole_share x n h = grind arith

share_mono : (x y n d : ℕ) → x ≤ y → x * n / d ≤ y * n / d
share_mono x y n d h = grind arith

-- For a tank with a height, the full mark shows a full tank, the empty mark 0, and more distance to
-- the water never shows more.
pub tank_level_marks :
    (r : IoTConfig) (v w : ℕ)
    → r.tank_full < r.tank_empty
    → v ≤ w
    → (tank_level r r.tank_full ≡ full r)
      × (tank_level r r.tank_empty ≡ 0)
      × (tank_level r w ≤ tank_level r v)
unfolding tank_level
tank_level_marks r v w t h =
    let d = r.tank_empty - r.tank_full in
    let whole : d * full r / d ≡ full r = whole_share d (full r) (omega arith) in
    let none_left : (r.tank_empty - r.tank_empty) * full r / d ≡ 0 =
      (let z : r.tank_empty - r.tank_empty ≡ 0 = omega arith in rw z (omega arith)) in
    let less = share_mono (r.tank_empty - w) (r.tank_empty - v) (full r) d (omega arith) in
    let tall : leb r.tank_empty r.tank_full ≡ false = ground arith in
    rw tall (omega (arith, whole), omega (arith, none_left), omega (arith, less))

-- A flow that is shown fits 16 bits, as the text of tenths needs: the pulses of 10 s times 60 by the
-- pulses per litre in tenths of L/min, times 6000 in mL/min, 32767 at most. The pulses times 6000 fit
-- a `long`.
in_unit-pulse :
    (r : IoTConfig) (v : ℕ) (tenths : Bool)
    → r.unit ≢ 0
    → v ≤ 357913
    → in_unit r Kind.pulse (pos v) tenths ≡ (
      pos (if r.ppl == 0 then 0 else min 32767 (v * (if r.unit == 1 then 60 else 6000) / r.ppl)),
      r.unit == 1,
    )
unfolding in_unit in_flow ◌*ℤ◌ div_ℤ
in_unit-pulse r v tenths h fits = ground arith
