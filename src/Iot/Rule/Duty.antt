-- ===== src/Iot/Rule/Duty.antt =====
-- IoTService.h, `_mapDuty`: the proportional level.
use esp8266_dns.Base.{
  ℕ, ◌+◌, ◌*◌, ◌-◌, ◌/◌, ◌≡◌, ◌≤◌, Bool, true, false, arith, if◌then◌else◌, min, Bool-cases, inl,
  inr, ◌⊎◌, leb, Bool-cases, inl, inr, ◌⊎◌,
}
use Prim.Native.Nat.{max}
use esp8266_dns.Base.Int.{ℤ, pos, ◌+ℤ◌, ◌-ℤ◌, ◌*ℤ◌, ◌≤ℤ◌, leb_ℤ, div_ℤ, pos_part, -ℤ_parts}
use esp8266_dns.Iot.Config.{IoTConfig}
use esp8266_dns.Iot.Rule.{map_duty, scale, to_u8}

-- The interpolation over natural numbers: `x` of `span` steps of the way from `off` to `on`.
unfoldable pub interpolate : ℕ → ℕ → ℕ → ℕ → ℕ
interpolate off on x span =
    if leb off on then off + (on - off) * x / span else off - (off - on) * x / span

share-le : (d x span : ℕ) → x ≤ span → d * x / span ≤ d
share-le d x span h = grind arith

cast_interpolate :
    (off on x span : ℕ)
    → off ≤ 255
    → on ≤ 255
    → x ≤ span
    → to_u8 (pos off +ℤ div_ℤ ((pos on -ℤ pos off) *ℤ pos x) span) ≡ interpolate off on x span
unfolding interpolate ◌+ℤ◌ ◌-ℤ◌ ◌*ℤ◌ div_ℤ
cast_interpolate off on x span a b h =
    ground (arith, share-le (on - off) x span h, share-le (off - on) x span h)

-- A positive difference.
difference : (a b : ℤ) → leb_ℤ b a ≡ false → b -ℤ a ≡ pos (pos_part (b -ℤ a))
unfolding ◌-ℤ◌
difference a b h = ground arith

distance_mono : (l v w : ℤ) → v ≤ℤ w → pos_part (v -ℤ l) ≤ pos_part (w -ℤ l)
unfolding ◌-ℤ◌
distance_mono l v w h = ground arith

module _ (r : IoTConfig) (tenths : Bool) where
  -- The limits, in the scale of the reading.
  abbrev lo : ℤ
  lo = r.threshold *ℤ pos (scale tenths)

  abbrev hi : ℤ
  hi = r.threshold_hi *ℤ pos (scale tenths)

  -- How far a reading between the limits is from the lower one, and the way between them.
  abbrev above : ℤ → ℕ
  above v = pos_part (v -ℤ lo)

  abbrev span : ℕ
  span = pos_part (hi -ℤ lo)

  above-le-span : (v : ℤ) → leb_ℤ hi v ≡ false → above v ≤ span
  above-le-span v h = ground (arith, -ℤ_parts v lo, -ℤ_parts hi lo)

  map_duty-interpolate :
      (v : ℤ)
      → r.duty_off ≤ 255
      → r.duty_on ≤ 255
      → leb_ℤ hi lo ≡ false
      → leb_ℤ v lo ≡ false
      → leb_ℤ hi v ≡ false
      → map_duty r v tenths ≡ interpolate r.duty_off r.duty_on (above v) span
  unfolding map_duty
  map_duty-interpolate v a b wide up down =
      rw (wide, up, down)
        (rw (difference lo v up)
          (cast_interpolate r.duty_off r.duty_on (above v) span a b (above-le-span v down)))

  -- The value at the readings outside the limits.
  outside : ℤ → ℕ
  outside v =
      if leb_ℤ hi lo
      then (if leb_ℤ lo v then r.duty_on else r.duty_off)
      else if leb_ℤ v lo
      then r.duty_off
      else r.duty_on

  map_duty-cases :
      (v : ℤ)
      → r.duty_off ≤ 255
      → r.duty_on ≤ 255
      → ((map_duty r v tenths ≡ outside v)
          × ((leb_ℤ hi lo ≡ true) ⊎ ((leb_ℤ v lo ≡ true) ⊎ (leb_ℤ hi v ≡ true))))
        ⊎ ((leb_ℤ hi lo ≡ false)
            × (leb_ℤ v lo ≡ false)
            × (leb_ℤ hi v ≡ false)
            × (map_duty r v tenths ≡ interpolate r.duty_off r.duty_on (above v) span))
  unfolding outside
  map_duty-cases v a b = elim (Bool-cases (leb_ℤ hi lo)) [
    | inl narrow ↦ inl (unfold map_duty in rw narrow, inl narrow)
    | inr wide ↦ elim (Bool-cases (leb_ℤ v lo)) [
      | inl under ↦ inl (unfold map_duty in rw (wide, under), inr (inl under))
      | inr up ↦ elim (Bool-cases (leb_ℤ hi v)) [
        | inl over ↦ inl (unfold map_duty in rw (wide, up, over), inr (inr over))
        | inr down ↦ inr (wide, up, down, map_duty-interpolate v a b wide up down)
      ]
    ]
  ]

interpolate_bounds :
    (off on x span : ℕ)
    → x ≤ span
    → (min off on ≤ interpolate off on x span) × (interpolate off on x span ≤ max off on)
unfolding interpolate
interpolate_bounds off on x span h =
    ground (arith, share-le (on - off) x span h, share-le (off - on) x span h)

share_mono : (d x y span : ℕ) → x ≤ y → d * x / span ≤ d * y / span
share_mono d x y span h = grind arith

interpolate_mono :
    (off on x y span : ℕ) → off ≤ on → x ≤ y → interpolate off on x span ≤ interpolate off on y span
unfolding interpolate
interpolate_mono off on x y span o h = ground (arith, share_mono (on - off) x y span h)

-- The proportional level stays between the two levels of the configuration, whatever the reading
-- and the limits: the cast to a byte never wraps.
map_duty_bounds :
    (r : IoTConfig) (v : ℤ) (tenths : Bool)
    → r.duty_off ≤ 255
    → r.duty_on ≤ 255
    → (min r.duty_off r.duty_on ≤ map_duty r v tenths)
      × (map_duty r v tenths ≤ max r.duty_off r.duty_on)
unfolding outside
map_duty_bounds r v tenths a b = elim (map_duty-cases r tenths v a b) [
  | inl (same, where_) ↦ ground (arith)
  | inr (wide, up, down, same) ↦
      rw same (interpolate_bounds r.duty_off r.duty_on _ _ (above-le-span r tenths v down))
]

-- A higher reading never gives a lower level, where the level when on is not below that when off.
map_duty_mono :
    (r : IoTConfig) (v w : ℤ) (tenths : Bool)
    → r.duty_off ≤ r.duty_on
    → r.duty_on ≤ 255
    → v ≤ℤ w
    → map_duty r v tenths ≤ map_duty r w tenths
unfolding outside
map_duty_mono r v w tenths o b h =
    let bounds_v = map_duty_bounds r v tenths (omega arith) b in
    let bounds_w = map_duty_bounds r w tenths (omega arith) b in
    elim (map_duty-cases r tenths v (omega arith) b) [
      | inl (same_v, where_v) ↦ elim (map_duty-cases r tenths w (omega arith) b) [
        | inl (same_w, where_w) ↦ rw (same_v, same_w) (ground arith)
        | inr (wide, up, down, same_w) ↦ ground (arith)
      ]
      | inr (wide, up, down, same_v) ↦ elim (map_duty-cases r tenths w (omega arith) b) [
        | inl (same_w, where_w) ↦ ground (arith)
        | inr (_, up', down', same_w) ↦
            rw (same_v, same_w)
              (interpolate_mono r.duty_off r.duty_on _ _ _ o (distance_mono (lo r tenths) v w h))
      ]
    ]
