-- ===== src/Iot/Rule.antt =====
-- IoTService.h: the rule of a numeric sensor, the proportional level and the units. An `int` is an
-- integer here, which is exact while no product leaves 32 bits: for a tank whose height in cm times
-- what it holds does not, and for fewer than 357,914 pulses in 10 s; in the other functions the
-- fields are too narrow for it.
pub mod Band
pub mod Duty
pub mod Tank
use esp8266_dns.Base.{
  ℕ, ◌+◌, ◌*◌, ◌-◌, ◌%◌, Bool, true, false, ◌&&◌, ◌||◌, ltb, leb, ◌==◌, if◌then◌else◌, ◌/◌,
}
use esp8266_dns.Base.Int.{ℤ, pos, negsuc, ◌+ℤ◌, ◌-ℤ◌, ◌*ℤ◌, div_ℤ, leb_ℤ, ltb_ℤ, pos_part}
use esp8266_dns.Iot.Catalog.{Kind}
use esp8266_dns.Iot.Config.{IoTConfig}

abbrev pub scale : Bool → ℕ
scale tenths = if tenths then 10 else 1

-- `_rule`: `have_rule` and `rule_on` are the state of the last decision.
unfoldable pub rule : IoTConfig → Bool → Bool → ℤ → Bool → Bool
rule r have_rule rule_on value tenths =
    let limit = r.threshold *ℤ pos (scale tenths) in
    let margin = pos (r.margin * scale tenths) in
    if have_rule && rule_on
    then (if r.above then leb_ℤ (limit -ℤ margin) value else leb_ℤ value (limit +ℤ margin))
    else if r.above
    then leb_ℤ limit value
    else leb_ℤ value limit

-- The cast of an `int` to `uint8_t`.
abbrev pub to_u8 : ℤ → ℕ
to_u8 (pos n) = n % 256
to_u8 (negsuc n) = 255 - n % 256

-- `_mapDuty`: between the limits the level is interpolated; `hi - lo` is positive there.
unfoldable pub map_duty : IoTConfig → ℤ → Bool → ℕ
map_duty r value tenths =
    let lo = r.threshold *ℤ pos (scale tenths) in
    let hi = r.threshold_hi *ℤ pos (scale tenths) in
    if leb_ℤ hi lo
    then (if leb_ℤ lo value then r.duty_on else r.duty_off)
    else if leb_ℤ value lo
    then r.duty_off
    else if leb_ℤ hi value
    then r.duty_on
    else (let delta = pos r.duty_on -ℤ pos r.duty_off in
        to_u8 (pos r.duty_off +ℤ div_ℤ (delta *ℤ (value -ℤ lo)) (pos_part (hi -ℤ lo))))

-- `_deg`: tenths of °C in the unit set, °C or °F.
unfoldable pub deg : IoTConfig → ℤ → ℤ
deg r c = if r.unit == 1 then div_ℤ (c *ℤ pos 9) 5 +ℤ pos 320 else c

-- The distance in the unit of a tank: per cent, or litres.
unfoldable pub in_tank : IoTConfig → ℤ → ℤ
in_tank r v =
    let full = if r.unit == 1 then 100 else r.tank_l in
    if leb r.tank_empty r.tank_full
    then pos 0
    else (let x = div_ℤ ((pos r.tank_empty -ℤ v) *ℤ pos full) (r.tank_empty - r.tank_full) in
        if ltb_ℤ x (pos 0) then pos 0 else if ltb_ℤ (pos full) x then pos full else x)

-- The pulses of 10 s as a flow, tenths of L/min or mL/min.
unfoldable pub in_flow : IoTConfig → ℤ → ℤ
in_flow r v =
    if r.ppl == 0
    then pos 0
    else (let f = div_ℤ (v *ℤ pos (if r.unit == 1 then 60 else 6000)) r.ppl in
        if ltb_ℤ (pos 32767) f then pos 32767 else f)

in_degrees : IoTConfig → Bool → ℤ → Bool → ℤ
in_degrees r always v tenths = if tenths && (always || r.metric == 1) then deg r v else v

-- `_inUnit`: the reading in the unit set, and whether it is in tenths.
unfoldable pub in_unit : IoTConfig → Kind → ℤ → Bool → ℤ × Bool
unfolding in_degrees
in_unit r Kind.range v tenths =
    if r.unit == 0 then (in_degrees r false v tenths, tenths) else (in_tank r v, tenths)
in_unit r Kind.pulse v tenths =
    if r.unit == 0 then (in_degrees r false v tenths, tenths) else (in_flow r v, r.unit == 1)
in_unit r Kind.ds18 v tenths = (in_degrees r true v tenths, tenths)
in_unit r kind v tenths = (in_degrees r false v tenths, tenths)
