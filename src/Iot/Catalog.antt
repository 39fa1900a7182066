-- ===== src/Iot/Catalog.antt =====
-- IoTCatalog.h: the tables of sensors and actuators. The labels for the panel are left out.
use esp8266_dns.Base.{
  ℕ, suc, Bool, true, false, Option, none, some, List, [], ◌∷◌, Bytes, codes, bytes_eq, get_or,
  if◌then◌else◌,
}

pub data Kind : Type 0 where
  nothing digital dht11 dht22 ds18 range pulse sht3x aht lux : Kind

pub data Cap : Type 0 where
  nothing onoff level position color : Cap

Kind-discrete : Discrete Kind
Kind-discrete = hlevel

Cap-discrete : Discrete Cap
Cap-discrete = hlevel

abbrev pub temp_and_humidity : Kind → Bool
temp_and_humidity Kind.dht11 = true
temp_and_humidity Kind.dht22 = true
temp_and_humidity Kind.sht3x = true
temp_and_humidity Kind.aht = true
temp_and_humidity _ = false

abbrev pub i2c : Kind → Bool
i2c Kind.sht3x = true
i2c Kind.aht = true
i2c Kind.lux = true
i2c _ = false

abbrev pub unit_count : Kind → ℕ
unit_count Kind.digital = 0
unit_count Kind.lux = 0
unit_count Kind.range = 3
unit_count Kind.pulse = 3
unit_count _ = 2

pub record SensorDef : Type 0 where
  pub slug : Bytes
  pub kind : Kind
  pub group : ℕ

pub record ActuatorDef : Type 0 where
  pub slug : Bytes
  pub cap : Cap
  pub pulse : ℕ

abbrev pub sensors : List SensorDef
sensors =
    record { slug = codes "dht22"; kind = Kind.dht22; group = 0 }
    ∷ record { slug = codes "dht11"; kind = Kind.dht11; group = 0 }
    ∷ record { slug = codes "ds18b20"; kind = Kind.ds18; group = 0 }
    ∷ record { slug = codes "sht3x"; kind = Kind.sht3x; group = 0 }
    ∷ record { slug = codes "aht20"; kind = Kind.aht; group = 0 }
    ∷ record { slug = codes "pir"; kind = Kind.digital; group = 1 }
    ∷ record { slug = codes "radar"; kind = Kind.digital; group = 1 }
    ∷ record { slug = codes "contact"; kind = Kind.digital; group = 1 }
    ∷ record { slug = codes "button"; kind = Kind.digital; group = 1 }
    ∷ record { slug = codes "leak"; kind = Kind.digital; group = 1 }
    ∷ record { slug = codes "gas"; kind = Kind.digital; group = 1 }
    ∷ record { slug = codes "float"; kind = Kind.digital; group = 1 }
    ∷ record { slug = codes "rain"; kind = Kind.digital; group = 1 }
    ∷ record { slug = codes "digital"; kind = Kind.digital; group = 1 }
    ∷ record { slug = codes "distance"; kind = Kind.range; group = 2 }
    ∷ record { slug = codes "pulses"; kind = Kind.pulse; group = 2 }
    ∷ record { slug = codes "bh1750"; kind = Kind.lux; group = 2 }
    ∷ []

abbrev pub actuators : List ActuatorDef
actuators =
    record { slug = codes "relay"; cap = Cap.onoff; pulse = 1 }
    ∷ record { slug = codes "pump"; cap = Cap.onoff; pulse = 10 }
    ∷ record { slug = codes "valve"; cap = Cap.onoff; pulse = 10 }
    ∷ record { slug = codes "lock"; cap = Cap.onoff; pulse = 3 }
    ∷ record { slug = codes "gate"; cap = Cap.onoff; pulse = 1 }
    ∷ record { slug = codes "buzzer"; cap = Cap.onoff; pulse = 1 }
    ∷ record { slug = codes "led"; cap = Cap.level; pulse = 5 }
    ∷ record { slug = codes "fan"; cap = Cap.level; pulse = 30 }
    ∷ record { slug = codes "motor"; cap = Cap.level; pulse = 5 }
    ∷ record { slug = codes "servo"; cap = Cap.position; pulse = 3 }
    ∷ record { slug = codes "strip"; cap = Cap.color; pulse = 5 }
    ∷ []

-- The loop of `sensorIndex`, from position `i`; `none` stands for -1.
sensor_index_from : ℕ → List SensorDef → Bytes → Option ℕ
sensor_index_from i [] slug = none
sensor_index_from i (d ∷ ds) slug =
    let later = sensor_index_from (suc i) ds slug in if bytes_eq slug d.slug then some i else later

unfoldable pub sensor_index : Bytes → Option ℕ
unfolding sensor_index_from bytes_eq
sensor_index slug = sensor_index_from 0 sensors slug

actuator_index_from : ℕ → List ActuatorDef → Bytes → Option ℕ
actuator_index_from i [] slug = none
actuator_index_from i (d ∷ ds) slug =
    let later = actuator_index_from (suc i) ds slug in
    if bytes_eq slug d.slug then some i else later

unfoldable pub actuator_index : Bytes → Option ℕ
unfolding actuator_index_from bytes_eq
actuator_index slug = actuator_index_from 0 actuators slug

-- Configuration v1 stored the position in the old tables.
abbrev v1_sensors : List Bytes
v1_sensors =
    codes "digital"
    ∷ codes "dht11"
    ∷ codes "dht22"
    ∷ codes "ds18b20"
    ∷ codes "pulses"
    ∷ codes "pir"
    ∷ codes "contact"
    ∷ codes "digital"
    ∷ codes "digital"
    ∷ codes "digital"
    ∷ codes "digital"
    ∷ codes "digital"
    ∷ codes "digital"
    ∷ codes "digital"
    ∷ codes "button"
    ∷ codes "distance"
    ∷ []

abbrev v1_actuators : List Bytes
v1_actuators =
    codes "relay"
    ∷ codes "servo"
    ∷ codes "led"
    ∷ codes "buzzer"
    ∷ codes "pump"
    ∷ codes "valve"
    ∷ codes "fan"
    ∷ codes "motor"
    ∷ []

unfoldable pub v1_sensor : ℕ → Bytes
v1_sensor i = get_or v1_sensors i (codes "digital")

unfoldable pub v1_actuator : ℕ → Bytes
v1_actuator i = get_or v1_actuators i (codes "relay")
