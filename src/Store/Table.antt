-- ===== src/Store/Table.antt =====
-- ConfigStore.h, `FIELDS`: every field of the configuration that is kept, in the order of the file.
use Prim.Native.Nat.{bit_xor}
use Prim.Native.String.{String}
use esp8266_dns.Base.{Bytes, List, [], codes, ℕ, ◌%◌, ◌/◌, ◌∷◌}
use esp8266_dns.Base.Int.{negsuc, pos, ℤ}
use esp8266_dns.Mqtt.Packet.{fnv}

pub data FieldType : Type 0 where
  string : FieldType
  chars : ℕ → FieldType
  hex20 : FieldType
  boolean : FieldType
  i8 : FieldType
  u8 : FieldType
  i16 : FieldType
  u16 : FieldType
  u32 : FieldType

-- `configKeyHash`: 16 bits of FNV-1a.
unfoldable pub config_key_hash : Bytes → ℕ
config_key_hash s = let h = fnv s in bit_xor h (h / 65536) % 65536

-- A row: its key, the hash of its old name, its type and its default. A row has its own place in the
-- configuration, which is its place in the table.
pub record Row : Type 0 where
  pub key : Bytes
  pub old : ℕ
  pub type : FieldType
  pub def : ℤ

abbrev pub row : String → String → FieldType → ℤ → Row
row key old type def = record {
  key = codes key;
  old = config_key_hash (codes old);
  type = type;
  def = def;
}

abbrev pub fields : List Row
fields =
    row "usr" "webusr" FieldType.string (pos 0)
    ∷ row "pwd" "webpss" FieldType.string (pos 0)
    ∷ row "otp" "totp" FieldType.hex20 (pos 0)
    ∷ row "ots" "totp_step" FieldType.u32 (pos 0)
    ∷ row "otb" "totp_bstep" FieldType.u32 (pos 0)
    ∷ row "sid" "ssid" FieldType.string (pos 0)
    ∷ row "wpw" "pass" FieldType.string (pos 0)
    ∷ row "ntt" "ntfy_topic" (FieldType.chars 64) (pos 0)
    ∷ row "ntc" "ntfy_cmd" (FieldType.chars 64) (pos 0)
    ∷ row "ntk" "ntfy_token" (FieldType.chars 48) (pos 0)
    ∷ row "ntp" "ntfy_poll" FieldType.u8 (pos 5)
    ∷ row "nth" "ntfy_host" (FieldType.chars 64) (pos 0)
    ∷ row "mqh" "mqtt_host" (FieldType.chars 64) (pos 0)
    ∷ row "mqu" "mqtt_user" (FieldType.chars 32) (pos 0)
    ∷ row "mqp" "mqtt_pass" (FieldType.chars 64) (pos 0)
    ∷ row "nam" "name" (FieldType.chars 32) (pos 0)
    ∷ row "hnm" "hostname" (FieldType.chars 33) (pos 0)
    ∷ row "hst" "hosts" (FieldType.chars 64) (pos 0)
    ∷ row "tzo" "tz" FieldType.i16 (pos 0)
    ∷ row "bat" "bat_sda" FieldType.i8 (negsuc 0)
    ∷ row "lng" "lang" (FieldType.chars 3) (pos 0)
    ∷ row "ota" "ota_auto" FieldType.boolean (pos 1)
    ∷ row "api" "api_token" (FieldType.chars 33) (pos 0)
    ∷ row "cft" "cf_token" (FieldType.chars 80) (pos 0)
    ∷ row "cfz" "cf_zone" (FieldType.chars 40) (pos 0)
    ∷ row "cfh" "cf_host" (FieldType.chars 64) (pos 0)
    ∷ row "cfr" "cf_record" (FieldType.chars 40) (pos 0)
    ∷ row "cfa" "cf_account" (FieldType.chars 33) (pos 0)
    ∷ row "rlh" "relay_host" (FieldType.chars 80) (pos 0)
    ∷ row "rlk" "relay_key" (FieldType.chars 65) (pos 0)
    ∷ row "rlv" "relay_ver" FieldType.u8 (pos 0)
    ∷ row "rln" "relay_name" (FieldType.chars 33) (pos 0)
    ∷ row "rlz" "relay_zone" (FieldType.chars 33) (pos 0)
    ∷ row "sen" "sensor" (FieldType.chars 12) (pos 0)
    ∷ row "spn" "sensor_pin" FieldType.i8 (negsuc 0)
    ∷ row "shi" "sensor_high" FieldType.boolean (pos 1)
    ∷ row "son" "sensor_on" (FieldType.chars 16) (pos 0)
    ∷ row "sof" "sensor_off" (FieldType.chars 16) (pos 0)
    ∷ row "met" "metric" FieldType.u8 (pos 0)
    ∷ row "unt" "unit" FieldType.u8 (pos 0)
    ∷ row "tke" "tank_empty" FieldType.u16 (pos 100)
    ∷ row "tkf" "tank_full" FieldType.u16 (pos 20)
    ∷ row "tkl" "tank_l" FieldType.u16 (pos 1000)
    ∷ row "fpl" "ppl" FieldType.u16 (pos 450)
    ∷ row "pls" "pulse" FieldType.u16 (pos 0)
    ∷ row "ntf" "notify" FieldType.boolean (pos 0)
    ∷ row "act" "actuator" (FieldType.chars 12) (pos 0)
    ∷ row "apn" "actuator_pin" FieldType.i8 (negsuc 0)
    ∷ row "ahi" "actuator_high" FieldType.boolean (pos 0)
    ∷ row "ag1" "angle_on" FieldType.u8 (pos 90)
    ∷ row "ag0" "angle_off" FieldType.u8 (pos 0)
    ∷ row "dt1" "duty_on" FieldType.u8 (pos 100)
    ∷ row "dt0" "duty_off" FieldType.u8 (pos 0)
    ∷ row "led" "leds" FieldType.u8 (pos 8)
    ∷ row "mxo" "max_on" FieldType.u16 (pos 0)
    ∷ row "rst" "restore" FieldType.boolean (pos 0)
    ∷ row "rul" "rule" FieldType.boolean (pos 1)
    ∷ row "abv" "above" FieldType.boolean (pos 0)
    ∷ row "thd" "threshold" FieldType.i16 (pos 0)
    ∷ row "mrg" "margin" FieldType.u8 (pos 0)
    ∷ row "tgl" "toggle" FieldType.boolean (pos 0)
    ∷ row "lin" "linear" FieldType.boolean (pos 0)
    ∷ row "thh" "threshold_hi" FieldType.i16 (pos 0)
    ∷ row "win" "window" FieldType.boolean (pos 0)
    ∷ row "wns" "win_start" FieldType.u16 (pos 0)
    ∷ row "wne" "win_end" FieldType.u16 (pos 0)
    ∷ []
