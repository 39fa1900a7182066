-- ===== src/Store/Tests.antt =====
-- ConfigStore.h at concrete inputs: the defaults.
use esp8266_dns.Password.{Hmac, password_text}
use esp8266_dns.Password.Same.{replicate-AllBytes}
use esp8266_dns.Base.{replicate, set, take}
use esp8266_dns.Base.{
  &&-split, All, Bool, Bytes, List, [], arith, bytes_eq, codes, false, get_or, if_cases, inr, leb,
  ltb, map, none, not, refl, some, true, ◌&&◌, ◌==◌, ◌∷◌, ◌≡◌, ◌⊎◌,
}
use esp8266_dns.Base.Int.{neg_part, pos, pos_part, ℤ}
use esp8266_dns.Json.{object}
use esp8266_dns.Json.Text.{IsChar}
use esp8266_dns.Json.Written.{object_text, write_object}
use esp8266_dns.Mqtt.Packet.{fnv_from}
use esp8266_dns.Store.Back.{
  AreCells, IsCell, a_flag, a_key, a_string, a_u16, a_u32, a_u8, an_i16, an_i8, some_chars,
}
use esp8266_dns.Store.File.{
  Cell, Files, Load, all_fields, blank_key, default_for, default_of, fields_of, flag, int, load,
  read_file, needs_hash, password_of, text, Disk, save, set_cell,
}
use esp8266_dns.Store.Table.{FieldType, Row, config_key_hash, fields}
use esp8266_dns.Store.Whole.{load-saved, save-config, saved}
use esp8266_dns.Totp.{blank}
use mathlib.Core.Option

abbrev default_fits : ℤ → FieldType → Bool
default_fits z (FieldType.chars n) = ltb 0 n
default_fits z FieldType.i8 = ltb (pos_part z) 128 && leb (neg_part z) 128
default_fits z FieldType.u8 = ltb (pos_part z) 256 && neg_part z == 0
default_fits z FieldType.i16 = ltb (pos_part z) 32768 && leb (neg_part z) 32768
default_fits z FieldType.u16 = ltb (pos_part z) 65536 && neg_part z == 0
default_fits z FieldType.u32 = ltb (pos_part z) 4294967296 && neg_part z == 0
default_fits z _ = true

default_for-IsCell :
    (key : Bytes) (z : ℤ) (t : FieldType) → default_fits z t ≡ true → IsCell t (default_for key z t)
unfolding default_for
default_for-IsCell key z FieldType.string h = a_string _ (
    if_cases (All IsChar) (bytes_eq key (codes "usr")) (codes "admin") [] (λ _. omega arith)
      (λ _. tt))
default_for-IsCell key z (FieldType.chars n) h = some_chars n [] tt (ground (arith, h))
default_for-IsCell key z FieldType.hex20 h = a_key blank_key (omega arith) refl (inr refl)
default_for-IsCell key z FieldType.boolean h = a_flag (not (pos_part z == 0))
default_for-IsCell key z FieldType.i8 h = an_i8 z (ground (arith, h), ground (arith, h))
default_for-IsCell key z FieldType.u8 h = a_u8 z (ground (arith, h), ground (arith, h))
default_for-IsCell key z FieldType.i16 h = an_i16 z (ground (arith, h), ground (arith, h))
default_for-IsCell key z FieldType.u16 h = a_u16 z (ground (arith, h), ground (arith, h))
default_for-IsCell key z FieldType.u32 h = a_u32 z (ground (arith, h), ground (arith, h))

abbrev defaults_fit : List Row → Bool
defaults_fit [] = true
defaults_fit (r ∷ rs) = default_fits r.def r.type && defaults_fit rs

map-AreCells : (rs : List Row) → defaults_fit rs ≡ true → AreCells rs (map default_of rs)
map-AreCells [] h = tt
map-AreCells (r ∷ rs) h =
    let parts = &&-split (default_fits r.def r.type) (defaults_fit rs) h in
    (default_for-IsCell r.key r.def r.type parts.0, map-AreCells rs parts.1)

abbrev defaults : List Cell
defaults = map default_of fields

abbrev no_files : Files
no_files = record { config = none; tmp = none }

abbrev toy : Hmac
toy = record {
  digest = λ key message. replicate 20 7;
  digest_size = λ key message. refl;
  digest_bytes = λ key message. replicate-AllBytes 20 7 (omega arith);
}

-- A file system that keeps all that is written, and one that is nearly full.
abbrev sound : Disk
sound = record { opens = true; keeps = λ s. s; renames = true }

abbrev nearly_full : Disk
nearly_full = record { opens = true; keeps = λ s. take 100 s; renames = true }

load-saved_example :
    let back = load toy (replicate 16 9) sound (saved sound defaults no_files) in
    (l : Load) × (back.0 ≡ some l)
    × (l.file_version ≡ pos 3)
    × (needs_hash defaults ≡ false
        → (l.cells ≡ defaults) × (back.1 ≡ saved sound defaults no_files ∷ []))
    × (needs_hash defaults ≡ true
        → (l.cells
            ≡ set defaults 1 (text (password_text toy (password_of defaults) (replicate 16 9))))
          × (back.1 ≡ (save sound l.cells (saved sound defaults no_files)).0))
unfolding fields_of default_for blank
load-saved_example =
    load-saved toy (replicate 16 9) sound sound defaults no_files (map-AreCells fields refl)
      (unfold save write_object in refl) refl

defaults_as_they_are : needs_hash defaults ≡ false
unfolding needs_hash default_for
defaults_as_they_are = refl

save-config_example :
    All
      (λ (s : Files).
        (s.config ≡ none) ⊎ (s.config ≡ some (take 100 (object_text (all_fields defaults)))))
      (save nearly_full defaults no_files).0
    × ((save nearly_full defaults no_files).1 ≡ true
        → (saved nearly_full defaults no_files).config
          ≡ some (take 100 (object_text (all_fields defaults))))
    × ((save nearly_full defaults no_files).1 ≡ false
        → (saved nearly_full defaults no_files).config ≡ none)
save-config_example = save-config nearly_full defaults no_files (map-AreCells fields refl)

-- A password from before the hash.
plain_password :
    Option.map
      (λ (l : Load). needs_hash l.cells)
      (read_file (some (codes "{\"v\":3,\"pwd\":\"plain\"}")))
    ≡ some true
unfolding needs_hash read_file object config_key_hash fnv_from default_for set_cell
plain_password = refl

-- A value that is out of its range leaves the default, and an unknown name is passed over.
tolerant :
    Option.map
      (λ (l : Load). get_or l.cells 53 (flag false))
      (read_file (some (codes "{\"v\":3,\"led\":300,\"zzz\":[1,{}]}")))
    ≡ some (int (pos 8))
unfolding read_file object config_key_hash fnv_from default_for set_cell
tolerant = refl
