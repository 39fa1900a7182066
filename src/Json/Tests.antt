-- ===== src/Json/Tests.antt =====
-- Json.h: tests.
use esp8266_dns.Base.{
  All, Bytes, List, [], arith, codes, if◌then◌else◌, map, none, refl, some, true, u32, ◌&&◌, ◌++◌,
  ◌+◌, ◌-◌, ◌∷◌, ◌≡◌, ◌≢◌,
}
use esp8266_dns.Base.Int.{leb_ℤ, neg_part, negsuc, pos, pos_part}
use esp8266_dns.Json.{
  Kind, Member, Parsed, Value, done, fits, fresh, invalid, members_at, members_loop, object, opened,
  spent,
}
use esp8266_dns.Json.Decode.{copy}
use esp8266_dns.Json.Ends.{object-ne-spent}
use esp8266_dns.Json.Number.{fits-signed_at, signed_at}
use esp8266_dns.Json.RoundTrip.{Reads, object-write_object, read_all}
use esp8266_dns.Json.Values.{IsField}
use esp8266_dns.Json.Written.{Field, flag, num, object_text, string, write_object}

abbrev sample : Bytes
sample =
    codes
      " {\"a\":\"x\\u0041\\n\", \"b\" : -12 ,\"c\":[1,{\"d\":null}],\"e\":1.5e+3,\"f\":true} tail"

names : Parsed (List Member) → List Bytes
names spent = codes "spent" ∷ []
names invalid = []
names (done ms) = map (λ (m : Member). m.key) ms

sample_members :
    names (object sample) ≡ codes "a" ∷ codes "b" ∷ codes "c" ∷ codes "e" ∷ codes "f" ∷ []
unfolding names object members_at opened members_loop
sample_members = refl

cut_short : names (object (codes "{\"a\":1,\"b\":[1,2}")) ≡ []
unfolding names object members_at opened members_loop
cut_short = refl

decoded :
    copy (record (fresh (codes "x\\u00e9\\ud83d\\ude00\\n\"")) { kind = Kind.string }) 6
    ≡ (b'x' ∷ 0xC3 ∷ 0xA9 ∷ 0xF0 ∷ 0x9F ∷ [], 8)
unfolding copy
decoded = refl

object-ne-spent_example : object sample ≢ spent
object-ne-spent_example = object-ne-spent sample

abbrev fields : List Field
fields =
    record { name = codes "id"; content = string (codes "a\"b") }
    ∷ record { name = codes "level"; content = num (negsuc 41) }
    ∷ record { name = codes "on"; content = flag true }
    ∷ []

fields-IsField : All IsField fields
fields-IsField = omega arith

object-write_object_example :
    ((write_object (some []) fields).file ≡ some (object_text fields))
    × (object (object_text fields ++ codes " tail") ≡ done (read_all fields (codes " tail")))
    × Reads fields (read_all fields (codes " tail"))
object-write_object_example = object-write_object fields (codes " tail") fields-IsField

abbrev accented : Value
accented = record (fresh (codes "x\\u00e9\\ud83d\\ude00\\n\"")) { kind = Kind.string }

fits-signed_at_example : fits (signed_at (codes "-5,") (negsuc 4)) (negsuc 29999) 30000 ≡ (
    if leb_ℤ (negsuc 29999) (negsuc 4) && leb_ℤ (negsuc 4) (pos 30000)
    then some (u32 (pos_part (negsuc 4) + 4294967296 - neg_part (negsuc 4)))
    else none)
fits-signed_at_example =
    fits-signed_at (codes "-5,") (negsuc 4) (negsuc 29999) 30000 (omega arith) refl (omega arith)
      (omega arith)
