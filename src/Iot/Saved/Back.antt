-- ===== src/Iot/Saved/Back.antt =====
-- IoTState.h: what `save` writes, `load` reads.
use esp8266_dns.Iot.Saved.{is_boolean}
use esp8266_dns.Iot.Saved.{initial_state}
use esp8266_dns.Base.{
  All, Bool, Bytes, List, Option, [], ap, append-nil, arith, codes, false, length, length-append,
  not, refl, some, suc, sym, take, take_all, true, ℕ, ◌+◌, ◌<◌, ◌==◌, ◌∙◌, ◌∷◌, ◌≡◌, ◌≤◌,
}
use esp8266_dns.Base.Decimal.{length-decimal}
use esp8266_dns.Base.Int.{pos}
use esp8266_dns.Iot.Saved.{load, load_text, save, set_member, set_members}
use esp8266_dns.Iot.Service.{IoTState}
use esp8266_dns.Json.{Member, Parsed, fits, object}
use esp8266_dns.Json.RoundTrip.{object-write_object, read_all}
use esp8266_dns.Json.Values.{IsField, read_as}
use esp8266_dns.Json.Writer.{signed_text}
use esp8266_dns.Json.Written.{
  Field, content_text, entry, flag, num, object_text, tail_text, unum, write_content, write_fields,
  write_object,
}

-- A state that the fields of the struct can hold.
pub record IsState (s : IoTState) : Type 0 where
  pub level_fits : s.level < 256
  pub angle_fits : s.angle < 256
  pub rgb_fits : s.rgb < 4294967296

abbrev pub state_fields : IoTState → List Field
state_fields s =
    record { name = codes "m"; content = flag s.manual }
    ∷ record { name = codes "on"; content = flag s.on }
    ∷ record { name = codes "lv"; content = num (pos s.level) }
    ∷ record { name = codes "an"; content = num (pos s.angle) }
    ∷ record { name = codes "c"; content = unum s.rgb }
    ∷ []

state_fields-IsField : (s : IoTState) → IsState s → All IsField (state_fields s)
state_fields-IsField s h = omega arith

save-state_fields :
    (s : IoTState) (file : Option Bytes)
    → save true file s ≡ ((write_object (some []) (state_fields s)).file, true)
unfolding save write_object write_fields write_content
save-state_fields s file = refl

length-bool_text : (b : Bool) → length (content_text (flag b)) ≤ 5
unfolding content_text
length-bool_text true = omega arith
length-bool_text false = omega arith

length-byte_text : (n : ℕ) → n < 256 → length (content_text (num (pos n))) ≤ 3
unfolding content_text signed_text
length-byte_text n h = (length-decimal n 3 (omega arith) (omega arith) (omega arith)).1

length-word_text : (n : ℕ) → n < 4294967296 → length (content_text (unum n)) ≤ 10
unfolding content_text
length-word_text n h = (length-decimal n 10 (omega arith) (omega arith) (omega arith)).1

length-entry : (f : Field) → length (entry f) ≡ length f.name + 3 + length (content_text f.content)
unfolding entry
length-entry f = omega (arith, length-append f.name (b'"' ∷ b':' ∷ content_text f.content))

length-tail_text :
    (f : Field) (fs : List Field)
    → length (tail_text (f ∷ fs)) ≡ suc (length (entry f) + length (tail_text fs))
unfolding tail_text
length-tail_text f fs = omega (arith, length-append (entry f) (tail_text fs))

length-object_text :
    (f : Field) (fs : List Field)
    → length (object_text (f ∷ fs)) ≡ suc (length (entry f) + length (tail_text fs))
unfolding object_text
length-object_text f fs = omega (arith, length-append (entry f) (tail_text fs))

-- The largest file has 55 characters.
length-state_text : (s : IoTState) → IsState s → length (object_text (state_fields s)) ≤ 55
length-state_text s h =
    let m : Field = record { name = codes "m"; content = flag s.manual } in
    let on : Field = record { name = codes "on"; content = flag s.on } in
    let lv : Field = record { name = codes "lv"; content = num (pos s.level) } in
    let an : Field = record { name = codes "an"; content = num (pos s.angle) } in
    let c : Field = record { name = codes "c"; content = unum s.rgb } in
    let last : length (tail_text []) ≡ 1 = unfold tail_text in refl in
    omega (
      arith,
      length-object_text m (on ∷ lv ∷ an ∷ c ∷ []),
      length-tail_text on (lv ∷ an ∷ c ∷ []),
      length-tail_text lv (an ∷ c ∷ []),
      length-tail_text an (c ∷ []),
      length-tail_text c [],
      length-entry m,
      length-entry on,
      length-entry lv,
      length-entry an,
      length-entry c,
      length-bool_text s.manual,
      length-bool_text s.on,
      length-byte_text s.level,
      length-byte_text s.angle,
      length-word_text s.rgb,
    )

read_flag :
    (b : Bool) (rest : Bytes)
    → (is_boolean (read_as (flag b) rest).kind ≡ true)
      × (not ((read_as (flag b) rest).mag == 0) ≡ b)
unfolding read_as
read_flag true rest = (refl, refl)
read_flag false rest = (refl, refl)

read_byte :
    (n : ℕ) (rest : Bytes) → n < 256 → fits (read_as (num (pos n)) rest) (pos 0) 255 ≡ some n
unfolding fits read_as
read_byte n rest h = ground arith

read_word :
    (n : ℕ) (rest : Bytes)
    → n < 4294967296
    → fits (read_as (unum n) rest) (pos 0) 4294967295 ≡ some n
unfolding fits read_as
read_word n rest h = ground arith

set_m :
    (b : Bool) (rest : Bytes) (t : IoTState)
    → set_member (record { key = codes "m"; value = read_as (flag b) rest }) t
      ≡ record t { manual = b }
unfolding set_member
set_m b rest t = ground (arith, read_flag b rest)

set_on :
    (b : Bool) (rest : Bytes) (t : IoTState)
    → set_member (record { key = codes "on"; value = read_as (flag b) rest }) t
      ≡ record t { on = b }
unfolding set_member
set_on b rest t = ground (arith, read_flag b rest)

set_lv :
    (n : ℕ) (rest : Bytes) (t : IoTState)
    → n < 256
    → set_member (record { key = codes "lv"; value = read_as (num (pos n)) rest }) t
      ≡ record t { level = n }
unfolding set_member
set_lv n rest t h = ground (arith, read_byte n rest)

set_an :
    (n : ℕ) (rest : Bytes) (t : IoTState)
    → n < 256
    → set_member (record { key = codes "an"; value = read_as (num (pos n)) rest }) t
      ≡ record t { angle = n }
unfolding set_member
set_an n rest t h = ground (arith, read_byte n rest)

set_c :
    (n : ℕ) (rest : Bytes) (t : IoTState)
    → n < 4294967296
    → set_member (record { key = codes "c"; value = read_as (unum n) rest }) t
      ≡ record t { rgb = n }
unfolding set_member
set_c n rest t h = ground (arith, read_word n rest)

set_members-read_all :
    (s : IoTState) → IsState s → set_members (read_all (state_fields s) []) initial_state ≡ s
unfolding set_members read_all
set_members-read_all s h = rw (set_m s.manual _ initial_state) (
    rw (set_on s.on _ (record initial_state { manual = s.manual })) (
      rw (set_lv s.level _ (record initial_state { manual = s.manual; on = s.on }) h.level_fits) (
        rw (set_an s.angle _ (record s { angle = 90; rgb = 0xFFFFFF }) h.angle_fits)
          (set_c s.rgb _ (record s { rgb = 0xFFFFFF }) h.rgb_fits))))

load_state_text :
    (s t : IoTState) → IsState s → load (some (object_text (state_fields s))) t ≡ (s, true)
unfolding load
load_state_text s t h =
    let fields = state_fields s in
    let body = object_text fields in
    let whole : take 95 body ≡ body = take_all 95 body (omega (arith, length-state_text s h)) in
    let valid = object-write_object fields [] (state_fields-IsField s h) in
    ap (λ (b : Bytes). load_text (object b) t) (whole ∙ sym (append-nil body))
    ∙ ap (λ (o : Parsed (List Member)). load_text o t) valid.1
    ∙ ap (λ (u : IoTState). (u, true)) (set_members-read_all s h)

-- A state that the fields of the struct can hold, saved over any file that can be opened, is read
-- back whole at the next start, whatever the fields were before; the file has 55 bytes at most, so
-- that the buffer of 96 takes all of it.
load-save :
    (s t : IoTState) (file : Option Bytes)
    → IsState s
    → ((save true file s).1 ≡ true)
      × (load (save true file s).0 t ≡ (s, true))
      × (length (object_text (state_fields s)) ≤ 55)
load-save s t file h =
    let saved = save-state_fields s file in
    let back = object-write_object (state_fields s) [] (state_fields-IsField s h) in
    let size = length-state_text s h in
    (
      ap (λ (p : Option Bytes × Bool). p.1) saved,
      ap (λ (p : Option Bytes × Bool). load p.0 t) saved
          ∙ ap (λ (f : Option Bytes). load f t) back.0
          ∙ load_state_text s t h,
      size,
    )
