-- ===== src/Store/Read.antt =====
-- ConfigStore.h: what the members that were written make of the defaults.
use esp8266_dns.Store.Rows.{is_found}
use esp8266_dns.Base.{
  &&-split, All, Bool, Bytes, List, [], ap, append-nil, arith, bytes_eq, codes, if_cases, length,
  ltb, lt→ltb, map, not, refl, some, suc, sym, true, ℕ, ◌&&◌, ◌++◌, ◌<◌, ◌==◌, ◌∙◌, ◌∷◌, ◌≡◌,
}
use esp8266_dns.Base.Int.{pos}
use esp8266_dns.Json.{fits, object}
use esp8266_dns.Json.RoundTrip.{object-write_object, read_all}
use esp8266_dns.Json.Text.{IsChar}
use esp8266_dns.Json.Values.{IsContent, IsField, IsPlain, read_as}
use esp8266_dns.Json.Written.{Content, object_text, tail_text}
use esp8266_dns.Store.Back.{
  AreCells, IsCell, a_flag, a_key, a_string, a_u16, a_u32, a_u8, an_i16, an_i8, some_chars,
  to_hex-IsChar,
}
use esp8266_dns.Store.File.{
  Cell, Load, all_fields, content_of, default_of, read_file, fields_of, load_text, max_file,
  set_member, set_members, start_load, version,
}
use esp8266_dns.Store.Rows.{are_found, fields_found, fields_of-rows, is_found_sound, is_plain}
use esp8266_dns.Store.Table.{FieldType, Row, fields}
use esp8266_dns.Totp.{blank, to_hex}

IsPlain-char :
    (c : ℕ) (b : Bool)
    → (not (c == b'"') && not (c == 92) && ltb 0 c && b) ≡ true
    → IsPlain c × (b ≡ true)
IsPlain-char c b h = (
  (λ e. absurd (ground (arith, h, e)), λ e. absurd (ground (arith, h, e)), ground (arith, h)),
  ground (arith, h),
)

is_plain_sound : (s : Bytes) → is_plain s ≡ true → All IsPlain s
is_plain_sound [] h = tt
is_plain_sound (c ∷ s) h =
    let char = IsPlain-char c (is_plain s) h in (char.0, is_plain_sound s char.1)

content_of-IsContent : (t : FieldType) (c : Cell) → IsCell t c → IsContent (content_of t c)
unfolding content_of
content_of-IsContent _ _ (a_string s h) = h
content_of-IsContent _ _ (some_chars n s h l) = h
content_of-IsContent _ _ (a_key k h l e) =
    if_cases (All IsChar) (blank k) [] (to_hex k) (λ _. tt) (λ _. to_hex-IsChar k h)
content_of-IsContent _ _ (a_flag b) = tt
content_of-IsContent _ _ (an_i8 z h) = (omega (arith, h.0), omega (arith, h.1))
content_of-IsContent _ _ (a_u8 z h) = (omega (arith, h.0), omega (arith, h.1))
content_of-IsContent _ _ (an_i16 z h) = (omega (arith, h.0), omega (arith, h.1))
content_of-IsContent _ _ (a_u16 z h) = (omega (arith, h.0), omega (arith, h.1))
content_of-IsContent _ _ (a_u32 z h) = h.0

fields_of-IsField :
    (i : ℕ) (rs : List Row) (cs : List Cell)
    → are_found i rs ≡ true
    → AreCells rs cs
    → All IsField (fields_of rs cs)
unfolding fields_of are_found
fields_of-IsField i [] cs f a = tt
fields_of-IsField i (r ∷ rs) [] f a = tt
fields_of-IsField i (r ∷ rs) (c ∷ cs) f a =
    let found = &&-split (is_found i r) (are_found (suc i) rs) f in
    let row_found = is_found_sound i r found.0 in
    (
      (row_found.short, is_plain_sound r.key row_found.plain, content_of-IsContent r.type c a.0),
      fields_of-IsField (suc i) rs cs found.1 a.1,
    )

pub all_fields-IsField : (cs : List Cell) → AreCells fields cs → All IsField (all_fields cs)
all_fields-IsField cs a = (
  (omega arith, is_plain_sound (codes "v") refl, (omega arith, omega arith)),
  fields_of-IsField 0 fields cs fields_found a,
)

-- What the members of the file make of the defaults.
pub set_members-all_fields :
    (cs : List Cell)
    → AreCells fields cs
    → ((set_members (read_all (all_fields cs) []) start_load).cells ≡ cs)
      × ((set_members (read_all (all_fields cs) []) start_load).file_version ≡ pos version)
unfolding set_members read_all
set_members-all_fields cs a =
    let v = read_as (Content.num (pos version)) (tail_text (fields_of fields cs) ++ []) in
    let l = set_member (record { key = codes "v"; value = v }) start_load in
    let versioned : l ≡ record start_load { file_version = pos version } =
      unfold set_member fits read_as bytes_eq in refl in
    let rows =
      fields_of-rows 0 fields cs [] (map default_of fields) [] l refl fields_found a
        (ap (λ (t : Load). t.cells) versioned) refl refl in
    (rows.0, rows.1 ∙ ap (λ (t : Load). t.file_version) versioned)

pub read_file-all_fields :
    (cs : List Cell)
    → AreCells fields cs
    → length (object_text (all_fields cs)) < max_file
    → read_file (some (object_text (all_fields cs)))
      ≡ some (set_members (read_all (all_fields cs) []) start_load)
unfolding read_file
read_file-all_fields cs a h =
    let body = object_text (all_fields cs) in
    let valid = object-write_object (all_fields cs) [] (all_fields-IsField cs a) in
    rw (lt→ltb (length body) max_file h)
      (ap load_text (ap object (sym (append-nil body)) ∙ valid.1))
