-- ===== src/Store/File.antt =====
-- ConfigStore.h: the file /config.json. The configuration is the row of the values of `FIELDS`, each in
-- the place of its row. The fields of version 1 and the migration from it are left out.
use esp8266_dns.Base.{
  Bool, Bytes, List, Option, [], bytes_eq, codes, false, get_or, if◌then◌else◌, leb, length, ltb,
  map, none, not, replicate, set, some, suc, true, ℕ, ◌&&◌, ◌*◌, ◌+◌, ◌-◌, ◌==◌, ◌||◌, ◌∷◌,
}
use esp8266_dns.Base.Int.{negsuc, pos, pos_part, ℤ}
use esp8266_dns.Json.{Kind, Member, Parsed, Value, done, first, fits, object}
use esp8266_dns.Json.Decode.{copy, str}
use esp8266_dns.Json.Written.{Content, Field, write_object}
use esp8266_dns.Password.{Hmac, hashed, password_text}
use esp8266_dns.Store.Table.{FieldType, Row, config_key_hash, fields, row}
use esp8266_dns.Totp.{blank, from_hex, key_len, to_hex}
use mathlib.Core.Option

-- A value of the configuration: a text, a key of 20 bytes, a flag or a number.
pub data Cell : Type 0 where
  text : Bytes → Cell
  key20 : Bytes → Cell
  flag : Bool → Cell
  int : ℤ → Cell

abbrev pub version : ℕ
version = 3

abbrev pub max_file : ℕ
max_file = 4096

abbrev pub blank_key : Bytes
blank_key = replicate key_len 0

-- `_default`; the user is "admin".
unfoldable pub default_for : Bytes → ℤ → FieldType → Cell
unfolding bytes_eq
default_for key def FieldType.string =
    text (if bytes_eq key (codes "usr") then codes "admin" else [])
default_for key def (FieldType.chars n) = text []
default_for key def FieldType.hex20 = key20 blank_key
default_for key def FieldType.boolean = flag (not (pos_part def == 0))
default_for key def _ = int def

abbrev pub default_of : Row → Cell
default_of r = default_for r.key r.def r.type

abbrev pub is_string : Kind → Bool
is_string Kind.string = true
is_string _ = false

abbrev pub is_boolean : Kind → Bool
is_boolean Kind.boolean = true
is_boolean _ = false

abbrev pub is_array : Kind → Bool
is_array Kind.array = true
is_array _ = false

-- The number of 32 bits, as its type reads it.
abbrev pub from_bits : ℕ → ℤ
from_bits n = if ltb n 2147483648 then pos n else negsuc (4294967295 - n)

unfoldable pub number_cell : Option ℕ → (ℕ → ℤ) → Cell → Cell
number_cell none read c = c
number_cell (some n) read c = int (read n)

abbrev pub key_cell : Option Bytes → Cell
key_cell none = key20 blank_key
key_cell (some k) = key20 k

-- `_set`: a value of the field's type, and in its range; anything else leaves the field, but a key,
-- which it clears.
unfoldable pub set_cell : FieldType → Value → Cell → Cell
unfolding str copy fits from_hex number_cell
set_cell FieldType.string v c = if is_string v.kind then text (str v) else c
set_cell (FieldType.chars n) v c = if is_string v.kind then text (copy v n).0 else c
set_cell FieldType.hex20 v c =
    let hex = copy v (key_len * 2 + 2) in
    let whole = is_string v.kind && ltb hex.1 (key_len * 2 + 2) in
    key_cell (from_hex (some (if whole then hex.0 else [])))
set_cell FieldType.boolean v c = if is_boolean v.kind then flag (not (v.mag == 0)) else c
set_cell FieldType.i8 v c = number_cell (fits v (negsuc 127) 127) from_bits c
set_cell FieldType.u8 v c = number_cell (fits v (pos 0) 255) pos c
set_cell FieldType.i16 v c = number_cell (fits v (negsuc 32767) 32767) from_bits c
set_cell FieldType.u16 v c = number_cell (fits v (pos 0) 65535) pos c
set_cell FieldType.u32 v c = number_cell (fits v (pos 0) 4294967295) pos c

-- `_find`: the place of the first row with this key or this hash.
unfoldable pub find_row : List Row → Bytes → ℕ → Option ℕ
unfolding bytes_eq
find_row [] key h = none
find_row (r ∷ rs) key h =
    let rest = find_row rs key h in
    if bytes_eq key r.key || h == r.old then some 0 else Option.map suc rest

-- What a load gathers: `version`, the configuration, and whether `cf_record` was text.
pub record Load : Type 0 where
  pub file_version : ℤ
  pub cells : List Cell
  pub has_record : Bool

-- The hash of `cf_records`, a list until version 1, and the place of `cf_record`.
abbrev pub records_hash : ℕ
records_hash = config_key_hash (codes "cf_records")

abbrev pub record_at : ℕ
record_at = 26

abbrev pub set_record : Parsed Value → Load → Load
set_record (done v) l =
    if is_string v.kind then record l { cells = set l.cells record_at (text (copy v 40).0) } else l
set_record _ l = l

abbrev pub set_found : Option ℕ → Value → Load → Load
set_found none v l = l
set_found (some i) v l =
    let r = get_or fields i (row "" "" FieldType.string (pos 0)) in
    record l {
      cells = set l.cells i (set_cell r.type v (get_or l.cells i (flag false)));
      has_record = l.has_record || i == record_at && is_string v.kind;
    }

abbrev pub set_version : Option ℕ → Load → Load
set_version none l = l
set_version (some n) l = record l { file_version = from_bits n }

-- `_member`, without the fields of version 1.
unfoldable pub set_member : Member → Load → Load
unfolding bytes_eq fits first find_row
set_member m l =
    let h = config_key_hash m.key in
    if bytes_eq m.key (codes "v")
    then set_version (fits m.value (negsuc 2147483646) 2147483647) l
    else if h == records_hash
    then (if is_array m.value.kind && not l.has_record then set_record (first m.value) l else l)
    else set_found (find_row fields m.key h) m.value l

unfoldable pub set_members : List Member → Load → Load
unfolding set_member
set_members [] l = l
set_members (m ∷ ms) l = set_members ms (set_member m l)

abbrev pub start_load : Load
start_load = record { file_version = pos 1; cells = map default_of fields; has_record = false }

abbrev pub load_text : Parsed (List Member) → Option Load
load_text (done ms) = some (set_members ms start_load)
load_text _ = none

-- What the members of the file make of the configuration: `none` is a file that changes nothing. Json
-- reads a zero in the text as the end of the text.
unfoldable pub read_file : Option Bytes → Option Load
unfolding object set_members
read_file none = none
read_file (some s) = if ltb (length s) max_file then load_text (object s) else none

-- What `_write` writes for a field.
unfoldable pub content_of : FieldType → Cell → Content
content_of FieldType.u32 (int z) = Content.unum (pos_part z)
content_of type (text s) = Content.string s
content_of type (key20 k) = Content.string (if blank k then [] else to_hex k)
content_of type (flag b) = Content.flag b
content_of type (int z) = Content.num z

unfoldable pub fields_of : List Row → List Cell → List Field
unfolding content_of
fields_of (r ∷ rs) (c ∷ cs) =
    record { name = r.key; content = content_of r.type c } ∷ fields_of rs cs
fields_of _ _ = []

abbrev pub all_fields : List Cell → List Field
all_fields cs =
    record { name = codes "v"; content = Content.num (pos version) } ∷ fields_of fields cs

pub record Files : Type 0 where
  pub config : Option Bytes
  pub tmp : Option Bytes

-- What the file system does in a save: whether the temporary file can be opened, what it keeps of the
-- bytes that are written to it (a write that falls short is not noticed), and whether it can be
-- renamed.
pub record Disk : Type 0 where
  pub opens : Bool
  pub keeps : Bytes → Bytes
  pub renames : Bool

-- `save`, as the row of the states that the files go through, the last first, with the outcome.
unfoldable pub save : Disk → List Cell → Files → List Files × Bool
unfolding write_object
save disk cs f =
    let written = Option.map disk.keeps (write_object (some []) (all_fields cs)).file in
    let opened = record f { tmp = some [] } in
    let filled = record f { tmp = written } in
    if leb max_file (write_object none (all_fields cs)).n
    then (f ∷ [], false)
    else if not disk.opens
    then (f ∷ [], false)
    else if disk.renames
    then (record { config = written; tmp = none } ∷ filled ∷ opened ∷ f ∷ [], true)
    else (record f { tmp = none } ∷ filled ∷ opened ∷ f ∷ [], false)

-- The place of `webpss`, and its text.
abbrev pub password_at : ℕ
password_at = 1

abbrev pub cell_text : Cell → Bytes
cell_text (text s) = s
cell_text _ = []

abbrev pub password_of : List Cell → Bytes
password_of cs = cell_text (get_or cs password_at (text []))

abbrev pub version_is_one : ℤ → Bool
version_is_one z = pos_part z == 1

-- A password from before the hash.
unfoldable pub needs_hash : List Cell → Bool
unfolding hashed
needs_hash cs = not (length (password_of cs) == 0) && not (hashed (password_of cs))

module _ (hmac : Hmac) where
  -- The salt is what the hardware draws for it.
  unfoldable pub rehash : Bytes → Load → Load
  unfolding needs_hash
  rehash salt l =
      if needs_hash l.cells
      then record l {
        cells = set l.cells password_at (text (password_text hmac (password_of l.cells) salt));
      }
      else l

  -- What `load` makes of the members, with the states of the files: a plain password is replaced and
  -- saved, unless the file is from a newer version. The migration of version 1 is left out.
  unfoldable pub loaded : Bytes → Disk → Files → Load → Option Load × List Files
  unfolding rehash save
  loaded salt disk f l =
      let e = rehash salt l in
      let saves =
        not (version_is_one l.file_version)
        && not (ltb version (pos_part l.file_version))
        && needs_hash l.cells in
      (some e, if saves then (save disk e.cells f).0 else f ∷ [])

  unfoldable pub load : Bytes → Disk → Files → Option Load × List Files
  unfolding read_file loaded
  load salt disk f = elim (read_file f.config) [
    | none ↦ (none, f ∷ [])
    | some l ↦ loaded salt disk f l
  ]
