-- ===== src/HttpServer.antt =====
-- HttpServer.h: reading one request. The bytes that `_getc` returns one after the other are a row;
-- the end of the row is the first -1. Text in a buffer is a C string: a zero byte ends it.
pub mod Link
pub mod Deadline
pub mod Arguments
pub mod Output
pub mod Bounds
pub mod Parse
pub mod Query
mod Tests
use esp8266_dns.Base.{c_string}
use esp8266_dns.Base.{
  Bool, Bytes, Option, [], bytes_eq, codes, false, if◌then◌else◌, leb, length, ltb, map, min, none,
  not, some, suc, true, within, zero, ℕ, ◌&&◌, ◌*◌, ◌++◌, ◌+◌, ◌-◌, ◌==◌, ◌||◌, ◌∷◌,
}
use esp8266_dns.Base.Decimal.{is_digit}
use esp8266_dns.Base.Int.{leb_ℤ, pos, pos_part, sub_ℕ, ℤ}
use mathlib.Core.Option

pub data Method : Type 0 where
  get : Method
  post : Method
  other : Method

abbrev pub max_body : ℕ
max_body = 2048

abbrev pub line_size : ℕ
line_size = 224

abbrev pub path_size : ℕ
path_size = 24

abbrev pub host_size : ℕ
host_size = 64

abbrev pub max_headers : ℕ
max_headers = 32

-- What `_parse` finds; `length` is the local variable of that name.
pub record Request : Type 0 where
  pub method : Method
  pub path : Bytes
  pub host : Bytes
  pub query : Bytes
  pub body : Bytes
  pub auth : Bytes
  pub cookie : Bytes
  pub form : Bool
  pub content_length : ℤ

abbrev pub no_request : Request
no_request = record {
  method = Method.other;
  path = [];
  host = [];
  query = [];
  body = [];
  auth = [];
  cookie = [];
  form = false;
  content_length = pos 0;
}

-- How the reading goes: the input ended (`_getc` gave -1), an error code, or a result.
pub data Read {ℓ} (A : Type ℓ) : Type ℓ where
  ended : Read A
  refused : ℕ → Read A
  ok : A → Read A

infixl 5 ◌>>=◌
abbrev pub ◌>>=◌ {ℓ κ} : {A : Type ℓ} {B : Type κ} → Read A → (A → Read B) → Read B
ended >>= f = ended
refused code >>= f = refused code
ok a >>= f = f a

abbrev pub guard : Bool → ℕ → Read (Unit {0})
guard true code = ok tt
guard false code = refused code

-- The text before the first `c`, and the text behind it.
unfoldable pub split_at : ℕ → Bytes → Option (Bytes × Bytes)
split_at c [] = none
split_at c (x ∷ s) =
    let rest = split_at c s in
    if x == c then some ([], s) else Option.map (λ (p : Bytes × Bytes). (x ∷ p.0, p.1)) rest

-- One line without its end; what exceeds the buffer is dropped.
unfoldable pub line_from : Bytes → Bytes → Read (Bytes × Bytes)
unfolding c_string
line_from buf [] = ended
line_from buf (c ∷ s) =
    let next =
      line_from (if not (c == 13) && ltb (length buf + 1) line_size then buf ++ c ∷ [] else buf)
        s in
    if c == 10 then ok (c_string buf, s) else next

unfoldable pub line : Bytes → Read (Bytes × Bytes)
unfolding line_from
line s = line_from [] s

unfoldable pub to_lower : ℕ → ℕ
to_lower c = if within b'A' b'Z' c then c + 32 else c

-- `strcasecmp(a, b) == 0`
unfoldable pub same_name : Bytes → Bytes → Bool
unfolding to_lower
same_name [] [] = true
same_name (x ∷ a) (y ∷ b) = to_lower x == to_lower y && same_name a b
same_name _ _ = false

unfoldable pub skip_blanks : Bytes → Bytes
skip_blanks [] = []
skip_blanks (c ∷ s) = let rest = skip_blanks s in if c == 32 then rest else c ∷ s

unfoldable pub starts_with : Bytes → Bytes → Bool
starts_with [] s = true
starts_with (w ∷ word) [] = false
starts_with (w ∷ word) (c ∷ s) = w == c && starts_with word s

-- `strstr(s, word) != nullptr`
unfoldable pub contains : Bytes → Bytes → Bool
unfolding starts_with
contains word [] = starts_with word []
contains word (c ∷ s) = starts_with word (c ∷ s) || contains word s

-- The digits of a number, which stops growing above 32 bits.
unfoldable pub digits_from : ℕ → Bytes → ℕ
unfolding is_digit
digits_from v [] = v
digits_from v (c ∷ s) =
    let rest = digits_from (min (v * 10 + (c - b'0')) 4294967295) s in
    if is_digit c then rest else v

unfoldable pub skip_white : Bytes → Bytes
skip_white [] = []
skip_white (c ∷ s) = let rest = skip_white s in if c == 32 || within 9 13 c then rest else c ∷ s

-- `atol`: a value that does not fit is the nearest that does.
unfoldable pub signed : Bytes → ℤ
unfolding digits_from
signed [] = pos 0
signed (c ∷ s) =
    if c == b'-'
    then sub_ℕ 0 (min (digits_from 0 s) 2147483648)
    else pos (min (digits_from 0 (if c == b'+' then s else c ∷ s)) 2147483647)

unfoldable pub atol : Bytes → ℤ
unfolding skip_white signed
atol s = signed (skip_white s)

-- The text before a mark and behind it; all of it, if the mark is missing.
unfoldable pub cut_at : Bytes → Option (Bytes × Bytes) → Bytes × Bytes
cut_at s none = (s, [])
cut_at s (some parts) = parts

-- `_setHost`: the name before the port, in lower case.
unfoldable pub host_name : Bytes → Bytes
unfolding cut_at
host_name v =
    let name = (cut_at v (split_at b':' v)).0 in
    if length name == 0 || leb host_size (length name) then b'?' ∷ [] else map to_lower name

unfoldable pub set_header : Bytes → Bytes → Request → Request
set_header name v r =
    if same_name name (codes "Authorization")
    then record r { auth = v }
    else if same_name name (codes "Cookie")
    then record r { cookie = v }
    else if same_name name (codes "Host")
    then record r { host = host_name v }
    else if same_name name (codes "Content-Length")
    then record r { content_length = atol v }
    else if same_name name (codes "Content-Type")
    then record r { form = contains (codes "x-www-form-urlencoded") v }
    else r

unfoldable pub header_of : Option (Bytes × Bytes) → Request → Request
header_of none r = r
header_of (some (name, v)) r = set_header name (skip_blanks v) r

unfoldable pub header_line : Bytes → Request → Request
unfolding header_of
header_line s r = header_of (split_at b':' s) r

-- The header lines; `left` more may come.
unfoldable pub headers : ℕ → Request → Bytes → Read (Request × Bytes)
headers zero r s = line s >>= λ l. if length l.0 == 0 then ok (r, l.1) else refused 431
headers (suc left) r s = line s >>= λ l.
    let rest = headers left (header_line l.0 r) l.1 in if length l.0 == 0 then ok (r, l.1) else rest

unfoldable pub read_body : ℕ → Bytes → Bytes → Read (Bytes × Bytes)
read_body zero body s = ok (body, s)
read_body (suc n) body [] = ended
read_body (suc n) body (c ∷ s) = read_body n (body ++ c ∷ []) s

unfoldable pub method_of : Bytes → Method
unfolding bytes_eq
method_of s =
    if bytes_eq s (codes "GET")
    then Method.get
    else if bytes_eq s (codes "POST")
    then Method.post
    else Method.other

-- `if (!end) return 400;`
abbrev pub or_400 {ℓ} : {A : Type ℓ} → Option A → Read A
or_400 none = refused 400
or_400 (some a) = ok a

-- The first line: the method, and the path with its query.
unfoldable pub request_line : Bytes → Read Request
unfolding cut_at method_of
request_line s = or_400 (split_at 32 s) >>= λ word. or_400 (split_at 32 word.1) >>= λ target.
    let parts = cut_at target.0 (split_at b'?' target.0) in
    guard (ltb (length parts.0) path_size) 404 >>= λ _.
    ok (record no_request { method = method_of word.0; query = parts.1; path = parts.0 })

-- The body, of the length that the headers announce.
unfoldable pub body_of : ℤ → Request → Bytes → Read (Request × Bytes)
body_of n r s = guard (leb_ℤ (pos 0) n && leb (pos_part n) max_body) 413 >>= λ _.
    read_body (pos_part n) [] s >>= λ b. ok (record r { body = b.0 }, b.1)

-- `_parse`; the result has the bytes that were not read.
unfoldable pub parse : Bytes → Read (Request × Bytes)
unfolding body_of
parse s = line s >>= λ first_line. request_line first_line.0 >>= λ r.
    headers max_headers r first_line.1 >>= λ h. body_of h.0.content_length h.0 h.1
