-- ===== src/HttpServer/Parse.antt =====
-- HttpServer.h: a request that is written as HTTP prescribes is read as it was meant.
use esp8266_dns.HttpServer.{headers}
use esp8266_dns.Base.{
  All, Bool, Bytes, List, Option, [], ap, append-nil, append_assoc, arith, false, leb, length,
  length-append, ltb, lt→ltb, none, not, refl, some, suc, sym, true, zero, ℕ, ◌&&◌, ◌++◌, ◌+◌, ◌<◌,
  ◌==◌, ◌∙◌, ◌∷◌, ◌≡◌, ◌≢◌, ◌≤◌,
}
use esp8266_dns.Base.Int.{leb_ℤ, pos, ℤ}
use esp8266_dns.Base.{c_string}
use esp8266_dns.HttpServer.{
  Request, body_of, cut_at, header_line, header_of, line, line_from, line_size, max_body,
  max_headers, method_of, no_request, ok, parse, path_size, read_body, request_line, set_header,
  skip_blanks, split_at,
}
use esp8266_dns.ReverseDns.{query}
use mathlib.Core.Option

-- A byte of a line.
abbrev pub IsLineByte : ℕ → Type 0
IsLineByte c = (c ≢ 13) × (c ≢ 10) × (0 < c)

abbrev pub crlf : Bytes
crlf = 13 ∷ 10 ∷ []

c_string-line : (s : Bytes) → All IsLineByte s → c_string s ≡ s
unfolding c_string
c_string-line [] h = refl
c_string-line (c ∷ s) h = ground (arith, c_string-line s h.1)

All-append : (P : ℕ → Type 0) (s t : Bytes) → All P s → All P t → All P (s ++ t)
All-append P [] t a b = b
All-append P (c ∷ s) t a b = (a.0, All-append P s t a.1 b)

line_from-line :
    (buf s rest : Bytes)
    → All IsLineByte buf
    → All IsLineByte s
    → length buf + length s + 1 ≤ line_size
    → line_from buf (s ++ (13 ∷ 10 ∷ rest)) ≡ ok (buf ++ s, rest)
unfolding line_from
line_from-line buf [] rest h k w =
    ap (λ (t : Bytes). ok (t, rest)) (c_string-line buf h ∙ sym (append-nil buf))
line_from-line buf (c ∷ s) rest h k w =
    let room : (not (c == 13) && ltb (length buf + 1) line_size) ≡ true = ground arith in
    let inside : (c == 10) ≡ false = ground arith in
    rw inside (
      rw room (
        line_from-line (buf ++ c ∷ []) s rest (All-append IsLineByte buf (c ∷ []) h (k.0, tt)) k.1
          (omega (arith, length-append buf (c ∷ [])))
        ∙ ap (λ (t : Bytes). ok (t, rest)) (append_assoc buf (c ∷ []) s)))

line-line :
    (s rest : Bytes)
    → All IsLineByte s
    → length s < line_size
    → line (s ++ (crlf ++ rest)) ≡ ok (s, rest)
unfolding line
line-line s rest h w = line_from-line [] s rest tt h (omega arith)

split_at-first :
    (c : ℕ) (s t : Bytes) → All (λ x. x ≢ c) s → split_at c (s ++ (c ∷ t)) ≡ some (s, t)
unfolding split_at
split_at-first c [] t h = let same : (c == c) ≡ true = ground arith in rw same refl
split_at-first c (x ∷ s) t h =
    let other : (x == c) ≡ false = ground arith in
    rw other (ap (Option.map (λ (p : Bytes × Bytes). (x ∷ p.0, p.1))) (split_at-first c s t h.1))

-- A header with its name and its value.
abbrev pub Header : Type 0
Header = Bytes × Bytes

unfoldable pub header_text : Header → Bytes
header_text h = h.0 ++ (b':' ∷ 32 ∷ h.1)

abbrev starts_blank : Bytes → Bool
starts_blank [] = false
starts_blank (c ∷ s) = c == 32

-- A name with no colon, and a value that does not begin with a space, within the buffer of a line.
pub record IsHeader (h : Header) : Type 0 where
  pub name_text : All (λ c. c ≢ b':') h.0
  pub value_text : starts_blank h.1 ≡ false
  pub line_text : All IsLineByte (header_text h)
  pub line_fits : length (header_text h) < line_size

skip_blanks-value : (v : Bytes) → starts_blank v ≡ false → skip_blanks (32 ∷ v) ≡ v
unfolding skip_blanks
skip_blanks-value [] h = refl
skip_blanks-value (c ∷ v) h = rw h refl

header_line-header_text :
    (h : Header) (r : Request) → IsHeader h → header_line (header_text h) r ≡ set_header h.0 h.1 r
unfolding header_line header_text
header_line-header_text h r w =
    ap (λ (o : Option (Bytes × Bytes)). header_of o r)
      (split_at-first b':' h.0 (32 ∷ h.1) w.name_text)
    ∙ unfold header_of in
      ap (λ (v : Bytes). set_header h.0 v r) (skip_blanks-value h.1 w.value_text)

unfoldable pub headers_text : List Header → Bytes
headers_text [] = crlf
headers_text (h ∷ hs) = header_text h ++ (crlf ++ headers_text hs)

unfoldable pub set_headers : List Header → Request → Request
set_headers [] r = r
set_headers (h ∷ hs) r = set_headers hs (set_header h.0 h.1 r)

header_text-pos : (h : Header) → 0 < length (header_text h)
unfolding header_text
header_text-pos h = omega (arith, length-append h.0 (b':' ∷ 32 ∷ h.1))

-- The end of the head is an empty line.
headers-end : (left : ℕ) (r : Request) (rest : Bytes) → headers left r (crlf ++ rest) ≡ ok (r, rest)
unfolding headers
headers-end zero r rest = rw (line-line [] rest tt (omega arith)) refl
headers-end (suc left) r rest = rw (line-line [] rest tt (omega arith)) refl

headers-line :
    (left : ℕ) (r : Request) (s rest : Bytes)
    → All IsLineByte s
    → length s < line_size
    → 0 < length s
    → headers (suc left) r (s ++ (crlf ++ rest)) ≡ headers left (header_line s r) rest
unfolding headers
headers-line left r s rest h w p =
    let more : (length s == 0) ≡ false = ground arith in rw (line-line s rest h w) (rw more refl)

headers-headers_text :
    (hs : List Header) (left : ℕ) (r : Request) (rest : Bytes)
    → All IsHeader hs
    → length hs ≤ left
    → headers left r (headers_text hs ++ rest) ≡ ok (set_headers hs r, rest)
unfolding headers_text set_headers
headers-headers_text [] left r rest h w = headers-end left r rest
headers-headers_text (x ∷ hs) zero r rest h w = absurd (omega arith)
headers-headers_text (x ∷ hs) (suc left) r rest h w =
    ap (headers (suc left) r) (append_assoc (header_text x) (crlf ++ headers_text hs) rest)
    ∙ headers-line left r (header_text x) (headers_text hs ++ rest) h.0.line_text h.0.line_fits
        (header_text-pos x)
    ∙ ap (λ (q : Request). headers left q (headers_text hs ++ rest))
        (header_line-header_text x r h.0)
    ∙ headers-headers_text hs left (set_header x.0 x.1 r) rest h.1 (omega arith)

-- The target of a request, with a query or without.
unfoldable pub target_text : Bytes → Option Bytes → Bytes
target_text path none = path
target_text path (some query) = path ++ (b'?' ∷ query)

abbrev pub query_of : Option Bytes → Bytes
query_of none = []
query_of (some query) = query

unfoldable pub first_line : Bytes → Bytes → Option Bytes → Bytes → Bytes
unfolding target_text
first_line word path query version = word ++ (32 ∷ (target_text path query ++ (32 ∷ version)))

-- What the first line is made of.
pub record IsTarget (word path : Bytes) (query : Option Bytes) (version : Bytes) : Type 0 where
  pub word_text : All (λ c. c ≢ 32) word
  pub path_text : All (λ c. c ≢ b'?') path
  pub target_plain : All (λ c. c ≢ 32) (target_text path query)
  pub path_fits : length path < path_size
  pub line_text : All IsLineByte (first_line word path query version)
  pub line_fits : length (first_line word path query version) < line_size

split_at-none : (c : ℕ) (s : Bytes) → All (λ x. x ≢ c) s → split_at c s ≡ none
unfolding split_at
split_at-none c [] h = refl
split_at-none c (x ∷ s) h =
    let other : (x == c) ≡ false = ground arith in
    rw other (ap (Option.map (λ (p : Bytes × Bytes). (x ∷ p.0, p.1))) (split_at-none c s h.1))

cut_at-target :
    (path : Bytes) (query : Option Bytes)
    → All (λ c. c ≢ b'?') path
    → cut_at (target_text path query) (split_at b'?' (target_text path query))
      ≡ (path, query_of query)
unfolding target_text cut_at
cut_at-target path none h = rw (split_at-none b'?' path h) refl
cut_at-target path (some q) h = rw (split_at-first b'?' path q h) refl

unfoldable pub started : Bytes → Bytes → Option Bytes → Request
started word path query = record no_request {
  method = method_of word;
  query = query_of query;
  path = path;
}

request_line-first_line :
    (word path version : Bytes) (query : Option Bytes)
    → IsTarget word path query version
    → request_line (first_line word path query version) ≡ ok (started word path query)
unfolding request_line started first_line
request_line-first_line word path version query h =
    let target = target_text path query in
    rw (split_at-first 32 word (target ++ (32 ∷ version)) h.word_text) (
      rw (split_at-first 32 target version h.target_plain) (
        rw (cut_at-target path query h.path_text)
          (rw (lt→ltb (length path) path_size h.path_fits) refl)))

read_body-body :
    (body s rest : Bytes) → read_body (length s) body (s ++ rest) ≡ ok (body ++ s, rest)
unfolding read_body
read_body-body body [] rest = ap (λ (t : Bytes). ok (t, rest)) (sym (append-nil body))
read_body-body body (c ∷ s) rest =
    read_body-body (body ++ c ∷ []) s rest
    ∙ ap (λ (t : Bytes). ok (t, rest)) (append_assoc body (c ∷ []) s)

-- The whole text of a request.
unfoldable pub request_text : Bytes → Bytes → Option Bytes → Bytes → List Header → Bytes → Bytes
request_text word path query version hs body =
    first_line word path query version ++ (crlf ++ (headers_text hs ++ body))

body_of-body :
    (r : Request) (body rest : Bytes)
    → length body ≤ max_body
    → body_of (pos (length body)) r (body ++ rest) ≡ ok (record r { body = body }, rest)
unfolding body_of
body_of-body r body rest h =
    let allowed : (leb_ℤ (pos 0) (pos (length body)) && leb (length body) max_body) ≡ true =
      ground arith in
    rw allowed (rw (read_body-body [] body rest) refl)

-- A request of up to 32 header lines, each within the buffer of a line, whose headers announce the
-- length of its body, 2048 bytes at most: it is ready, with its method, its path, its query, the
-- headers in their order and the whole body, and nothing behind it is read.
pub parse-request_text :
    (word path version body rest : Bytes) (query : Option Bytes) (hs : List Header)
    → IsTarget word path query version
    → All IsHeader hs
    → length hs ≤ max_headers
    → (set_headers hs (started word path query)).content_length ≡ pos (length body)
    → length body ≤ max_body
    → parse (request_text word path query version hs (body ++ rest))
      ≡ ok (record (set_headers hs (started word path query)) { body = body }, rest)
unfolding parse request_text
parse-request_text word path version body rest query hs t h n z w =
    let r = started word path query in
    let tail = body ++ rest in
    rw
      (line-line (first_line word path query version) (headers_text hs ++ tail) t.line_text
        t.line_fits)
      (rw (request_line-first_line word path version query t) (
        rw (headers-headers_text hs max_headers r tail h n) (
          ap (λ (z : ℤ). body_of z (set_headers hs r) tail) z
          ∙ body_of-body (set_headers hs r) body rest w)))
