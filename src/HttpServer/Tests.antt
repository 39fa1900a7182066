-- ===== src/HttpServer/Tests.antt =====
-- HttpServer.h: tests.
use esp8266_dns.HttpServer.Output.{put}
use esp8266_dns.HttpServer.{headers}
use esp8266_dns.Base.{
  All, Bytes, List, [], arith, codes, length, refl, replicate, some, true, ℕ, ◌++◌, ◌∷◌, ◌≡◌,
}
use esp8266_dns.Base.Int.{pos}
use esp8266_dns.Base.{c_string}
use esp8266_dns.HttpServer.{
  Method, Read, Request, atol, ended, header_line, host_name, line, no_request, ok, parse,
  read_body, refused, request_line, same_name, set_header, skip_blanks, split_at, starts_with,
}
use esp8266_dns.HttpServer.Arguments.{find, find_piece, percent, pieces_from, url_decode, value_of}
use esp8266_dns.HttpServer.Bounds.{IsReady, parse-IsReady}
use esp8266_dns.HttpServer.Link.{Poll, received, serve_code}
use esp8266_dns.HttpServer.Output.{Out, send}
use esp8266_dns.HttpServer.Output.Response.{end_line, length_line, send-total, status_line}
use esp8266_dns.HttpServer.Output.Segments.{IsOut, concat, put-total, total}
use esp8266_dns.HttpServer.Parse.{
  Header, IsHeader, IsTarget, first_line, header_text, parse-request_text, request_text,
  set_headers, started, target_text,
}
use esp8266_dns.HttpServer.Query.{Pair, find-query_text, first_value, query_text}

abbrev post_text : Bytes
post_text =
    codes
      "POST /api/cmd?x=1&x=2 HTTP/1.1\r\nHost: Panel.local:80\r\nContent-Length: 5\r\nX: y\r\n\r\nhello!"

request_of : Read (Request × Bytes) → Request × Bytes
request_of ended = (no_request, codes "ended")
request_of (refused n) = (no_request, codes "refused")
request_of (ok r) = r

post_request : request_of (parse post_text) ≡ (
  record no_request {
    method = Method.post;
    path = codes "/api/cmd";
    host = codes "panel.local";
    query = codes "x=1&x=2";
    body = codes "hello";
    content_length = pos 5;
  },
  codes "!",
)
unfolding request_of parse line request_line split_at headers header_line set_header same_name
    host_name atol skip_blanks read_body
post_request = refl

long_path : parse (codes "GET /123456789012345678901234 HTTP/1.1\r\n\r\n") ≡ refused 404
unfolding parse line request_line split_at
long_path = refl

query_argument : find (codes "a=1&name=x%20y+z&name=2") (codes "name") ≡ some (codes "x y z")
unfolding find find_piece value_of url_decode percent c_string pieces_from starts_with
query_argument = refl

get_line : Bytes
get_line = first_line (codes "GET") (codes "/") (some (codes "a=b")) (codes "HTTP/1.1")

abbrev get_headers : List Header
get_headers = (codes "Host", codes "Dev:8080") ∷ (codes "Content-Length", codes "2") ∷ []

get_IsTarget : IsTarget (codes "GET") (codes "/") (some (codes "a=b")) (codes "HTTP/1.1")
unfolding first_line target_text
get_IsTarget = record {
  word_text = omega arith;
  path_text = omega arith;
  target_plain = omega arith;
  path_fits = omega arith;
  line_text = omega arith;
  line_fits = omega arith;
}

get_headers-IsHeader : All IsHeader get_headers
unfolding header_text
get_headers-IsHeader = (
  record {
    name_text = omega arith;
    value_text = refl;
    line_text = omega arith;
    line_fits = omega arith;
  },
  (
    record {
      name_text = omega arith;
      value_text = refl;
      line_text = omega arith;
      line_fits = omega arith;
    },
    tt,
  ),
)

announced :
    (set_headers get_headers
      (started (codes "GET") (codes "/") (some (codes "a=b")))).content_length
    ≡ pos 2
unfolding set_headers set_header same_name started atol host_name
announced = refl

parse-request_text_example :
    parse (
      request_text
        (codes "GET")
        (codes "/")
        (some (codes "a=b"))
        (codes "HTTP/1.1")
        get_headers
        (codes "ok" ++ codes "more"))
    ≡ ok (
      record (set_headers get_headers (started (codes "GET") (codes "/") (some (codes "a=b")))) {
        body = codes "ok";
      },
      codes "more",
    )
parse-request_text_example =
    parse-request_text (codes "GET") (codes "/") (codes "HTTP/1.1") (codes "ok") (codes "more")
      (some (codes "a=b")) get_headers get_IsTarget get_headers-IsHeader (omega arith) announced
      (omega arith)

abbrev put_text : Bytes
put_text = codes "GET / H\r\nHost: a\r\n\r\nrest"

put_text-parse :
    parse put_text
    ≡ ok (
      record no_request { method = Method.get; path = codes "/"; host = codes "a" },
      codes "rest",
    )
unfolding parse line request_line split_at headers header_line set_header same_name host_name
    skip_blanks read_body
put_text-parse = refl

parse-IsReady_example :
    IsReady (record no_request { method = Method.get; path = codes "/"; host = codes "a" })
parse-IsReady_example =
    parse-IsReady put_text (codes "rest")
      (record no_request { method = Method.get; path = codes "/"; host = codes "a" }) put_text-parse

abbrev drip : ℕ → Poll
drip t = record { now = t; byte = some b'G'; connected = true }

drip_code : serve_code 1000 (drip 1000 ∷ drip 2500 ∷ drip 4000 ∷ drip 4001 ∷ []) ≡ 408
unfolding serve_code received parse line
drip_code = refl

abbrev pairs : List Pair
pairs = (codes "ssid", codes "My net&50%") ∷ (codes "pass", []) ∷ (codes "ssid", codes "x") ∷ []

find-query_text_example : find (query_text pairs) (codes "ssid") ≡ first_value (codes "ssid") pairs
find-query_text_example = find-query_text (codes "ssid") pairs (omega arith) (omega arith)

abbrev empty_out : Out
empty_out = record { out = []; written = []; headers = []; content_length = some 0 }

empty-IsOut : IsOut empty_out
empty-IsOut = record { fits = omega arith; full = tt }

put-total_example :
    (total (put (replicate 600 7) empty_out) ≡ total empty_out ++ replicate 600 7)
    × IsOut (put (replicate 600 7) empty_out)
put-total_example = put-total (replicate 600 7) empty_out empty-IsOut

send-total_example :
    (total (send 200 (codes "text/plain") (codes "hi") empty_out)
      ≡ total empty_out
        ++ concat (
            status_line 200 (codes "text/plain")
            ∷ length_line (length (codes "hi"))
            ∷ empty_out.headers
            ∷ end_line
            ∷ codes "hi"
            ∷ []))
    × IsOut (send 200 (codes "text/plain") (codes "hi") empty_out)
send-total_example = send-total 200 (codes "text/plain") (codes "hi") empty_out empty-IsOut refl
