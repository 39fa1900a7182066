-- ===== src/HttpServer/Link.antt =====
-- HttpServer.h, `_getc` and the error code of `_serve`: the request has a deadline. Each turn of the
-- loop of `_getc` looks at the link once.
use esp8266_dns.Base.{
  Bool, Bytes, List, Option, [], false, if◌then◌else◌, is_some, leb, length, none, not, some, sub32,
  suc, true, zero, ℕ, ◌||◌, ◌∷◌,
}
use esp8266_dns.HttpServer.{Read, Request, ended, ok, parse, refused}

-- The time, the byte that is there to read, and whether the link is up.
pub record Poll : Type 0 where
  pub now : ℕ
  pub byte : Option ℕ
  pub connected : Bool

abbrev pub request_ms : ℕ
request_ms = 3000

abbrev pub read_ms : ℕ
read_ms = 2000

-- What `_getc` returns (`none` is -1), `_late`, and the polls to come.
pub record Got : Type 0 where
  pub byte : Option ℕ
  pub late : Bool
  pub rest : List Poll

-- The loop of `_getc`, called at time `t`; the row of polls ends where the link is down.
unfoldable pub getc_from : ℕ → ℕ → List Poll → Got
getc_from start t [] = record { byte = none; late = false; rest = [] }
getc_from start t (p ∷ ps) =
    let wait = getc_from start t ps in
    if leb request_ms (sub32 p.now start)
    then record { byte = none; late = true; rest = ps }
    else if is_some p.byte
    then record { byte = p.byte; late = false; rest = ps }
    else if not p.connected || leb read_ms (sub32 p.now t)
    then record { byte = none; late = false; rest = ps }
    else wait

unfoldable pub getc : ℕ → List Poll → Got
unfolding getc_from
getc start [] = getc_from start 0 []
getc start (p ∷ ps) = getc_from start p.now (p ∷ ps)

abbrev pub add_byte : Option ℕ → Bool → Bytes × Bool → Bytes × Bool
add_byte none late more = ([], late)
add_byte (some c) late more = (c ∷ more.0, more.1)

-- The bytes of the calls up to the first -1, and `_late` then.
unfoldable pub received : ℕ → ℕ → List Poll → Bytes × Bool
unfolding getc
received zero start polls = ([], false)
received (suc fuel) start polls =
    let g = getc start polls in add_byte g.byte g.late (received fuel start g.rest)

-- The code that `_serve` answers with; 0 leaves the request to the handler.
unfoldable pub code_of : Bool → Read (Request × Bytes) → ℕ
code_of late ended = if late then 408 else 400
code_of late (refused code) = code
code_of late (ok r) = 0

unfoldable pub serve_code : ℕ → List Poll → ℕ
unfolding received code_of parse
serve_code start polls =
    let input = received (suc (length polls)) start polls in code_of input.1 (parse input.0)
