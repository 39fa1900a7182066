-- ===== src/HttpServer/Output.antt =====
-- HttpServer.h: the response, gathered into segments of 536 bytes.
pub mod Segments
pub mod Response
use esp8266_dns.Base.{
  Bytes, List, Option, [], codes, drop, if◌then◌else◌, is_some, length, none, some, suc, take, zero,
  ℕ, ◌++◌, ◌-◌, ◌==◌, ◌∷◌,
}
use esp8266_dns.Base.Decimal.{decimal}
use esp8266_dns.Json.{value}
use esp8266_dns.ReverseDns.Names.{room}

abbrev pub out_len : ℕ
out_len = 536

-- `out` holds the `_used` bytes; `written` is what went to the link, the last first.
pub record Out : Type 0 where
  pub out : Bytes
  pub written : List Bytes
  pub headers : Bytes
  pub content_length : Option ℕ

unfoldable pub flush : Out → Out
flush o = record o { out = []; written = o.out ∷ o.written }

-- The buffer with room in it, at the start of a turn.
unfoldable pub make_room : Out → Out
unfolding flush
make_room o = if length o.out == out_len then flush o else o

-- One turn of the loop of `_put`: what is left of the text.
unfoldable pub put_step : Bytes → Out → Bytes × Out
put_step s o =
    let room = make_room o in
    let k = out_len - length room.out in (drop k s, record room { out = room.out ++ take k s })

unfoldable pub put_loop : ℕ → Bytes → Out → Out
unfolding put_step
put_loop zero s o = o
put_loop (suc fuel) [] o = o
put_loop (suc fuel) (c ∷ s) o = let next = put_step (c ∷ s) o in put_loop fuel next.0 next.1

unfoldable pub put : Bytes → Out → Out
unfolding put_loop
put s o = put_loop (length s) s o

-- `_head`: the lines are cut to the buffer of 96 bytes; `none` is UNKNOWN_LENGTH.
unfoldable pub head : ℕ → Bytes → Out → Out
unfolding decimal
head code type o =
    let status =
      codes "HTTP/1.1 "
      ++ (decimal code ++ (codes " \r\nContent-Type: " ++ (type ++ codes "\r\n"))) in
    let o1 = put (take 95 status) o in
    let o2 : Out = elim o1.content_length [
      | none ↦ o1
      | some n ↦ put (take 95 (codes "Content-Length: " ++ (decimal n ++ codes "\r\n"))) o1
    ] in
    put (codes "Connection: close\r\n\r\n") (put o2.headers o2)

unfoldable pub send_header : Bytes → Bytes → Out → Out
send_header name value o = record o {
  headers = o.headers ++ (name ++ (codes ": " ++ (value ++ codes "\r\n")));
}

unfoldable pub send : ℕ → Bytes → Bytes → Out → Out
send code type body o =
    let sized =
      if is_some o.content_length then record o { content_length = some (length body) } else o in
    put body (head code type sized)

unfoldable pub send_p : ℕ → Bytes → Bytes → Out → Out
send_p code type body o =
    put body (head code type (record o { content_length = some (length body) }))
