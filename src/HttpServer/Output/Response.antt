-- ===== src/HttpServer/Output/Response.antt =====
-- HttpServer.h: what `send` puts, line by line.
use esp8266_dns.HttpServer.Output.{put}
use esp8266_dns.HttpServer.Output.{head}
use esp8266_dns.Base.{
  Bytes, List, [], ap, arith, codes, is_some, length, refl, some, subst, suc, sym, take, true, zero,
  ℕ, ◌++◌, ◌∙◌, ◌∷◌, ◌≡◌,
}
use esp8266_dns.Base.Decimal.{decimal}
use esp8266_dns.HttpServer.Output.{Out, make_room, put_loop, put_step, send}
use esp8266_dns.HttpServer.Output.Segments.{IsOut, concat, put_all, put_all-total, total}

-- The putting changes neither the headers nor the length.
abbrev Keeps : Out → Out → Type 0
Keeps o p = (p.headers ≡ o.headers) × (p.content_length ≡ o.content_length)

put_step-Keeps : (s : Bytes) (o : Out) → Keeps o (put_step s o).1
unfolding put_step make_room
put_step-Keeps s o = ground arith

put_loop-Keeps : (fuel : ℕ) (s : Bytes) (o : Out) → Keeps o (put_loop fuel s o)
unfolding put_loop
put_loop-Keeps zero s o = (refl, refl)
put_loop-Keeps (suc fuel) [] o = (refl, refl)
put_loop-Keeps (suc fuel) (c ∷ s) o =
    let step = put_step-Keeps (c ∷ s) o in
    let rest = put_loop-Keeps fuel (put_step (c ∷ s) o).0 (put_step (c ∷ s) o).1 in
    (rest.0 ∙ step.0, rest.1 ∙ step.1)

put-Keeps : (s : Bytes) (o : Out) → Keeps o (put s o)
unfolding put
put-Keeps s o = put_loop-Keeps (length s) s o

-- The lines of a response.
abbrev pub status_line : ℕ → Bytes → Bytes
status_line status type = take 95 (
    codes "HTTP/1.1 "
    ++ (decimal status ++ (codes " \r\nContent-Type: " ++ (type ++ codes "\r\n"))))

abbrev pub length_line : ℕ → Bytes
length_line n = take 95 (codes "Content-Length: " ++ (decimal n ++ codes "\r\n"))

abbrev pub end_line : Bytes
end_line = codes "Connection: close\r\n\r\n"

head-put_all :
    (status n : ℕ) (type : Bytes) (o : Out)
    → o.content_length ≡ some n
    → head status type o
      ≡ put_all (status_line status type ∷ length_line n ∷ o.headers ∷ end_line ∷ []) o
unfolding head put_all put
head-put_all status n type o e =
    let o1 = put (status_line status type) o in
    let o2 = put (length_line n) o1 in
    let known : o1.content_length ≡ some n = (put-Keeps (status_line status type) o).1 ∙ e in
    let same : o2.headers ≡ o.headers =
      (put-Keeps (length_line n) o1).0 ∙ (put-Keeps (status_line status type) o).0 in
    rw known (ap (λ (h : Bytes). put end_line (put h o2)) same)

put_all-snoc :
    (ss : List Bytes) (s : Bytes) (o : Out) → put s (put_all ss o) ≡ put_all (ss ++ s ∷ []) o
unfolding put_all
put_all-snoc [] s o = refl
put_all-snoc (x ∷ ss) s o = put_all-snoc ss s (put x o)

-- A body whose length is announced: the response is the status line, the length of the body, the
-- headers that were set, the end of the head and the whole body, in full segments.
pub send-total :
    (status : ℕ) (type body : Bytes) (o : Out)
    → IsOut o
    → is_some o.content_length ≡ true
    → (total (send status type body o)
        ≡ total o
          ++ concat (
              status_line status type
              ∷ length_line (length body)
              ∷ o.headers
              ∷ end_line
              ∷ body
              ∷ []))
      × IsOut (send status type body o)
unfolding send
send-total status type body o v e =
    let sized = record o { content_length = some (length body) } in
    let lines =
      status_line status type ∷ length_line (length body) ∷ o.headers ∷ end_line ∷ body ∷ [] in
    let ready : IsOut sized = record { fits = v.fits; full = v.full } in
    let first_four =
      status_line status type ∷ length_line (length body) ∷ o.headers ∷ end_line ∷ [] in
    let opened : send status type body o ≡ put body (head status type sized) = rw e refl in
    let text : send status type body o ≡ put_all lines sized =
      opened
      ∙ ap (put body) (head-put_all status (length body) type sized refl)
      ∙ put_all-snoc first_four body sized in
    let out = put_all-total lines sized ready in
    (ap (λ (p : Out). total p) text ∙ out.0, subst IsOut (sym text) out.1)
