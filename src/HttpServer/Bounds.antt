-- ===== src/HttpServer/Bounds.antt =====
-- HttpServer.h: what a request that is ready for the handler keeps to, whatever was sent.
use esp8266_dns.HttpServer.{headers}
use esp8266_dns.Base.{
  Bool, Bytes, Option, Option-cases, [], ap, arith, codes, false, if_cases, if◌then◌else◌, inl, inr,
  leb, length, length-append, ltb, ltb→lt, map, none, not, refl, some, subst, suc, true, zero, ℕ,
  ◌&&◌, ◌++◌, ◌+◌, ◌<◌, ◌==◌, ◌||◌, ◌∷◌, ◌≡◌, ◌≤◌,
}
use esp8266_dns.Base.Int.{leb_ℤ, negsuc, pos, pos_part, ℤ}
use esp8266_dns.Base.{c_string}
use esp8266_dns.HttpServer.{
  Read, Request, cut_at, ended, guard, header_line, header_of, host_name, host_size, line,
  line_from, line_size, max_body, max_headers, ok, or_400, parse, path_size, read_body, refused,
  request_line, same_name, set_header, skip_blanks, split_at, to_lower, ◌>>=◌,
}

-- A result, if there is one, meets the predicate.
abbrev Gives {ℓ} : {A : Type ℓ} → (A → Type 0) → Read A → Type 0
Gives P ended = Unit
Gives P (refused n) = Unit
Gives P (ok a) = P a

Gives-bind {ℓ κ} :
    {A : Type ℓ} {B : Type κ} (P : A → Type 0) (Q : B → Type 0) (m : Read A) (f : A → Read B)
    → Gives P m
    → ((a : A) → P a → Gives Q (f a))
    → Gives Q (m >>= f)
Gives-bind P Q ended f h k = tt
Gives-bind P Q (refused n) f h k = tt
Gives-bind P Q (ok a) f h k = k a h

length-c_string : (s : Bytes) → length (c_string s) ≤ length s
unfolding c_string
length-c_string [] = omega arith
length-c_string (c ∷ s) = ground (arith, length-c_string s)

abbrev IsLine : Bytes × Bytes → Type 0
IsLine l = length l.0 < line_size

-- The bytes that are kept of a line.
abbrev kept : Bytes → ℕ → Bytes
kept buf c = if not (c == 13) && ltb (length buf + 1) line_size then buf ++ c ∷ [] else buf

length-kept : (buf : Bytes) (c : ℕ) → length buf < line_size → length (kept buf c) < line_size
length-kept buf c h = ground (arith, length-append buf (c ∷ []))

line_from-IsLine : (buf s : Bytes) → length buf < line_size → Gives IsLine (line_from buf s)
unfolding line_from
line_from-IsLine buf [] h = tt
line_from-IsLine buf (c ∷ s) h =
    if_cases (Gives IsLine) (c == 10) _ _ (λ _. omega (arith, length-c_string buf))
      (λ _. line_from-IsLine (kept buf c) s (length-kept buf c h))

line-IsLine : (s : Bytes) → Gives IsLine (line s)
unfolding line
line-IsLine s = line_from-IsLine [] s (omega arith)

-- The two parts are shorter than the text.
abbrev Parts : ℕ → Option (Bytes × Bytes) → Type 0
Parts n none = Unit
Parts n (some (a, b)) = length a + length b < n

split_at-Parts : (c : ℕ) (s : Bytes) → Parts (length s) (split_at c s)
unfolding split_at
split_at-Parts c [] = tt
split_at-Parts c (x ∷ s) =
    if_cases (Parts (suc (length s))) (x == c) _ _ (λ _. omega arith)
      (λ _. elim (Option-cases (split_at c s)) [
        | inl e ↦ rw e tt
        | inr (p, e) ↦ rw e (omega (arith, subst (Parts (length s)) e (split_at-Parts c s)))
      ])

-- The buffers of the object hold what they are given.
pub record IsRequest (r : Request) : Type 0 where
  pub path_fits : length r.path < path_size
  pub host_fits : length r.host < host_size
  pub query_fits : length r.query < line_size
  pub auth_fits : length r.auth < line_size
  pub cookie_fits : length r.cookie < line_size

length-map : (f : ℕ → ℕ) (s : Bytes) → length (map f s) ≡ length s
length-map f [] = refl
length-map f (c ∷ s) = ap suc (length-map f s)

length-host_name : (v : Bytes) → length (host_name v) < host_size
unfolding host_name
length-host_name v =
    let name = (cut_at v (split_at b':' v)).0 in
    if_cases (λ (t : Bytes). length t < host_size) (length name == 0 || leb host_size (length name))
      _ _ (λ _. omega arith) (λ e. ground (arith, length-map to_lower name))

length-skip_blanks : (s : Bytes) → length (skip_blanks s) ≤ length s
unfolding skip_blanks
length-skip_blanks [] = omega arith
length-skip_blanks (c ∷ s) = ground (arith, length-skip_blanks s)

set_header-IsRequest :
    (name v : Bytes) (r : Request)
    → length v < line_size
    → IsRequest r
    → IsRequest (set_header name v r)
unfolding set_header
set_header-IsRequest name v r h q =
    if_cases IsRequest (same_name name (codes "Authorization")) _ _
      (λ _. record {
        path_fits = q.path_fits;
        host_fits = q.host_fits;
        query_fits = q.query_fits;
        auth_fits = h;
        cookie_fits = q.cookie_fits;
      })
      (λ _.
        if_cases IsRequest (same_name name (codes "Cookie")) _ _
          (λ _. record {
            path_fits = q.path_fits;
            host_fits = q.host_fits;
            query_fits = q.query_fits;
            auth_fits = q.auth_fits;
            cookie_fits = h;
          })
          (λ _.
            if_cases IsRequest (same_name name (codes "Host")) _ _
              (λ _. record {
                path_fits = q.path_fits;
                host_fits = length-host_name v;
                query_fits = q.query_fits;
                auth_fits = q.auth_fits;
                cookie_fits = q.cookie_fits;
              })
              (λ _.
                if_cases IsRequest (same_name name (codes "Content-Length")) _ _
                  (λ _. record {
                    path_fits = q.path_fits;
                    host_fits = q.host_fits;
                    query_fits = q.query_fits;
                    auth_fits = q.auth_fits;
                    cookie_fits = q.cookie_fits;
                  })
                  (λ _.
                    if_cases IsRequest (same_name name (codes "Content-Type")) _ _
                      (λ _. record {
                        path_fits = q.path_fits;
                        host_fits = q.host_fits;
                        query_fits = q.query_fits;
                        auth_fits = q.auth_fits;
                        cookie_fits = q.cookie_fits;
                      })
                      (λ _. q)))))

header_of-IsRequest :
    (o : Option (Bytes × Bytes)) (r : Request)
    → Parts line_size o
    → IsRequest r
    → IsRequest (header_of o r)
unfolding header_of
header_of-IsRequest none r h q = q
header_of-IsRequest (some (name, v)) r h q =
    set_header-IsRequest name (skip_blanks v) r (omega (arith, length-skip_blanks v)) q

Parts-le : (m n : ℕ) (o : Option (Bytes × Bytes)) → m ≤ n → Parts m o → Parts n o
Parts-le m n none h p = tt
Parts-le m n (some (a, b)) h p = omega arith

header_line-IsRequest :
    (s : Bytes) (r : Request) → length s < line_size → IsRequest r → IsRequest (header_line s r)
unfolding header_line
header_line-IsRequest s r h q =
    header_of-IsRequest (split_at b':' s) r
      (Parts-le (length s) line_size (split_at b':' s) (omega arith) (split_at-Parts b':' s)) q

abbrev HasRequest : Request × Bytes → Type 0
HasRequest p = IsRequest p.0

headers-IsRequest :
    (left : ℕ) (r : Request) (s : Bytes) → IsRequest r → Gives HasRequest (headers left r s)
unfolding headers
headers-IsRequest zero r s q =
    Gives-bind IsLine HasRequest (line s) _ (line-IsLine s)
      (λ l h. if_cases (Gives HasRequest) (length l.0 == 0) _ _ (λ _. q) (λ _. tt))
headers-IsRequest (suc left) r s q = Gives-bind IsLine HasRequest (line s) _ (line-IsLine s) (λ l h.
    if_cases (Gives HasRequest) (length l.0 == 0) _ _ (λ _. q)
      (λ _. headers-IsRequest left (header_line l.0 r) l.1 (header_line-IsRequest l.0 r h q)))

length-cut_at :
    (s : Bytes) (o : Option (Bytes × Bytes))
    → Parts (length s) o
    → (length (cut_at s o).0 ≤ length s) × (length (cut_at s o).1 ≤ length s)
unfolding cut_at
length-cut_at s none h = omega arith
length-cut_at s (some (a, b)) h = omega arith

or_400-Gives :
    (n : ℕ) (o : Option (Bytes × Bytes))
    → Parts n o
    → Gives (λ (p : Bytes × Bytes). length p.0 + length p.1 < n) (or_400 o)
or_400-Gives n none h = tt
or_400-Gives n (some (a, b)) h = h

guard-Gives : (b : Bool) (n : ℕ) → Gives (λ (u : Unit {0}). b ≡ true) (guard b n)
guard-Gives true n = refl
guard-Gives false n = tt

request_line-IsRequest : (s : Bytes) → length s < line_size → Gives IsRequest (request_line s)
unfolding request_line
request_line-IsRequest s h =
    Gives-bind _ IsRequest (or_400 (split_at 32 s)) _
      (or_400-Gives (length s) (split_at 32 s) (split_at-Parts 32 s))
      (λ word w.
        Gives-bind _ IsRequest (or_400 (split_at 32 word.1)) _
          (or_400-Gives (length word.1) (split_at 32 word.1) (split_at-Parts 32 word.1))
          (λ target t.
            let parts = cut_at target.0 (split_at b'?' target.0) in
            let query =
              length-cut_at target.0 (split_at b'?' target.0) (split_at-Parts b'?' target.0) in
            Gives-bind _ IsRequest (guard (ltb (length parts.0) path_size) 404) _
              (guard-Gives (ltb (length parts.0) path_size) 404)
              (λ u short. record {
                path_fits = ltb→lt _ _ short;
                host_fits = omega arith;
                query_fits = omega (arith, w, t, query);
                auth_fits = omega arith;
                cookie_fits = omega arith;
              })))

length-read_body :
    (n : ℕ) (body s : Bytes)
    → Gives (λ (b : Bytes × Bytes). length b.0 ≡ length body + n) (read_body n body s)
unfolding read_body
length-read_body zero body s = omega arith
length-read_body (suc n) body [] = tt
length-read_body (suc n) body (c ∷ s) =
    let size : length (body ++ c ∷ []) + n ≡ length body + suc n =
      omega (arith, length-append body (c ∷ [])) in
    subst (λ k. Gives (λ (b : Bytes × Bytes). length b.0 ≡ k) (read_body n (body ++ c ∷ []) s)) size
      (length-read_body n (body ++ c ∷ []) s)

-- A request that is ready keeps within its buffers, and its body has exactly the bytes that were
-- announced, 2048 at most.
pub record IsReady (r : Request) : Type 0 where
  pub request : IsRequest r
  pub announced : r.content_length ≡ pos (length r.body)
  pub body_fits : length r.body ≤ max_body

abbrev HasReady : Request × Bytes → Type 0
HasReady p = IsReady p.0

length_allowed :
    (z : ℤ) (n : ℕ)
    → (leb_ℤ (pos 0) z && leb (pos_part z) max_body) ≡ true
    → n ≡ pos_part z
    → (z ≡ pos n) × (n ≤ max_body)
length_allowed (pos m) n h e = (ground arith, ground arith)
length_allowed (negsuc m) n h e = absurd (ground arith)

parse-Gives : (s : Bytes) → Gives HasReady (parse s)
unfolding parse
parse-Gives s = Gives-bind IsLine HasReady (line s) _ (line-IsLine s) (λ l lw.
    Gives-bind IsRequest HasReady (request_line l.0) _ (request_line-IsRequest l.0 lw) (λ r q.
      Gives-bind HasRequest HasReady (headers max_headers r l.1) _
        (headers-IsRequest max_headers r l.1 q)
        (λ h hq.
          let z = h.0.content_length in
          Gives-bind _ HasReady (guard (leb_ℤ (pos 0) z && leb (pos_part z) max_body) 413) _
            (guard-Gives _ 413)
            (λ u allowed.
              Gives-bind _ HasReady (read_body (pos_part z) [] h.1) _
                (length-read_body (pos_part z) [] h.1)
                (λ b size.
                  let fits_z = length_allowed z (length b.0) allowed (omega arith) in
                  record {
                    request = record {
                      path_fits = hq.path_fits;
                      host_fits = hq.host_fits;
                      query_fits = hq.query_fits;
                      auth_fits = hq.auth_fits;
                      cookie_fits = hq.cookie_fits;
                    };
                    announced = fits_z.0;
                    body_fits = fits_z.1;
                  })))))

Gives-ok {ℓ} : {A : Type ℓ} (P : A → Type 0) (m : Read A) {a : A} → Gives P m → m ≡ ok a → P a
Gives-ok P m h e = subst (Gives P) e h

-- Whatever bytes arrive, a request that reaches the handler fits the buffers of the server, and has
-- a body of exactly the length that it announced, 2048 bytes at most.
pub parse-IsReady : (s rest : Bytes) (r : Request) → parse s ≡ ok (r, rest) → IsReady r
parse-IsReady s rest r e = Gives-ok HasReady (parse s) (parse-Gives s) e
