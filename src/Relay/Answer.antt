-- ===== src/Relay/Answer.antt =====
-- RelayService.h: the answer to a request, as the Worker puts it together again.
use esp8266_dns.Base.{
  ==_iff, Bool, Bytes, List, [], ap, append-nil, append_assoc, arith, false, if◌then◌else◌, not,
  refl, sym, true, u16, u32, u8, ℕ, ◌*◌, ◌++◌, ◌+◌, ◌/◌, ◌<◌, ◌==◌, ◌||◌, ◌∙◌, ◌∷◌, ◌≡◌,
}
use esp8266_dns.HttpServer.Output.Segments.{concat}
use esp8266_dns.Relay.{Effect, RelayService, op_binary, perform}
use esp8266_dns.Relay.Frames.{Setup, put_segments, request, serve_request, split_head}

-- What the Worker has of the answer to the request `id`: the bytes so far, and whether it is whole.
pub record Answer : Type 0 where
  pub got : Bytes
  pub whole : Bool

-- A frame of this request adds to the answer or ends it; any other is not part of it.
unfoldable pub take_frame : ℕ → Bytes → Answer → Answer
take_frame id (type ∷ high ∷ low ∷ s) a =
    if not (high * 256 + low == id) || a.whole
    then a
    else if type == b'D'
    then record a { got = a.got ++ s }
    else if type == b'E'
    then record a { whole = true }
    else a
take_frame id _ a = a

unfoldable pub take_effect : ℕ → Effect → Answer → Answer
unfolding take_frame
take_effect id (Effect.sends op s) a = if op == op_binary then take_frame id s a else a
take_effect id _ a = a

-- The effects have the last first.
unfoldable pub assemble : ℕ → List Effect → Answer → Answer
unfolding take_effect
assemble id [] a = a
assemble id (e ∷ es) a = take_effect id e (assemble id es a)

id_bytes : (h l : ℕ) → h < 256 → l < 256 → u16 (h * 256 + l) ≡ h * 256 + l
id_bytes h l p q = omega (arith, p, q)

id_high : (h l : ℕ) → h < 256 → l < 256 → u8 ((h * 256 + l) / 256) ≡ h
id_high h l p q = omega (arith, p, q)

id_low : (h l : ℕ) → h < 256 → l < 256 → u8 (h * 256 + l) ≡ l
id_low h l p q = omega (arith, p, q)

-- A piece of the answer.
take_frame-piece :
    (h l : ℕ) (s got : Bytes)
    → take_frame (h * 256 + l) (b'D' ∷ h ∷ l ∷ s) (record { got = got; whole = false })
      ≡ record { got = got ++ s; whole = false }
unfolding take_frame
take_frame-piece h l s got = rw ((==_iff (h * 256 + l) (h * 256 + l)).1 refl) refl

take_frame-end :
    (h l : ℕ) (got : Bytes)
    → take_frame (h * 256 + l) (b'E' ∷ h ∷ l ∷ []) (record { got = got; whole = false })
      ≡ record { got = got; whole = true }
unfolding take_frame
take_frame-end h l got = rw ((==_iff (h * 256 + l) (h * 256 + l)).1 refl) refl

-- All the segments, one after the other.
put_segments-assemble :
    (h l : ℕ) (ss : List Bytes) (r : RelayService) (got : Bytes) (start : Answer)
    → h < 256
    → l < 256
    → assemble (h * 256 + l) r.effects start ≡ record { got = got; whole = false }
    → assemble (h * 256 + l) (put_segments (h * 256 + l) ss r).effects start
      ≡ record { got = got ++ concat ss; whole = false }
unfolding put_segments concat
put_segments-assemble h l [] r got start p q e =
    e ∙ ap (λ (t : Bytes). record { got = t; whole = false }) (sym (append-nil got))
put_segments-assemble h l (s ∷ ss) r got start p q e =
    let frame = b'D' ∷ u8 ((h * 256 + l) / 256) ∷ u8 (h * 256 + l) ∷ s in
    let sent = perform (Effect.sends op_binary frame) r in
    let taken : assemble (h * 256 + l) sent.effects start
        ≡ record { got = got ++ s; whole = false } =
      unfold assemble take_effect in
      rw (id_high h l p q, id_low h l p q, e) (take_frame-piece h l s got) in
    put_segments-assemble h l ss sent (got ++ s) start p q taken
    ∙ ap (λ (t : Bytes). record { got = t; whole = false }) (append_assoc got s (concat ss))

-- A request that the Worker sends under an id of which nothing has gone up before is served with the
-- address that it names and its own bytes, and of the frames that go up the Worker puts together
-- exactly what HttpServer has written for it, in its order, and knows that it is whole.
pub request-assemble :
    (setup : Setup) (h l a b c d : ℕ) (q : Bytes) (r : RelayService)
    → h < 256
    → l < 256
    → assemble (h * 256 + l) r.effects (record { got = []; whole = false })
      ≡ record { got = []; whole = false }
    → assemble
        (h * 256 + l)
        (request setup (h ∷ l ∷ a ∷ b ∷ c ∷ d ∷ q) r).effects
        (record { got = []; whole = false })
      ≡ record {
        got = concat (setup.serve (u32 (a + b * 256 + c * 65536 + d * 16777216)) q);
        whole = true;
      }
unfolding request split_head serve_request
request-assemble setup h l a b c d q r p1 p2 e =
    let ip = u32 (a + b * 256 + c * 65536 + d * 16777216) in
    let noted = record r { id = h * 256 + l; ip = ip } in
    let parts =
      put_segments-assemble h l (setup.serve ip q) noted [] (record { got = []; whole = false }) p1
        p2 e in
    rw (id_bytes h l p1 p2)
      unfold assemble take_effect in rw (parts) (take_frame-end h l (concat (setup.serve ip q)))
