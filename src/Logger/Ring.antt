-- ===== src/Logger/Ring.antt =====
-- Logger.h: the ring holds the last lines.
use esp8266_dns.Base.{get_or-set_ne}
use esp8266_dns.Base.{get_or-set_self}
use esp8266_dns.Base.{
  Bytes, List, [], ap, arith, get_or, leb, length, length-set, min, refl, set, suc, zero, ℕ, ◌%◌,
  ◌+◌, ◌-◌, ◌<◌, ◌∙◌, ◌∷◌, ◌≡◌, ◌≢◌,
}
use esp8266_dns.Logger.{Logger, buffer_size, count, entry, initial, line, log, start_index, store}

-- What was logged since power-on, the last first: the time and the message.
unfoldable pub logs : List (ℕ × Bytes) → Logger
logs [] = initial
logs ((ms, m) ∷ es) = log ms m (logs es)

-- The lines of these.
unfoldable pub lines_of : List (ℕ × Bytes) → List Bytes
lines_of [] = []
lines_of ((ms, m) ∷ es) = line ms m ∷ lines_of es

-- The ring behind the lines `es`: the newest stands before the head, the others before it.
record Holds (es : List Bytes) (d : Logger) : Type 0 where
  slots : length d.buf ≡ buffer_size
  place : d.head ≡ length es % buffer_size
  full : d.wrapped ≡ leb buffer_size (length es)
  lines :
      (j : ℕ)
      → j < buffer_size
      → j < length es
      → get_or d.buf ((length es - 1 - j) % buffer_size) [] ≡ get_or es j []

placed :
    (e : Bytes) (es : List Bytes) (d : Logger)
    → Holds es d
    → (j : ℕ) → j < buffer_size
    → j < length (e ∷ es)
    → get_or (set d.buf d.head e) ((length (e ∷ es) - 1 - j) % buffer_size) []
      ≡ get_or (e ∷ es) j []
placed e es d h zero a b =
    let here : (length (e ∷ es) - 1 - 0) % buffer_size ≡ d.head = omega (arith, h.place) in
    ap (λ i. get_or (set d.buf d.head e) i []) here
    ∙ get_or-set_self d.buf d.head e [] (omega (arith, h.slots, h.place))
placed e es d h (suc j) a b =
    let there : (length (e ∷ es) - 1 - suc j) % buffer_size ≡ (length es - 1 - j) % buffer_size =
      ap (λ i. i % buffer_size) (omega arith) in
    let apart : d.head ≢ (length es - 1 - j) % buffer_size = omega (arith, h.place, a, b) in
    ap (λ i. get_or (set d.buf d.head e) i []) there
    ∙ get_or-set_ne d.buf d.head ((length es - 1 - j) % buffer_size) e [] apart
    ∙ h.lines j (omega arith) (omega (arith, b))

store-Holds : (e : Bytes) (es : List Bytes) (d : Logger) → Holds es d → Holds (e ∷ es) (store e d)
unfolding store
store-Holds e es d h =
    let stored : (store e d).buf ≡ set d.buf d.head e = ground arith in
    record {
      slots = ground (arith, h.slots, length-set d.buf d.head e);
      place = ground (arith, h.place);
      full = ground (arith, h.place, h.full);
      lines = λ j a b.
          ap (λ s. get_or s ((length (e ∷ es) - 1 - j) % buffer_size) []) stored
          ∙ placed e es d h j a b;
    }

logs-Holds : (es : List (ℕ × Bytes)) → Holds (lines_of es) (logs es)
unfolding logs log lines_of
logs-Holds [] =
    unfold initial in
    record { slots = refl; place = refl; full = refl; lines = λ j a b. absurd (omega (arith, b)) }
logs-Holds ((ms, m) ∷ es) = store-Holds (line ms m) (lines_of es) (logs es) (logs-Holds es)

-- Whatever was logged, the ring counts the last ten lines, or all of them if they are fewer, and
-- gives them from the oldest to the newest: the last place is the line logged last, the one before
-- it the line before that.
pub entry-logs :
    (es : List (ℕ × Bytes)) (j : ℕ)
    → j < buffer_size
    → j < length (lines_of es)
    → (count (logs es) ≡ min buffer_size (length (lines_of es)))
      × (entry (start_index (logs es) + (count (logs es) - 1 - j)) (logs es)
          ≡ get_or (lines_of es) j [])
unfolding count start_index entry
entry-logs es j a b =
    let h = logs-Holds es in
    let number : count (logs es) ≡ min buffer_size (length (lines_of es)) =
      ground (arith, h.place, h.full) in
    let at : (start_index (logs es) + (count (logs es) - 1 - j)) % buffer_size
        ≡ (length (lines_of es) - 1 - j) % buffer_size =
      ground (arith, h.place, h.full) in
    (number, ap (λ i. get_or (logs es).buf i []) at ∙ h.lines j a b)
