-- ===== src/JsonStream/Bounds.antt =====
-- JsonStream.h: the arrays are never overrun.
use esp8266_dns.Base.{length-set, c_string, leb}
use Prim.Native.Nat.{bit_and, bit_or}
use esp8266_dns.Base.{◌+◌, ◌^◌}
use esp8266_dns.Base.{
  All, Bool, Bytes, List, [], arith, false, if_cases, if◌then◌else◌, length, length-append,
  length-take, set, suc, take, zero, ℕ, ◌-◌, ◌<◌, ◌==◌, ◌∷◌, ◌≡◌, ◌≤◌,
}
use esp8266_dns.JsonStream.{
  JsonStream, call_back, in_range, close_level, write_key, write_char, end_text, emit, end_scalar,
  end_string, feed, feed_plain, feed_string, feeds, key_size, max_depth, open_level, put,
  value_size,
}

abbrev IsKey : Bytes → Type 0
IsKey k = length k < key_size

-- The text fits its buffer with a zero behind it, and so does every key; the depth fits a byte; and no
-- write was outside an array.
pub record IsBounded (d : JsonStream) : Type 0 where
  pub text_fits : length d.buf < value_size
  pub keys_fit : All IsKey d.keys
  pub levels : length d.keys ≡ max_depth
  pub depth_fits : d.depth ≤ 255
  pub digits : d.hex ≤ 4
  pub inside : d.overrun ≡ false

All-set : (ks : List Bytes) (i : ℕ) (k : Bytes) → All IsKey ks → IsKey k → All IsKey (set ks i k)
All-set [] i k h l = h
All-set (x ∷ ks) zero k h l = (l, h.1)
All-set (x ∷ ks) (suc i) k h l = (h.0, All-set ks i k h.1 l)

write_key-IsBounded :
    (level : ℕ) (k : Bytes) (d : JsonStream)
    → IsBounded d
    → IsKey k
    → 0 < level
    → level ≤ max_depth
    → IsBounded (write_key level k d)
unfolding write_key
write_key-IsBounded level k d h l p q =
    let keys = All-set d.keys (level - 1) k h.keys_fit l in
    ground (arith, h, keys, length-set d.keys (level - 1) k)

end_text-IsBounded : (d : JsonStream) → IsBounded d → IsBounded (end_text d)
unfolding end_text
end_text-IsBounded d h = ground (arith, h)

emit-IsBounded : (d : JsonStream) → IsBounded d → IsBounded (emit d)
unfolding emit call_back
emit-IsBounded d h = ground (arith, h)

put-IsBounded : (c : ℕ) (d : JsonStream) → IsBounded d → IsBounded (put c d)
unfolding put write_char
put-IsBounded c d h = ground (arith, h, length-append d.buf (c ∷ []))

end_scalar-IsBounded : (d : JsonStream) → IsBounded d → IsBounded (end_scalar d)
unfolding end_scalar
end_scalar-IsBounded d h =
    let ended = end_text-IsBounded (record d { bare = false }) in
    ground (arith, h, ended, emit-IsBounded (end_text (record d { bare = false })))

close_level-IsBounded :
    (object : Bool) (d : JsonStream) → IsBounded d → IsBounded (close_level object d)
unfolding close_level call_back
close_level-IsBounded object d h = ground (arith, h)

open_level-IsBounded :
    (object : Bool) (d : JsonStream) → IsBounded d → IsBounded (open_level object d)
unfolding open_level
open_level-IsBounded object d h =
    let bit = 2 ^ d.depth in
    let mask = if object then bit_or d.objects bit else bit_and d.objects (255 - bit) in
    let deeper = record d {
      depth = d.depth + 1;
      objects = if leb (d.depth + 1) 8 then mask else d.objects;
    } in
    let named = if leb deeper.depth max_depth then write_key deeper.depth [] deeper else deeper in
    if_cases IsBounded (d.depth == 255) d (record named { want_key = object }) (λ _. h)
      (λ e.
        let below : IsBounded deeper = record {
          text_fits = h.text_fits;
          keys_fit = h.keys_fit;
          levels = h.levels;
          depth_fits = ground (arith, h.depth_fits, e);
          digits = h.digits;
          inside = h.inside;
        } in
        let kept =
          if_cases IsBounded (leb deeper.depth max_depth) (write_key deeper.depth [] deeper) deeper
            (λ le.
              write_key-IsBounded deeper.depth [] deeper below (omega arith) (omega arith)
                (ground (arith, le)))
            (λ _. below) in
        record {
          text_fits = kept.text_fits;
          keys_fit = kept.keys_fit;
          levels = kept.levels;
          depth_fits = kept.depth_fits;
          digits = kept.digits;
          inside = kept.inside;
        })

end_string-IsBounded : (d : JsonStream) → IsBounded d → IsBounded (end_string d)
unfolding end_string
end_string-IsBounded d h =
    let e = end_text (record d { str = false }) in
    let k = take (key_size - 1) (c_string e.buf) in
    let short : IsKey k = omega (arith, length-take (key_size - 1) (c_string e.buf)) in
    let ended = end_text-IsBounded (record d { str = false }) in
    let text_ended : IsBounded e = ended (record {
      text_fits = h.text_fits;
      keys_fit = h.keys_fit;
      levels = h.levels;
      depth_fits = h.depth_fits;
      digits = h.digits;
      inside = h.inside;
    }) in
    let named = if in_range e.depth then write_key e.depth k e else e in
    let told = emit-IsBounded e text_ended in
    let kept =
      if_cases IsBounded (in_range e.depth) (write_key e.depth k e) e
        (λ r.
          write_key-IsBounded e.depth k e text_ended short (ground (arith, r)) (ground (arith, r)))
        (λ _. text_ended) in
    if_cases (λ (x : JsonStream). IsBounded (record x { buf = [] })) e.want_key
      (record named { want_key = false }) (emit e)
      (λ _. record {
        text_fits = omega arith;
        keys_fit = kept.keys_fit;
        levels = kept.levels;
        depth_fits = kept.depth_fits;
        digits = kept.digits;
        inside = kept.inside;
      })
      (λ _. record {
        text_fits = omega arith;
        keys_fit = told.keys_fit;
        levels = told.levels;
        depth_fits = told.depth_fits;
        digits = told.digits;
        inside = told.inside;
      })

feed_string-IsBounded : (c : ℕ) (d : JsonStream) → IsBounded d → IsBounded (feed_string c d)
unfolding feed_string
feed_string-IsBounded c d h = ground (
  arith,
  h,
  put-IsBounded b'?' (record d { esc = false; hex = 4 }),
  put-IsBounded c (record d { esc = false }),
  put-IsBounded c d h,
  end_string-IsBounded d h,
)

feed_plain-IsBounded : (c : ℕ) (d : JsonStream) → IsBounded d → IsBounded (feed_plain c d)
unfolding feed_plain
feed_plain-IsBounded c d h =
    let ended = end_scalar-IsBounded d h in
    ground (
      arith,
      h,
      ended,
      open_level-IsBounded (c == b'{') (end_scalar d) ended,
      close_level-IsBounded (c == b'}') (end_scalar d) ended,
      put-IsBounded c (record d { cut = if length d.buf == 0 then false else d.cut }),
    )

-- Whatever bytes come, no write is outside `_buf` or `_keys`, the text read so far and every key fit
-- their buffers, with a zero behind them, and the depth fits a byte.
pub feeds-IsBounded : (s : Bytes) (d : JsonStream) → IsBounded d → IsBounded (feeds s d)
unfolding feeds feed
feeds-IsBounded [] d h = h
feeds-IsBounded (c ∷ s) d h = feeds-IsBounded s (feed c d) (
    if_cases IsBounded d.str (feed_string c d) (feed_plain c d) (λ _. feed_string-IsBounded c d h)
      (λ _. feed_plain-IsBounded c d h))
