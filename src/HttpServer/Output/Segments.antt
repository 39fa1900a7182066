-- ===== src/HttpServer/Output/Segments.antt =====
-- HttpServer.h: what is put goes out in its order, in full segments.
use esp8266_dns.HttpServer.Output.{put}
use esp8266_dns.Base.{
  ==_iff, All, Bytes, List, [], ap, append-nil, append_assoc, arith, drop, if_cases, length,
  length-append, length-drop, length-take, refl, suc, sym, take, zero, ℕ, ◌++◌, ◌-◌, ◌<◌, ◌==◌, ◌∙◌,
  ◌∷◌, ◌≡◌, ◌≤◌,
}
use esp8266_dns.HttpServer.Output.{Out, flush, make_room, out_len, put_loop, put_step}
use esp8266_dns.Totp.{written}

-- The segments in their order; the list has the last first.
unfoldable pub joined : List Bytes → Bytes
joined [] = []
joined (s ∷ written) = joined written ++ s

-- All that was put so far: what the link got, and what the buffer holds.
abbrev pub total : Out → Bytes
total o = joined o.written ++ o.out

-- The buffer does not overrun, and every segment that was written is full.
pub record IsOut (o : Out) : Type 0 where
  pub fits : length o.out ≤ out_len
  pub full : All (λ (s : Bytes). length s ≡ out_len) o.written

take-drop : (n : ℕ) (s : Bytes) → take n s ++ drop n s ≡ s
take-drop zero s = refl
take-drop (suc n) [] = refl
take-drop (suc n) (c ∷ s) = ap (◌∷◌ c) (take-drop n s)

make_room-total : (o : Out) → total (make_room o) ≡ total o
unfolding make_room joined
make_room-total o =
    if_cases (λ (r : Out). total r ≡ total o) (length o.out == out_len) (flush o) o
      (λ _. append-nil (joined o.written ++ o.out)) (λ _. refl)

make_room-IsOut : (o : Out) → IsOut o → IsOut (make_room o) × (length (make_room o).out < out_len)
unfolding make_room
make_room-IsOut o v =
    if_cases (λ (r : Out). IsOut r × (length r.out < out_len)) (length o.out == out_len) (flush o) o
      (λ e. (record { fits = omega arith; full = ((==_iff _ _).0 e, v.full) }, omega arith))
      (λ e. (v, ground (arith, v.fits)))

put_step-total : (s : Bytes) (o : Out) → total (put_step s o).1 ++ (put_step s o).0 ≡ total o ++ s
unfolding put_step
put_step-total s o =
    let room = make_room o in
    let k = out_len - length room.out in
    append_assoc (joined room.written) (room.out ++ take k s) (drop k s)
    ∙ ap (λ (t : Bytes). joined room.written ++ t)
        (append_assoc room.out (take k s) (drop k s)
          ∙ ap (λ (t : Bytes). room.out ++ t) (take-drop k s))
    ∙ sym (append_assoc (joined room.written) room.out s)
    ∙ ap (λ (t : Bytes). t ++ s) (make_room-total o)

-- A turn takes something off the text.
put_step-IsOut :
    (c : ℕ) (s : Bytes) (o : Out)
    → IsOut o
    → IsOut (put_step (c ∷ s) o).1 × (length (put_step (c ∷ s) o).0 ≤ length s)
unfolding put_step
put_step-IsOut c s o v =
    let room = make_room o in
    let k = out_len - length room.out in
    let w = make_room-IsOut o v in
    (
      record {
        fits = omega (arith, length-append room.out (take k (c ∷ s)), length-take k (c ∷ s), w.1);
        full = w.0.full;
      },
      omega (arith, length-drop k (c ∷ s), w.1),
    )

put_loop-total :
    (fuel : ℕ) (s : Bytes) (o : Out)
    → length s ≤ fuel
    → IsOut o
    → (total (put_loop fuel s o) ≡ total o ++ s) × IsOut (put_loop fuel s o)
unfolding put_loop
put_loop-total zero [] o h v = (sym (append-nil (total o)), v)
put_loop-total zero (c ∷ s) o h v = absurd (omega arith)
put_loop-total (suc fuel) [] o h v = (sym (append-nil (total o)), v)
put_loop-total (suc fuel) (c ∷ s) o h v =
    let step = put_step-IsOut c s o v in
    let next = put_step (c ∷ s) o in
    let rest = put_loop-total fuel next.0 next.1 (omega (arith, step.1)) step.0 in
    (rest.0 ∙ put_step-total (c ∷ s) o, rest.1)

-- Whatever is put, in however many turns of the loop, is behind what was put before, byte for byte;
-- the buffer of 536 bytes does not overrun, and every segment written so far is full.
pub put-total : (s : Bytes) (o : Out) → IsOut o → (total (put s o) ≡ total o ++ s) × IsOut (put s o)
unfolding put
put-total s o v = put_loop-total (length s) s o (omega arith) v

-- Text put piece by piece.
unfoldable pub put_all : List Bytes → Out → Out
put_all [] o = o
put_all (s ∷ ss) o = put_all ss (put s o)

unfoldable pub concat : List Bytes → Bytes
concat [] = []
concat (s ∷ ss) = s ++ concat ss

pub put_all-total :
    (ss : List Bytes) (o : Out)
    → IsOut o
    → (total (put_all ss o) ≡ total o ++ concat ss) × IsOut (put_all ss o)
unfolding put_all concat
put_all-total [] o v = (sym (append-nil (total o)), v)
put_all-total (s ∷ ss) o v =
    let first_one = put-total s o v in
    let rest = put_all-total ss (put s o) first_one.1 in
    (
      rest.0
          ∙ ap (λ (t : Bytes). t ++ concat ss) first_one.0
          ∙ append_assoc (total o) s (concat ss),
      rest.1,
    )
