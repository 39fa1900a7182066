-- ===== src/NetArbiter/Grant.antt =====
-- NetArbiter.h, `want` and `grant`: the mask of wants against the list of who asked.
use Prim.Native.Nat.{bit_or}
use esp8266_dns.Base.{
  ℕ, ◌^◌, ◌<◌, ◌≡◌, refl, sym, ap, ◌∙◌, Bool, true, false, ◌&&◌, List, [], ◌∷◌, ltb, leb, ◌==◌,
  if◌then◌else◌, u8, each_below, each_below_sound, arith, ==_iff, &&-split, ltb→lt,
}
use esp8266_dns.NetArbiter.{Who, to_index, of_index, NetArbiter, want, first_wanted, grant}

-- The most important of those who asked, `none` if nobody did.
unfoldable pub most_important : List Who → Who
unfolding to_index
most_important [] = Who.none
most_important (w ∷ ws) =
    let best = most_important ws in if leb (to_index w) (to_index best) then w else best

-- The calls of `want` in one round of the loop, in any order.
unfoldable pub want_all : List Who → NetArbiter → NetArbiter
unfolding want
want_all [] a = a
want_all (w ∷ ws) a = want w (want_all ws a)

of_index-to_index : (w : Who) → of_index (to_index w) ≡ w
unfolding of_index to_index
of_index-to_index Who.ota = refl
of_index-to_index _ = refl

to_index-lt : (w : Who) → to_index w < 8
unfolding to_index
to_index-lt Who.ota = omega arith
to_index-lt _ = omega arith

to_index_injective : (v w : Who) → to_index v ≡ to_index w → v ≡ w
to_index_injective v w e = sym (of_index-to_index v) ∙ ap of_index e ∙ of_index-to_index w

abbrev first : ℕ → Who
first mask = first_wanted 7 0 mask

-- What one more bit does to the first service of a mask.
abbrev adds : ℕ → ℕ → Bool
adds mask i =
    let best = to_index (first mask) in
    (to_index (first (bit_or mask (u8 (2 ^ i)))) == (if leb i best then i else best))
    && ltb (bit_or mask (u8 (2 ^ i))) 256

adds_table : each_below 256 (λ mask. each_below 8 (adds mask)) ≡ true
unfolding each_below first_wanted to_index
adds_table = refl

adds_lem : (mask i : ℕ) → mask < 256 → i < 8 → adds mask i ≡ true
adds_lem mask i h k =
    each_below_sound 8 (adds mask) i
      (each_below_sound 256 (λ m. each_below 8 (adds m)) mask adds_table h) k

first-want :
    (mask : ℕ) (w : Who)
    → mask < 256
    → (to_index (first (bit_or mask (u8 (2 ^ to_index w))))
        ≡ (if leb (to_index w) (to_index (first mask)) then to_index w else to_index (first mask)))
      × (bit_or mask (u8 (2 ^ to_index w)) < 256)
first-want mask w h =
    let both = &&-split _ _ (adds_lem mask (to_index w) h (to_index-lt w)) in
    ((==_iff _ _).0 both.0, ltb→lt _ _ both.1)

want_all-wants :
    (ws : List Who) (a : NetArbiter)
    → a.wants ≡ 0
    → (to_index (first (want_all ws a).wants) ≡ to_index (most_important ws))
      × ((want_all ws a).wants < 256)
unfolding want_all most_important want
want_all-wants [] a e = rw e (unfold first_wanted to_index in (refl, omega arith))
want_all-wants (w ∷ ws) a e =
    let (same, below) = want_all-wants ws a e in
    let (next, below') = first-want (want_all ws a).wants w below in (ground (arith), below')

want_all_keeps :
    (ws : List Who) (a : NetArbiter)
    → ((want_all ws a).owner ≡ a.owner) × ((want_all ws a).starved ≡ a.starved)
unfolding want_all want
want_all_keeps [] a = (refl, refl)
want_all_keeps (w ∷ ws) a = want_all_keeps ws a

-- Where nobody has asked yet, `grant` after any calls of `want` gives the turn to the most
-- important service that asked, which becomes the owner. It clears the wants. A new owner has not
-- waited for the heap yet, and an owner that goes on keeps its wait.
pub grant-want_all :
    (ws : List Who) (a : NetArbiter)
    → a.wants ≡ 0
    → let (b, w) = grant (want_all ws a) in
      (w ≡ most_important ws)
      × (b.owner ≡ most_important ws)
      × (b.wants ≡ 0)
      × (b.starved ≡ (if to_index w == to_index a.owner then a.starved else false))
unfolding grant
grant-want_all ws a e =
    let (same, below) = want_all-wants ws a e in
    let is_best = to_index_injective (first (want_all ws a).wants) (most_important ws) same in
    let (o, s) = want_all_keeps ws a in
    ground (
      arith,
      is_best,
      to_index_injective (most_important ws) a.owner,
      to_index_injective (first (want_all ws a).wants) (want_all ws a).owner,
    )
