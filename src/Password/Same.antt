-- ===== src/Password/Same.antt =====
-- Password.h, `_same`: the comparison in constant time is equality.
use Prim.Native.Nat.{bit_or, bit_xor}
use esp8266_dns.Base.{replicate}
use esp8266_dns.Base.{
  ==_iff, All, Bool, Bool-cases, Bytes, [], ap, arith, bytes_eq, drop, each_below, each_below_sound,
  false, if◌then◌else◌, inl, inr, length, ltb, not, refl, subst, suc, sym, true, zero, ℕ, ◌&&◌, ◌<◌,
  ◌==◌, ◌∙◌, ◌∷◌, ◌≡◌, ◌≢◌, ◌≤◌,
}
use esp8266_dns.Password.{byte_at, max_len, same, same_from}
use mathlib.Core.Logic.{◌↔◌}

-- Over all pairs of bytes, by evaluation.
xor_cell : ℕ → ℕ → Bool
xor_cell a b = let x = bit_xor a b in ltb x 256 && (if x == 0 then a == b else not (a == b))

xor_cells : each_below 256 (λ a. each_below 256 (xor_cell a)) ≡ true
unfolding each_below xor_cell
xor_cells = refl

or_cell : ℕ → ℕ → Bool
or_cell d x =
    let o = bit_or d x in ltb o 256 && (if o == 0 then d == 0 && x == 0 else not (d == 0 && x == 0))

or_cells : each_below 256 (λ a. each_below 256 (or_cell a)) ≡ true
unfolding each_below or_cell
or_cells = refl

pub xor_byte : (a b : ℕ) → a < 256 → b < 256 → (bit_xor a b < 256) × ((bit_xor a b == 0) ≡ (a == b))
xor_byte a b h k =
    let row = each_below_sound 256 (λ a. each_below 256 (xor_cell a)) a xor_cells h in
    let cell = each_below_sound 256 (xor_cell a) b row k in xor_cell_lem a b cell
  where
    xor_cell_lem :
        (a b : ℕ) → xor_cell a b ≡ true → (bit_xor a b < 256) × ((bit_xor a b == 0) ≡ (a == b))
    xor_cell_lem a b h = unfold xor_cell in ground (arith, h)

or_byte :
    (d x : ℕ) → d < 256 → x < 256 → (bit_or d x < 256) × ((bit_or d x == 0) ≡ (d == 0 && x == 0))
or_byte d x h k =
    let row = each_below_sound 256 (λ a. each_below 256 (or_cell a)) d or_cells h in
    let cell = each_below_sound 256 (or_cell d) x row k in or_cell_lem d x cell
  where
    or_cell_lem :
        (d x : ℕ)
        → or_cell d x ≡ true
        → (bit_or d x < 256) × ((bit_or d x == 0) ≡ (d == 0 && x == 0))
    or_cell_lem d x h = unfold or_cell in ground (arith, h)

abbrev pub AllBytes : Bytes → Type 0
AllBytes = All (λ c. c < 256)

byte_at-lt : (s : Bytes) → AllBytes s → (byte_at s < 256) × AllBytes (drop 1 s)
byte_at-lt [] h = (omega arith, tt)
byte_at-lt (c ∷ s) h = (h.0, h.1)

-- One turn of the loop.
pub turn :
    (d : ℕ) (a b : Bytes)
    → d < 256
    → AllBytes a
    → AllBytes b
    → (bit_or d (bit_xor (byte_at a) (byte_at b)) < 256)
      × ((bit_or d (bit_xor (byte_at a) (byte_at b)) == 0) ≡ (d == 0 && byte_at a == byte_at b))
turn d a b h p q =
    let x = xor_byte (byte_at a) (byte_at b) (byte_at-lt a p).0 (byte_at-lt b q).0 in
    let o = or_byte d (bit_xor (byte_at a) (byte_at b)) h x.0 in
    (o.0, o.1 ∙ ap (λ (t : Bool). d == 0 && t) x.1)

-- A difference that was found stays.
same_from-nonzero :
    (n d : ℕ) (a b : Bytes)
    → d < 256
    → (d == 0) ≡ false
    → AllBytes a
    → AllBytes b
    → (same_from n d a b == 0) ≡ false
unfolding same_from
same_from-nonzero zero d a b h e p q = e
same_from-nonzero (suc n) d a b h e p q =
    let t = turn d a b h p q in
    same_from-nonzero n (bit_or d (bit_xor (byte_at a) (byte_at b))) (drop 1 a) (drop 1 b) t.0
      (t.1 ∙ ap (λ (x : Bool). x && byte_at a == byte_at b) e) (byte_at-lt a p).1 (byte_at-lt b q).1

same_from_lem :
    (n : ℕ) (a b : Bytes) (d : ℕ)
    → d < 256
    → AllBytes a
    → AllBytes b
    → length a ≡ length b
    → length a ≤ n
    → (same_from n d a b == 0) ≡ (d == 0 && bytes_eq a b)
unfolding same_from bytes_eq
same_from_lem zero [] [] d h p q e w = ground arith
same_from_lem zero [] (y ∷ b) d h p q e w = absurd (omega (arith, e))
same_from_lem zero (x ∷ a) b d h p q e w = absurd (omega arith)
same_from_lem (suc n) [] [] d h p q e w =
    let t = turn d [] [] h tt tt in
    same_from_lem n [] [] (bit_or d (bit_xor 0 0)) t.0 tt tt refl (omega arith)
    ∙ ap (λ (x : Bool). x && true) t.1
    ∙ ground arith
same_from_lem (suc n) [] (y ∷ b) d h p q e w = absurd (omega (arith, e))
same_from_lem (suc n) (x ∷ a) [] d h p q e w = absurd (omega (arith, e))
same_from_lem (suc n) (x ∷ a) (y ∷ b) d h p q e w =
    let t = turn d (x ∷ a) (y ∷ b) h p q in
    same_from_lem n a b (bit_or d (bit_xor x y)) t.0 p.1 q.1 (omega (arith, e)) (omega arith)
    ∙ ap (λ (z : Bool). z && bytes_eq a b) t.1
    ∙ ground arith

bytes_eq-length : (a b : Bytes) → length a ≢ length b → bytes_eq a b ≡ false
unfolding bytes_eq
bytes_eq-length [] [] h = absurd (h refl)
bytes_eq-length [] (y ∷ b) h = refl
bytes_eq-length (x ∷ a) [] h = refl
bytes_eq-length (x ∷ a) (y ∷ b) h = ground (arith, bytes_eq-length a b (λ e. h (ap suc e)))

-- The comparison in constant time gives what a plain comparison gives.
pub same_lem : (a b : Bytes) → AllBytes a → AllBytes b → same a b ≡ bytes_eq a b
unfolding same
same_lem a b p q =
    let turns = if ltb max_len (length a) then length a else max_len in
    let enough : length a ≤ turns = ground arith in
    elim (Bool-cases (length a == length b)) [
      | inl e ↦
          rw e
            (same_from_lem turns a b 0 (omega arith) p q ((==_iff _ _).0 e) enough ∙ ground arith)
      | inr e ↦ rw e (
          same_from-nonzero turns 1 a b (omega arith) refl p q
          ∙ sym (bytes_eq-length a b (λ d. differ (length a) (length b) e d)))
    ]
  where
    differ : (m n : ℕ) → (m == n) ≡ false → m ≡ n → ⊥
    differ m n h e = ground (arith, h, e)

bytes_eq_sound : (a b : Bytes) → bytes_eq a b ≡ true → a ≡ b
unfolding bytes_eq
bytes_eq_sound [] [] h = refl
bytes_eq_sound [] (y ∷ b) h = absurd (ground arith)
bytes_eq_sound (x ∷ a) [] h = absurd (ground arith)
bytes_eq_sound (x ∷ a) (y ∷ b) h = ground (arith, bytes_eq_sound a b)

bytes_eq_refl : (a : Bytes) → bytes_eq a a ≡ true
unfolding bytes_eq
bytes_eq_refl [] = refl
bytes_eq_refl (x ∷ a) = ground (arith, bytes_eq_refl a)

pub bytes_eq_iff : (a b : Bytes) → (bytes_eq a b ≡ true) ↔ (a ≡ b)
bytes_eq_iff a b =
    (bytes_eq_sound a b, λ e. subst (λ (t : Bytes). bytes_eq a t ≡ true) e (bytes_eq_refl a))

pub replicate-AllBytes : (n c : ℕ) → c < 256 → AllBytes (replicate n c)
replicate-AllBytes zero c h = tt
replicate-AllBytes (suc n) c h = (h, replicate-AllBytes n c h)
