-- ===== src/Json/RoundTrip.antt =====
-- Json.h: an object that `Writer` has written is read back, member for member.
use esp8266_dns.Base.{
  All, Bytes, List, [], ap, append_assoc, arith, false, if◌then◌else◌, length, length-append, ltb,
  refl, some, suc, sym, true, zero, ℕ, ◌*◌, ◌++◌, ◌+◌, ◌∙◌, ◌∷◌, ◌≡◌, ◌≤◌, ◌⊎◌,
}
use esp8266_dns.Base.Int.{neg_part, negsuc, pos, pos_part}
use esp8266_dns.Json.{
  Kind, Member, Parsed, Value, continue_by, done, expect, fuel_for, is_space, members_at,
  members_loop, object, opened, separator, value, ws, ◌>>=◌,
}
use esp8266_dns.Json.Decode.{str}
use esp8266_dns.Json.Number.{Stops}
use esp8266_dns.Json.Text.{str-escaped_text}
use esp8266_dns.Json.Values.{
  IsContent, IsField, entry-append, expect-here, key_at-name, read_as, tail-Stops, value-content,
}
use esp8266_dns.Json.Written.{
  Content, Field, IsName, content_text, entry, flag, num, object_text, string, tail_text, unum,
  write_object, write_object-Holds,
}

unfoldable pub read_all : List Field → Bytes → List Member
unfolding read_as tail_text
read_all [] rest = []
read_all (f ∷ fs) rest =
    record { key = f.name; value = read_as f.content (tail_text fs ++ rest) } ∷ read_all fs rest

-- What the loop goes on with behind a member.
abbrev behind_member : ℕ → Member → Bytes ⊎ Bytes → Parsed (List Member × Bytes)
behind_member fuel m =
    continue_by (λ end. done (m ∷ [], end))
      (λ more. members_loop fuel (ws more) 1 >>= λ r. done (m ∷ r.0, r.1))

members_loop-entry :
    (f : Field) (rest : Bytes) (fuel : ℕ)
    → IsField f
    → Stops rest
    → members_loop (suc (suc fuel)) (entry f ++ rest) 1 ≡ (
        separator b'}' rest
        >>= behind_member (suc fuel) (record { key = f.name; value = read_as f.content rest }))
members_loop-entry f rest fuel h k =
    let text = content_text f.content ++ rest in
    let key = key_at-name f.name (b':' ∷ text) h.1 in
    let colon = expect-here b':' text (unfold is_space in refl) in
    let content = value-content f.content rest fuel 1 h.2 k in
    ap (λ (p : Bytes). members_loop (suc (suc fuel)) p 1) (entry-append f rest)
    ∙ unfold members_loop in
      ap
        (λ (o : Parsed (Bytes × Bytes)). o >>= λ (k : Bytes × Bytes).
          expect b':' k.1 >>= λ (q : Bytes). value (suc fuel) q 1 >>= λ (v : Value × Bytes).
          separator b'}' v.1 >>= behind_member (suc fuel) (record { key = k.0; value = v.0 }))
        key
      ∙ ap
          (λ (o : Parsed Bytes). o >>= λ (q : Bytes).
            value (suc fuel) q 1 >>= λ (v : Value × Bytes).
            separator b'}' v.1 >>= behind_member (suc fuel) (record { key = f.name; value = v.0 }))
          colon
      ∙ ap
          (λ (o : Parsed (Value × Bytes)). o >>= λ (v : Value × Bytes).
            separator b'}' v.1 >>= behind_member (suc fuel) (record { key = f.name; value = v.0 }))
          content

-- A member with another one behind it, whose reading is given.
members_loop-next :
    (f g : Field) (fs : List Field) (rest : Bytes) (fuel : ℕ)
    → IsField f
    → members_loop (suc (suc fuel)) (entry g ++ (tail_text fs ++ rest)) 1
      ≡ done (read_all (g ∷ fs) rest, rest)
    → members_loop (suc (suc (suc fuel))) (entry f ++ (tail_text (g ∷ fs) ++ rest)) 1
      ≡ done (read_all (f ∷ g ∷ fs) rest, rest)
members_loop-next f g fs rest fuel h next =
    let tail = tail_text (g ∷ fs) ++ rest in
    let m : Member = record { key = f.name; value = read_as f.content tail } in
    members_loop-entry f tail (suc fuel) h (tail-Stops (g ∷ fs) rest)
    ∙ unfold separator ws is_space tail_text entry read_all in
      ap
        (λ (p : Bytes). members_loop (suc (suc fuel)) (ws p) 1 >>= λ (r : List Member × Bytes).
          done (m ∷ r.0, r.1))
        (append_assoc (entry g) (tail_text fs) rest)
      ∙ ap
          (λ (o : Parsed (List Member × Bytes)).
            o >>= λ (r : List Member × Bytes). done (m ∷ r.0, r.1))
          next

members_loop-entries :
    (f : Field) (fs : List Field) (rest : Bytes) (fuel : ℕ)
    → All IsField (f ∷ fs)
    → length fs ≤ fuel
    → members_loop (suc (suc fuel)) (entry f ++ (tail_text fs ++ rest)) 1
      ≡ done (read_all (f ∷ fs) rest, rest)
members_loop-entries f [] rest fuel h w =
    members_loop-entry f (tail_text [] ++ rest) fuel h.0 (tail-Stops [] rest)
    ∙ unfold separator ws is_space tail_text read_all in refl
members_loop-entries f (g ∷ fs) rest zero h w = absurd (omega arith)
members_loop-entries f (g ∷ fs) rest (suc fuel) h w =
    members_loop-next f g fs rest fuel h.0 (members_loop-entries g fs rest fuel h.1 (omega arith))

length-tail_text : (fs : List Field) → length fs ≤ length (tail_text fs)
unfolding tail_text
length-tail_text [] = omega arith
length-tail_text (f ∷ fs) =
    omega (arith, length-append (entry f) (tail_text fs), length-tail_text fs)

members_at-object_text :
    (fs : List Field) (rest : Bytes)
    → All IsField fs
    → members_at (object_text fs ++ rest) ≡ done (read_all fs rest, rest)
unfolding members_at opened object_text
members_at-object_text [] rest h = unfold ws is_space read_all in refl
members_at-object_text (f ∷ fs) rest h =
    let p = b'{' ∷ (entry f ++ (tail_text fs ++ rest)) in
    let fuel = 2 * length p in
    let enough : length fs ≤ fuel = omega (
      arith,
      length-append (entry f) (tail_text fs ++ rest),
      length-append (tail_text fs) rest,
      length-tail_text fs,
    ) in
    let steps : suc (suc fuel) ≡ fuel_for p = omega arith in
    ap (λ (t : Bytes). members_at (b'{' ∷ t)) (append_assoc (entry f) (tail_text fs) rest)
    ∙ unfold ws is_space entry in
      ap (λ (n : ℕ). members_loop n (entry f ++ (tail_text fs ++ rest)) 1) (sym steps)
      ∙ members_loop-entries f fs rest fuel h enough

object_text-opens :
    (fs : List Field) (rest : Bytes)
    → object (object_text fs ++ rest) ≡ (
        members_at (object_text fs ++ rest) >>= λ valid.
        members_at (object_text fs ++ rest) >>= λ r. done r.0)
unfolding object ws is_space object_text
object_text-opens [] rest = refl
object_text-opens (f ∷ fs) rest = refl

object-object_text :
    (fs : List Field) (rest : Bytes)
    → All IsField fs
    → object (object_text fs ++ rest) ≡ done (read_all fs rest)
object-object_text fs rest h =
    let valid = members_at-object_text fs rest h in
    object_text-opens fs rest
    ∙ ap
        (λ (o : Parsed (List Member × Bytes)).
          o >>= λ (_ : List Member × Bytes). o >>= λ (r : List Member × Bytes). done r.0)
        valid

-- What the caller finds in a value that was read.
abbrev pub IsRead : Content → Value → Type 0
IsRead (string s) v = (v.kind ≡ Kind.string) × (str v ≡ s)
IsRead (num z) v =
    (v.kind ≡ Kind.integer) × (v.neg ≡ ltb 0 (neg_part z)) × (v.mag ≡ pos_part z + neg_part z)
IsRead (unum n) v = (v.kind ≡ Kind.integer) × (v.neg ≡ false) × (v.mag ≡ n)
IsRead (flag b) v = (v.kind ≡ Kind.boolean) × (v.mag ≡ (if b then 1 else 0))

abbrev pub Reads : List Field → List Member → Type 0
Reads [] [] = Unit {0}
Reads (f ∷ fs) (m ∷ ms) = (m.key ≡ f.name) × IsRead f.content m.value × Reads fs ms
Reads _ _ = ⊥

read_as-IsRead : (c : Content) (rest : Bytes) → IsContent c → IsRead c (read_as c rest)
unfolding read_as
read_as-IsRead (string s) rest h = (refl, str-escaped_text s rest _ h refl)
read_as-IsRead (num (pos n)) rest h = (refl, refl, omega arith)
read_as-IsRead (num (negsuc n)) rest h = (refl, ground arith, omega arith)
read_as-IsRead (unum n) rest h = (refl, refl, refl)
read_as-IsRead (flag true) rest h = (refl, refl)
read_as-IsRead (flag false) rest h = (refl, refl)

read_all-Reads : (fs : List Field) (rest : Bytes) → All IsField fs → Reads fs (read_all fs rest)
unfolding read_all
read_all-Reads [] rest h = tt
read_all-Reads (f ∷ fs) rest h =
    (refl, read_as-IsRead f.content (tail_text fs ++ rest) h.0.2, read_all-Reads fs rest h.1)

pub All-IsName : (fs : List Field) → All IsField fs → All IsName fs
All-IsName [] h = tt
All-IsName (f ∷ fs) h = (h.0.0, All-IsName fs h.1)

-- Fields written to a file, with names of up to 23 plain characters, are read back from it in their
-- order, with their names, kinds and contents, whatever stands behind the object.
pub object-write_object :
    (fs : List Field) (rest : Bytes)
    → All IsField fs
    → ((write_object (some []) fs).file ≡ some (object_text fs))
      × (object (object_text fs ++ rest) ≡ done (read_all fs rest))
      × Reads fs (read_all fs rest)
object-write_object fs rest h = (
  (write_object-Holds (some []) fs (All-IsName fs h)).0,
  object-object_text fs rest h,
  read_all-Reads fs rest h,
)
