-- ===== src/ReverseDns/Safe.antt =====
-- ReverseDNS.h, `parse`: it reads nothing past the end of the message, writes nothing past the end
-- of the buffer, and comes to an end, whatever the message.
use esp8266_dns.Base.{length-drop}
use esp8266_dns.Base.{
  Bool, Bool-cases, Bytes, List, Option, Option-cases, [], ap, arith, drop, false, get_elem?, inl,
  inr, is_some, length, length-append, length-take, ltb, none, refl, some, suc, take, true, zero, ℕ,
  ◌%◌, ◌&&◌, ◌*◌, ◌++◌, ◌+◌, ◌-◌, ◌<◌, ◌||◌, ◌∙◌, ◌∷◌, ◌≡◌, ◌≤◌,
}
use esp8266_dns.ReverseDns.{
  dot, end_name, find_ptr, give_up, is_pointer, name_at, name_from, parse, parse_records,
  read_bytes, skip, skip_from, skip_questions, u16_at, write_bytes,
}
use esp8266_dns.Totp.{written}

get_elem?-is_some :
    {A : Type 0} (m : List A) (i : ℕ) → i < length m → is_some (get_elem? m i) ≡ true
get_elem?-is_some [] i h = absurd (omega arith)
get_elem?-is_some (x ∷ m) zero h = refl
get_elem?-is_some (x ∷ m) (suc i) h = get_elem?-is_some m i (omega arith)

u16_at-is_some : (m : Bytes) (i : ℕ) → i + 1 < length m → is_some (u16_at m i) ≡ true
unfolding u16_at
u16_at-is_some m i h =
    let low = get_elem?-is_some m (i + 1) h in
    let high = get_elem?-is_some m i (omega arith) in ground arith

skip_from-is_some :
    (fuel : ℕ) (m : Bytes) (i : ℕ)
    → 0 < fuel
    → length m < fuel + i
    → is_some (skip_from fuel m i) ≡ true
unfolding skip_from
skip_from-is_some zero m i p h = absurd (omega arith)
skip_from-is_some (suc fuel) m i p h = elim (Option-cases (get_elem? m i)) [
  | inl missing ↦ ground (arith, get_elem?-is_some m i)
  | inr (c, is) ↦ ground (arith, skip_from-is_some fuel m (i + 1 + c))
]

skip-is_some : (m : Bytes) (i : ℕ) → is_some (skip m i) ≡ true
unfolding skip
skip-is_some m i = skip_from-is_some (length m + 1) m i (omega arith) (omega arith)

skip_questions-is_some : (q : ℕ) (m : Bytes) (i : ℕ) → is_some (skip_questions q m i) ≡ true
unfolding skip_questions
skip_questions-is_some zero m i = refl
skip_questions-is_some (suc q) m i = elim (Option-cases (skip m i)) [
  | inl missing ↦ absurd (ground (arith, skip-is_some m i))
  | inr (j, is) ↦ rw (is, is_some) (skip_questions-is_some q m (j + 4))
]

-- What a call may come to: an end, with a name that is not empty and fits the buffer, if any.
unfoldable pub is_fit : ℕ → Option (Option Bytes) → Bool
is_fit len none = false
is_fit len (some none) = true
is_fit len (some (some t)) = ltb 0 (length t) && ltb (length t) len

end_name-is_fit : (len : ℕ) (out : Bytes) → length out < len → is_fit len (end_name len out) ≡ true
unfolding end_name write_bytes is_fit
end_name-is_fit len out h = ground arith

give_up-is_fit : (len : ℕ) → 0 < len → is_fit len (give_up len) ≡ true
unfolding give_up write_bytes is_fit
give_up-is_fit len h = ground arith

read_bytes_lem :
    (m : Bytes) (i c : ℕ)
    → i + c ≤ length m
    → (s : Bytes) × (read_bytes m i c ≡ some s) × (length s ≡ c)
unfolding read_bytes
read_bytes_lem m i c h =
    let cut = length-take c (drop i m) in
    (take c (drop i m), ground arith, omega (arith, cut, length-drop i m))

write_bytes_lem :
    (len : ℕ) (out s : Bytes)
    → length out + length s + 1 < len
    → (t : Bytes) × (write_bytes len out (dot out ++ s) ≡ some t) × (length t < len)
unfolding write_bytes
write_bytes_lem len [] s h = (s, ground arith, omega (arith, h))
write_bytes_lem len (c ∷ out) s h =
    let whole = length-append (c ∷ out) (b'.' ∷ s) in
    (c ∷ (out ++ b'.' ∷ s), ground (arith, whole), omega (arith, whole))

one_more : (k n : ℕ) → (k + 1) * (n + 1) ≡ k * (n + 1) + (n + 1)
one_more k n = grind arith

budget : (n jumps : ℕ) → jumps < 8 → (8 - jumps) * (n + 1) ≡ (8 - (jumps + 1)) * (n + 1) + (n + 1)
budget n jumps h =
    let left : 8 - jumps ≡ 8 - (jumps + 1) + 1 = omega arith in
    ap (λ k. k * (n + 1)) left ∙ one_more (8 - (jumps + 1)) n

name_from-is_fit :
    (fuel : ℕ) (m : Bytes) (len i jumps : ℕ) (out : Bytes)
    → jumps ≤ 8
    → (8 - jumps) * (length m + 1) + (length m - i) < fuel
    → length out < len
    → is_fit len (name_from fuel m len i jumps out) ≡ true
unfolding name_from
name_from-is_fit zero m len i jumps out j h l = absurd (omega arith)
name_from-is_fit (suc fuel) m len i jumps out j h l = elim (Option-cases (get_elem? m i)) [
  | inl missing ↦ ground (arith, get_elem?-is_some m i, give_up-is_fit len)
  | inr (c, is) ↦ elim (Bool-cases (is_pointer c)) [
    | inl pointer ↦ elim (Option-cases (get_elem? m (i + 1))) [
      | inl missing ↦
          ground (arith, get_elem?-is_some m (i + 1), give_up-is_fit len, end_name-is_fit len out)
      | inr (d, low) ↦
          let jump = name_from-is_fit fuel m len (c % 64 * 256 + d) (jumps + 1) out in
          ground (arith, jump, budget (length m) jumps, give_up-is_fit len, end_name-is_fit len out)
    ]
    | inr label ↦ elim (Bool-cases (ltb (length m) (i + 1 + c) || ltb len (length out + c + 2))) [
      | inl beyond ↦ ground (arith, give_up-is_fit len, end_name-is_fit len out)
      | inr room ↦
          let (s, read, size) = read_bytes_lem m (i + 1) c (ground arith) in
          let (t, written, short) = write_bytes_lem len out s (ground arith) in
          ground (arith, name_from-is_fit fuel m len (i + 1 + c) jumps t, end_name-is_fit len out)
    ]
  ]
]

name_at-is_fit : (m : Bytes) (i len : ℕ) → 0 < len → is_fit len (name_at m i len) ≡ true
unfolding name_at
name_at-is_fit m i len h =
    name_from-is_fit (9 * (length m + 1)) m len i 0 [] (omega arith) (omega arith) h

find_ptr-is_fit : (a : ℕ) (m : Bytes) (i len : ℕ) → 0 < len → is_fit len (find_ptr a m i len) ≡ true
unfolding find_ptr is_fit
find_ptr-is_fit zero m i len h = refl
find_ptr-is_fit (suc a) m i len h = elim (Option-cases (skip m i)) [
  | inl missing ↦ absurd (ground (arith, skip-is_some m i))
  | inr (j, is) ↦ elim (Bool-cases (ltb (length m) (j + 10))) [
    | inl beyond ↦ ground arith
    | inr inside ↦ elim (Option-cases (u16_at m (j + 8))) [
      | inl missing ↦ absurd (ground (arith, u16_at-is_some m (j + 8)))
      | inr (rd, is') ↦ ground (
        arith,
        u16_at-is_some m j,
        name_at-is_fit m (j + 10) len,
        find_ptr-is_fit a m (j + 10 + rd) len,
      )
    ]
  ]
]

parse_records-is_fit :
    (m : Bytes) (qs as_ len : ℕ) → 0 < len → is_fit len (parse_records m qs as_ len) ≡ true
unfolding parse_records
parse_records-is_fit m qs as_ len h = elim (Option-cases (skip_questions qs m 12)) [
  | inl missing ↦ absurd (ground (arith, skip_questions-is_some qs m 12))
  | inr (i, is) ↦ ground (arith, find_ptr-is_fit as_ m i len)
]

-- Whatever the message, `parse` comes to an end without a read past the end of the message or a
-- write past the end of the buffer of `len` bytes, and a name that it gives is not empty and fits
-- the buffer with its terminating zero.
pub parse-is_fit : (m : Bytes) (id len : ℕ) → 0 < len → is_fit len (parse m id len) ≡ true
unfolding parse is_fit
parse-is_fit m id len h = elim (Bool-cases (ltb (length m) 12)) [
  | inl short ↦ ground arith
  | inr long ↦ elim (Option-cases (u16_at m 4)) [
    | inl missing ↦ absurd (ground (arith, u16_at-is_some m 4))
    | inr (qs, is) ↦ elim (Option-cases (u16_at m 6)) [
      | inl missing ↦ absurd (ground (arith, u16_at-is_some m 6))
      | inr (n, is') ↦ ground (
        arith,
        u16_at-is_some m 0,
        get_elem?-is_some m 2,
        get_elem?-is_some m 3,
        parse_records-is_fit m qs n len h,
      )
    ]
  ]
]
