-- ===== src/Json/Lengths.antt =====
-- Json.h: what is left of the text behind each part that the reader takes.
use esp8266_dns.Base.{if_cases}
use esp8266_dns.Base.{
  Bytes, Option, Option-cases, [], arith, codes, drop, if◌then◌else◌, inl, inr, is_some, length,
  length-drop, none, some, subst, suc, true, zero, ℕ, ◌-◌, ◌<◌, ◌==◌, ◌||◌, ◌∷◌, ◌≡◌, ◌≤◌,
}
use esp8266_dns.Json.{
  Kind, Parsed, Scan, Value, add_digit, char_at, digits, digits_left, done, escaped, exponent,
  fraction, fresh, invalid, magnitude, plain, read_number, scalar, skip_digits, spent, starts,
  string_end, ws, ◌>>=◌,
}

-- The run ended, and its result, if there is one, meets the predicate.
abbrev pub Ends {ℓ} : {A : Type ℓ} → (A → Type 0) → Parsed A → Type 0
Ends P spent = ⊥
Ends P invalid = Unit
Ends P (done a) = P a

pub Ends-bind {ℓ κ} :
    {A : Type ℓ} {B : Type κ} (P : A → Type 0) (Q : B → Type 0) (m : Parsed A) (f : A → Parsed B)
    → Ends P m
    → ((a : A) → P a → Ends Q (f a))
    → Ends Q (m >>= f)
Ends-bind P Q spent f h k = h
Ends-bind P Q invalid f h k = tt
Ends-bind P Q (done a) f h k = k a h

-- The rest of the text is no longer than `n` bytes.
abbrev pub Within {ℓ} : {A : Type ℓ} → ℕ → A × Bytes → Type 0
Within n r = length r.1 ≤ n

pub Ends-le {ℓ} :
    {A : Type ℓ} (m n : ℕ) (r : Parsed (A × Bytes)) → m ≤ n → Ends (Within m) r → Ends (Within n) r
Ends-le m n spent h w = w
Ends-le m n invalid h w = tt
Ends-le m n (done r) h w = omega arith

pub length-ws : (p : Bytes) → length (ws p) ≤ length p
unfolding ws
length-ws [] = omega arith
length-ws (c ∷ p) = ground (arith, length-ws p)

pub drop_1 : (p : Bytes) (c : ℕ) → char_at p ≡ c → 0 < c → length (drop 1 p) < length p
drop_1 [] c h k = absurd (omega arith)
drop_1 (x ∷ p) c h k = omega arith

pub string_end-lt : (scan : Scan) (p q : Bytes) → string_end scan p ≡ some q → length q < length p
unfolding string_end
string_end-lt scan [] q h = cc
string_end-lt plain (c ∷ p) q h =
    ground (arith, string_end-lt (if c == 92 then escaped else plain) p q)
string_end-lt escaped (c ∷ p) q h =
    ground (arith, string_end-lt (if c == b'u' then digits_left 3 else plain) p q)
string_end-lt (digits_left zero) (c ∷ p) q h = ground (arith, string_end-lt plain p q)
string_end-lt (digits_left (suc n)) (c ∷ p) q h = ground (arith, string_end-lt (digits_left n) p q)

length-skip_digits : (p : Bytes) → length (skip_digits p) ≤ length p
unfolding skip_digits
length-skip_digits [] = omega arith
length-skip_digits (c ∷ p) = ground (arith, length-skip_digits p)

length-digits : (p q : Bytes) → digits p ≡ some q → length q ≤ length p
unfolding digits
length-digits p q h = ground (arith, length-skip_digits p)

length-magnitude : (v : Value) (p : Bytes) → length (magnitude v p).1 ≤ length p
unfolding magnitude
length-magnitude v [] = omega arith
length-magnitude v (c ∷ p) = ground (arith, length-magnitude (add_digit (c - b'0') v) p)

-- The same for results that may be missing.
abbrev pub MaybeWithin : ℕ → Option (Value × Bytes) → Type 0
MaybeWithin n none = Unit
MaybeWithin n (some r) = length r.1 ≤ n

pub MaybeWithin-le :
    (m n : ℕ) (o : Option (Value × Bytes)) → m ≤ n → MaybeWithin m o → MaybeWithin n o
MaybeWithin-le m n none h w = tt
MaybeWithin-le m n (some r) h w = omega arith

pub length-drop_le : (n : ℕ) (p : Bytes) → length (drop n p) ≤ length p
length-drop_le n p = omega (arith, length-drop n p)

fraction-le : (v : Value) (p : Bytes) → MaybeWithin (length p) (fraction v p)
unfolding fraction
fraction-le v p =
    if_cases (MaybeWithin (length p)) (char_at p == b'.') _ _
      (λ _. elim (Option-cases (digits (drop 1 p))) [
        | inl e ↦ rw e tt
        | inr (q, e) ↦ rw e (omega (arith, length-digits (drop 1 p) q e, length-drop_le 1 p))
      ])
      (λ _. omega arith)

exponent-le : (v : Value) (p : Bytes) → MaybeWithin (length p) (exponent v p)
unfolding exponent
exponent-le v p =
    let q = drop 1 p in
    let start : Bytes = if char_at q == b'+' || char_at q == b'-' then drop 1 q else q in
    let before : length start ≤ length p =
      if_cases (λ (t : Bytes). length t ≤ length p) (char_at q == b'+' || char_at q == b'-') _ _
        (λ _. omega (arith, length-drop_le 1 q, length-drop_le 1 p))
        (λ _. omega (arith, length-drop_le 1 p)) in
    if_cases (MaybeWithin (length p)) (char_at p == b'e' || char_at p == b'E') _ _
      (λ _. elim (Option-cases (digits start)) [
        | inl e ↦ rw e tt
        | inr (r, e) ↦ rw e (omega (arith, length-digits start r e))
      ])
      (λ _. omega arith)

starts-le : (word p : Bytes) → starts word p ≡ true → length word ≤ length p
unfolding starts
starts-le [] p h = omega arith
starts-le (w ∷ word) [] h = absurd (cc)
starts-le (w ∷ word) (c ∷ p) h = ground (arith, starts-le word p)

read_number-le : (v : Value) (p : Bytes) → MaybeWithin (length p) (read_number v p)
unfolding read_number
read_number-le v p =
    let minus = char_at p == b'-' in
    let q : Bytes = if minus then drop 1 p else p in
    let shorter : length q ≤ length p =
      if_cases (λ (t : Bytes). length t ≤ length p) minus _ _
        (λ _. omega (arith, length-drop_le 1 p)) (λ _. omega arith) in
    let whole = magnitude (record v { neg = minus; kind = Kind.integer }) q in
    let body : MaybeWithin (length p)
        (elim (fraction whole.0 whole.1) [ none ↦ none | some (w, r) ↦ exponent w r ]) =
      elim (Option-cases (fraction whole.0 whole.1)) [
        | inl e ↦ rw e tt
        | inr (wr, e) ↦ rw e (
            MaybeWithin-le (length wr.1) (length p) _
              (omega (
                arith,
                shorter,
                length-magnitude (record v { neg = minus; kind = Kind.integer }) q,
                subst (MaybeWithin (length whole.1)) e (fraction-le whole.0 whole.1),
              ))
              (exponent-le wr.0 wr.1))
      ] in
    if_cases (MaybeWithin (length p)) (is_some (digits q)) _ _ (λ _. body) (λ _. tt)

pub scalar-le : (p : Bytes) → MaybeWithin (length p) (scalar p)
unfolding scalar
scalar-le p =
    if_cases (MaybeWithin (length p)) (starts (codes "true") p || starts (codes "false") p) _ _
      (λ _. omega (arith, length-drop_le (if char_at p == b't' then 4 else 5) p))
      (λ _.
        if_cases (MaybeWithin (length p)) (starts (codes "null") p) _ _
          (λ _. omega (arith, length-drop_le 4 p)) (λ _. read_number-le (fresh p) p))
