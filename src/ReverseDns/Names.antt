-- ===== src/ReverseDns/Names.antt =====
-- ReverseDNS.h, `_name` and `_skip` of a name written as a row of labels.
use esp8266_dns.Base.{take-append}
use esp8266_dns.Base.{get_elem?-append}
use esp8266_dns.Base.{drop-append}
use esp8266_dns.Base.{
  All, Bytes, List, [], ap, append_assoc, arith, get_elem?, length, length-append, refl, some, suc,
  sym, zero, ℕ, ◌++◌, ◌+◌, ◌<◌, ◌∙◌, ◌∷◌, ◌≡◌, ◌≤◌,
}
use esp8266_dns.ReverseDns.{dot, end_name, name_from, read_bytes, skip_from, write_bytes}

-- A name in a message: every label behind its length, and a zero at the end.
unfoldable pub encode : List Bytes → Bytes
encode [] = 0 ∷ []
encode (l ∷ ls) = length l ∷ (l ++ encode ls)

-- The labels with dots between them, behind the text `out`.
unfoldable pub join : Bytes → List Bytes → Bytes
join out [] = out
join out (l ∷ ls) = join (out ++ (dot out ++ l)) ls

abbrev pub IsLabel : Bytes → Type 0
IsLabel l = (0 < length l) × (length l < 64)

-- The room that a name takes: each label with a dot, or the zero, behind it.
unfoldable pub room : List Bytes → ℕ
room [] = 0
room (l ∷ ls) = length l + 1 + room ls

read_bytes-append :
    (pre l rest : Bytes) (c : ℕ)
    → read_bytes (pre ++ (c ∷ (l ++ rest))) (length pre + 1) (length l) ≡ some l
unfolding read_bytes
read_bytes-append pre l rest c =
    let from = drop-append pre (c ∷ (l ++ rest)) 1 in
    let size = length-append pre (c ∷ (l ++ rest)) in
    let behind = length-append l rest in
    rw from (rw (take-append l rest) (ground (arith, size, behind)))

skip_from-label :
    (fuel : ℕ) (m : Bytes) (i c : ℕ)
    → get_elem? m i ≡ some c
    → i < length m
    → 0 < c
    → c < 64
    → skip_from (suc fuel) m i ≡ skip_from fuel m (i + 1 + c)
unfolding skip_from
skip_from-label fuel m i c e h p q = ground arith

name_from-label :
    (fuel : ℕ) (m : Bytes) (len i c jumps : ℕ) (out s : Bytes)
    → get_elem? m i ≡ some c
    → read_bytes m (i + 1) c ≡ some s
    → length s ≡ c
    → i + 1 + c ≤ length m
    → 0 < c
    → c < 64
    → length out + c + 2 ≤ len
    → name_from (suc fuel) m len i jumps out
      ≡ name_from fuel m len (i + 1 + c) jumps (out ++ (dot out ++ s))
unfolding name_from write_bytes
name_from-label fuel m len i c jumps [] s e r n h p q l = ground arith
name_from-label fuel m len i c jumps (x ∷ out) s e r n h p q l =
    ground (arith, length-append (x ∷ out) (b'.' ∷ s))

-- The first label of a name, and what is behind it.
module _ (pre l rest post : Bytes) where
  abbrev before : Bytes
  before = pre ++ (length l ∷ l)

  length-before : length before ≡ length pre + 1 + length l
  length-before = omega (arith, length-append pre (length l ∷ l))

  abbrev message : Bytes
  message = pre ++ ((length l ∷ (l ++ rest)) ++ post)

  message-regroup : message ≡ before ++ (rest ++ post)
  message-regroup = simp append_assoc

  first : get_elem? message (length pre) ≡ some (length l)
  first =
      let zero_on : length pre ≡ length pre + 0 = omega arith in
      ap (get_elem? message) zero_on ∙ get_elem?-append pre ((length l ∷ (l ++ rest)) ++ post) 0

  label : read_bytes message (length pre + 1) (length l) ≡ some l
  label =
      ap (λ m. read_bytes (pre ++ (length l ∷ m)) (length pre + 1) (length l))
        (append_assoc l rest post)
      ∙ read_bytes-append pre l (rest ++ post) (length l)

  long : length pre + 1 + length l ≤ length message
  long =
      let whole = ap length message-regroup ∙ length-append before (rest ++ post) in
      omega (arith, whole, length-before)

pub skip_from-encode :
    (fuel : ℕ) (pre post : Bytes) (ls : List Bytes)
    → length ls < fuel
    → All IsLabel ls
    → skip_from fuel (pre ++ (encode ls ++ post)) (length pre)
      ≡ some (length pre + length (encode ls))
unfolding encode
skip_from-encode zero pre post ls f h = absurd (omega arith)
skip_from-encode (suc fuel) pre post [] f h =
    let zero_on : length pre + 0 ≡ length pre = omega arith in
    let first =
      ap (get_elem? (pre ++ (0 ∷ post))) (sym zero_on) ∙ get_elem?-append pre (0 ∷ post) 0 in
    let size = length-append pre (0 ∷ post) in unfold skip_from in ground (arith, first, size)
skip_from-encode (suc fuel) pre post (l ∷ ls) f h =
    let rest = encode ls in
    let m = message pre l rest post in
    let b = before pre l rest post in
    let moved : length pre + 1 + length l ≡ length b = sym (length-before pre l rest post) in
    let total : length b + length rest ≡ length pre + length (length l ∷ (l ++ rest)) =
      omega (arith, moved, length-append l rest) in
    skip_from-label fuel m (length pre) (length l) (first pre l rest post)
      (omega (arith, long pre l rest post)) h.0.0 h.0.1
    ∙ ap (skip_from fuel m) moved
    ∙ ap (λ t. skip_from fuel t (length b)) (message-regroup pre l rest post)
    ∙ skip_from-encode fuel b post ls (omega (arith, f)) h.1
    ∙ ap some total

pub name_from-encode :
    (fuel : ℕ) (pre post : Bytes) (ls : List Bytes) (len jumps : ℕ) (out : Bytes)
    → length ls < fuel
    → All IsLabel ls
    → length out + room ls + 1 ≤ len
    → name_from fuel (pre ++ (encode ls ++ post)) len (length pre) jumps out
      ≡ end_name len (join out ls)
unfolding encode join room
name_from-encode zero pre post ls len jumps out f h r = absurd (omega arith)
name_from-encode (suc fuel) pre post [] len jumps out f h r =
    let zero_on : length pre + 0 ≡ length pre = omega arith in
    let first =
      ap (get_elem? (pre ++ (0 ∷ post))) (sym zero_on) ∙ get_elem?-append pre (0 ∷ post) 0 in
    let size = length-append pre (0 ∷ post) in unfold name_from in ground (arith, first, size)
name_from-encode (suc fuel) pre post (l ∷ ls) len jumps out f h r =
    let rest = encode ls in
    let m = message pre l rest post in
    let b = before pre l rest post in
    let out' = out ++ (dot out ++ l) in
    let moved : length pre + 1 + length l ≡ length b = sym (length-before pre l rest post) in
    let grown : length out' ≤ length out + 1 + length l = longer out l in
    name_from-label fuel m len (length pre) (length l) jumps out l (first pre l rest post)
      (label pre l rest post) refl (long pre l rest post) h.0.0 h.0.1 (omega (arith, r))
    ∙ ap (λ i. name_from fuel m len i jumps out') moved
    ∙ ap (λ t. name_from fuel t len (length b) jumps out') (message-regroup pre l rest post)
    ∙ name_from-encode fuel b post ls len jumps out' (omega (arith, f)) h.1
        (omega (arith, r, grown))
  where
    longer : (out l : Bytes) → length (out ++ (dot out ++ l)) ≤ length out + 1 + length l
    longer [] l = omega arith
    longer (x ∷ out) l = omega (arith, length-append (x ∷ out) (b'.' ∷ l))
