-- ===== src/ReverseDns/Answer.antt =====
-- ReverseDNS.h, `query` and `parse`: the query, and what a server answers to it.
use esp8266_dns.Base.{get_elem?-append}
use Prim.Native.Char.{code}
use esp8266_dns.Base.{
  All, Bytes, List, [], ap, append_assoc, arith, codes, get_elem?, length, length-append, some, suc,
  take_all, u8, ℕ, ◌*◌, ◌++◌, ◌+◌, ◌/◌, ◌<◌, ◌∙◌, ◌∷◌, ◌≡◌, ◌≤◌,
}
use esp8266_dns.Base.Decimal.{decimal, length-decimal}
use esp8266_dns.NetArbiter.{name}
use esp8266_dns.ReverseDns.{
  Address, end_name, find_ptr, name_at, name_from, octet, parse, parse_records, query, skip,
  skip_from, skip_questions, u16_at, write_bytes,
}
use esp8266_dns.ReverseDns.Names.{IsLabel, encode, join, name_from-encode, room, skip_from-encode}

-- The labels of the reverse name of an address.
unfoldable pub reverse_labels : Address → List Bytes
reverse_labels a =
    decimal a.a3 ∷ decimal a.a2 ∷ decimal a.a1 ∷ decimal a.a0 ∷ codes "in-addr" ∷ codes "arpa" ∷ []

pub record IsAddress (a : Address) : Type 0 where
  pub byte0 : a.a0 < 256
  pub byte1 : a.a1 < 256
  pub byte2 : a.a2 < 256
  pub byte3 : a.a3 < 256

octet_lem :
    (n : ℕ)
    → n < 256
    → (octet n ≡ length (decimal n) ∷ decimal n) × IsLabel (decimal n) × (length (decimal n) ≤ 3)
unfolding octet
octet_lem n h =
    let short = length-decimal n 3 (omega arith) (omega arith) (omega arith) in
    ground (arith, short, take_all 3 (decimal n))

-- The header of a message with one question and `answers` answers.
abbrev pub header : ℕ → ℕ → ℕ → ℕ → Bytes
header id flags code answers =
    u8 (id / 256) ∷ u8 id ∷ flags ∷ code ∷ 0 ∷ 1 ∷ 0 ∷ answers ∷ 0 ∷ 0 ∷ 0 ∷ 0 ∷ []

-- The question for the PTR record of a name.
abbrev pub question : List Bytes → Bytes
question ls = encode ls ++ (0 ∷ 12 ∷ 0 ∷ 1 ∷ [])

-- The query of an address is the question for its reverse name, and it fits 46 bytes.
query_lem :
    (a : Address) (id cap : ℕ)
    → IsAddress a
    → 46 ≤ cap
    → (query (some a) id cap ≡ some (header id 1 0 0 ++ question (reverse_labels a)))
      × (length (header id 1 0 0 ++ question (reverse_labels a)) ≤ 46)
      × All IsLabel (reverse_labels a)
unfolding query encode reverse_labels
query_lem a id cap h l =
    let (o0, l0, s0) = octet_lem a.a0 h.byte0 in
    let (o1, l1, s1) = octet_lem a.a1 h.byte1 in
    let (o2, l2, s2) = octet_lem a.a2 h.byte2 in
    let (o3, l3, s3) = octet_lem a.a3 h.byte3 in ground (arith, o0, o1, o2, o3, l0, l1, l2, l3)

u16_at-append : (pre rest : Bytes) (k : ℕ) → u16_at (pre ++ rest) (length pre + k) ≡ u16_at rest k
unfolding u16_at
u16_at-append pre rest k =
    let next : length pre + k + 1 ≡ length pre + (k + 1) = omega arith in
    let low = ap (get_elem? (pre ++ rest)) next ∙ get_elem?-append pre rest (k + 1) in
    let high = get_elem?-append pre rest k in ground (arith, high, low)

-- A PTR record whose name is a pointer to position 12, with a time to live of `t` seconds.
abbrev pub ptr_record : ℕ → List Bytes → Bytes → Bytes
ptr_record t name rest =
    192
    ∷ 12
    ∷ 0
    ∷ 12
    ∷ 0
    ∷ 1
    ∷ 0
    ∷ 0
    ∷ u8 (t / 256)
    ∷ u8 t
    ∷ u8 (length (encode name) / 256)
    ∷ u8 (length (encode name))
    ∷ (encode name ++ rest)

length-encode : (ls : List Bytes) → length ls < length (encode ls)
unfolding encode
length-encode [] = omega arith
length-encode (l ∷ ls) = omega (arith, length-encode ls, length-append l (encode ls))

module _ (pre rest : Bytes) (t : ℕ) (name : List Bytes) where
  abbrev whole : Bytes
  whole = pre ++ ptr_record t name rest

  length-whole : length whole ≡ length pre + 12 + length (encode name) + length rest
  length-whole =
      omega (arith, length-append pre (ptr_record t name rest), length-append (encode name) rest)

  skip-pointer : skip whole (length pre) ≡ some (length pre + 2)
  unfolding skip skip_from
  skip-pointer =
      let zero_on : length pre ≡ length pre + 0 = omega arith in
      let first = ap (get_elem? whole) zero_on ∙ get_elem?-append pre (ptr_record t name rest) 0 in
      let fuel : length whole + 1 ≡ suc (length whole) = omega arith in
      ap (λ f. skip_from f whole (length pre)) fuel
      ∙ (unfold skip_from in ground (arith, first, length-whole))

  abbrev front : Bytes
  front =
      pre
      ++ (192
          ∷ 12
          ∷ 0
          ∷ 12
          ∷ 0
          ∷ 1
          ∷ 0
          ∷ 0
          ∷ u8 (t / 256)
          ∷ u8 t
          ∷ u8 (length (encode name) / 256)
          ∷ u8 (length (encode name))
          ∷ [])

  whole-regroup : whole ≡ front ++ (encode name ++ rest)
  whole-regroup = simp append_assoc

  length-front : length pre + 2 + 10 ≡ length front
  length-front = omega (
    arith,
    length-append pre (
        192
        ∷ 12
        ∷ 0
        ∷ 12
        ∷ 0
        ∷ 1
        ∷ 0
        ∷ 0
        ∷ u8 (t / 256)
        ∷ u8 t
        ∷ u8 (length (encode name) / 256)
        ∷ u8 (length (encode name))
        ∷ []),
  )

  name_at-whole :
      (len : ℕ)
      → All IsLabel name
      → room name + 1 ≤ len
      → name_at whole (length pre + 2 + 10) len ≡ end_name len (join [] name)
  unfolding name_at
  name_at-whole len h l =
      let fuel = 9 * (length whole + 1) in
      ap (λ i. name_from fuel whole len i 0 []) length-front
      ∙ ap (λ m. name_from fuel m len (length front) 0 []) whole-regroup
      ∙ name_from-encode fuel front rest name len 0 []
          (omega (arith, length-whole, length-encode name)) h (omega (arith, l))

  type_is_ptr : u16_at whole (length pre + 2) ≡ some 12
  unfolding u16_at
  type_is_ptr = u16_at-append pre (ptr_record t name rest) 2

  data_size :
      length (encode name) < 65536 → u16_at whole (length pre + 2 + 8) ≡ some (length (encode name))
  unfolding u16_at
  data_size r =
      let next : length pre + 2 + 8 ≡ length pre + 10 = omega arith in
      let n = length (encode name) in
      let bytes : u8 (n / 256) * 256 + u8 n ≡ n = omega (arith, r) in
      ap (u16_at whole) next
      ∙ u16_at-append pre (ptr_record t name rest) 10
      ∙ ap (λ (x : ℕ). some x) bytes

  find_ptr-ptr_record :
      (len : ℕ)
      → length (encode name) < 65536
      → All IsLabel name
      → room name + 1 ≤ len
      → find_ptr 1 whole (length pre) len ≡ end_name len (join [] name)
  unfolding find_ptr
  find_ptr-ptr_record len r h l =
      ground (arith, skip-pointer, type_is_ptr, data_size r, name_at-whole len h l, length-whole)

length-join :
    (ls : List Bytes) (out : Bytes)
    → All IsLabel ls
    → (length (join out ls) ≤ length out + room ls) × (length out ≤ length (join out ls))
unfolding join room
length-join [] out h = (omega arith, omega arith)
length-join (l ∷ ls) [] h = omega (arith, length-join ls l h.1)
length-join (l ∷ ls) (x ∷ out) h =
    omega (arith, length-join ls (x ∷ (out ++ b'.' ∷ l)) h.1, length-append (x ∷ out) (b'.' ∷ l))

end_name-join :
    (ls : List Bytes) (l : Bytes) (len : ℕ)
    → All IsLabel (l ∷ ls)
    → room (l ∷ ls) + 1 ≤ len
    → end_name len (join [] (l ∷ ls)) ≡ some (some (join [] (l ∷ ls)))
unfolding end_name write_bytes join room
end_name-join ls l len h r = ground (arith, length-join ls l h.1)

-- The answer of a server: the header, the question, one record and what may follow.
abbrev pub answer : ℕ → List Bytes → ℕ → List Bytes → Bytes → Bytes
answer id q t name rest = header id 129 128 1 ++ (question q ++ ptr_record t name rest)

module _ (id : ℕ) (q : List Bytes) (t : ℕ) (rest : Bytes) where
  parse-header :
      (name : List Bytes) (len : ℕ)
      → id < 65536
      → parse (answer id q t name rest) id len ≡ parse_records (answer id q t name rest) 1 1 len
  unfolding parse u16_at
  parse-header name len h = ground arith

  length-answer :
      (name : List Bytes)
      → length (answer id q t name rest) ≡ 16 + length (encode q) + length (ptr_record t name rest)
  length-answer name = omega (
    arith,
    length-append (question q) (ptr_record t name rest),
    length-append (encode q) (0 ∷ 12 ∷ 0 ∷ 1 ∷ []),
  )

  skip-question :
      (name : List Bytes)
      → All IsLabel q
      → skip (answer id q t name rest) 12 ≡ some (12 + length (encode q))
  unfolding skip
  skip-question name h =
      let m = answer id q t name rest in
      ap (λ s. skip_from (length m + 1) (header id 129 128 1 ++ s) 12)
        (append_assoc (encode q) (0 ∷ 12 ∷ 0 ∷ 1 ∷ []) (ptr_record t name rest))
      ∙ skip_from-encode (length m + 1) (header id 129 128 1)
          ((0 ∷ 12 ∷ 0 ∷ 1 ∷ []) ++ ptr_record t name rest) q
          (omega (arith, length-answer name, length-encode q)) h

  -- The name in an answer to the query is read as it is written, whatever the labels of the
  -- question and of the name, if it fits the buffer.
  pub parse-answer :
      (name : List Bytes) (l : Bytes) (len : ℕ)
      → id < 65536
      → All IsLabel q
      → All IsLabel (l ∷ name)
      → length (encode (l ∷ name)) < 65536
      → room (l ∷ name) + 1 ≤ len
      → parse (answer id q t (l ∷ name) rest) id len ≡ some (some (join [] (l ∷ name)))
  unfolding parse_records skip_questions
  parse-answer name l len i hq h s r =
      let m = answer id q t (l ∷ name) rest in
      let front = header id 129 128 1 ++ question q in
      let at : 12 + length (encode q) + 4 ≡ length front =
        omega (arith, length-append (encode q) (0 ∷ 12 ∷ 0 ∷ 1 ∷ [])) in
      let found =
        ap (λ i. find_ptr 1 m i len) at ∙ find_ptr-ptr_record front rest t (l ∷ name) len s h r in
      parse-header (l ∷ name) len i
      ∙ ground (arith, skip-question (l ∷ name) hq, found, end_name-join name l len h r)
