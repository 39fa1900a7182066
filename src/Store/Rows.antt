-- ===== src/Store/Rows.antt =====
-- ConfigStore.h: every row of the table is found by its key, at its place.
use esp8266_dns.Base.{
  &&-split, ==_iff, Bool, Bytes, List, Option, [], ap, append_assoc, arith, bytes_eq, codes, drop,
  false, get_or, leb, leb→le, length, length-append, ltb, none, not, refl, set, some, suc, sym,
  true, zero, ℕ, ◌&&◌, ◌++◌, ◌==◌, ◌∙◌, ◌∷◌, ◌≡◌, ◌≤◌,
}
use esp8266_dns.Base.Int.{pos}
use esp8266_dns.Json.{Value}
use esp8266_dns.Json.RoundTrip.{read_all}
use esp8266_dns.Json.Values.{read_as}
use esp8266_dns.Json.Written.{tail_text}
use esp8266_dns.Mqtt.Packet.{fnv_from}
use esp8266_dns.Store.Back.{AreCells, IsCell, set_cell-content_of}
use esp8266_dns.Store.File.{
  Cell, Load, content_of, fields_of, find_row, flag, records_hash, set_cell, set_found, set_member,
  set_members,
}
use esp8266_dns.Store.Table.{FieldType, Row, config_key_hash, fields, row}

abbrev is_place : Option ℕ → ℕ → Bool
is_place none i = false
is_place (some j) i = i == j

abbrev pub is_plain : Bytes → Bool
is_plain [] = true
is_plain (c ∷ s) = not (c == b'"') && not (c == 92) && ltb 0 c && is_plain s

-- The row is found by its key, at its place, and by no test before that of the table.
unfoldable pub is_found : ℕ → Row → Bool
is_found i r =
    let h = config_key_hash r.key in
    is_place (find_row fields r.key h) i
    && not (h == records_hash)
    && not (bytes_eq r.key (codes "v"))
    && leb (length r.key) 23
    && is_plain r.key

unfoldable pub are_found : ℕ → List Row → Bool
unfolding is_found
are_found i [] = true
are_found i (r ∷ rs) = is_found i r && are_found (suc i) rs

-- By evaluation of the table.
pub fields_found : are_found 0 fields ≡ true
unfolding are_found config_key_hash find_row fnv_from bytes_eq
fields_found = refl

get_or-drop {ℓ} :
    {A : Type ℓ} (i : ℕ) (xs ys : List A) (x d : A) → drop i xs ≡ x ∷ ys → get_or xs i d ≡ x
get_or-drop zero [] ys x d h = absurd (ground (arith, ap length h))
get_or-drop zero (y ∷ xs) ys x d h = ap (λ t. get_or t 0 d) h
get_or-drop (suc i) [] ys x d h = absurd (ground (arith, ap length h))
get_or-drop (suc i) (y ∷ xs) ys x d h = get_or-drop i xs ys x d h

drop-suc {ℓ} :
    {A : Type ℓ} (i : ℕ) (xs ys : List A) (x : A) → drop i xs ≡ x ∷ ys → drop (suc i) xs ≡ ys
drop-suc zero [] ys x h = absurd (ground (arith, ap length h))
drop-suc zero (y ∷ xs) ys x h = ap (drop 1) h
drop-suc (suc i) [] ys x h = absurd (ground (arith, ap length h))
drop-suc (suc i) (y ∷ xs) ys x h = drop-suc i xs ys x h

set-append {ℓ} :
    {A : Type ℓ} (front ds : List A) (d c : A)
    → set (front ++ (d ∷ ds)) (length front) c ≡ front ++ (c ∷ ds)
set-append [] ds d c = refl
set-append (x ∷ front) ds d c = ap (◌∷◌ x) (set-append front ds d c)

five :
    (a b c d e : Bool)
    → (a && b && c && d && e) ≡ true
    → (a ≡ true) × (b ≡ true) × (c ≡ true) × (d ≡ true) × (e ≡ true)
five a b c d e h =
    (ground (arith, h), ground (arith, h), ground (arith, h), ground (arith, h), ground (arith, h))

not-true : (b : Bool) → not b ≡ true → b ≡ false
not-true b h = ground (arith, h)

is_place_sound : (o : Option ℕ) (i : ℕ) → is_place o i ≡ true → o ≡ some i
is_place_sound none i h = absurd (ground (arith, h))
is_place_sound (some j) i h = ap some (sym ((==_iff i j).0 h))

pub record IsFound (i : ℕ) (r : Row) : Type 0 where
  pub place : find_row fields r.key (config_key_hash r.key) ≡ some i
  pub no_records : (config_key_hash r.key == records_hash) ≡ false
  pub no_version : bytes_eq r.key (codes "v") ≡ false
  pub short : length r.key ≤ 23
  pub plain : is_plain r.key ≡ true

pub is_found_sound : (i : ℕ) (r : Row) → is_found i r ≡ true → IsFound i r
unfolding is_found
is_found_sound i r f =
    let h = config_key_hash r.key in
    let parts =
      five (is_place (find_row fields r.key h) i) (not (h == records_hash))
        (not (bytes_eq r.key (codes "v"))) (leb (length r.key) 23) (is_plain r.key) f in
    record {
      place = is_place_sound (find_row fields r.key h) i parts.0;
      no_records = not-true (h == records_hash) parts.1;
      no_version = not-true (bytes_eq r.key (codes "v")) parts.2;
      short = leb→le (length r.key) 23 parts.3;
      plain = parts.4;
    }

-- The value of a row goes to its place.
set_found-row :
    (i : ℕ) (r : Row) (rs : List Row) (c d : Cell) (front ds : List Cell) (rest : Bytes) (l : Load)
    → drop i fields ≡ r ∷ rs
    → IsCell r.type c
    → l.cells ≡ front ++ (d ∷ ds)
    → length front ≡ i
    → (set_found (some i) (read_as (content_of r.type c) rest) l).cells ≡ front ++ (c ∷ ds)
set_found-row i r rs c d front ds rest l e h k m =
    let old = get_or l.cells i (flag false) in
    let none_row = row "" "" FieldType.string (pos 0) in
    ap (λ (q : Row). set l.cells i (set_cell q.type (read_as (content_of r.type c) rest) old))
      (get_or-drop i fields rs r none_row e)
    ∙ ap (set l.cells i) (set_cell-content_of r.type c old rest h)
    ∙ ap (λ (cs : List Cell). set cs i c) k
    ∙ ap (λ (n : ℕ). set (front ++ (d ∷ ds)) n c) (sym m)
    ∙ set-append front ds d c

set_member-found :
    (i : ℕ) (r : Row) (v : Value) (l : Load)
    → IsFound i r
    → set_member (record { key = r.key; value = v }) l ≡ set_found (some i) v l
unfolding set_member
set_member-found i r v l f = rw (f.no_version, f.no_records, f.place) refl

pub fields_of-rows :
    (i : ℕ) (rs : List Row) (cs front ds : List Cell) (rest : Bytes) (l : Load)
    → drop i fields ≡ rs
    → are_found i rs ≡ true
    → AreCells rs cs
    → l.cells ≡ front ++ ds
    → length ds ≡ length rs
    → length front ≡ i
    → ((set_members (read_all (fields_of rs cs) rest) l).cells ≡ front ++ cs)
      × ((set_members (read_all (fields_of rs cs) rest) l).file_version ≡ l.file_version)
unfolding set_members read_all fields_of are_found
fields_of-rows i [] [] front [] rest l e f a k n m = (k, refl)
fields_of-rows i [] [] front (d ∷ ds) rest l e f a k n m = absurd (omega (arith, n))
fields_of-rows i [] (c ∷ cs) front ds rest l e f a k n m = absurd a
fields_of-rows i (r ∷ rs) [] front ds rest l e f a k n m = absurd a
fields_of-rows i (r ∷ rs) (c ∷ cs) front [] rest l e f a k n m = absurd (omega (arith, n))
fields_of-rows i (r ∷ rs) (c ∷ cs) front (d ∷ ds) rest l e f a k n m =
    let found = &&-split (is_found i r) (are_found (suc i) rs) f in
    let tail = tail_text (fields_of rs cs) ++ rest in
    let v = read_as (content_of r.type c) tail in
    let l1 = set_found (some i) v l in
    let moved : front ++ (c ∷ ds) ≡ (front ++ (c ∷ [])) ++ ds =
      sym (append_assoc front (c ∷ []) ds) in
    let next =
      fields_of-rows (suc i) rs cs (front ++ (c ∷ [])) ds rest l1 (drop-suc i fields rs r e) found.1
        a.1 (set_found-row i r rs c d front ds tail l e a.0 k m ∙ moved) (omega (arith, n))
        (omega (arith, m, length-append front (c ∷ []))) in
    let here = set_member-found i r v l (is_found_sound i r found.0) in
    (
      ap (λ (t : Load). (set_members (read_all (fields_of rs cs) rest) t).cells) here
          ∙ next.0
          ∙ append_assoc front (c ∷ []) cs,
      ap (λ (t : Load). (set_members (read_all (fields_of rs cs) rest) t).file_version) here
          ∙ next.1,
    )
