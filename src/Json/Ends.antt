-- ===== src/Json/Ends.antt =====
-- Json.h: the recursion of the reader ends, and moves forward in the text only.
use esp8266_dns.Json.Lengths.{Ends-bind}
use esp8266_dns.Base.{if_cases}
use esp8266_dns.Base.{
  ==_iff, Bool-cases, Bytes, Option, Option-cases, [], arith, drop, inl, inr, leb, length, none,
  some, suc, zero, ℕ, ◌*◌, ◌+◌, ◌<◌, ◌==◌, ◌||◌, ◌≡◌, ◌≢◌, ◌≤◌, ◌⊎◌,
}
use esp8266_dns.Json.{
  Parsed, Value, char_at, continue_by, done, expect, fresh, from_option, fuel_for, invalid,
  items_loop, key_at, max_depth, members_at, members_loop, object, opened, plain, scalar, separator,
  spent, string_end, value, ws, ◌>>=◌,
}
use esp8266_dns.Json.Lengths.{
  Ends, Ends-le, MaybeWithin, MaybeWithin-le, Within, drop_1, length-drop_le, length-ws, scalar-le,
  string_end-lt,
}

from_option-Ends :
    (n : ℕ) (o : Option (Value × Bytes)) → MaybeWithin n o → Ends (Within n) (from_option o)
from_option-Ends n none h = tt
from_option-Ends n (some r) h = h

string_end-Ends : (p : Bytes) → Ends (λ q. length q < length p) (from_option (string_end plain p))
string_end-Ends p = elim (Option-cases (string_end plain p)) [
  | inl e ↦ rw e tt
  | inr (q, e) ↦ rw e (string_end-lt plain p q e)
]

key_at-Ends : (p : Bytes) → Ends (λ r. length r.1 < length p) (key_at p)
unfolding key_at
key_at-Ends p = elim (Option-cases (string_end plain (drop 1 p))) [
  | inl e ↦ ground arith
  | inr (q, e) ↦ ground (arith, string_end-lt plain (drop 1 p) q e, length-drop_le 1 p)
]

expect-Ends : (c : ℕ) (p : Bytes) → Ends (λ q. length q ≤ length p) (expect c p)
unfolding expect
expect-Ends c p =
    if_cases (Ends (λ (q : Bytes). length q ≤ length p)) (char_at (ws p) == c) _ _
      (λ _. omega (arith, length-drop_le 1 (ws p), length-ws p)) (λ _. tt)

-- The rest behind a separator is shorter, where the closing bracket is not the end of the text.
abbrev Shorter : Bytes → Bytes ⊎ Bytes → Type 0
Shorter p (inl q) = length q ≤ length p
Shorter p (inr q) = length q < length p

separator-Ends : (close : ℕ) (p : Bytes) → Ends (Shorter p) (separator close p)
unfolding separator
separator-Ends close p =
    if_cases (Ends (Shorter p)) (char_at (ws p) == close) _ _
      (λ _. omega (arith, length-drop_le 1 (ws p), length-ws p))
      (λ _.
        if_cases (Ends (Shorter p)) (char_at (ws p) == b',') _ _
          (λ h. ground (arith, drop_1 (ws p) b',', length-ws p)) (λ _. tt))

opened-Ends {ℓ} :
    {A : Type ℓ} (close : ℕ) (empty : A) (p : Bytes) (loop : Parsed (A × Bytes))
    → Ends (Within (length p)) loop
    → Ends (Within (length p)) (opened close empty p loop)
unfolding opened
opened-Ends close empty p loop h =
    if_cases (Ends (Within (length p))) (char_at p == close) _ _
      (λ _. omega (arith, length-drop_le 1 p)) (λ _. h)

-- The contents of a bracket: the recursive call `loop` starts inside it.
inside-Ends {ℓ} :
    {A : Type ℓ} (close : ℕ) (empty : A) (p : Bytes) (loop : Parsed (A × Bytes))
    → Ends (Within (length (ws (drop 1 (ws p))))) loop
    → Ends (Within (length p)) (opened close empty (ws (drop 1 (ws p))) loop)
inside-Ends close empty p loop h =
    let inside = drop 1 (ws p) in
    Ends-le (length (ws inside)) (length p) (opened close empty (ws inside) loop)
      (omega (arith, length-ws inside, length-drop_le 1 (ws p), length-ws p))
      (opened-Ends close empty (ws inside) loop h)

as_value {ℓ} :
    {A : Type ℓ} (n : ℕ) (v : Value) (m : Parsed (A × Bytes))
    → Ends (Within n) m
    → Ends (Within n) (m >>= λ r. done (v, r.1))
as_value n v m h = Ends-bind (Within n) (Within n) m _ h (λ r w. w)

continue_Ends {ℓ} :
    {A : Type ℓ} (n : ℕ) (p : Bytes) (end more : Bytes → Parsed (A × Bytes))
    → ((q : Bytes) → length q ≤ length p → Ends (Within n) (end q))
    → ((q : Bytes) → length q < length p → Ends (Within n) (more q))
    → (s : Bytes ⊎ Bytes) → Shorter p s
    → Ends (Within n) (continue_by end more s)
continue_Ends n p end more e m (inl q) w = e q w
continue_Ends n p end more e m (inr q) w = m q w

mutual
  unfolding value members_loop items_loop

  value-Ends :
      (fuel : ℕ) (p : Bytes) (depth : ℕ)
      → 2 * length p < fuel
      → Ends (Within (length p)) (value fuel p depth)
  value-Ends zero p depth h = absurd (omega arith)
  value-Ends (suc fuel) p depth h =
      let q = ws p in
      let c = char_at q in
      let inside = ws (drop 1 q) in
      let shorter : (b : ℕ) → c ≡ b → 0 < b → 2 * length inside + 1 < fuel =
        λ b e k. omega (arith, length-ws (drop 1 q), drop_1 q b e k, length-ws p) in
      if_cases (Ends (Within (length p))) (c == b'"') _ _
        (λ _.
          Ends-bind (λ (e : Bytes). length e < length (drop 1 q)) (Within (length p)) _ _
            (string_end-Ends (drop 1 q)) (λ e w. omega (arith, length-drop_le 1 q, length-ws p)))
        (λ _.
          if_cases (Ends (Within (length p))) (c == b'{' || c == b'[') _ _
            (λ bracket.
              if_cases (Ends (Within (length p))) (leb max_depth depth) _ _ (λ _. tt)
                (λ _.
                  let low : 2 * length inside + 1 < fuel = elim (Bool-cases (c == b'{')) [
                    | inl e ↦ shorter b'{' ((==_iff c b'{').0 e) (omega arith)
                    | inr e ↦ shorter b'[' (ground arith) (omega arith)
                  ] in
                  if_cases (Ends (Within (length p))) (c == b'{') _ _
                    (λ _.
                      as_value (length p) _ _
                        (inside-Ends b'}' [] p _ (members_loop-Ends fuel inside (depth + 1) low)))
                    (λ _. as_value (length p) _ _ (
                      inside-Ends b']' (fresh []) p _
                        (items_loop-Ends fuel inside (depth + 1) low)))))
            (λ _.
              from_option-Ends (length p) (scalar q)
                (MaybeWithin-le (length q) (length p) (scalar q) (length-ws p) (scalar-le q))))

  members_loop-Ends :
      (fuel : ℕ) (p : Bytes) (depth : ℕ)
      → 2 * length p + 1 < fuel
      → Ends (Within (length p)) (members_loop fuel p depth)
  members_loop-Ends zero p depth h = absurd (omega arith)
  members_loop-Ends (suc fuel) p depth h =
      Ends-bind _ (Within (length p)) (key_at p) _ (key_at-Ends p) (λ k kw.
        Ends-bind _ (Within (length p)) (expect b':' k.1) _ (expect-Ends b':' k.1) (λ q qw.
          Ends-bind _ (Within (length p)) (value fuel q depth) _
            (value-Ends fuel q depth (omega arith))
            (λ v vw.
              Ends-bind _ (Within (length p)) (separator b'}' v.1) _ (separator-Ends b'}' v.1) (
                continue_Ends (length p) v.1 _ _ (λ e w. omega arith)
                  (λ more w.
                    Ends-bind (Within (length (ws more))) (Within (length p)) _ _
                      (members_loop-Ends fuel (ws more) depth (omega (arith, length-ws more)))
                      (λ r below. omega (arith, length-ws more)))))))

  items_loop-Ends :
      (fuel : ℕ) (p : Bytes) (depth : ℕ)
      → 2 * length p + 1 < fuel
      → Ends (Within (length p)) (items_loop fuel p depth)
  items_loop-Ends zero p depth h = absurd (omega arith)
  items_loop-Ends (suc fuel) p depth h =
      Ends-bind _ (Within (length p)) (value fuel p depth) _ (value-Ends fuel p depth (omega arith))
        (λ v vw. Ends-bind _ (Within (length p)) (separator b']' v.1) _ (separator-Ends b']' v.1) (
          continue_Ends (length p) v.1 _ _ (λ e w. omega arith)
            (λ more w. as_value (length p) v.0 _ (
              Ends-le (length more) (length p) _ (omega arith)
                (items_loop-Ends fuel more depth (omega arith))))))

members_at-Ends : (p : Bytes) → Ends (Within (length p)) (members_at p)
unfolding members_at
members_at-Ends p =
    let q = ws (drop 1 p) in
    Ends-le (length q) (length p) _ (omega (arith, length-ws (drop 1 p), length-drop_le 1 p)) (
      opened-Ends b'}' [] q _ (
        members_loop-Ends (fuel_for p) q 1
          (omega (arith, length-ws (drop 1 p), length-drop_le 1 p))))

Ends-ne-spent {ℓ} : {A : Type ℓ} (P : A → Type 0) (m : Parsed A) → Ends P m → m ≢ spent
Ends-ne-spent P spent h e = h
Ends-ne-spent P invalid h e = cc
Ends-ne-spent P (done a) h e = cc

-- The reading of any text as an object ends: it is found valid or not, however deep it nests.
pub object-ne-spent : (text : Bytes) → object text ≢ spent
unfolding object
object-ne-spent text =
    let p = ws text in
    Ends-ne-spent (λ _. Unit) (object text)
      (if_cases (Ends (λ _. Unit)) (char_at p == b'{') _ _
        (λ _.
          Ends-bind (Within (length p)) (λ _. Unit) (members_at p) _ (members_at-Ends p)
            (λ _ _.
              Ends-bind (Within (length p)) (λ _. Unit) (members_at p) _ (members_at-Ends p)
                (λ _ _. tt)))
        (λ _. tt))
