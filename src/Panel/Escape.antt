-- ===== src/Panel/Escape.antt =====
-- WebService.h, `_e`: variable text in a page.
use esp8266_dns.Base.{
  ==_iff, All, All-append, Bool-cases, Bytes, Option, [], ap, arith, codes, drop, if◌then◌else◌,
  inl, inr, length, none, Bool, ◌≡◌, not, true, ◌&&◌, append-nil, append_assoc, refl, some, subst,
  suc, sym, zero, ℕ, ◌++◌, ◌==◌, ◌∙◌, ◌∷◌, ◌≢◌, ◌≤◌,
}
use esp8266_dns.HttpServer.{starts_with}
use esp8266_dns.HttpServer.Output.{Out, put}
use esp8266_dns.HttpServer.Output.Segments.{put-total, IsOut, total}

unfoldable pub entity : ℕ → Option Bytes
entity c =
    if c == b'&'
    then some (codes "&amp;")
    else if c == b'<'
    then some (codes "&lt;")
    else if c == b'>'
    then some (codes "&gt;")
    else if c == b'"'
    then some (codes "&quot;")
    else if c == 39
    then some (codes "&#39;")
    else none

-- `run` is the text since the last entity.
unfoldable pub send_escaped_from : Bytes → Bytes → Out → Out
send_escaped_from run [] o = put run o
send_escaped_from run (c ∷ s) o =
    let plain = send_escaped_from (run ++ (c ∷ [])) s o in
    let behind = λ (e : Bytes). send_escaped_from [] s (put e (put run o)) in
    elim (entity c) [ none ↦ plain | some e ↦ behind e ]

unfoldable pub send_escaped : Bytes → Out → Out
unfolding send_escaped_from
send_escaped s o = send_escaped_from [] s o

-- What a character is written as.
abbrev pub shown : ℕ → Bytes
shown c = elim (entity c) [ none ↦ c ∷ [] | some e ↦ e ]

unfoldable pub with_entities : Bytes → Bytes
with_entities [] = []
with_entities (c ∷ s) = shown c ++ with_entities s

-- A reader of HTML: the five character references, and any other byte as it is.
unfoldable pub read_html : ℕ → Bytes → Bytes
unfolding starts_with
read_html zero s = []
read_html (suc fuel) [] = []
read_html (suc fuel) (c ∷ s) =
    let rest = λ (n : ℕ). read_html fuel (drop n (c ∷ s)) in
    if starts_with (codes "&amp;") (c ∷ s)
    then b'&' ∷ rest 5
    else if starts_with (codes "&lt;") (c ∷ s)
    then b'<' ∷ rest 4
    else if starts_with (codes "&gt;") (c ∷ s)
    then b'>' ∷ rest 4
    else if starts_with (codes "&quot;") (c ∷ s)
    then b'"' ∷ rest 6
    else if starts_with (codes "&#39;") (c ∷ s)
    then 39 ∷ rest 5
    else c ∷ rest 1

-- A byte that neither opens or closes a tag nor ends an attribute.
abbrev pub is_inert : ℕ → Bool
is_inert c = not (c == b'<') && not (c == b'>') && not (c == b'"') && not (c == 39)

abbrev pub IsInert : ℕ → Type 0
IsInert c = is_inert c ≡ true

byte-cases : (P : ℕ → Type 0) (k c : ℕ) → P k → (c ≢ k → P c) → P c
byte-cases P k c same other = elim (Bool-cases (c == k)) [
  | inl e ↦ subst P (sym ((==_iff c k).0 e)) same
  | inr n ↦ other (ground arith)
]

-- To prove something of every character: of the five that have an entity, and of the others.
entity-cases :
    (P : ℕ → Type 0)
    → P b'&'
    → P b'<'
    → P b'>'
    → P b'"'
    → P 39
    → ((c : ℕ) → entity c ≡ none → IsInert c → (c ≢ b'&') → P c)
    → (c : ℕ) → P c
unfolding entity
entity-cases P amp lt gt quot apos other c = byte-cases P b'&' c amp (λ n1.
    byte-cases P b'<' c lt (λ n2. byte-cases P b'>' c gt (λ n3.
      byte-cases P b'"' c quot
        (λ n4. byte-cases P 39 c apos (λ n5. other c (ground arith) (ground arith) n1)))))

shown-IsInert : (c : ℕ) → All IsInert (shown c)
unfolding entity
shown-IsInert =
    entity-cases (λ c. All IsInert (shown c)) (refl, (refl, (refl, (refl, (refl, tt)))))
      (refl, (refl, (refl, (refl, tt)))) (refl, (refl, (refl, (refl, tt))))
      (refl, (refl, (refl, (refl, (refl, (refl, tt)))))) (refl, (refl, (refl, (refl, (refl, tt)))))
      (λ c e inert n.
        subst (λ o. All IsInert (elim o [ none ↦ c ∷ [] | some x ↦ x ])) (sym e) (inert, tt))

with_entities-IsInert : (s : Bytes) → All IsInert (with_entities s)
unfolding with_entities
with_entities-IsInert [] = tt
with_entities-IsInert (c ∷ s) =
    All-append IsInert (shown c) (with_entities s) (shown-IsInert c) (with_entities-IsInert s)

read_html-plain :
    (fuel c : ℕ) (t : Bytes) → c ≢ b'&' → read_html (suc fuel) (c ∷ t) ≡ c ∷ read_html fuel t
unfolding read_html starts_with
read_html-plain fuel c t n = ground arith

read_html-shown :
    (fuel c : ℕ) (t : Bytes) → read_html (suc fuel) (shown c ++ t) ≡ c ∷ read_html fuel t
unfolding read_html entity
read_html-shown fuel c t =
    entity-cases (λ c. read_html (suc fuel) (shown c ++ t) ≡ c ∷ read_html fuel t) refl refl refl
      refl refl
      (λ c e inert n.
        subst
          (λ o.
            read_html (suc fuel) (elim o [ none ↦ c ∷ [] | some x ↦ x ] ++ t)
            ≡ c ∷ read_html fuel t)
          (sym e) (read_html-plain fuel c t n))
      c

read_html-with_entities :
    (fuel : ℕ) (s : Bytes) → length s ≤ fuel → read_html fuel (with_entities s) ≡ s
unfolding with_entities
read_html-with_entities zero [] h = unfold read_html in refl
read_html-with_entities zero (c ∷ s) h = absurd (omega arith)
read_html-with_entities (suc fuel) [] h = unfold read_html in refl
read_html-with_entities (suc fuel) (c ∷ s) h =
    read_html-shown fuel c (with_entities s)
    ∙ ap (◌∷◌ c) (read_html-with_entities fuel s (omega arith))

-- `r` is `o` with two texts put behind it.
abbrev Puts : Bytes → Bytes → Out → Out → Type 0
Puts run text o r = (total r ≡ total o ++ (run ++ text)) × IsOut r

move-run : (t run a b : Bytes) → t ++ ((run ++ a) ++ b) ≡ t ++ (run ++ (a ++ b))
move-run t run a b = ap (λ (x : Bytes). t ++ x) (append_assoc run a b)

put_entity-Puts :
    (run x text : Bytes) (o r : Out)
    → IsOut o
    → (IsOut (put x (put run o)) → Puts [] text (put x (put run o)) r)
    → Puts run (x ++ text) o r
put_entity-Puts run x text o r v rest =
    let a = put-total run o v in
    let b = put-total x (put run o) a.1 in
    let c = rest b.1 in
    (
      c.0
          ∙ ap (λ (t : Bytes). t ++ text) (b.0 ∙ ap (λ (t : Bytes). t ++ x) a.0)
          ∙ append_assoc (total o ++ run) x text
          ∙ append_assoc (total o) run (x ++ text),
      c.1,
    )

send_escaped_from-Puts :
    (run s : Bytes) (o : Out) → IsOut o → Puts run (with_entities s) o (send_escaped_from run s o)
unfolding send_escaped_from with_entities
send_escaped_from-Puts run [] o v =
    let last = put-total run o v in
    (last.0 ∙ ap (λ (t : Bytes). total o ++ t) (sym (append-nil run)), last.1)
send_escaped_from-Puts run (c ∷ s) o v =
    let plain = send_escaped_from-Puts (run ++ (c ∷ [])) s o v in
    let behind = λ (x : Bytes) (w : IsOut (put x (put run o))).
      send_escaped_from-Puts [] s (put x (put run o)) w in
    elim (entity c)
      as (λ (e : Option Bytes).
        Puts run (elim e [ none ↦ c ∷ [] | some x ↦ x ] ++ with_entities s) o (elim e [
          | none ↦ send_escaped_from (run ++ (c ∷ [])) s o
          | some x ↦ send_escaped_from [] s (put x (put run o))
        ])) [
          | none ↦ (plain.0 ∙ move-run (total o) run (c ∷ []) (with_entities s), plain.1)
          | some x ↦ put_entity-Puts run x (with_entities s) o _ v (behind x)
        ]

-- Whatever text is put into a page, `with_entities` of it, in which no byte opens or closes a tag or ends an
-- attribute, stands behind what was put before, and a reader of HTML gets exactly the text from it; the
-- buffer of the server is not overrun.
pub send_escaped-read_html :
    (s : Bytes) (o : Out)
    → IsOut o
    → (total (send_escaped s o) ≡ total o ++ with_entities s)
      × IsOut (send_escaped s o)
      × All IsInert (with_entities s)
      × (read_html (length s) (with_entities s) ≡ s)
unfolding send_escaped
send_escaped-read_html s o v =
    let sent = send_escaped_from-Puts [] s o v in
    (sent.0, sent.1, with_entities-IsInert s, read_html-with_entities (length s) s (omega arith))
