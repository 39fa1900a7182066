-- ===== src/Json/Written.antt =====
-- Json.h: the text that `Writer` makes of a row of fields, and the count of its bytes.
use mathlib.Core.Option
use esp8266_dns.Base.{take}
use esp8266_dns.Base.{
  All, Bool, Bool-cases, Bytes, List, Option, Option-cases, [], ap, append-nil, append_assoc, arith,
  codes, false, if◌then◌else◌, inl, inr, length, length-append, refl, subst, sym, take_all, true, ℕ,
  ◌++◌, ◌∙◌, ◌∷◌, ◌≡◌, ◌≤◌,
}
use esp8266_dns.Base.Decimal.{decimal}
use esp8266_dns.Base.Int.{ℤ}
use esp8266_dns.Json.{first}
use esp8266_dns.Json.Text.{escaped_text}
use esp8266_dns.Json.Writer.{
  Writer, close_object, escape, open_object, put, put_escaped, put_key, signed_text, write_bool,
  write_num, write_str, write_unum,
}

-- What the caller writes.
pub data Content : Type 0 where
  string : Bytes → Content
  num : ℤ → Content
  unum : ℕ → Content
  flag : Bool → Content

pub record Field : Type 0 where
  pub name : Bytes
  pub content : Content

unfoldable pub write_content : Bytes → Content → Writer → Writer
unfolding write_str write_num write_unum write_bool
write_content name (string s) w = write_str name s w
write_content name (num z) w = write_num name z w
write_content name (unum n) w = write_unum name n w
write_content name (flag b) w = write_bool name b w

unfoldable pub write_fields : List Field → Writer → Writer
unfolding write_content
write_fields [] w = w
write_fields (f ∷ fs) w = write_fields fs (write_content f.name f.content w)

-- The whole of the writing, into a file that is empty, or with no file.
unfoldable pub write_object : Option Bytes → List Field → Writer
unfolding open_object write_fields close_object
write_object file fs = close_object (write_fields fs (open_object file))

-- The text, written out.
unfoldable pub content_text : Content → Bytes
unfolding escaped_text signed_text decimal
content_text (string s) = b'"' ∷ (escaped_text s ++ b'"' ∷ [])
content_text (num z) = signed_text z
content_text (unum n) = decimal n
content_text (flag true) = codes "true"
content_text (flag false) = codes "false"

unfoldable pub entry : Field → Bytes
unfolding content_text
entry f = b'"' ∷ (f.name ++ (b'"' ∷ b':' ∷ content_text f.content))

unfoldable pub tail_text : List Field → Bytes
unfolding entry
tail_text [] = b'}' ∷ []
tail_text (f ∷ fs) = b',' ∷ (entry f ++ tail_text fs)

unfoldable pub object_text : List Field → Bytes
unfolding tail_text entry
object_text [] = b'{' ∷ b'}' ∷ []
object_text (f ∷ fs) = b'{' ∷ (entry f ++ tail_text fs)

abbrev pub IsName : Field → Type 0
IsName f = length f.name ≤ 23

put-put : (s t : Bytes) (w : Writer) → put t (put s w) ≡ put (s ++ t) w
unfolding put
put-put s t w = elim (Option-cases w.file) [
  | inl e ↦ rw e (ground (arith, length-append s t))
  | inr (f, e) ↦ rw e (ground (arith, length-append s t, append_assoc f s t))
]

put_nil : (w : Writer) → put [] w ≡ w
unfolding put
put_nil w = elim (Option-cases w.file) [
  | inl e ↦ rw e (ground arith)
  | inr (f, e) ↦ rw e (ground (arith, append-nil f))
]

put_escaped-put : (s : Bytes) (w : Writer) → put_escaped s w ≡ put (escaped_text s) w
unfolding put_escaped escaped_text
put_escaped-put [] w = sym (put_nil w)
put_escaped-put (c ∷ s) w =
    put_escaped-put s (put (escape c) w) ∙ put-put (escape c) (escaped_text s) w

abbrev comma : Bool → Bytes
comma true = []
comma false = b',' ∷ []

-- The name goes behind a comma, except the first.
key_text : Bytes → Bytes
key_text name = b'"' ∷ (name ++ (b'"' ∷ b':' ∷ []))

put-comma :
    (w : Writer)
    → record (if w.first then w else put (codes ",") w) { first = false }
      ≡ put (comma w.first) (record w { first = false })
put-comma w = elim (Bool-cases w.first) [
  | inl e ↦ rw e (sym (put_nil (record w { first = false })))
  | inr e ↦ rw e (unfold put in refl)
]

put_key-put :
    (name : Bytes) (w : Writer)
    → length name ≤ 23
    → put_key name w ≡ put (comma w.first ++ key_text name) (record w { first = false })
unfolding put_key key_text
put_key-put name w h =
    let base = record w { first = false } in
    let start = comma w.first in
    ap (λ (u : Writer). put (b'"' ∷ b':' ∷ []) (put (take 23 name) (put (b'"' ∷ []) u)))
      (put-comma w)
    ∙ ap (λ (t : Bytes). put (b'"' ∷ b':' ∷ []) (put t (put (b'"' ∷ []) (put start base))))
        (take_all 23 name h)
    ∙ ap (λ (u : Writer). put (b'"' ∷ b':' ∷ []) (put name u)) (put-put start (b'"' ∷ []) base)
    ∙ ap (λ (u : Writer). put (b'"' ∷ b':' ∷ []) u) (put-put (start ++ b'"' ∷ []) name base)
    ∙ put-put ((start ++ b'"' ∷ []) ++ name) (b'"' ∷ b':' ∷ []) base
    ∙ ap (λ (t : Bytes). put t base)
        (append_assoc (start ++ b'"' ∷ []) name (b'"' ∷ b':' ∷ [])
          ∙ append_assoc start (b'"' ∷ []) (name ++ (b'"' ∷ b':' ∷ [])))

-- One member: its name and its content, whatever kind it has.
write_content-put :
    (name : Bytes) (c : Content) (w : Writer)
    → length name ≤ 23
    → write_content name c w
      ≡ put (content_text c) (put (comma w.first ++ key_text name) (record w { first = false }))
unfolding write_content content_text
write_content-put name (string s) w h =
    unfold write_str in
    let start = put (comma w.first ++ key_text name) (record w { first = false }) in
    ap (λ (u : Writer). put (b'"' ∷ []) (put_escaped s (put (b'"' ∷ []) u))) (put_key-put name w h)
    ∙ ap (put (b'"' ∷ []))
        (put_escaped-put s (put (b'"' ∷ []) start) ∙ put-put (b'"' ∷ []) (escaped_text s) start)
    ∙ put-put (b'"' ∷ escaped_text s) (b'"' ∷ []) start
write_content-put name (num z) w h =
    unfold write_num in ap (put (signed_text z)) (put_key-put name w h)
write_content-put name (unum n) w h =
    unfold write_unum in ap (put (decimal n)) (put_key-put name w h)
write_content-put name (flag true) w h =
    unfold write_bool in ap (put (codes "true")) (put_key-put name w h)
write_content-put name (flag false) w h =
    unfold write_bool in ap (put (codes "false")) (put_key-put name w h)

key_text-append :
    (first : Bool) (f : Field)
    → (comma first ++ key_text f.name) ++ content_text f.content ≡ comma first ++ entry f
unfolding key_text entry
key_text-append first f =
    append_assoc (comma first) (key_text f.name) (content_text f.content)
    ∙ ap (λ (t : Bytes). comma first ++ (b'"' ∷ t))
        (append_assoc f.name (b'"' ∷ b':' ∷ []) (content_text f.content))

write_field-put :
    (f : Field) (w : Writer)
    → IsName f
    → write_content f.name f.content w ≡ put (comma w.first ++ entry f) (record w { first = false })
write_field-put f w h =
    let base = record w { first = false } in
    write_content-put f.name f.content w h
    ∙ put-put (comma w.first ++ key_text f.name) (content_text f.content) base
    ∙ ap (λ (t : Bytes). put t base) (key_text-append w.first f)

-- The members behind the first, and the closing bracket.
close-write_fields :
    (fs : List Field) (w : Writer)
    → All IsName fs
    → w.first ≡ false
    → close_object (write_fields fs w) ≡ put (tail_text fs) w
unfolding write_fields tail_text close_object
close-write_fields [] w h e = refl
close-write_fields (f ∷ fs) w h e =
    let step = put (b',' ∷ entry f) (record w { first = false }) in
    ap (λ (u : Writer). close_object (write_fields fs u))
      (write_field-put f w h.0
        ∙ ap (λ (b : Bool). put (comma b ++ entry f) (record w { first = false })) e)
    ∙ close-write_fields fs step h.1 (unfold put in refl)
    ∙ put-put (b',' ∷ entry f) (tail_text fs) (record w { first = false })
    ∙ ap (λ (b : Bool). put (tail_text (f ∷ fs)) (record w { first = b })) (sym e)

-- The bytes of the text, all of them in the file, if there is one, and counted either way.
abbrev pub Holds : Bytes → Option Bytes → Writer → Type 0
Holds s file w = (w.file ≡ Option.map (λ f. f ++ s) file) × (w.n ≡ length s)

put-Holds :
    (s : Bytes) (file : Option Bytes) (first : Bool)
    → Holds s file (put s (record { file = file; n = 0; first = first }))
unfolding put
put-Holds s file first = (refl, omega arith)

-- An object written behind what a file holds, or only measured with no file: the file gains exactly
-- the text of the fields, and the count is the length of that text either way.
pub write_object-Holds :
    (file : Option Bytes) (fs : List Field)
    → All IsName fs
    → Holds (object_text fs) file (write_object file fs)
unfolding write_object object_text
write_object-Holds file [] h =
    let w : Writer = record { file = file; n = 0; first = true } in
    subst (Holds (b'{' ∷ b'}' ∷ []) file)
      (sym (put-put (b'{' ∷ []) (b'}' ∷ []) w)
        ∙ unfold close_object write_fields open_object in refl)
      (put-Holds (b'{' ∷ b'}' ∷ []) file true)
write_object-Holds file (f ∷ fs) h =
    let w : Writer = record { file = file; n = 0; first = false } in
    let opened : Writer = record { file = file; n = 0; first = true } in
    let bracket : Writer = put (b'{' ∷ []) opened in
    let rest = entry f ++ tail_text fs in
    let chain : close_object (write_fields (f ∷ fs) bracket) ≡ put (b'{' ∷ rest) w =
      unfold write_fields in
      ap (λ (u : Writer). close_object (write_fields fs u)) (write_field-put f bracket h.0)
      ∙ close-write_fields fs (put (entry f) (put (b'{' ∷ []) w)) h.1 (unfold put in refl)
      ∙ put-put (entry f) (tail_text fs) (put (b'{' ∷ []) w)
      ∙ put-put (b'{' ∷ []) rest w in
    subst (Holds (b'{' ∷ rest) file) (sym chain ∙ unfold open_object in refl)
      (put-Holds (b'{' ∷ rest) file false)
