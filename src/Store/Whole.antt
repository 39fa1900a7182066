-- ===== src/Store/Whole.antt =====
-- ConfigStore.h: the whole of the file, and every moment of its writing.
use esp8266_dns.Base.{set, Option}
use esp8266_dns.Password.{Hmac, password_text}
use mathlib.Core.Option
use esp8266_dns.Base.{
  All, Bool, Bytes, List, [], ap, arith, false, get_or, if_cases, inl, inr, leb, length, none, not,
  refl, some, true, ℕ, ◌<◌, ◌∙◌, ◌∷◌, ◌≡◌, ◌⊎◌,
}
use esp8266_dns.Base.Int.{pos}
use esp8266_dns.Json.RoundTrip.{All-IsName, object-write_object, read_all}
use esp8266_dns.Json.Written.{object_text, write_object, write_object-Holds}
use esp8266_dns.Store.Back.{AreCells}
use esp8266_dns.Store.File.{
  Cell, Files, Load, all_fields, Disk, needs_hash, loaded, password_at, password_of, read_file,
  rehash, text, load, max_file, save, set_members, start_load, version,
}
use esp8266_dns.Store.Table.{fields}
use esp8266_dns.Store.Read.{all_fields-IsField, read_file-all_fields, set_members-all_fields}

-- The files behind a save, and what the file system has kept of the text that it writes.
abbrev pub saved : Disk → List Cell → Files → Files
saved disk cs f = get_or (save disk cs f).0 0 f

abbrev pub kept : Disk → List Cell → Bytes
kept disk cs = disk.keeps (object_text (all_fields cs))

save-written :
    (disk : Disk) (cs : List Cell) (f : Files)
    → AreCells fields cs
    → (save disk cs f).1 ≡ true
    → ((saved disk cs f).config ≡ some (kept disk cs))
      × (length (object_text (all_fields cs)) < max_file)
unfolding save
save-written disk cs f a h =
    let fs = all_fields cs in
    let fields_fit = all_fields-IsField cs a in
    let text_of_it = (object-write_object fs [] fields_fit).0 in
    let size = (write_object-Holds none fs (All-IsName fs fields_fit)).1 in
    let IsWritten = λ (x : List Files × Bool).
      x.1 ≡ true
      → ((get_or x.0 0 f).config ≡ some (kept disk cs)) × (length (object_text fs) < max_file) in
    if_cases IsWritten (leb max_file (write_object none fs).n) _ _
      (λ _ k. absurd (ground (arith, k)))
      (λ small.
        if_cases IsWritten (not disk.opens) _ _ (λ _ k. absurd (ground (arith, k)))
          (λ _.
            if_cases IsWritten disk.renames _ _
              (λ _ k. (ap (Option.map disk.keeps) text_of_it, below _ _ size small))
              (λ _ k. absurd (ground (arith, k)))))
      h
  where
    below : (n m : ℕ) → n ≡ m → leb max_file n ≡ false → m < max_file
    below n m e k = ground (arith, e, k)

save-moments :
    (disk : Disk) (cs : List Cell) (f : Files)
    → AreCells fields cs
    → All
        (λ (s : Files). (s.config ≡ f.config) ⊎ (s.config ≡ some (kept disk cs)))
        (save disk cs f).0
      × ((save disk cs f).1 ≡ false → (saved disk cs f).config ≡ f.config)
unfolding save
save-moments disk cs f a =
    let fs = all_fields cs in
    let text_of_it = (object-write_object fs [] (all_fields-IsField cs a)).0 in
    let written = ap (Option.map disk.keeps) text_of_it in
    let Holds = λ (x : List Files × Bool).
      All (λ (s : Files). (s.config ≡ f.config) ⊎ (s.config ≡ some (kept disk cs))) x.0
      × (x.1 ≡ false → (get_or x.0 0 f).config ≡ f.config) in
    if_cases Holds (leb max_file (write_object none fs).n) _ _ (λ _. ((inl refl, tt), λ _. refl))
      (λ _.
        if_cases Holds (not disk.opens) _ _ (λ _. ((inl refl, tt), λ _. refl))
          (λ _.
            if_cases Holds disk.renames _ _
              (λ _. (
                (inr written, (inl refl, (inl refl, (inl refl, tt)))),
                λ k. absurd (ground (arith, k)),
              ))
              (λ _. ((inl refl, (inl refl, (inl refl, (inl refl, tt)))), λ _. refl))))

module _ (hmac : Hmac) where
  load-some :
      (salt : Bytes) (disk : Disk) (f : Files) (l : Load)
      → read_file f.config ≡ some l
      → load hmac salt disk f ≡ loaded hmac salt disk f l
  unfolding load
  load-some salt disk f l h =
      ap
        (λ (o : Option Load). elim o [ none ↦ (none, f ∷ []) | some x ↦ loaded hmac salt disk f x ])
        h

  rehash_version : (salt : Bytes) (l : Load) → (rehash hmac salt l).file_version ≡ l.file_version
  unfolding rehash
  rehash_version salt l = ground arith

  loaded-hashed :
      (salt : Bytes) (disk : Disk) (f : Files) (l : Load)
      → needs_hash l.cells ≡ false
      → ((rehash hmac salt l).cells ≡ l.cells) × ((loaded hmac salt disk f l).1 ≡ f ∷ [])
  unfolding rehash loaded
  loaded-hashed salt disk f l h = (unfold rehash in rw h refl, rw h (ground arith))

  loaded-plain :
      (salt : Bytes) (disk : Disk) (f : Files) (l : Load)
      → l.file_version ≡ pos version
      → needs_hash l.cells ≡ true
      → ((rehash hmac salt l).cells
          ≡ set l.cells password_at (text (password_text hmac (password_of l.cells) salt)))
        × ((loaded hmac salt disk f l).1 ≡ (save disk (rehash hmac salt l).cells f).0)
  unfolding rehash loaded
  loaded-plain salt disk f l v h = (unfold rehash in rw h refl, rw (v, h) refl)

-- A configuration whose values fit their fields, and which `save` has saved with no write that falls
-- short, is loaded back as the version that the firmware writes: value for value, with nothing written,
-- unless its password is a plain one, in the place of which its hash stands.
pub load-saved :
    (hmac : Hmac) (salt : Bytes) (disk next : Disk) (cs : List Cell) (f : Files)
    → AreCells fields cs
    → (save disk cs f).1 ≡ true
    → kept disk cs ≡ object_text (all_fields cs)
    → let back = load hmac salt next (saved disk cs f) in
      (l : Load) × (back.0 ≡ some l)
      × (l.file_version ≡ pos version)
      × (needs_hash cs ≡ false → (l.cells ≡ cs) × (back.1 ≡ saved disk cs f ∷ []))
      × (needs_hash cs ≡ true
          → (l.cells ≡ set cs password_at (text (password_text hmac (password_of cs) salt)))
            × (back.1 ≡ (save next l.cells (saved disk cs f)).0))
load-saved hmac salt disk next cs f a h whole =
    let fs = all_fields cs in
    let l = set_members (read_all fs []) start_load in
    let content = set_members-all_fields cs a in
    let written = save-written disk cs f a h in
    let read : read_file (saved disk cs f).config ≡ some l =
      ap read_file (written.0 ∙ ap some whole) ∙ read_file-all_fields cs a written.1 in
    let e = rehash hmac salt l in
    let g = saved disk cs f in
    let back = load-some hmac salt next g l read in
    let same_need = ap needs_hash content.0 in
    let files = ap (λ (x : Option Load × List Files). x.1) back in
    (
      e,
      ap (λ (x : Option Load × List Files). x.0) back ∙ unfold loaded in refl,
      rehash_version hmac salt l ∙ content.1,
      λ k.
          let kept_cells = loaded-hashed hmac salt next g l (same_need ∙ k) in
          (kept_cells.0 ∙ content.0, files ∙ kept_cells.1),
      λ k.
          let new_cells = loaded-plain hmac salt next g l content.1 (same_need ∙ k) in
          (
            new_cells.0
                ∙ ap
                    (λ (x : List Cell).
                      set x password_at (text (password_text hmac (password_of x) salt)))
                    content.0,
            files ∙ new_cells.1,
          ),
    )

-- At every moment of a save, so also when the power goes, the file of the configuration is the one
-- that was there, or what the file system has kept of the new one, which is the whole of it unless a
-- write has fallen short; it is the new one if the save succeeds, and the one that was there if it fails.
pub save-config :
    (disk : Disk) (cs : List Cell) (f : Files)
    → AreCells fields cs
    → All
        (λ (s : Files). (s.config ≡ f.config) ⊎ (s.config ≡ some (kept disk cs)))
        (save disk cs f).0
      × ((save disk cs f).1 ≡ true → (saved disk cs f).config ≡ some (kept disk cs))
      × ((save disk cs f).1 ≡ false → (saved disk cs f).config ≡ f.config)
save-config disk cs f a =
    let moments = save-moments disk cs f a in
    (moments.0, λ h. (save-written disk cs f a h).0, moments.1)
