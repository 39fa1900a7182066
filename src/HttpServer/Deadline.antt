-- ===== src/HttpServer/Deadline.antt =====
-- HttpServer.h: nothing that comes after the deadline is read.
use esp8266_dns.Base.{
  Bool, Bool-cases, Bytes, List, [], ap, arith, inl, inr, is_some, leb, length, length-append, none,
  not, refl, sub32, suc, sym, true, zero, ℕ, ◌++◌, ◌<◌, ◌||◌, ◌∙◌, ◌∷◌, ◌≡◌, ◌≤◌, ◌⊎◌,
}
use esp8266_dns.HttpServer.{parse}
use esp8266_dns.HttpServer.Link.{
  Got, Poll, add_byte, code_of, getc, getc_from, read_ms, received, request_ms, serve_code,
}

abbrev IsLate : ℕ → Poll → Type 0
IsLate start p = leb request_ms (sub32 p.now start) ≡ true

module _ (start : ℕ) (p : Poll) (late : IsLate start p) (a b : List Poll) where
  -- Two calls of `_getc` that see the same polls up to the late one: the same result, and where
  -- that is a byte, the same polls up to the late one to come.
  record SameGot (n : ℕ) (g h : Got) : Type 0 where
    same_byte : g.byte ≡ h.byte
    same_late : g.late ≡ h.late
    same_rest :
        (g.byte ≡ none)
        ⊎ ((mid : List Poll) × (g.rest ≡ mid ++ (p ∷ a))
            × (h.rest ≡ mid ++ (p ∷ b))
            × (length mid < n))

  SameGot-le : (m n : ℕ) (g h : Got) → m ≤ n → SameGot m g h → SameGot n g h
  SameGot-le m n g h le s = record {
    same_byte = s.same_byte;
    same_late = s.same_late;
    same_rest = elim s.same_rest [
      | inl e ↦ inl e
      | inr r ↦ inr (r.0, r.1, r.2, omega (arith, r.3))
    ];
  }

  getc_from-SameGot :
      (t : ℕ) (before : List Poll)
      → SameGot
          (length before)
          (getc_from start t (before ++ (p ∷ a)))
          (getc_from start t (before ++ (p ∷ b)))
  unfolding getc_from
  getc_from-SameGot t [] =
      rw late (record { same_byte = refl; same_late = refl; same_rest = inl refl })
  getc_from-SameGot t (q ∷ before) = elim (Bool-cases (leb request_ms (sub32 q.now start))) [
    | inl e ↦ rw e (record { same_byte = refl; same_late = refl; same_rest = inl refl })
    | inr e ↦ rw e (elim (Bool-cases (is_some q.byte)) [
      | inl d ↦ rw d (record {
        same_byte = refl;
        same_late = refl;
        same_rest = inr (before, refl, refl, omega arith);
      })
      | inr d ↦ rw d (elim (Bool-cases (not q.connected || leb read_ms (sub32 q.now t))) [
        | inl c ↦ rw c (record { same_byte = refl; same_late = refl; same_rest = inl refl })
        | inr c ↦ rw c (
            SameGot-le (length before) (suc (length before)) _ _ (omega arith)
              (getc_from-SameGot t before))
      ])
    ])
  ]

  getc-SameGot :
      (before : List Poll)
      → SameGot (length before) (getc start (before ++ (p ∷ a))) (getc start (before ++ (p ∷ b)))
  unfolding getc
  getc-SameGot [] = getc_from-SameGot p.now []
  getc-SameGot (q ∷ before) = getc_from-SameGot q.now (q ∷ before)

  same_added :
      (n : ℕ) (g h : Got) (x y : Bytes × Bool)
      → SameGot n g h
      → ((mid : List Poll)
          → g.rest ≡ mid ++ (p ∷ a)
          → h.rest ≡ mid ++ (p ∷ b)
          → length mid < n
          → x ≡ y)
      → add_byte g.byte g.late x ≡ add_byte h.byte h.late y
  same_added n g h x y s next = elim s.same_rest [
    | inl e ↦ rw (sym s.same_byte) (rw (sym s.same_late) (rw e refl))
    | inr r ↦
        rw (sym s.same_byte)
          (rw (sym s.same_late) (ap (add_byte g.byte g.late) (next r.0 r.1 r.2 r.3)))
  ]

  received-late :
      (f g : ℕ) (before : List Poll)
      → length before < f
      → length before < g
      → received f start (before ++ (p ∷ a)) ≡ received g start (before ++ (p ∷ b))
  unfolding received
  received-late zero g before h k = absurd (omega arith)
  received-late (suc f) zero before h k = absurd (omega arith)
  received-late (suc f) (suc g) before h k =
      same_added (length before) (getc start (before ++ (p ∷ a))) (getc start (before ++ (p ∷ b))) _
        _ (getc-SameGot before)
        (λ mid l r m.
          ap (received f start) l
          ∙ received-late f g mid (omega arith) (omega arith)
          ∙ ap (received g start) (sym r))

-- The answer to a request depends on nothing that comes behind the first look at the link after
-- the deadline: the loop is held no longer than that, however slowly the bytes drip in.
serve_code-late :
    (start : ℕ) (before after : List Poll) (p : Poll)
    → leb request_ms (sub32 p.now start) ≡ true
    → serve_code start (before ++ (p ∷ after)) ≡ serve_code start (before ++ (p ∷ []))
unfolding serve_code
serve_code-late start before after p late =
    ap (λ (r : Bytes × Bool). code_of r.1 (parse r.0))
      (received-late start p late after [] (suc (length (before ++ (p ∷ after))))
        (suc (length (before ++ (p ∷ [])))) before (omega (arith, length-append before (p ∷ after)))
        (omega (arith, length-append before (p ∷ []))))
