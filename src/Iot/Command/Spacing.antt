-- ===== src/Iot/Command/Spacing.antt =====
-- IoTCommand.h, `parseCommand`: what it does not look at.
use esp8266_dns.Base.{
  ℕ, zero, suc, ◌≡◌, refl, sym, ap, ◌∙◌, [], ◌∷◌, ◌++◌, Bytes, arith, map, replicate,
}
use esp8266_dns.Iot.Command.{to_lower, skip_spaces, is_empty, copy, parse_copied, parse_command}

skip_spaces-map : (s : Bytes) → skip_spaces (map to_lower s) ≡ map to_lower (skip_spaces s)
unfolding skip_spaces
skip_spaces-map [] = refl
skip_spaces-map (c ∷ s) = ground (arith, skip_spaces-map s)

to_lower_idem : (c : ℕ) → to_lower (to_lower c) ≡ to_lower c
to_lower_idem c = ground arith

copy-map :
    (n : ℕ) (s : Bytes)
    → ((copy n (map to_lower s)).0 ≡ (copy n s).0)
      × (is_empty (copy n (map to_lower s)).1 ≡ is_empty (copy n s).1)
unfolding copy
copy-map zero [] = (refl, refl)
copy-map zero (c ∷ s) = (refl, refl)
copy-map (suc n) [] = (refl, refl)
copy-map (suc n) (c ∷ s) = ground (arith, copy-map n s, to_lower_idem c)

parse_copied_cong :
    (b b' r r' : Bytes)
    → b ≡ b'
    → is_empty r ≡ is_empty r'
    → parse_copied (b, r) ≡ parse_copied (b', r')
unfolding parse_copied
parse_copied_cong b b' r r' e f = rw (e, f)

parse_command-map : (s : Bytes) → parse_command (map to_lower s) ≡ parse_command s
unfolding parse_command
parse_command-map s =
    let same = copy-map 39 (skip_spaces s) in
    rw (skip_spaces-map s)
      (parse_copied_cong _ (copy 39 (skip_spaces s)).0 _ (copy 39 (skip_spaces s)).1 same.0 same.1)

skip_spaces-spaces : (n : ℕ) (s : Bytes) → skip_spaces (replicate n b' ' ++ s) ≡ skip_spaces s
unfolding skip_spaces
skip_spaces-spaces zero s = refl
skip_spaces-spaces (suc n) s = skip_spaces-spaces n s

-- Case does not matter, nor do spaces in front: two texts with the same letters, whatever their
-- case, are the same command or are both refused, behind any number of spaces.
parse_command_case :
    (m n : ℕ) (s t : Bytes)
    → map to_lower s ≡ map to_lower t
    → parse_command (replicate m b' ' ++ s) ≡ parse_command (replicate n b' ' ++ t)
parse_command_case m n s t e =
    spaced m s
    ∙ sym (parse_command-map s)
    ∙ ap parse_command e
    ∙ parse_command-map t
    ∙ sym (spaced n t)
  where
    spaced : (n : ℕ) (s : Bytes) → parse_command (replicate n b' ' ++ s) ≡ parse_command s
    spaced n s = unfold parse_command in rw (skip_spaces-spaces n s)
