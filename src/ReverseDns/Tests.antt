-- ===== src/ReverseDns/Tests.antt =====
-- ReverseDNS.h at concrete inputs.
use esp8266_dns.Base.{Bytes, List, [], arith, codes, none, refl, some, true, ◌++◌, ◌∷◌, ◌≡◌}
use esp8266_dns.ReverseDns.{
  Address, find_ptr, give_up, name_at, name_from, parse, parse_records, skip, skip_from,
  skip_questions, u16_at, write_bytes,
}
use esp8266_dns.ReverseDns.Answer.{IsAddress, answer, header, parse-answer}
use esp8266_dns.ReverseDns.Names.{encode, join, room}
use esp8266_dns.ReverseDns.Safe.{is_fit, parse-is_fit}

abbrev home : Address
home = record { a0 = 192; a1 = 168; a2 = 1; a3 = 10 }

home-IsAddress : IsAddress home
home-IsAddress = record {
  byte0 = omega arith;
  byte1 = omega arith;
  byte2 = omega arith;
  byte3 = omega arith;
}

-- A message that points at itself: the jumps run out, and there is no name.
abbrev endless : Bytes
endless =
    header 7 129 128 1
    ++ (0 ∷ 0 ∷ 12 ∷ 0 ∷ 1 ∷ 192 ∷ 12 ∷ 0 ∷ 12 ∷ 0 ∷ 1 ∷ 0 ∷ 0 ∷ 0 ∷ 60 ∷ 0 ∷ 2 ∷ 192 ∷ 29 ∷ [])

no_name : parse endless 7 64 ≡ some none
unfolding parse u16_at parse_records skip_questions skip skip_from find_ptr name_at name_from
    give_up write_bytes
no_name = refl

parse-is_fit_example : is_fit 64 (parse endless 7 64) ≡ true
parse-is_fit_example = parse-is_fit endless 7 64 (omega arith)

abbrev router : List Bytes
router = codes "lan" ∷ []

router-join : join [] (codes "router" ∷ router) ≡ codes "router.lan"
unfolding join
router-join = refl

parse-answer_example :
    parse (answer 7 (codes "home" ∷ []) 3600 (codes "router" ∷ router) []) 7 64
    ≡ some (some (join [] (codes "router" ∷ router)))
unfolding encode room
parse-answer_example =
    parse-answer 7 (codes "home" ∷ []) 3600 [] router (codes "router") 64 (omega arith)
      (ground arith) (ground arith) (omega arith) (omega arith)
