-- ===== src/Logger/Tests.antt =====
-- Logger.h at a concrete input: twelve messages, of which the ring keeps the last ten.
use esp8266_dns.Base.{
  Bytes, List, [], arith, codes, get_or, length, min, refl, ℕ, ◌+◌, ◌-◌, ◌∷◌, ◌≡◌,
}
use esp8266_dns.Base.Decimal.{decimal}
use esp8266_dns.Logger.{buffer_size, count, entry, line, start_index}
use esp8266_dns.Logger.Ring.{entry-logs, lines_of, logs}

abbrev twelve : List (ℕ × Bytes)
twelve =
    (12000, codes "l")
    ∷ (11000, codes "k")
    ∷ (10000, codes "j")
    ∷ (9000, codes "i")
    ∷ (8000, codes "h")
    ∷ (7000, codes "g")
    ∷ (6000, codes "f")
    ∷ (5000, codes "e")
    ∷ (4000, codes "d")
    ∷ (3000, codes "c")
    ∷ (2000, codes "b")
    ∷ (1000, codes "a")
    ∷ []

oldest : get_or (lines_of twelve) 9 [] ≡ codes "[3s] c"
unfolding lines_of line decimal
oldest = refl

entry-logs_example :
    (count (logs twelve) ≡ min buffer_size (length (lines_of twelve)))
    × (entry (start_index (logs twelve) + (count (logs twelve) - 1 - 9)) (logs twelve)
        ≡ get_or (lines_of twelve) 9 [])
entry-logs_example = entry-logs twelve 9 (omega arith) (unfold lines_of in omega arith)
