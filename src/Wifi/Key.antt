-- ===== src/Wifi/Key.antt =====
-- WiFiService.h, `_loadApKey`: the password of the setup access point.
use esp8266_dns.Base.{
  List, [], ap, arith, each_below, each_below_sound, get_or, length, refl, some, suc, take_all,
  true, ℕ, ◌%◌, ◌∷◌, ◌≡◌,
}
use esp8266_dns.Wifi.{all_key_chars, alphabet, draw_key, is_key_char, stored_key}

chars_table : each_below 32 (λ i. is_key_char (get_or alphabet i 0)) ≡ true
unfolding each_below
chars_table = refl

all_key_chars-draw_key : (rs : List ℕ) → all_key_chars (draw_key rs) ≡ true
unfolding all_key_chars draw_key
all_key_chars-draw_key [] = refl
all_key_chars-draw_key (r ∷ rs) =
    let char =
      each_below_sound 32 (λ i. is_key_char (get_or alphabet i 0)) (r % 32) chars_table
        (omega arith) in
    ground (arith, char, all_key_chars-draw_key rs)

length-draw_key : (rs : List ℕ) → length (draw_key rs) ≡ length rs
unfolding draw_key
length-draw_key [] = refl
length-draw_key (r ∷ rs) = ap suc (length-draw_key rs)

-- A password that was drawn and written is the one that the next boot reads, whatever the random
-- numbers.
stored_key-draw_key : (rs : List ℕ) → length rs ≡ 12 → stored_key (draw_key rs) ≡ some (draw_key rs)
unfolding stored_key
stored_key-draw_key rs h =
    let size = length-draw_key rs in
    let whole = take_all 13 (draw_key rs) (omega (arith, size)) in
    ground (arith, whole, size, all_key_chars-draw_key rs)
