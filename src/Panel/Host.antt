-- ===== src/Panel/Host.antt =====
-- WebService.h, `_hostOk`: the names that the panel answers to.
use esp8266_dns.Base.{
  Bool, Bytes, [], codes, false, if◌then◌else◌, length, not, suc, true, zero, ℕ, ◌&&◌, ◌++◌, ◌==◌,
  ◌||◌, ◌∷◌,
}
use esp8266_dns.Base.Decimal.{is_digit}
use esp8266_dns.Base.Hex.{hex6}
use esp8266_dns.HttpServer.{same_name}

-- The texts of the configuration that have names, and the identifier of the chip.
pub record Names : Type 0 where
  pub hostname : Bytes
  pub cf_host : Bytes
  pub relay_host : Bytes
  pub web_hosts : Bytes
  pub chip_id : ℕ

abbrev pub is_address_char : ℕ → Bool
is_address_char c = is_digit c || c == b'.'

unfoldable pub are_address_chars : Bytes → Bool
are_address_chars [] = true
are_address_chars (c ∷ s) = is_address_char c && are_address_chars s

-- The text before a mark, and what is behind it: `strcspn`.
unfoldable pub before_mark : ℕ → Bytes → Bytes
before_mark mark [] = []
before_mark mark (c ∷ s) = let rest = before_mark mark s in if c == mark then [] else c ∷ rest

unfoldable pub behind_mark : ℕ → Bytes → Bytes
behind_mark mark [] = []
behind_mark mark (c ∷ s) = let rest = behind_mark mark s in if c == mark then s else rest

-- `h` is one of the names in the list, which are apart by commas; `fuel` is its length.
unfoldable pub listed_from : ℕ → Bytes → Bytes → Bool
unfolding same_name before_mark behind_mark
listed_from zero s h = false
listed_from (suc fuel) [] h = false
listed_from (suc fuel) (c ∷ s) h =
    same_name (before_mark b',' (c ∷ s)) h || listed_from fuel (behind_mark b',' (c ∷ s)) h

unfoldable pub listed : Bytes → Bytes → Bool
unfolding listed_from
listed list h = listed_from (length list) list h

-- The name of the core, if none is set. The buffer of the name has 33 bytes.
unfoldable pub own_name : Names → Bytes
unfolding hex6
own_name n = if length n.hostname == 0 then codes "esp-" ++ hex6 n.chip_id else n.hostname

unfoldable pub has_dot : Bytes → Bool
has_dot [] = false
has_dot (c ∷ s) = c == b'.' || has_dot s

unfoldable pub host_ok : Names → Bytes → Bool
unfolding has_dot are_address_chars own_name same_name listed before_mark
host_ok n [] = true
host_ok n (c ∷ s) =
    let h = c ∷ s in
    if c == b'?'
    then false
    else if not (has_dot h) || are_address_chars h
    then true
    else same_name (before_mark b'.' h) (own_name n)
      || same_name h n.cf_host
      || same_name h n.relay_host
      || listed n.web_hosts h
