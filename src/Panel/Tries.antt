-- ===== src/Panel/Tries.antt =====
-- WebService.h, `Throttle` and what counts mistakes with it.
use esp8266_dns.Base.{
  Bool, false, if◌then◌else◌, leb, ltb, min, not, reached, true, u32, ℕ, ◌&&◌, ◌*◌, ◌+◌, ◌-◌, ◌==◌,
  ◌^◌,
}
use esp8266_dns.Panel.{
  Panel, Reply, Throttle, Visit, free_login_fails, login_wait_max_ms, login_wait_ms, reply,
}

unfoldable pub waiting : ℕ → Throttle → Bool
waiting now t = leb free_login_fails t.fails && not (reached now t.until)

-- `LOGIN_WAIT_MS << doubling`, up to the longest wait.
unfoldable pub wait_for : ℕ → ℕ
wait_for fails = min (login_wait_ms * 2 ^ min (fails - free_login_fails) 8) login_wait_max_ms

unfoldable pub fail : ℕ → Throttle → Throttle
unfolding wait_for
fail now t =
    let fails = if ltb t.fails 255 then t.fails + 1 else t.fails in
    if ltb fails free_login_fails
    then record t { fails = fails }
    else record { fails = fails; until = u32 (now + wait_for fails) }

-- The count for this request: the owner's address has its own.
unfoldable pub is_owner : Visit → Panel → Bool
is_owner v p = not (p.owner == 0) && v.ip == p.owner

unfoldable pub tries : Visit → Panel → Throttle
unfolding is_owner
tries v p = if is_owner v p then p.owner_tries else p.panel_tries

unfoldable pub set_tries : Visit → Throttle → Panel → Panel
unfolding is_owner
set_tries v t p =
    if is_owner v p then record p { owner_tries = t } else record p { panel_tries = t }

-- `_blocked`: the answer 429, if the count waits.
unfoldable pub blocked : Visit → Throttle → Panel → Panel × Bool
unfolding waiting
blocked v t p = if waiting v.millis t then (reply (Reply.sends 429) p, true) else (p, false)

unfoldable pub login_failed : Visit → Panel → Panel
unfolding tries set_tries fail
login_failed v p = set_tries v (fail v.millis (tries v p)) p

-- Password and code right: this address becomes the owner's.
unfoldable pub signed_in : Visit → Panel → Panel
unfolding tries set_tries
signed_in v p =
    let cleared = set_tries v (record (tries v p) { fails = 0 }) p in
    if v.ip == p.owner
    then cleared
    else record cleared { owner = v.ip; owner_tries = record { fails = 0; until = 0 } }
