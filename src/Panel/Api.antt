-- ===== src/Panel/Api.antt =====
-- WebService.h: the local API, behind its token; and a page that is behind the guard of the panel.
use esp8266_dns.Base.{
  Bool, Bytes, codes, drop, false, if◌then◌else◌, length, not, true, ◌+◌, ◌==◌, ◌||◌,
}
use esp8266_dns.HttpServer.{starts_with}
use esp8266_dns.Panel.{Panel, Reply, Visit, reply}
use esp8266_dns.Panel.Session.{check_csrf, guard}
use esp8266_dns.Panel.Tries.{blocked, fail}
use esp8266_dns.Password.{same_from}

-- `scheme` and the secret, compared in full.
unfoldable pub auth_is : Bytes → Bytes → Bytes → Bool
unfolding starts_with same_from
auth_is auth scheme secret =
    if length secret == 0
      || not (length auth == length scheme + length secret)
      || not (starts_with scheme auth)
    then false
    else same_from (length secret) 0 (drop (length scheme) auth) secret == 0

unfoldable pub bearer_ok : Visit → Panel → Bool
unfolding auth_is
bearer_ok v p = auth_is v.request.auth (codes "Bearer ") p.api_token

unfoldable pub api_guard : Visit → Panel → Panel × Bool
unfolding blocked bearer_ok fail
api_guard v p =
    let held = blocked v p.api_tries p in
    let counted =
      if length v.request.auth == 0
      then p
      else record p { api_tries = fail v.millis p.api_tries } in
    if not v.has_module
    then (reply (Reply.sends 404) p, false)
    else if held.1
    then (held.0, false)
    else if bearer_ok v p
    then (record p { api_tries = record p.api_tries { fails = 0 } }, true)
    else (reply (Reply.sends 401) counted, false)

-- A call of the API; what it does is in Iot.
unfoldable pub handle_api : Visit → Panel → Panel
unfolding api_guard
handle_api v p =
    let guarded = api_guard v p in if guarded.1 then reply Reply.serves guarded.0 else guarded.0

-- A page that is read, and a form of the panel.
unfoldable pub handle_page : Visit → Panel → Panel
unfolding guard
handle_page v p =
    let guarded = guard false v p in if guarded.1 then reply Reply.serves guarded.0 else guarded.0

unfoldable pub handle_form : Visit → Panel → Panel
unfolding guard check_csrf
handle_form v p =
    let guarded = guard false v p in
    let formed = check_csrf false v guarded.0 in
    if not guarded.1 then guarded.0 else if formed.1 then reply Reply.serves formed.0 else formed.0
