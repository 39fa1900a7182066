-- ===== src/Panel/Action.antt =====
-- WebService.h: the requests that the sign-in has a part in, one after the other.
use esp8266_dns.Base.{List, [], ◌∷◌}
use esp8266_dns.Panel.{Panel, Visit}
use esp8266_dns.Panel.Api.{handle_api, handle_form, handle_page}
use esp8266_dns.Panel.SignIn.{
  handle_login, handle_login_post, handle_logout, handle_mfa, handle_mfa_post, handle_mfa_reset,
  handle_password_save,
}
use esp8266_dns.Password.{Hmac}

pub data Action : Type 0 where
  login : Action
  login_post : Action
  logout : Action
  mfa : Action
  mfa_post : Action
  mfa_reset : Action
  password_save : Action
  page : Action
  form : Action
  api : Action

module _ (hmac : Hmac) where
  -- Every request that the sign-in has a part in.
  unfoldable pub handle : Action → Visit → Panel → Panel
  unfolding handle_login handle_login_post handle_logout handle_mfa handle_mfa_post handle_mfa_reset
      handle_password_save handle_page handle_form handle_api
  handle Action.login v p = handle_login hmac v p
  handle Action.login_post v p = handle_login_post hmac v p
  handle Action.logout v p = handle_logout hmac v p
  handle Action.mfa v p = handle_mfa hmac v p
  handle Action.mfa_post v p = handle_mfa_post hmac v p
  handle Action.mfa_reset v p = handle_mfa_reset hmac v p
  handle Action.password_save v p = handle_password_save hmac v p
  handle Action.page v p = handle_page v p
  handle Action.form v p = handle_form v p
  handle Action.api v p = handle_api v p

  unfoldable pub steps : List (Action × Visit) → Panel → Panel
  unfolding handle
  steps [] p = p
  steps (e ∷ es) p = steps es (handle e.0 e.1 p)
