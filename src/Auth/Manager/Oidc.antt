-- ===== src/Auth/Manager/Oidc.antt =====
-- src/auth/AuthManager.cpp: the sign-in by the browser. `challenge_of` is the challenge of a verifier.
use shelf_remote.Auth.Manager.Login.{LoginReply, apply_login_payload}
use shelf_remote.Auth.Manager.{
  Message, Pkce, Auth, emit, set_state, needs_login, posted_exchange, set_last_error, no_redirect,
  set_error, needs_https, exchange_failed, openid_failed, openid_timed_out, authenticating,
  state_mismatch, bad_redirect, no_browser, clear_error, posted_openid, opened_browser,
}
use shelf_remote.Prelude.{
  true, false, String, Bool, Chars, Option, if◌then◌else◌, ℕ, not, is_empty, is_blank, str_eq, ◌&&◌,
}

unfoldable pub begin_oidc : (String → String) → Pkce → Auth → Auth
begin_oidc challenge_of generated a =
    if not (str_eq a.base.scheme "https")
    then set_last_error needs_https a
    else let q = set_state authenticating (clear_error a) in
      emit (posted_openid (challenge_of generated.code_verifier) generated.state)
        (record q { pkce = generated; oidc_in_progress = true })

-- The reply to the start: the address to go to, blank if there is none, its scheme in lower case, and
-- whether the browser opens.
pub record OpenidReply : Type 0 where
  pub stale : Bool
  pub location : Chars
  pub lower_scheme : String
  pub opens : Bool

unfoldable pub give_up_oidc : Message → Auth → Auth
give_up_oidc m a = set_state needs_login (set_last_error m (record a { oidc_in_progress = false }))

unfoldable pub on_openid_reply : OpenidReply → Auth → Auth
on_openid_reply res a =
    if res.stale
    then record a { oidc_in_progress = false }
    else if is_empty res.location
    then give_up_oidc no_redirect a
    else if not (str_eq res.lower_scheme "https") && not (str_eq res.lower_scheme "http")
    then give_up_oidc bad_redirect a
    else if not res.opens
    then give_up_oidc no_browser a
    else record (emit (opened_browser res.location) a) { oidc_timeout = true }

unfoldable pub exchange_code : String → String → Auth → Auth
exchange_code code state a = emit (posted_exchange state code a.pkce.code_verifier) a

unfoldable pub on_oauth_callback : String → String → String → Auth → Auth
on_oauth_callback code state failure a =
    if not a.oidc_in_progress
    then a
    else let q = record a { oidc_timeout = false } in
      if not (is_blank failure)
      then set_error (openid_failed failure) (record q { oidc_in_progress = false })
      else if not (str_eq state a.pkce.state)
      then set_error state_mismatch (record q { oidc_in_progress = false })
      else exchange_code code state q

unfoldable pub on_exchange_reply : (Chars → Option ℕ) → LoginReply → Auth → Auth
on_exchange_reply payload_exp res a =
    let q = record a { oidc_in_progress = false } in
    if res.stale
    then q
    else if not res.ok
    then set_error (exchange_failed res.status) q
    else apply_login_payload payload_exp res q

-- The timer has run out.
unfoldable pub on_oidc_timeout : Auth → Auth
on_oidc_timeout a =
    let q = record a { oidc_timeout = false } in
    if not a.oidc_in_progress
    then q
    else set_state needs_login
        (set_last_error openid_timed_out (record q { oidc_in_progress = false }))
