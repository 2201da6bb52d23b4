-- ===== src/Auth/Manager/Outside.antt =====
-- src/auth/AuthManager.cpp: the operations that leave a sign-in that is not done not done.
use shelf_remote.Auth.TokenStore.{
  stored, either_text, removed, posted_refresh, settled, tokens_changed, refresh_failed,
  secrets_unreadable, secrets_unavailable,
}
use shelf_remote.Auth.Manager.Oidc.{
  on_exchange_reply, on_openid_reply, on_oidc_timeout, begin_oidc, give_up_oidc, on_oauth_callback,
  exchange_code, OpenidReply,
}
use shelf_remote.Auth.Manager.Login.{
  drop_tokens, check_server, login_local, on_authorize_reply, logout, on_login_reply,
  apply_login_payload, refuse_login, on_status_reply, StatusReply, AuthorizeReply, LoginReply,
}
use shelf_remote.Prelude.{
  refl, true, false, none, arith, zero, suc, [], String, Chars, List, ◌≡◌, Bool, if_elim, is_empty,
  Option, if◌then◌else◌, not, ℕ, ◌∷◌, ◌&&◌, str_eq, is_blank, ◌++◌, ◌==◌, ◌||◌,
}
use shelf_remote.Auth.Manager.{
  Auth, set_state, clear_error, is_state, needs_login, State, set_error, hear_all, hear,
  after_tokens, set_notice, stop_waiting_for_keyring, authenticated, authorize_and_finish,
  set_last_error, Tokens, Message, Url, Pkce, is_no_message, checking, with_tokens, Notice, emit,
  error, authenticating, disconnected, no_redirect, login_failed, session_locked, bad_redirect,
  not_verified, exchange_failed, bad_password, no_browser, no_access_token,
}

abbrev pub IsOutside : Auth → Type 0
IsOutside a = is_state a.state authenticated ≡ false

pub set_state-IsOutside :
    (s : State) (a : Auth)
    → is_state s authenticated ≡ false
    → IsOutside a
    → IsOutside (set_state s a)
unfolding set_state
set_state-IsOutside s a h k = if_elim IsOutside (is_state a.state s) (λ _. k) λ _. h

pub set_notice-IsOutside : (b : Bool) (a : Auth) → IsOutside a → IsOutside (set_notice b a)
unfolding set_notice
set_notice-IsOutside b a h =
    if_elim IsOutside (if b then a.is_waiting else not a.is_waiting) (λ _. h) λ _. h

pub clear_error-IsOutside : (a : Auth) → IsOutside a → IsOutside (clear_error a)
unfolding clear_error
clear_error-IsOutside a h = if_elim IsOutside (is_no_message a.last_error) (λ _. h) λ _. h

pub stop_waiting_for_keyring-IsOutside :
    (a : Auth) → IsOutside a → IsOutside (stop_waiting_for_keyring a)
unfolding stop_waiting_for_keyring
stop_waiting_for_keyring-IsOutside a h =
    set_notice-IsOutside false (record a { keyring_retry = none; keyring_attempts = 0 }) h

pub hear-IsOutside : (n : Notice) (a : Auth) → IsOutside a → IsOutside (hear n a)
unfolding hear set_last_error authorize_and_finish
hear-IsOutside tokens_changed a h = h
hear-IsOutside refresh_failed a h = set_state-IsOutside needs_login a refl h
hear-IsOutside secrets_unreadable a h =
    set_state-IsOutside needs_login (set_last_error session_locked a) refl h
hear-IsOutside secrets_unavailable a h = h
hear-IsOutside (stored k u x r) a h = h
hear-IsOutside (removed k) a h = h
hear-IsOutside (posted_refresh t) a h = h
hear-IsOutside (settled zero ok) a h =
    if_elim IsOutside ok (λ _. h) λ _. set_state-IsOutside needs_login a refl h
hear-IsOutside (settled (suc w) ok) a h = h

pub hear_all-IsOutside : (ns : List Notice) (a : Auth) → IsOutside a → IsOutside (hear_all ns a)
unfolding hear_all
hear_all-IsOutside [] a h = h
hear_all-IsOutside (n ∷ ns) a h = hear-IsOutside n (hear_all ns a) (hear_all-IsOutside ns a h)

pub after_tokens-IsOutside : (t : Tokens) (a : Auth) → IsOutside a → IsOutside (after_tokens t a)
unfolding after_tokens
after_tokens-IsOutside t a h =
    hear_all-IsOutside t.out (with_tokens (record t { out = t.out ++ a.tokens.out }) a) h

pub set_error-IsOutside : (m : Message) (a : Auth) → IsOutside a → IsOutside (set_error m a)
unfolding set_error
set_error-IsOutside m a h =
    set_state-IsOutside error (set_last_error m a) refl (unfold set_last_error in h)

pub refuse_login-IsOutside : (m : Message) (a : Auth) → IsOutside a → IsOutside (refuse_login m a)
unfolding refuse_login set_last_error
refuse_login-IsOutside m a h =
    set_state-IsOutside needs_login (emit (login_failed m) (set_last_error m a)) refl h

pub check_server-IsOutside :
    (f : Url → String) (url : Url) (a : Auth) → IsOutside a → IsOutside (check_server f url a)
unfolding check_server
check_server-IsOutside f url a h =
    set_state-IsOutside checking _ refl
      (after_tokens-IsOutside _ _ (stop_waiting_for_keyring-IsOutside a h))

pub on_status_reply-IsOutside :
    (res : StatusReply) (a : Auth) → IsOutside a → IsOutside (on_status_reply res a)
unfolding on_status_reply
on_status_reply-IsOutside res a h =
    if_elim IsOutside res.stale (λ _. h)
      λ _.
        if_elim IsOutside (not res.ok) (λ _. set_error-IsOutside _ a h)
          λ _. set_state-IsOutside needs_login _ refl h

pub login_local-IsOutside :
    (name password : String) (a : Auth) → IsOutside a → IsOutside (login_local name password a)
unfolding login_local
login_local-IsOutside name password a h =
    set_state-IsOutside authenticating (clear_error a) refl (clear_error-IsOutside a h)

pub apply_login_payload-IsOutside :
    (e : Chars → Option ℕ) (res : LoginReply) (a : Auth)
    → IsOutside a
    → IsOutside (apply_login_payload e res a)
unfolding apply_login_payload authorize_and_finish
apply_login_payload-IsOutside e res a h =
    if_elim IsOutside (is_empty (either_text res.root_access res.user_access))
      (λ _. set_error-IsOutside no_access_token a h) λ _. after_tokens-IsOutside _ a h

pub on_login_reply-IsOutside :
    (e : Chars → Option ℕ) (res : LoginReply) (a : Auth)
    → IsOutside a
    → IsOutside (on_login_reply e res a)
unfolding on_login_reply
on_login_reply-IsOutside e res a h =
    if_elim IsOutside res.stale (λ _. h)
      λ _.
        if_elim IsOutside (not res.ok) (λ _. refuse_login-IsOutside bad_password a h)
          λ _. apply_login_payload-IsOutside e res a h

pub begin_oidc-IsOutside :
    (f : String → String) (p : Pkce) (a : Auth) → IsOutside a → IsOutside (begin_oidc f p a)
unfolding begin_oidc set_last_error
begin_oidc-IsOutside f p a h =
    if_elim IsOutside (not (str_eq a.base.scheme "https")) (λ _. h)
      λ _. set_state-IsOutside authenticating (clear_error a) refl (clear_error-IsOutside a h)

pub exchange-IsOutside :
    (e : Chars → Option ℕ) (res : LoginReply) (a : Auth)
    → IsOutside a
    → IsOutside (on_exchange_reply e res a)
unfolding on_exchange_reply
exchange-IsOutside e res a h =
    let q = record a { oidc_in_progress = false } in
    if_elim IsOutside res.stale (λ _. h)
      λ _.
        if_elim IsOutside (not res.ok) (λ _. set_error-IsOutside (exchange_failed res.status) q h)
          λ _. apply_login_payload-IsOutside e res q h

pub give_up_oidc-IsOutside : (m : Message) (a : Auth) → IsOutside a → IsOutside (give_up_oidc m a)
unfolding give_up_oidc set_last_error
give_up_oidc-IsOutside m a h = set_state-IsOutside needs_login _ refl h

pub on_openid_reply-IsOutside :
    (res : OpenidReply) (a : Auth) → IsOutside a → IsOutside (on_openid_reply res a)
unfolding on_openid_reply
on_openid_reply-IsOutside res a h =
    if_elim IsOutside res.stale (λ _. h)
      λ _.
        if_elim IsOutside (is_empty res.location) (λ _. give_up_oidc-IsOutside no_redirect a h)
          λ _.
            if_elim IsOutside
              (not (str_eq res.lower_scheme "https") && not (str_eq res.lower_scheme "http"))
              (λ _. give_up_oidc-IsOutside bad_redirect a h)
              λ _.
                if_elim IsOutside (not res.opens) (λ _. give_up_oidc-IsOutside no_browser a h)
                  λ _. h

pub on_oauth_callback-IsOutside :
    (code st failure : String) (a : Auth)
    → IsOutside a
    → IsOutside (on_oauth_callback code st failure a)
unfolding on_oauth_callback exchange_code
on_oauth_callback-IsOutside code st failure a h =
    if_elim IsOutside (not a.oidc_in_progress) (λ _. h)
      λ _.
        if_elim IsOutside (not (is_blank failure)) (λ _. set_error-IsOutside _ _ h)
          λ _.
            if_elim IsOutside (not (str_eq st a.pkce.state)) (λ _. set_error-IsOutside _ _ h) λ _. h

pub on_oidc_timeout-IsOutside : (a : Auth) → IsOutside a → IsOutside (on_oidc_timeout a)
unfolding on_oidc_timeout set_last_error
on_oidc_timeout-IsOutside a h =
    if_elim IsOutside (not a.oidc_in_progress) (λ _. h)
      λ _. set_state-IsOutside needs_login _ refl h

pub drop_tokens-IsOutside : (a : Auth) → IsOutside a → IsOutside (drop_tokens a)
unfolding drop_tokens
drop_tokens-IsOutside a h = after_tokens-IsOutside _ a h

pub on_authorize_reply-IsOutside :
    (res : AuthorizeReply) (a : Auth)
    → not res.stale && res.ok ≡ false
    → IsOutside a
    → IsOutside (on_authorize_reply res a)
unfolding on_authorize_reply
on_authorize_reply-IsOutside res a refused h =
    if_elim IsOutside res.stale (λ _. h)
      λ e.
        if_elim IsOutside (not res.ok)
          (λ _.
            refuse_login-IsOutside not_verified
              (if res.status == 401 || res.status == 403 then drop_tokens a else a)
              (if_elim IsOutside (res.status == 401 || res.status == 403)
                (λ _. drop_tokens-IsOutside a h) (λ _. h)))
          λ k. absurd (ground (arith, refused, e, k))

needs_login-excludes :
    (s : State) → is_state s needs_login ≡ true → is_state s authenticated ≡ false
needs_login-excludes needs_login h = refl
needs_login-excludes disconnected h = refl
needs_login-excludes checking h = refl
needs_login-excludes authenticating h = refl
needs_login-excludes error h = refl
needs_login-excludes authenticated h = absurd (ground arith)

pub needs_login-IsOutside : (a : Auth) → IsOutside (set_state needs_login a)
unfolding set_state
needs_login-IsOutside a =
    if_elim IsOutside (is_state a.state needs_login) (needs_login-excludes a.state) λ _. refl

-- Signed out, whoever was signed in.
pub logout-IsOutside : (a : Auth) → IsOutside (logout a)
unfolding logout
logout-IsOutside a = needs_login-IsOutside _
