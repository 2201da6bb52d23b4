-- ===== src/Auth/Manager/Admission.antt =====
-- src/auth/AuthManager.cpp: who is signed in, the server has accepted.
use shelf_remote.Auth.Manager.Steps.{
  restored, run, step, Input, Linked, authorize_replied, signed_out, server_chosen, status_replied,
  password_given, login_replied, browser_asked, openid_replied, called_back, exchange_replied,
  logout_replied, restored, keyring_retried, refresh_asked, refresh_replied, oidc_timed_out,
  cancelled,
}
use shelf_remote.Auth.Manager.Outside.{
  IsOutside, stop_waiting_for_keyring-IsOutside, set_state-IsOutside, check_server-IsOutside,
  after_tokens-IsOutside, logout-IsOutside, set_notice-IsOutside, clear_error-IsOutside,
  on_status_reply-IsOutside, login_local-IsOutside, on_login_reply-IsOutside, begin_oidc-IsOutside,
  on_openid_reply-IsOutside, on_oauth_callback-IsOutside, exchange-IsOutside,
  on_oidc_timeout-IsOutside, on_authorize_reply-IsOutside,
}
use shelf_remote.Auth.Manager.Restore.{
  wait, go_on, on_keyring_retry, restore_session, wait_for_keyring, attempt_restore, retry_seconds,
  Attempt, on_loaded, named,
}
use shelf_remote.Prelude.{
  refl, true, false, none, some, arith, [], List, Chars, Bool, get_elem?, ◌∷◌, Option, ◌≡◌, not,
  if_elim, ℕ, ◌||◌, ◌&&◌, String, is_empty,
}
use shelf_remote.Auth.Manager.{
  Auth, cancel_auth, stop_waiting_for_keyring, set_last_error, authorize_and_finish, needs_login,
  is_state, Url, authenticating, checking, set_state,
}
use shelf_remote.Auth.Manager.Login.{on_logout_reply}
use shelf_remote.Auth.TokenStore.{needs_refresh, load}

-- Whether the server has accepted the tokens that the sign-in has sent to it.
unfoldable pub accepts : Input → Bool
accepts (authorize_replied res) = not res.stale && res.ok
accepts i = false

cancel_auth-IsOutside : (a : Auth) → IsOutside a → IsOutside (cancel_auth a)
unfolding cancel_auth
cancel_auth-IsOutside a h =
    let q = stop_waiting_for_keyring a in
    let k = stop_waiting_for_keyring-IsOutside a h in
    if_elim IsOutside (is_state q.state authenticating || is_state q.state checking)
      (λ _. set_state-IsOutside needs_login _ refl k) λ _. k

wait-IsOutside : (o : Option ℕ) (a : Auth) → IsOutside a → IsOutside (wait o a)
unfolding wait set_last_error
wait-IsOutside none a h =
    set_state-IsOutside needs_login _ refl (stop_waiting_for_keyring-IsOutside a h)
wait-IsOutside (some delay) a h =
    set_state-IsOutside authenticating _ refl
      (set_notice-IsOutside true _ (clear_error-IsOutside _ h))

wait_for_keyring-IsOutside : (a : Auth) → IsOutside a → IsOutside (wait_for_keyring a)
unfolding wait_for_keyring
wait_for_keyring-IsOutside a h = wait-IsOutside (get_elem? retry_seconds a.keyring_attempts) a h

go_on-IsOutside : (e : Attempt) (a : Auth) → IsOutside a → IsOutside (go_on e a)
unfolding go_on authorize_and_finish
go_on-IsOutside e a h =
    let k =
      set_state-IsOutside authenticating (stop_waiting_for_keyring a) refl
        (stop_waiting_for_keyring-IsOutside a h) in
    if_elim IsOutside
      (needs_refresh e.now e.skew (set_state authenticating (stop_waiting_for_keyring a)).tokens)
      (λ _. after_tokens-IsOutside _ _ k) λ _. k

on_loaded-IsOutside :
    (e : Attempt) (ok : Bool) (a : Auth) → IsOutside a → IsOutside (on_loaded e ok a).0
unfolding on_loaded
on_loaded-IsOutside e false a h =
    if_elim (λ (r : Auth × Bool). IsOutside r.0) a.keyring_unavailable
      (λ _. wait_for_keyring-IsOutside a h) λ _. h
on_loaded-IsOutside e true a h = go_on-IsOutside e a h

attempt_restore-IsOutside :
    (x : Chars → Option ℕ) (e : Attempt) (a : Auth)
    → IsOutside a
    → IsOutside (attempt_restore x e a).0
unfolding attempt_restore
attempt_restore-IsOutside x e a h =
    on_loaded-IsOutside e (load x e.saved (named e a)).1 _ (after_tokens-IsOutside _ _ h)

restore_session-IsOutside :
    (x : Chars → Option ℕ) (e : Attempt) (url : Url) (key : String) (a : Auth)
    → IsOutside a
    → IsOutside (restore_session x e url key a).0
unfolding restore_session
restore_session-IsOutside x e url key a h =
    attempt_restore-IsOutside x e _ (stop_waiting_for_keyring-IsOutside a h)

on_keyring_retry-IsOutside :
    (x : Chars → Option ℕ) (e : Attempt) (a : Auth)
    → IsOutside a
    → IsOutside (on_keyring_retry x e a)
unfolding on_keyring_retry
on_keyring_retry-IsOutside x e a h =
    let q = attempt_restore x e (record a { keyring_retry = none }) in
    let k = attempt_restore-IsOutside x e (record a { keyring_retry = none }) h in
    if_elim IsOutside q.1 (λ _. k)
      λ _.
        set_state-IsOutside needs_login (stop_waiting_for_keyring q.0) refl
          (stop_waiting_for_keyring-IsOutside q.0 k)

step-IsOutside :
    (x : Linked) (i : Input) (a : Auth) → accepts i ≡ false → IsOutside a → IsOutside (step x i a)
unfolding step accepts
step-IsOutside x (server_chosen url) a r h = check_server-IsOutside x.id_for_url url a h
step-IsOutside x (status_replied res) a r h = on_status_reply-IsOutside res a h
step-IsOutside x (password_given name password) a r h = login_local-IsOutside name password a h
step-IsOutside x (login_replied res) a r h = on_login_reply-IsOutside x.payload_exp res a h
step-IsOutside x (browser_asked p) a r h = begin_oidc-IsOutside x.challenge_of p a h
step-IsOutside x (openid_replied res) a r h = on_openid_reply-IsOutside res a h
step-IsOutside x (called_back code st failure) a r h =
    on_oauth_callback-IsOutside code st failure a h
step-IsOutside x (exchange_replied res) a r h = exchange-IsOutside x.payload_exp res a h
step-IsOutside x oidc_timed_out a r h = on_oidc_timeout-IsOutside a h
step-IsOutside x (authorize_replied res) a r h = on_authorize_reply-IsOutside res a r h
step-IsOutside x signed_out a r h = logout-IsOutside a
step-IsOutside x cancelled a r h = cancel_auth-IsOutside a h
step-IsOutside x (logout_replied stale page) a r h =
    unfold on_logout_reply in if_elim IsOutside (stale || is_empty page) (λ _. h) λ _. h
step-IsOutside x (restored e url key) a r h = restore_session-IsOutside x.payload_exp e url key a h
step-IsOutside x (keyring_retried e) a r h = on_keyring_retry-IsOutside x.payload_exp e a h
step-IsOutside x (refresh_asked w) a r h = after_tokens-IsOutside _ a h
step-IsOutside x (refresh_replied key res) a r h = after_tokens-IsOutside _ a h

unfoldable pub ever_accepts : List Input → Bool
ever_accepts [] = false
ever_accepts (i ∷ is) = accepts i || ever_accepts is

-- Who is signed in, the server has accepted: from a state that is not signed in, a history without a
-- successful reply to /api/authorize, of the server chosen now, ends in a state that is not signed in.
pub run-IsOutside :
    (x : Linked) (is : List Input) (a : Auth)
    → ever_accepts is ≡ false
    → IsOutside a
    → IsOutside (run x is a)
unfolding run ever_accepts
run-IsOutside x [] a r h = h
run-IsOutside x (i ∷ is) a r h =
    run-IsOutside x is (step x i a) (ground (arith, r)) (step-IsOutside x i a (ground (arith, r)) h)
