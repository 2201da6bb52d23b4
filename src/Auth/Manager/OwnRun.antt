-- ===== src/Auth/Manager/OwnRun.antt =====
-- src/auth/AuthManager.cpp: over any history, a code is exchanged only for a sign-in that was begun.
use shelf_remote.Auth.TokenStore.{load, needs_refresh}
use shelf_remote.Auth.Manager.Login.{on_logout_reply}
use shelf_remote.Auth.Manager.Restore.{
  on_loaded, wait, on_keyring_retry, restore_session, attempt_restore, go_on, Attempt,
  wait_for_keyring, retry_seconds, named,
}
use shelf_remote.Prelude.{
  refl, true, false, none, some, [], ◌∷◌, List, String, Option, Chars, if_elim, ◌≡◌, ◌||◌, Bool, ℕ,
  get_elem?, is_empty, ◌+◌,
}
use shelf_remote.Auth.Manager.Exchange.{
  IsOwn, emit-IsOwn, set_state-IsOwn, set_notice-IsOwn, set_last_error-IsOwn, clear_error-IsOwn,
  stop_waiting_for_keyring-IsOwn, authorize_and_finish-IsOwn, after_tokens-IsOwn, is_own,
}
use shelf_remote.Auth.Manager.OwnSignIn.{
  check_server-IsOwn, on_status_reply-IsOwn, login_local-IsOwn, on_login_reply-IsOwn,
  on_authorize_reply-IsOwn, logout-IsOwn, cancel_auth-IsOwn,
}
use shelf_remote.Auth.Manager.OwnBrowser.{
  begin_oidc-IsOwn, on_openid_reply-IsOwn, on_oauth_callback-IsOwn, on_exchange_reply-IsOwn,
  on_oidc_timeout-IsOwn,
}
use shelf_remote.Auth.Manager.Steps.{
  restored, run, step, Input, Linked, authorize_replied, signed_out, server_chosen, status_replied,
  password_given, login_replied, browser_asked, openid_replied, called_back, exchange_replied,
  logout_replied, keyring_retried, refresh_asked, refresh_replied, oidc_timed_out, cancelled,
}
use shelf_remote.Auth.Manager.{
  base_url, opened_browser, Auth, set_state, Url, emit, authenticating, needs_login, keyring_locked,
  stop_waiting_for_keyring, set_notice, after_tokens, clear_error,
}

module _ (f : String → String) where
  wait-IsOwn : (o : Option ℕ) (a : Auth) → IsOwn f a → IsOwn f (wait o a)
  unfolding wait
  wait-IsOwn none a h =
      set_state-IsOwn f needs_login _
        (set_last_error-IsOwn f keyring_locked _ (stop_waiting_for_keyring-IsOwn f a h))
  wait-IsOwn (some delay) a h =
      let q = record a { keyring_attempts = a.keyring_attempts + 1 } in
      set_state-IsOwn f authenticating (set_notice true (clear_error q))
        (set_notice-IsOwn f true (clear_error q) (clear_error-IsOwn f q h))

  go_on-IsOwn : (e : Attempt) (a : Auth) → IsOwn f a → IsOwn f (go_on e a)
  unfolding go_on
  go_on-IsOwn e a h =
      let q = set_state authenticating (stop_waiting_for_keyring a) in
      let k =
        set_state-IsOwn f authenticating (stop_waiting_for_keyring a)
          (stop_waiting_for_keyring-IsOwn f a h) in
      if_elim (IsOwn f) (needs_refresh e.now e.skew q.tokens) (λ _. after_tokens-IsOwn f _ q k)
        λ _. authorize_and_finish-IsOwn f q k

  on_loaded-IsOwn : (e : Attempt) (ok : Bool) (a : Auth) → IsOwn f a → IsOwn f (on_loaded e ok a).0
  unfolding on_loaded wait_for_keyring
  on_loaded-IsOwn e false a h =
      if_elim (λ (r : Auth × Bool). IsOwn f r.0) a.keyring_unavailable
        (λ _. wait-IsOwn (get_elem? retry_seconds a.keyring_attempts) a h) λ _. h
  on_loaded-IsOwn e true a h = go_on-IsOwn e a h

  attempt_restore-IsOwn :
      (x : Chars → Option ℕ) (e : Attempt) (a : Auth)
      → IsOwn f a
      → IsOwn f (attempt_restore x e a).0
  unfolding attempt_restore
  attempt_restore-IsOwn x e a h =
      let q = emit (base_url a.restore_url) (record a { base = a.restore_url }) in
      let r = load x e.saved (named e a) in
      on_loaded-IsOwn e r.1 (after_tokens r.0 (record q { keyring_unavailable = false })) (
        after_tokens-IsOwn f r.0 (record q { keyring_unavailable = false })
          (emit-IsOwn f (base_url a.restore_url) a refl h))

  restore_session-IsOwn :
      (x : Chars → Option ℕ) (e : Attempt) (url : Url) (key : String) (a : Auth)
      → IsOwn f a
      → IsOwn f (restore_session x e url key a).0
  unfolding restore_session
  restore_session-IsOwn x e url key a h =
      attempt_restore-IsOwn x e
        (record (stop_waiting_for_keyring a) { restore_url = url; restore_key = key })
        (stop_waiting_for_keyring-IsOwn f a h)

  on_keyring_retry-IsOwn :
      (x : Chars → Option ℕ) (e : Attempt) (a : Auth) → IsOwn f a → IsOwn f (on_keyring_retry x e a)
  unfolding on_keyring_retry
  on_keyring_retry-IsOwn x e a h =
      let q = attempt_restore x e (record a { keyring_retry = none }) in
      let k = attempt_restore-IsOwn x e (record a { keyring_retry = none }) h in
      if_elim (IsOwn f) q.1 (λ _. k)
        λ _.
          set_state-IsOwn f needs_login (stop_waiting_for_keyring q.0)
            (stop_waiting_for_keyring-IsOwn f q.0 k)

step-IsOwn :
    (x : Linked) (i : Input) (a : Auth) → IsOwn x.challenge_of a → IsOwn x.challenge_of (step x i a)
unfolding step
step-IsOwn x (server_chosen url) a h = check_server-IsOwn x.challenge_of x.id_for_url url a h
step-IsOwn x (status_replied res) a h = on_status_reply-IsOwn x.challenge_of res a h
step-IsOwn x (password_given name password) a h = login_local-IsOwn x.challenge_of name password a h
step-IsOwn x (login_replied res) a h = on_login_reply-IsOwn x.challenge_of x.payload_exp res a h
step-IsOwn x (browser_asked p) a h = begin_oidc-IsOwn x.challenge_of p a h
step-IsOwn x (openid_replied res) a h = on_openid_reply-IsOwn x.challenge_of res a h
step-IsOwn x (called_back code st failure) a h =
    on_oauth_callback-IsOwn x.challenge_of code st failure a h
step-IsOwn x (exchange_replied res) a h =
    on_exchange_reply-IsOwn x.challenge_of x.payload_exp res a h
step-IsOwn x oidc_timed_out a h = on_oidc_timeout-IsOwn x.challenge_of a h
step-IsOwn x (authorize_replied res) a h = on_authorize_reply-IsOwn x.challenge_of res a h
step-IsOwn x signed_out a h = logout-IsOwn x.challenge_of a h
step-IsOwn x cancelled a h = cancel_auth-IsOwn x.challenge_of a h
step-IsOwn x (logout_replied stale page) a h =
    unfold on_logout_reply in
    if_elim (IsOwn x.challenge_of) (stale || is_empty page) (λ _. h)
      λ _. emit-IsOwn x.challenge_of (opened_browser page) a refl h
step-IsOwn x (restored e url key) a h =
    restore_session-IsOwn x.challenge_of x.payload_exp e url key a h
step-IsOwn x (keyring_retried e) a h = on_keyring_retry-IsOwn x.challenge_of x.payload_exp e a h
step-IsOwn x (refresh_asked w) a h = after_tokens-IsOwn x.challenge_of _ a h
step-IsOwn x (refresh_replied key res) a h = after_tokens-IsOwn x.challenge_of _ a h

-- A code is exchanged only for a sign-in that was begun: from a state in which this holds, after any
-- history, every exchange that was posted has the state of a sign-in through the browser that was posted
-- before it, and the verifier of that sign-in's challenge, and so has the sign-in that is under way.
pub run-IsOwn :
    (x : Linked) (is : List Input) (a : Auth)
    → is_own x.challenge_of a.oidc_in_progress a.pkce a.out ≡ true
    → is_own x.challenge_of (run x is a).oidc_in_progress (run x is a).pkce (run x is a).out ≡ true
unfolding run
run-IsOwn x [] a h = h
run-IsOwn x (i ∷ is) a h = run-IsOwn x is (step x i a) (step-IsOwn x i a h)
