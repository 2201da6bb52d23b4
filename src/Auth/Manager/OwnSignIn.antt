-- ===== src/Auth/Manager/OwnSignIn.antt =====
-- src/auth/AuthManager.cpp: the operations on servers, passwords and tokens begin no sign-in by the
-- browser and exchange no code.
use shelf_remote.Auth.TokenStore.{either_text, set_account, set_server_key, reset_memory}
use shelf_remote.Auth.Manager.Login.{
  login_local, on_status_reply, drop_tokens, refuse_login, on_login_reply, bind_account,
  on_authorize_reply, apply_login_payload, logout, check_server, StatusReply, AuthorizeReply,
  LoginReply, known,
}
use shelf_remote.Auth.Manager.Exchange.{
  IsOwn, emit-IsOwn, set_state-IsOwn, after_tokens-IsOwn, stop-IsOwn,
  stop_waiting_for_keyring-IsOwn, set_last_error-IsOwn, set_error-IsOwn, clear_error-IsOwn,
  authorize_and_finish-IsOwn,
}
use shelf_remote.Prelude.{
  refl, false, String, Chars, if_elim, Option, ℕ, not, is_blank, is_empty, ◌||◌, ◌==◌,
}
use shelf_remote.Auth.Manager.{
  Auth, base_url, cookies_cleared, status_changed, auth_methods_changed, login_failed, posted_login,
  signed_in, session_ending, posted_logout, posted_status, error_changed, no_message, nobody,
  needs_login, checking, authenticating, authenticated, cancel_auth, Message, Url,
  stop_waiting_for_keyring, set_state, clear_error, emit, is_state, not_verified, bad_password,
  no_access_token, set_last_error, after_tokens, user_id, unlogged,
}

module _ (f : String → String) where
  pub check_server-IsOwn :
      (g : Url → String) (url : Url) (a : Auth) → IsOwn f a → IsOwn f (check_server g url a)
  unfolding check_server
  check_server-IsOwn g url a h =
      let q : Auth = record (stop_waiting_for_keyring a) { base = url } in
      let r = emit cookies_cleared (emit (base_url url) q) in
      let t =
        after_tokens (set_account "" (set_server_key (g url) (reset_memory (unlogged r.tokens))))
          r in
      let u = emit error_changed (record t { last_error = no_message }) in
      emit-IsOwn f posted_status (set_state checking u) refl (
        set_state-IsOwn f checking u (
          emit-IsOwn f error_changed t refl (
            after_tokens-IsOwn f _ r (
              emit-IsOwn f cookies_cleared (emit (base_url url) q) refl
                (emit-IsOwn f (base_url url) q refl (stop_waiting_for_keyring-IsOwn f a h))))))

  pub on_status_reply-IsOwn :
      (res : StatusReply) (a : Auth) → IsOwn f a → IsOwn f (on_status_reply res a)
  unfolding on_status_reply
  on_status_reply-IsOwn res a h =
      if_elim (IsOwn f) res.stale (λ _. h)
        λ _.
          if_elim (IsOwn f) (not res.ok) (λ _. set_error-IsOwn f _ a h)
            λ _. set_state-IsOwn f needs_login _ (
              emit-IsOwn f auth_methods_changed (emit status_changed a) refl
                (emit-IsOwn f status_changed a refl h))

  pub login_local-IsOwn :
      (name password : String) (a : Auth) → IsOwn f a → IsOwn f (login_local name password a)
  unfolding login_local
  login_local-IsOwn name password a h =
      emit-IsOwn f (posted_login name password) (set_state authenticating (clear_error a)) refl
        (set_state-IsOwn f authenticating (clear_error a) (clear_error-IsOwn f a h))

  pub apply_login_payload-IsOwn :
      (e : Chars → Option ℕ) (res : LoginReply) (a : Auth)
      → IsOwn f a
      → IsOwn f (apply_login_payload e res a)
  unfolding apply_login_payload
  apply_login_payload-IsOwn e res a h =
      if_elim (IsOwn f) (is_empty (either_text res.root_access res.user_access))
        (λ _. set_error-IsOwn f no_access_token a h)
        λ _. authorize_and_finish-IsOwn f _ (after_tokens-IsOwn f _ a h)

  refuse_login-IsOwn : (m : Message) (a : Auth) → IsOwn f a → IsOwn f (refuse_login m a)
  unfolding refuse_login
  refuse_login-IsOwn m a h =
      set_state-IsOwn f needs_login _
        (emit-IsOwn f (login_failed m) (set_last_error m a) refl (set_last_error-IsOwn f m a h))

  pub on_login_reply-IsOwn :
      (e : Chars → Option ℕ) (res : LoginReply) (a : Auth)
      → IsOwn f a
      → IsOwn f (on_login_reply e res a)
  unfolding on_login_reply
  on_login_reply-IsOwn e res a h =
      if_elim (IsOwn f) res.stale (λ _. h)
        λ _.
          if_elim (IsOwn f) (not res.ok) (λ _. refuse_login-IsOwn bad_password a h)
            λ _. apply_login_payload-IsOwn e res a h

  drop_tokens-IsOwn : (a : Auth) → IsOwn f a → IsOwn f (drop_tokens a)
  unfolding drop_tokens
  drop_tokens-IsOwn a h = after_tokens-IsOwn f _ a h

  bind_account-IsOwn : (id : String) (a : Auth) → IsOwn f a → IsOwn f (bind_account id a)
  unfolding bind_account
  bind_account-IsOwn id a h =
      if_elim (IsOwn f) (is_blank id) (λ _. h) λ _. after_tokens-IsOwn f _ a h

  pub on_authorize_reply-IsOwn :
      (res : AuthorizeReply) (a : Auth) → IsOwn f a → IsOwn f (on_authorize_reply res a)
  unfolding on_authorize_reply
  on_authorize_reply-IsOwn res a h =
      if_elim (IsOwn f) res.stale (λ _. h)
        λ _.
          if_elim (IsOwn f) (not res.ok)
            (λ _. refuse_login-IsOwn not_verified _ (
              if_elim (IsOwn f) (res.status == 401 || res.status == 403)
                (λ _. drop_tokens-IsOwn a h) (λ _. h)))
            λ _.
              let user = known res.user a.user in
              let q = bind_account (user_id user) (record a { user = user }) in
              emit-IsOwn f (signed_in user) (set_state authenticated (clear_error q)) refl (
                set_state-IsOwn f authenticated (clear_error q) (
                  clear_error-IsOwn f q
                    (bind_account-IsOwn (user_id user) (record a { user = user }) h)))

  pub logout-IsOwn : (a : Auth) → IsOwn f a → IsOwn f (logout a)
  unfolding logout
  logout-IsOwn a h =
      let q = stop_waiting_for_keyring (emit session_ending a) in
      let r : Auth = record (drop_tokens q) { user = nobody } in
      emit-IsOwn f (posted_logout q.tokens.refresh_token) (set_state needs_login r) refl (
        set_state-IsOwn f needs_login r (
          drop_tokens-IsOwn q (
            stop_waiting_for_keyring-IsOwn f (emit session_ending a)
              (emit-IsOwn f session_ending a refl h))))

  pub cancel_auth-IsOwn : (a : Auth) → IsOwn f a → IsOwn f (cancel_auth a)
  unfolding cancel_auth
  cancel_auth-IsOwn a h =
      let q = stop_waiting_for_keyring a in
      let k = stop-IsOwn f q (stop_waiting_for_keyring-IsOwn f a h) in
      if_elim (IsOwn f) (is_state q.state authenticating || is_state q.state checking)
        (λ _.
          set_state-IsOwn f needs_login
            (record q { oidc_timeout = false; oidc_in_progress = false }) k)
        λ _. k
