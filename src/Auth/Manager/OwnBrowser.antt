-- ===== src/Auth/Manager/OwnBrowser.antt =====
-- src/auth/AuthManager.cpp: a code is exchanged only for the sign-in by the browser that was begun.
use shelf_remote.Auth.Manager.Oidc.{
  begin_oidc, on_oidc_timeout, on_openid_reply, on_exchange_reply, give_up_oidc, on_oauth_callback,
  OpenidReply, exchange_code,
}
use shelf_remote.Auth.Manager.Login.{LoginReply}
use shelf_remote.Auth.Manager.Exchange.{
  is_own, began, all_began, IsOwn, emit-IsOwn, set_state-IsOwn, stop-IsOwn, set_last_error-IsOwn,
  set_error-IsOwn, clear_error-IsOwn,
}
use shelf_remote.Prelude.{
  refl, true, false, ◌∷◌, arith, ap, String, Chars, List, Bool, if_elim, Option, str_eq, ℕ, ◌≡◌,
  not, is_blank, is_empty, eq_iff, ◌&&◌, sym, subst, not-false,
}
use shelf_remote.Auth.Manager.{
  Auth, opened_browser, needs_login, authenticating, Pkce, Message, set_state, Signal, clear_error,
  openid_timed_out, posted_exchange, needs_https, posted_openid, no_redirect, exchange_failed,
  bad_redirect, no_browser,
}
use shelf_remote.Auth.Manager.OwnSignIn.{apply_login_payload-IsOwn}

-- The callback that is taken has the state of the sign-in that is under way.
began-state :
    (f : String → String) (p : Pkce) (state : String) (out : List Signal)
    → str_eq state p.state ≡ true
    → began f (record { code_verifier = p.code_verifier; state = state }) out ≡ began f p out
began-state f p state out h =
    ap (λ s. began f (record { code_verifier = p.code_verifier; state = s }) out)
      ((eq_iff state p.state).0 h)

own_and : (b c d : Bool) → c ≡ b → b && d ≡ true → b && (c && d) ≡ true
own_and b c d e h = ground (arith, e, h)

exchange-own :
    (f : String → String) (code state : String) (p : Pkce) (out : List Signal)
    → str_eq state p.state ≡ true
    → is_own f true p out ≡ true
    → is_own f true p (posted_exchange state code p.code_verifier ∷ out) ≡ true
unfolding is_own began all_began
exchange-own f code state p out e h =
    own_and (began f p out) _ (all_began f out) (began-state f p state out e) h

begin-own :
    (f : String → String) (b : Bool) (p old : Pkce) (out : List Signal)
    → is_own f b old out ≡ true
    → is_own f true p (posted_openid (f p.code_verifier) p.state ∷ out) ≡ true
unfolding is_own began all_began
begin-own f b p old out h =
    ground (arith, h, eq_iff (f p.code_verifier) (f p.code_verifier), eq_iff p.state p.state)

module _ (f : String → String) where
  pub begin_oidc-IsOwn : (p : Pkce) (a : Auth) → IsOwn f a → IsOwn f (begin_oidc f p a)
  unfolding begin_oidc
  begin_oidc-IsOwn p a h =
      let q = set_state authenticating (clear_error a) in
      if_elim (IsOwn f) (not (str_eq a.base.scheme "https"))
        (λ _. set_last_error-IsOwn f needs_https a h)
        λ _.
          begin-own f q.oidc_in_progress p q.pkce q.out
            (set_state-IsOwn f authenticating (clear_error a) (clear_error-IsOwn f a h))

  give_up_oidc-IsOwn : (m : Message) (a : Auth) → IsOwn f a → IsOwn f (give_up_oidc m a)
  unfolding give_up_oidc
  give_up_oidc-IsOwn m a h =
      set_state-IsOwn f needs_login _
        (set_last_error-IsOwn f m (record a { oidc_in_progress = false }) (stop-IsOwn f a h))

  pub on_openid_reply-IsOwn :
      (res : OpenidReply) (a : Auth) → IsOwn f a → IsOwn f (on_openid_reply res a)
  unfolding on_openid_reply
  on_openid_reply-IsOwn res a h =
      if_elim (IsOwn f) res.stale (λ _. stop-IsOwn f a h)
        λ _.
          if_elim (IsOwn f) (is_empty res.location) (λ _. give_up_oidc-IsOwn no_redirect a h)
            λ _.
              if_elim (IsOwn f)
                (not (str_eq res.lower_scheme "https") && not (str_eq res.lower_scheme "http"))
                (λ _. give_up_oidc-IsOwn bad_redirect a h)
                λ _.
                  if_elim (IsOwn f) (not res.opens) (λ _. give_up_oidc-IsOwn no_browser a h)
                    λ _. emit-IsOwn f (opened_browser res.location) a refl h

  pub on_oauth_callback-IsOwn :
      (code state failure : String) (a : Auth)
      → IsOwn f a
      → IsOwn f (on_oauth_callback code state failure a)
  unfolding on_oauth_callback exchange_code
  on_oauth_callback-IsOwn code state failure a h =
      if_elim (IsOwn f) (not a.oidc_in_progress) (λ _. h)
        λ on.
          let q : Auth = record a { oidc_timeout = false; oidc_in_progress = false } in
          let stopped : IsOwn f q = stop-IsOwn f a h in
          if_elim (IsOwn f) (not (is_blank failure)) (λ _. set_error-IsOwn f _ q stopped)
            λ _.
              if_elim (IsOwn f) (not (str_eq state a.pkce.state))
                (λ _. set_error-IsOwn f _ q stopped)
                λ e.
                  let begun = not-false on in
                  subst
                    (λ b.
                      is_own f b a.pkce (posted_exchange state code a.pkce.code_verifier ∷ a.out)
                      ≡ true)
                    (sym begun)
                    (exchange-own f code state a.pkce a.out (not-false e)
                      (subst (λ b. is_own f b a.pkce a.out ≡ true) begun h))

  pub on_exchange_reply-IsOwn :
      (e : Chars → Option ℕ) (res : LoginReply) (a : Auth)
      → IsOwn f a
      → IsOwn f (on_exchange_reply e res a)
  unfolding on_exchange_reply
  on_exchange_reply-IsOwn e res a h =
      let q : Auth = record a { oidc_in_progress = false } in
      let k = stop-IsOwn f a h in
      if_elim (IsOwn f) res.stale (λ _. k)
        λ _.
          if_elim (IsOwn f) (not res.ok) (λ _. set_error-IsOwn f (exchange_failed res.status) q k)
            λ _. apply_login_payload-IsOwn f e res q k

  pub on_oidc_timeout-IsOwn : (a : Auth) → IsOwn f a → IsOwn f (on_oidc_timeout a)
  unfolding on_oidc_timeout
  on_oidc_timeout-IsOwn a h =
      if_elim (IsOwn f) (not a.oidc_in_progress) (λ _. h)
        λ _. set_state-IsOwn f needs_login _ (
          set_last_error-IsOwn f openid_timed_out
            (record a { oidc_timeout = false; oidc_in_progress = false }) (stop-IsOwn f a h))
