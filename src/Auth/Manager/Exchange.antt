-- ===== src/Auth/Manager/Exchange.antt =====
-- src/auth/AuthManager.cpp: the operations that begin no sign-in by the browser and exchange no code.
use shelf_remote.Auth.TokenStore.{secrets_unavailable}
use shelf_remote.Auth.TokenStore.{
  stored, removed, posted_refresh, settled, tokens_changed, refresh_failed, secrets_unreadable,
  secrets_unavailable,
}
use shelf_remote.Prelude.{
  refl, true, false, none, zero, suc, [], ◌∷◌, String, Bool, List, ◌≡◌, str_eq, ◌&&◌, not, ◌||◌,
  arith, if_elim, ◌∙◌, if◌then◌else◌, ◌++◌,
}
use shelf_remote.Auth.Manager.{
  Auth, posted_openid, posted_exchange, Signal, Pkce, emit, clear_error, hear_all, after_tokens,
  set_notice, stop_waiting_for_keyring, set_error, set_state, set_last_error, hear,
  authorize_and_finish, Message, Tokens, State, Notice, posted_authorize, needs_login, is_state,
  error_changed, with_tokens, is_no_message, error, session_locked, state_changed, no_message,
  notice_changed,
}

-- Whether a sign-in with this state, whose verifier has this challenge, was sent to the server.
unfoldable pub began : (String → String) → Pkce → List Signal → Bool
began challenge_of p [] = false
began challenge_of p (posted_openid challenge state ∷ out) =
    str_eq challenge (challenge_of p.code_verifier) && str_eq state p.state
    || began challenge_of p out
began challenge_of p (n ∷ out) = began challenge_of p out

-- Every exchange comes after the begin of a sign-in with its state and the challenge of its verifier.
unfoldable pub all_began : (String → String) → List Signal → Bool
all_began challenge_of [] = true
all_began challenge_of (posted_exchange state code verifier ∷ out) =
    began challenge_of (record { code_verifier = verifier; state = state }) out
    && all_began challenge_of out
all_began challenge_of (n ∷ out) = all_began challenge_of out

-- And a sign-in by the browser that is under way was begun.
unfoldable pub is_own : (String → String) → Bool → Pkce → List Signal → Bool
is_own challenge_of in_progress p out =
    (not in_progress || began challenge_of p out) && all_began challenge_of out

abbrev is_plain : Signal → Bool
is_plain (posted_openid challenge state) = false
is_plain (posted_exchange state code verifier) = false
is_plain n = true

began-plain :
    (f : String → String) (p : Pkce) (n : Signal) (out : List Signal)
    → is_plain n ≡ true
    → began f p (n ∷ out) ≡ began f p out
unfolding began
began-plain f p n out h = ground (arith, h)

all_began-plain :
    (f : String → String) (n : Signal) (out : List Signal)
    → is_plain n ≡ true
    → all_began f (n ∷ out) ≡ all_began f out
unfolding all_began
all_began-plain f n out h = ground (arith, h)

is_own-plain :
    (f : String → String) (b : Bool) (p : Pkce) (n : Signal) (out : List Signal)
    → is_plain n ≡ true
    → is_own f b p (n ∷ out) ≡ is_own f b p out
unfolding is_own
is_own-plain f b p n out h = rw (began-plain f p n out h, all_began-plain f n out h) refl

is_own-stopped :
    (f : String → String) (b : Bool) (p : Pkce) (out : List Signal)
    → is_own f b p out ≡ true
    → is_own f false p out ≡ true
unfolding is_own
is_own-stopped f b p out h = ground (arith, h)

module _ (f : String → String) where
  abbrev pub IsOwn : Auth → Type 0
  IsOwn a = is_own f a.oidc_in_progress a.pkce a.out ≡ true

  pub emit-IsOwn : (n : Signal) (a : Auth) → is_plain n ≡ true → IsOwn a → IsOwn (emit n a)
  emit-IsOwn n a p h = is_own-plain f a.oidc_in_progress a.pkce n a.out p ∙ h

  pub stop-IsOwn : (a : Auth) → IsOwn a → IsOwn (record a { oidc_in_progress = false })
  stop-IsOwn a h = is_own-stopped f a.oidc_in_progress a.pkce a.out h

  pub set_state-IsOwn : (s : State) (a : Auth) → IsOwn a → IsOwn (set_state s a)
  unfolding set_state
  set_state-IsOwn s a h =
      if_elim IsOwn (is_state a.state s) (λ _. h)
        λ _. emit-IsOwn state_changed (record a { state = s }) refl h

  pub set_notice-IsOwn : (b : Bool) (a : Auth) → IsOwn a → IsOwn (set_notice b a)
  unfolding set_notice
  set_notice-IsOwn b a h =
      if_elim IsOwn (if b then a.is_waiting else not a.is_waiting) (λ _. h)
        λ _. emit-IsOwn notice_changed (record a { is_waiting = b }) refl h

  pub set_last_error-IsOwn : (m : Message) (a : Auth) → IsOwn a → IsOwn (set_last_error m a)
  unfolding set_last_error
  set_last_error-IsOwn m a h = emit-IsOwn error_changed (record a { last_error = m }) refl h

  pub clear_error-IsOwn : (a : Auth) → IsOwn a → IsOwn (clear_error a)
  unfolding clear_error
  clear_error-IsOwn a h =
      if_elim IsOwn (is_no_message a.last_error) (λ _. h)
        λ _. emit-IsOwn error_changed (record a { last_error = no_message }) refl h

  pub set_error-IsOwn : (m : Message) (a : Auth) → IsOwn a → IsOwn (set_error m a)
  unfolding set_error
  set_error-IsOwn m a h = set_state-IsOwn error (set_last_error m a) (set_last_error-IsOwn m a h)

  pub stop_waiting_for_keyring-IsOwn : (a : Auth) → IsOwn a → IsOwn (stop_waiting_for_keyring a)
  unfolding stop_waiting_for_keyring
  stop_waiting_for_keyring-IsOwn a h =
      set_notice-IsOwn false (record a { keyring_retry = none; keyring_attempts = 0 }) h

  pub authorize_and_finish-IsOwn : (a : Auth) → IsOwn a → IsOwn (authorize_and_finish a)
  unfolding authorize_and_finish
  authorize_and_finish-IsOwn a h = emit-IsOwn posted_authorize a refl h

  hear-IsOwn : (n : Notice) (a : Auth) → IsOwn a → IsOwn (hear n a)
  unfolding hear
  hear-IsOwn tokens_changed a h = h
  hear-IsOwn refresh_failed a h = set_state-IsOwn needs_login a h
  hear-IsOwn secrets_unreadable a h =
      set_state-IsOwn needs_login (set_last_error session_locked a)
        (set_last_error-IsOwn session_locked a h)
  hear-IsOwn secrets_unavailable a h = h
  hear-IsOwn (stored k u x r) a h = h
  hear-IsOwn (removed k) a h = h
  hear-IsOwn (posted_refresh t) a h = h
  hear-IsOwn (settled zero ok) a h =
      if_elim IsOwn ok (λ _. authorize_and_finish-IsOwn a h) λ _. set_state-IsOwn needs_login a h
  hear-IsOwn (settled (suc w) ok) a h = h

  hear_all-IsOwn : (ns : List Notice) (a : Auth) → IsOwn a → IsOwn (hear_all ns a)
  unfolding hear_all
  hear_all-IsOwn [] a h = h
  hear_all-IsOwn (n ∷ ns) a h = hear-IsOwn n (hear_all ns a) (hear_all-IsOwn ns a h)

  pub after_tokens-IsOwn : (t : Tokens) (a : Auth) → IsOwn a → IsOwn (after_tokens t a)
  unfolding after_tokens
  after_tokens-IsOwn t a h =
      hear_all-IsOwn t.out (with_tokens (record t { out = t.out ++ a.tokens.out }) a) h
