-- ===== src/Auth/Manager/Restore.antt =====
-- src/auth/AuthManager.cpp: the sign-in that was saved is taken up, and waited for while the keyring is
-- not there. What the secret store answers, and the account of the saved server, are arguments.
use shelf_remote.Net.Endpoints.{Url}
use shelf_remote.Prelude.{
  true, false, none, some, [], List, Chars, ℕ, ◌∷◌, String, Option, get_elem?, if◌then◌else◌, Bool,
  ◌+◌, ◌*◌, not,
}
use shelf_remote.Auth.TokenStore.{Tokens}
use shelf_remote.Auth.Manager.{
  Auth, set_state, authenticating, stop_waiting_for_keyring, emit, needs_login, base_url,
  set_last_error, keyring_locked, after_tokens, clear_error, unlogged, set_notice,
  authorize_and_finish,
}
use shelf_remote.Auth.TokenStore.{
  Retrieved, needs_refresh, set_account, refresh, set_server_key, load,
}

abbrev pub retry_seconds : List ℕ
retry_seconds = 2 ∷ 5 ∷ 10 ∷ 20 ∷ 40 ∷ 60 ∷ []

-- With the delay of the next attempt, if there is one.
unfoldable pub wait : Option ℕ → Auth → Auth
wait none a = set_state needs_login (set_last_error keyring_locked (stop_waiting_for_keyring a))
wait (some delay) a =
    let q = clear_error (record a { keyring_attempts = a.keyring_attempts + 1 }) in
    record (set_state authenticating (set_notice true q)) { keyring_retry = some (delay * 1000) }

unfoldable pub wait_for_keyring : Auth → Auth
wait_for_keyring a = wait (get_elem? retry_seconds a.keyring_attempts) a

-- The environment of an attempt: the clock, the slack of the expiry, and the secret store's answer.
pub record Attempt : Type 0 where
  pub now : ℕ
  pub skew : ℕ
  pub account : String
  pub saved : Retrieved

unfoldable pub go_on : Attempt → Auth → Auth
go_on e a =
    let q = set_state authenticating (stop_waiting_for_keyring a) in
    if needs_refresh e.now e.skew q.tokens
    then after_tokens (refresh 0 (unlogged q.tokens)) q
    else authorize_and_finish q

-- With the result, whether there is something to wait for.
unfoldable pub on_loaded : Attempt → Bool → Auth → Auth × Bool
on_loaded e ok a =
    if not ok
    then (if a.keyring_unavailable then (wait_for_keyring a, true) else (a, false))
    else (go_on e a, true)

-- The token store of the saved server, before it loads.
unfoldable pub named : Attempt → Auth → Tokens
named e a = set_account e.account (set_server_key a.restore_key (unlogged a.tokens))

unfoldable pub attempt_restore : (Chars → Option ℕ) → Attempt → Auth → Auth × Bool
attempt_restore payload_exp e a =
    let q = emit (base_url a.restore_url) (record a { base = a.restore_url }) in
    let r = load payload_exp e.saved (named e a) in
    on_loaded e r.1 (after_tokens r.0 (record q { keyring_unavailable = false }))

unfoldable pub restore_session : (Chars → Option ℕ) → Attempt → Url → String → Auth → Auth × Bool
restore_session payload_exp e url key a =
    attempt_restore payload_exp e
      (record (stop_waiting_for_keyring a) { restore_url = url; restore_key = key })

-- The timer has run out.
unfoldable pub on_keyring_retry : (Chars → Option ℕ) → Attempt → Auth → Auth
on_keyring_retry payload_exp e a =
    let r = attempt_restore payload_exp e (record a { keyring_retry = none }) in
    if r.1 then r.0 else set_state needs_login (stop_waiting_for_keyring r.0)
