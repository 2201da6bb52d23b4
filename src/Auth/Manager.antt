-- ===== src/Auth/Manager.antt =====
-- src/auth/AuthManager.h and .cpp: how a user is signed in. The replies of the server, the timers and the
-- callback of the browser are inputs; requests and signals are entries of a log. The texts of messages
-- are names, but for those that come from outside. The token store is part of the state.
mod Login
mod Oidc
mod Restore
mod Steps
mod Outside
mod Admission
mod Keyring
mod Exchange
mod OwnSignIn
mod OwnBrowser
mod OwnRun
mod Examples
use shelf_remote.Auth.TokenStore.{
  Tokens, Notice, settled, refresh_failed, secrets_unreadable, secrets_unavailable,
}
use shelf_remote.Net.Endpoints.{Url}
use shelf_remote.Prelude.{
  String, true, false, none, some, zero, [], if◌then◌else◌, ℕ, Chars, List, Option, Bool, ◌∷◌, ◌||◌,
  ◌++◌, not,
}

pub data State : Type 0 where
  disconnected checking needs_login authenticating authenticated error : State

-- `m_lastError`; empty is `no_message`.
pub data Message : Type 0 where
  no_message : Message
  openid_timed_out session_locked unreachable bad_password needs_https no_redirect : Message
  bad_redirect no_browser state_mismatch no_access_token not_verified keyring_locked : Message
  server_text openid_failed : String → Message
  exchange_failed : ℕ → Message

-- `m_user`: an object without entries, or one with perhaps an "id".
pub data User : Type 0 where
  nobody : User
  somebody : Option String → User

abbrev pub user_id : User → String
user_id nobody = ""
user_id (somebody none) = ""
user_id (somebody (some id)) = id

-- What others see, newest first.
pub data Signal : Type 0 where
  state_changed error_changed notice_changed status_changed auth_methods_changed : Signal
  session_ending sign_in_storage_changed cookies_cleared : Signal
  login_failed : Message → Signal
  signed_in : User → Signal
  base_url : Url → Signal
  posted_status posted_authorize : Signal
  posted_login : String → String → Signal
  posted_openid : String → String → Signal
  posted_exchange : String → String → String → Signal
  posted_logout : Chars → Signal
  opened_browser : Chars → Signal

-- The verifier and the state of a sign-in by the browser.
pub record Pkce : Type 0 where
  pub code_verifier : String
  pub state : String

pub record Auth : Type 0 where
  pub state : State
  pub auth_methods : List String
  pub oidc_button_text : String
  pub server_version : String
  pub last_error : Message
  pub is_waiting : Bool
  pub user : User
  pub pkce : Pkce
  pub oidc_in_progress : Bool
  pub oidc_timeout : Bool
  pub keyring_retry : Option ℕ
  pub restore_url : Url
  pub restore_key : String
  pub keyring_attempts : ℕ
  pub keyring_unavailable : Bool
  pub base : Url
  pub tokens : Tokens
  pub out : List Signal

abbrev pub emit : Signal → Auth → Auth
emit n a = record a { out = n ∷ a.out }

abbrev pub is_state : State → State → Bool
is_state disconnected disconnected = true
is_state checking checking = true
is_state needs_login needs_login = true
is_state authenticating authenticating = true
is_state authenticated authenticated = true
is_state error error = true
is_state s q = false

unfoldable pub set_state : State → Auth → Auth
set_state s a = if is_state a.state s then a else emit state_changed (record a { state = s })

-- There is one notice, that the keyring is waited for, or none.
unfoldable pub set_notice : Bool → Auth → Auth
set_notice b a =
    if (if b then a.is_waiting else not a.is_waiting)
    then a
    else emit notice_changed (record a { is_waiting = b })

unfoldable pub set_last_error : Message → Auth → Auth
set_last_error m a = emit error_changed (record a { last_error = m })

unfoldable pub set_error : Message → Auth → Auth
unfolding set_last_error
set_error m a = set_state error (set_last_error m a)

abbrev pub is_no_message : Message → Bool
is_no_message no_message = true
is_no_message m = false

unfoldable pub clear_error : Auth → Auth
clear_error a =
    if is_no_message a.last_error
    then a
    else emit error_changed (record a { last_error = no_message })

unfoldable pub stop_waiting_for_keyring : Auth → Auth
stop_waiting_for_keyring a =
    set_notice false (record a { keyring_retry = none; keyring_attempts = 0 })

unfoldable pub cancel_auth : Auth → Auth
cancel_auth a =
    let q = record (stop_waiting_for_keyring a) {
      oidc_timeout = false;
      oidc_in_progress = false;
    } in
    if is_state q.state authenticating || is_state q.state checking
    then set_state needs_login q
    else q

abbrev pub with_tokens : Tokens → Auth → Auth
with_tokens t a = record a { tokens = t }

unfoldable pub authorize_and_finish : Auth → Auth
authorize_and_finish a = emit posted_authorize a

-- What the sign-in does at a signal of the token store. The one callback of a refresh that is its own
-- has the name 0: it goes on with the restore.
unfoldable pub hear : Notice → Auth → Auth
hear refresh_failed a = set_state needs_login a
hear secrets_unreadable a = set_state needs_login (set_last_error session_locked a)
hear secrets_unavailable a = record a { keyring_unavailable = true }
hear (settled zero ok) a = if ok then authorize_and_finish a else set_state needs_login a
hear n a = a

-- The oldest first.
unfoldable pub hear_all : List Notice → Auth → Auth
hear_all [] a = a
hear_all (n ∷ ns) a = hear n (hear_all ns a)

-- After an operation of the token store that has made the notices `ns`, and whose log was empty.
unfoldable pub after_tokens : Tokens → Auth → Auth
after_tokens t a = hear_all t.out (with_tokens (record t { out = t.out ++ a.tokens.out }) a)

abbrev pub unlogged : Tokens → Tokens
unlogged t = record t { out = [] }
